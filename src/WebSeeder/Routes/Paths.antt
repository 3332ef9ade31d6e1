-- ===== src/WebSeeder/Routes/Paths.antt =====
-- The path of a file's URL leads to the file.
use torrent_web_seeder.Prelude.{
  ◌≡◌, refl, sym, ◌∙◌, ap, true, false, inl, inr, some, List, [], ◌∷◌, ◌++◌, arith, Text, is_nil,
  split, trim, trim_left, trim_right, trim_prefix, trim_prefix-append, Lacks, split-append,
  split_whole, trim_right-append, trim_right_start,
}
use mathlib.Core.List.{append_assoc, append-nil}
use torrent_web_seeder.WebSeeder.Request.{
  Request, is_hex, all_hex, is_hash, is_slash, path_parts, first_hash, get_hash,
}
use torrent_web_seeder.WebSeeder.Routes.{path_in_torrent, route_path, route_from, route}

true≢false : ¬ (true ≡ false)
true≢false h = cc

all_hex-Lacks : (s : Text) → all_hex s ≡ true → Lacks is_slash s
unfolding all_hex is_hex
all_hex-Lacks [] h = tt
all_hex-Lacks (c ∷ s) h = ground (arith, all_hex-Lacks s)

is_hash_shape : (h : Text) → is_hash h ≡ true → (all_hex h ≡ true) × (is_nil h ≡ false)
unfolding is_hash
is_hash_shape [] e = ground arith
is_hash_shape (c ∷ h) e = ground arith

-- The URL of a file under a hash.
abbrev pub file_url : Text → Text → Text
file_url h p = b'/' ∷ (h ++ (b'/' ∷ p))

trim-file_url :
    (h p : Text)
    → Lacks is_slash h
    → is_nil h ≡ false
    → trim is_slash (file_url h p) ≡ h ++ trim_right is_slash (b'/' ∷ p)
unfolding trim trim_left
trim-file_url [] p l n = absurd (true≢false n)
trim-file_url (c ∷ h) p (k, l) n = rw k (trim_right-append is_slash (c ∷ h) (b'/' ∷ p) (k, l))

-- The first part of such a path is the hash.
path_parts-file_url :
    (h p : Text)
    → Lacks is_slash h
    → is_nil h ≡ false
    → (ps : List Text) × (path_parts (file_url h p) ≡ h ∷ ps)
unfolding path_parts
path_parts-file_url h p l n =
    let e = ap (split b'/') (trim-file_url h p l n) in
    elim (trim_right_start is_slash b'/' p) [
      | inl q ↦ (
        [],
        e ∙ ap (λ x. split b'/' (h ++ x)) q ∙ ap (split b'/') (append-nil h) ∙ split_whole b'/' h l,
      )
      | inr (t, q) ↦ (split b'/' t, e ∙ ap (λ x. split b'/' (h ++ x)) q ∙ split-append b'/' h t l)
    ]

get_hash-file_url :
    (r : Request) (h p : Text)
    → is_hash h ≡ true
    → r.info_hash ≡ []
    → r.path ≡ file_url h p
    → get_hash r ≡ h
unfolding get_hash first_hash
get_hash-file_url r h p e i q =
    let (a, n) = is_hash_shape h e in
    let (ps, parts) = path_parts-file_url h p (all_hex-Lacks h a) n in
    simp i (ap (λ x. first_hash (path_parts x)) q ∙ ap first_hash parts ∙ rw e refl)

route_from-found :
    (r : Request) (h p : Text)
    → is_nil h ≡ false
    → path_in_torrent h r.path ≡ some p
    → route_from r h ≡ some (route_path r h p)
unfolding route_from
route_from-found r h p n e = rw (route_from, n, e) refl

-- A request without the X-Info-Hash header for /<hash>/<path>, where the hash is 5 to 40 lower case
-- hexadecimal digits, is routed by its query with that hash and that path: the path may be empty,
-- hold slashes or end in one.
pub route-file_url :
    (r : Request) (h p : Text)
    → is_hash h ≡ true
    → r.info_hash ≡ []
    → r.path ≡ file_url h p
    → route r ≡ some (route_path r h p)
unfolding route path_in_torrent
route-file_url r h p e i q =
    let found = get_hash-file_url r h p e i q in
    let (a, n) = is_hash_shape h e in
    let slashed : h ++ (b'/' ∷ p) ≡ (h ++ (b'/' ∷ [])) ++ p = sym (append_assoc h (b'/' ∷ []) p) in
    let rest : trim_prefix (h ++ (b'/' ∷ p)) (h ++ (b'/' ∷ [])) ≡ p =
      ap (λ x. trim_prefix x (h ++ (b'/' ∷ []))) slashed
      ∙ trim_prefix-append (h ++ (b'/' ∷ [])) p in
    let here : path_in_torrent h r.path ≡ some p = ap (path_in_torrent h) q ∙ ap some rest in
    ap (route_from r) found ∙ route_from-found r h p n here

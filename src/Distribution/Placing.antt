-- ===== src/Distribution/Placing.antt =====
-- Where GetDir puts a torrent.
use mathlib.Core.List.{Permᴰ}
use mathlib.Core.Option.{some-injective}
use torrent_web_seeder.Prelude.{
  ℕ, zero, suc, ◌≤◌, ◌<◌, ◌≡◌, refl, ◌∙◌, ap, Bool, true, false, ◌||◌, some, List, [], ◌∷◌, ◌++◌,
  length, get_elem?, arith, Text, text_eq, text_eq_iff, elem, ok,
}
use torrent_web_seeder.Distribution.{total, distribute_by_hash}
use torrent_web_seeder.Distribution.Spread.{distribute_by_hash_found, distribute_by_hash_missed}
use torrent_web_seeder.Distribution.Location.{
  FileSystem, Entry, without_star, split_path, matching_dirs, in_dir, choose_dir, get_dir,
}

length-permuted : {xs ys : List Text} → Permᴰ xs ys → length xs ≡ length ys
length-permuted Permᴰ.nil = refl
length-permuted (Permᴰ.cons e p) = ap suc (length-permuted p)
length-permuted (Permᴰ.swap e f) = refl
length-permuted (Permᴰ.trans p q) = length-permuted p ∙ length-permuted q

or_swap : (a b c : Bool) → (a || (b || c)) ≡ (b || (a || c))
or_swap true true c = refl
or_swap true false c = refl
or_swap false b c = refl

elem-permuted : (x : Text) {xs ys : List Text} → Permᴰ xs ys → elem x xs ≡ elem x ys
unfolding elem
elem-permuted x Permᴰ.nil = refl
elem-permuted x (Permᴰ.cons e p) = λ i. text_eq (e i) x || elem-permuted x p i
elem-permuted x (Permᴰ.swap {a = a} {b = b} {l = l} e f) =
    or_swap (text_eq a x) (text_eq b x) (elem x l)
    ∙ (λ i. text_eq (f i) x || (text_eq (e i) x || elem x l))
elem-permuted x (Permᴰ.trans p q) = elem-permuted x p ∙ elem-permuted x q

elem_at : (xs : List Text) (i : ℕ) (d : Text) → get_elem? xs i ≡ some d → elem d xs ≡ true
unfolding elem
elem_at [] i d e = cc
elem_at (x ∷ xs) zero d e = rw ((text_eq_iff x d).1 (some-injective x d e)) refl
elem_at (x ∷ xs) (suc i) d e = ground (arith, elem_at xs i d e)

-- The wildcard, the listing and the directories that a location stands for.
pub record Matches (F : FileSystem) (location prefix : Text) (dirs : List Text) : Type 0 where
  pub wildcard : without_star location ≡ some prefix
  pub files : List Entry
  pub listed : F.read_dir (split_path prefix).0 ≡ ok files
  pub matching : matching_dirs (split_path prefix).1 files ≡ dirs

get_dir_step :
    (F : FileSystem) (location prefix hash : Text) (dirs : List Text)
    → Matches F location prefix dirs
    → get_dir F location hash ≡ choose_dir F prefix (split_path prefix).0 dirs hash
unfolding get_dir
get_dir_step F location prefix hash dirs m =
    rw (get_dir, m.wildcard) (rw m.listed (rw m.matching refl))

choose_many :
    (F : FileSystem) (prefix dir hash c : Text) (dirs : List Text)
    → 1 < length dirs
    → distribute_by_hash F.sort F.hash_prefix dirs hash ≡ some c
    → choose_dir F prefix dir dirs hash ≡ some (ok (in_dir (dir ++ c) hash))
unfolding choose_dir
choose_many F prefix dir hash c [] several e = absurd (omega arith)
choose_many F prefix dir hash c (x ∷ []) several e = absurd (omega arith)
choose_many F prefix dir hash c (x ∷ y ∷ ds) several e = rw (choose_dir, e) refl

choose_found :
    (F : FileSystem) (prefix dir hash : Text) (dirs : List Text)
    → ((ds : List Text) → Permᴰ ds (F.sort ds))
    → 0 < length dirs
    → length dirs ≤ 1000
    → F.hash_prefix hash < 1_048_575
    → (d : Text) × (elem d dirs ≡ true)
      × (choose_dir F prefix dir dirs hash ≡ some (ok (in_dir (dir ++ d) hash)))
choose_found F prefix dir hash [] sorts pos few small = absurd (omega arith)
choose_found F prefix dir hash (d ∷ []) sorts pos few small =
    (d, elem_at (d ∷ []) 0 d refl, unfold choose_dir in refl)
choose_found F prefix dir hash (x ∷ y ∷ ds) sorts pos few small =
    let dirs = x ∷ y ∷ ds in
    let same = length-permuted (sorts dirs) in
    let (d, run, at) =
      distribute_by_hash_found F.sort F.hash_prefix dirs hash (omega (arith, same))
        (omega (arith, same)) small in
    (
      d,
      elem-permuted d (sorts dirs) ∙ elem_at (F.sort dirs) _ d at,
      choose_many F prefix dir hash d dirs (omega arith) run,
    )

-- With at least one directory that matches the wildcard, 1000 at most, a torrent whose hash prefix is
-- not the last one, fffff, is put below one of them.
pub get_dir_found :
    (F : FileSystem) (location prefix hash : Text) (dirs : List Text)
    → ((ds : List Text) → Permᴰ ds (F.sort ds))
    → Matches F location prefix dirs
    → 0 < length dirs
    → length dirs ≤ 1000
    → F.hash_prefix hash < 1_048_575
    → (d : Text) × (elem d dirs ≡ true)
      × (get_dir F location hash ≡ some (ok (in_dir ((split_path prefix).0 ++ d) hash)))
get_dir_found F location prefix hash dirs sorts m some_dirs few small =
    let (d, own, run) =
      choose_found F prefix (split_path prefix).0 hash dirs sorts some_dirs few small in
    (d, own, get_dir_step F location prefix hash dirs m ∙ run)

-- With two directories or more that match the wildcard, 1048575000 at most, a torrent whose hash
-- prefix is the last one, fffff, is put beside them: below the directory that was listed, without an
-- error.
pub get_dir_missed :
    (F : FileSystem) (location prefix hash : Text) (dirs : List Text)
    → ((ds : List Text) → Permᴰ ds (F.sort ds))
    → Matches F location prefix dirs
    → 1 < length dirs
    → length dirs ≤ total
    → F.hash_prefix hash ≡ 1_048_575
    → get_dir F location hash ≡ some (ok (in_dir ((split_path prefix).0 ++ []) hash))
get_dir_missed F location prefix hash dirs sorts m several few last =
    let same = length-permuted (sorts dirs) in
    get_dir_step F location prefix hash dirs m
    ∙ choose_many F prefix (split_path prefix).0 hash [] dirs several (
        distribute_by_hash_missed F.sort F.hash_prefix dirs hash (omega (arith, same))
          (omega (arith, same)) last)

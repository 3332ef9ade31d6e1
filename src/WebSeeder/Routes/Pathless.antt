-- ===== src/WebSeeder/Routes/Pathless.antt =====
-- When a request has no route: it has no path to cut.

use torrent_web_seeder.Prelude.{
  ◌↔◌, none-≢-some, ◌≡◌, refl, sym, ◌∙◌, true, false, inl, inr, Bool-cases, none, [], ◌∷◌, ◌++◌,
  Text, is_nil, split, trim, codes, trim_prefix,
}
use torrent_web_seeder.WebSeeder.Request.{Request, get_hash}
use torrent_web_seeder.WebSeeder.Routes.{route, route_from, path_in_torrent, route_path}

-- The path is cut behind a hash only.
route_from-panics :
    (r : Request) (h : Text) → (route_from r h ≡ none) ↔ ((is_nil h ≡ false) × (r.path ≡ []))
unfolding route_from
route_from-panics r [] = (λ e. cc, λ (n, e). cc)
route_from-panics r (c ∷ h) = go r.path refl
  where
    go :
        (path : Text)
        → r.path ≡ path
        → (route_from r (c ∷ h) ≡ none) ↔ ((is_nil (c ∷ h) ≡ false) × (r.path ≡ []))
    go [] e = (λ q. (refl, e), λ m. unfold route_from path_in_torrent in rw e refl)
    go (d ∷ path) e = (
      λ q. absurd (
          none-≢-some {a = route_path r (c ∷ h) (trim_prefix path ((c ∷ h) ++ codes "/"))}
            (sym q ∙ (unfold route_from path_in_torrent in rw e refl))),
      λ m. cc,
    )

no_hash : (r : Request) → is_nil r.info_hash ≡ true → r.path ≡ [] → is_nil (get_hash r) ≡ true
unfolding get_hash split trim
no_hash r n e = rw (n, e) refl

header_hash : (r : Request) → is_nil r.info_hash ≡ false → is_nil (get_hash r) ≡ false
unfolding get_hash
header_hash r n = rw n n

pub route-panics : (r : Request) → (route r ≡ none) ↔ ((is_nil r.info_hash ≡ false) × (r.path ≡ []))
unfolding route
route-panics r = (
  λ n.
      let (named, bare) = (route_from-panics r (get_hash r)).0 n in
      elim (Bool-cases (is_nil r.info_hash)) [
        | inl headless ↦ let hashless = no_hash r headless bare in cc
        | inr header ↦ (header, bare)
      ],
  λ (header, bare). (route_from-panics r (get_hash r)).1 (header_hash r header, bare),
)

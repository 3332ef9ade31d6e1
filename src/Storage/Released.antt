-- ===== src/Storage/Released.antt =====
-- What the regions of an evicted piece come to: holes and dropped pages; and the files it touches.
use torrent_web_seeder.Prelude.{
  ℕ, ◌<◌, ◌≡◌, refl, ◌∙◌, ap, Bool, true, false, ◌&&◌, inl, inr, Bool-cases, Option, none, some,
  Option-cases, List, [], ◌∷◌, ◌++◌, map, select, leb, if◌then◌else◌, get_elem?, nat_eq, Text,
  Int64, add64, lt64, min64, two_63, arith,
}
use torrent_web_seeder.Files.{Info, in_range}
use torrent_web_seeder.Files.Pieces.{IsLayout, file_ranges_total, paths_where, select-paths_where}
use torrent_web_seeder.Completions.{is_empty}
use torrent_web_seeder.Completions.Clearing.{in_range_exact}
use torrent_web_seeder.Regions.{FileRegion, Advice}
use torrent_web_seeder.Storage.{
  Effect, hole_punched, pages_dropped, affected_files, evict_region, evict_regions,
}

-- What a function finds in a list of effects, in order.
abbrev pub gather {ℓ} : {A : Type ℓ} → (Effect → Option A) → List Effect → List A
gather f [] = []
gather f (e ∷ es) = elim (f e) [ none ↦ gather f es | some x ↦ x ∷ gather f es ]

abbrev pub hole_of : Effect → Option FileRegion
hole_of (hole_punched r) = some r
hole_of _ = none

abbrev pub drop_of : Effect → Option Advice
drop_of (pages_dropped a) = some a
drop_of _ = none

abbrev pub gauge_of : Effect → Option Effect
gauge_of (hole_punched r) = none
gauge_of (pages_dropped a) = none
gauge_of e = some e

-- The file of a region is open.
abbrev pub is_open : List Bool → FileRegion → Bool
is_open files r = elim (get_elem? files r.file_index) [ none ↦ false | some b ↦ b ]

-- The part of a region that is mapped, if there is any.
abbrev pub mapped_part : List (Option Int64) → FileRegion → List Advice
mapped_part mmaps r = elim (get_elem? mmaps r.file_index) [
  | none ↦ []
  | some none ↦ []
  | some (some len) ↦
      if lt64 r.offset (min64 (add64 r.offset r.length) len)
      then record {
        file_index = r.file_index;
        start = r.offset;
        stop = min64 (add64 r.offset r.length) len;
      }
        ∷ []
      else []
]

abbrev pub mapped_parts : List (Option Int64) → List FileRegion → List Advice
mapped_parts mmaps [] = []
mapped_parts mmaps (r ∷ rs) = mapped_part mmaps r ++ mapped_parts mmaps rs

pub gather-append {ℓ} :
    {A : Type ℓ} (f : Effect → Option A) (xs ys : List Effect)
    → gather f (xs ++ ys) ≡ gather f xs ++ gather f ys
gather-append f [] ys = refl
gather-append f (x ∷ xs) ys = elim (Option-cases (f x)) [
  | inl e ↦ rw (e, gather) (gather-append f xs ys)
  | inr (a, e) ↦ rw (e, gather) (ap (◌∷◌ a) (gather-append f xs ys))
]

evict_region_lem :
    (files : List Bool) (mmaps : List (Option Int64)) (r : FileRegion)
    → evict_region files mmaps r
      ≡ (if is_open files r then hole_punched r ∷ map pages_dropped (mapped_part mmaps r) else [])
unfolding evict_region
evict_region_lem files mmaps r = elim (Option-cases (get_elem? files r.file_index)) [
  | inl e ↦ rw (evict_region, is_open, e) refl
  | inr (false, e) ↦ rw (evict_region, is_open, e) refl
  | inr (true, e) ↦ elim (Option-cases (get_elem? mmaps r.file_index)) [
    | inl m ↦ rw (evict_region, is_open, e, m, mapped_part) refl
    | inr (none, m) ↦ rw (evict_region, is_open, e, m, mapped_part) refl
    | inr (some len, m) ↦ elim (Bool-cases (lt64 r.offset (min64 (add64 r.offset r.length) len))) [
      | inl y ↦ rw (evict_region, is_open, e, m, mapped_part, y) refl
      | inr n ↦ rw (evict_region, is_open, e, m, mapped_part, n) refl
    ]
  ]
]

holes_of_drops : (xs : List Advice) → gather hole_of (map pages_dropped xs) ≡ []
holes_of_drops [] = refl
holes_of_drops (a ∷ xs) = holes_of_drops xs

drops_of_drops : (xs : List Advice) → gather drop_of (map pages_dropped xs) ≡ xs
drops_of_drops [] = refl
drops_of_drops (a ∷ xs) = ap (◌∷◌ a) (drops_of_drops xs)

gauges_of_drops : (xs : List Advice) → gather gauge_of (map pages_dropped xs) ≡ []
gauges_of_drops [] = refl
gauges_of_drops (a ∷ xs) = gauges_of_drops xs

module _ (files : List Bool) (mmaps : List (Option Int64)) where
  -- The first region in front of the others.
  gather_region :
      {A : Type 0} (f : Effect → Option A) (r : FileRegion) (rs : List FileRegion) (xs : List A)
      → gather f
          (if is_open files r then hole_punched r ∷ map pages_dropped (mapped_part mmaps r) else [])
        ≡ xs
      → gather f (evict_regions files mmaps (r ∷ rs))
        ≡ xs ++ gather f (evict_regions files mmaps rs)
  unfolding evict_regions
  gather_region f r rs xs e =
      gather-append f (evict_region files mmaps r) (evict_regions files mmaps rs)
      ∙ ap (λ es. gather f es ++ gather f (evict_regions files mmaps rs))
          (evict_region_lem files mmaps r)
      ∙ ap (λ ys. ys ++ gather f (evict_regions files mmaps rs)) e

  pub evict_regions_holes :
      (rs : List FileRegion)
      → gather hole_of (evict_regions files mmaps rs) ≡ select (is_open files) rs
  evict_regions_holes [] = unfold evict_regions in refl
  evict_regions_holes (r ∷ rs) = elim (Bool-cases (is_open files r)) [
    | inl y ↦
        gather_region hole_of r rs (r ∷ [])
          (rw y (ap (λ x. r ∷ x) (holes_of_drops (mapped_part mmaps r))))
        ∙ rw y (ap (λ x. r ∷ x) (evict_regions_holes rs))
    | inr n ↦ gather_region hole_of r rs [] (rw n refl) ∙ rw n (evict_regions_holes rs)
  ]

  pub evict_regions_drops :
      (rs : List FileRegion)
      → gather drop_of (evict_regions files mmaps rs)
        ≡ mapped_parts mmaps (select (is_open files) rs)
  evict_regions_drops [] = unfold evict_regions in refl
  evict_regions_drops (r ∷ rs) = elim (Bool-cases (is_open files r)) [
    | inl y ↦
        gather_region drop_of r rs (mapped_part mmaps r)
          (rw y (drops_of_drops (mapped_part mmaps r)))
        ∙ rw y (ap (λ x. mapped_part mmaps r ++ x) (evict_regions_drops rs))
    | inr n ↦ gather_region drop_of r rs [] (rw n refl) ∙ rw n (evict_regions_drops rs)
  ]

  pub evict_regions_gauges :
      (rs : List FileRegion) → gather gauge_of (evict_regions files mmaps rs) ≡ []
  evict_regions_gauges [] = unfold evict_regions in refl
  evict_regions_gauges (r ∷ rs) = elim (Bool-cases (is_open files r)) [
    | inl y ↦
        gather_region gauge_of r rs [] (rw y (gauges_of_drops (mapped_part mmaps r)))
        ∙ evict_regions_gauges rs
    | inr n ↦ gather_region gauge_of r rs [] (rw n refl) ∙ evict_regions_gauges rs
  ]

-- The files that include a piece: of several files those whose range holds it.
unfoldable pub touched_files : ℕ → Info → List Text
touched_files i info =
    if is_empty info.files
    then info.name ∷ []
    else paths_where (λ first last. leb first i && leb i last) info.name info.piece_length 0
        info.files

pub affected_files-touched :
    (i : ℕ) (info : Info)
    → IsLayout info
    → i < two_63
    → affected_files i info ≡ some (touched_files i info)
unfolding affected_files touched_files
affected_files-touched i info h small = elim (Bool-cases (is_empty info.files)) [
  | inl e ↦ rw e refl
  | inr e ↦
      rw (e, file_ranges_total info h)
        (ap some (
          select-paths_where (λ first last. leb first i && leb i last) (in_range i) info.name
            info.piece_length 0 info.files h.positive h.small (omega (arith, h.fits))
            (λ r o. in_range_exact i r o small)))
]

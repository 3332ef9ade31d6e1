-- ===== src/Regions/Bounds.antt =====
-- The regions of a piece stay inside the files, and together have the piece's length.
use torrent_web_seeder.Prelude.{
  ℕ, suc, ◌+◌, ◌-◌, ◌≤◌, ◌<◌, ◌≡◌, refl, ◌∙◌, ◌&&◌, inl, inr, Bool-cases, some, List, [], ◌∷◌, ltb,
  if◌then◌else◌, All, All-map, get_elem?, arith, two_63, add64, add64_exact,
}
use torrent_web_seeder.Regions.{FileRegion, regions_from, piece_file_regions}
use torrent_web_seeder.Regions.Bytes.{sum, regions_from_step}

abbrev pub region_bytes : List FileRegion → ℕ
region_bytes [] = 0
region_bytes (r ∷ rs) = r.length + region_bytes rs

module _ (po pe : ℕ) (h : pe < two_63) (g : po ≤ pe) where
  abbrev past : ℕ → ℕ
  past fo = if ltb po fo then fo else po

  -- What is left of the piece from `fo` on.
  region_bytes_from :
      (i fo : ℕ) (lens : List ℕ)
      → fo + sum lens < two_63
      → pe ≤ fo + sum lens
      → region_bytes (regions_from po pe i fo lens) ≡ pe - past fo
  region_bytes_from i fo [] fits all = unfold regions_from in ground arith
  region_bytes_from i fo (len ∷ lens) fits all =
      rw (regions_from_step po pe h g i fo len lens fits)
        (ground (arith, region_bytes_from (i + 1) (fo + len) lens))

-- When the files' lengths add up to less than 2^63, the regions of a piece that lies within the
-- torrent add up to the length of the piece.
pub piece_file_regions-length :
    (lens : List ℕ) (piece_off piece_len : ℕ)
    → sum lens < two_63
    → piece_off + piece_len ≤ sum lens
    → region_bytes (piece_file_regions lens piece_off piece_len) ≡ piece_len
unfolding piece_file_regions
piece_file_regions-length lens po pl fits within =
    let exact : add64 po pl ≡ po + pl = add64_exact po pl (omega arith) in
    rw exact (
      region_bytes_from po (po + pl) (omega arith) (omega arith) 0 0 lens (omega arith)
        (omega arith)
      ∙ ground arith)

-- The region lies in its file, and is empty only if the file is.
abbrev pub Inside : List ℕ → ℕ → FileRegion → Type 0
Inside lens i r =
    (k : ℕ) × (len : ℕ) × (r.file_index ≡ i + k)
    × (get_elem? lens k ≡ some len)
    × (r.length ≡ 0 → len ≡ 0)
    × (r.offset + r.length ≤ len)

Inside-later :
    (n : ℕ) (lens : List ℕ) (i : ℕ) (r : FileRegion) → Inside lens (i + 1) r → Inside (n ∷ lens) i r
Inside-later n lens i r (k, len, at, e, pos, fit) = (suc k, len, omega (arith, at), e, pos, fit)

module _ (po pe : ℕ) (h : pe < two_63) (g : po < pe) where
  regions_from-Inside :
      (i fo : ℕ) (lens : List ℕ)
      → fo + sum lens < two_63
      → All (Inside lens i) (regions_from po pe i fo lens)
  regions_from-Inside i fo [] fits = unfold regions_from in tt
  regions_from-Inside i fo (len ∷ lens) fits =
      let later =
        All-map (Inside lens (i + 1)) (Inside (len ∷ lens) i) _ (Inside-later len lens i)
          (regions_from-Inside (i + 1) (fo + len) lens (omega arith)) in
      rw (regions_from_step po pe h (omega arith) i fo len lens fits)
        (elim (Bool-cases (ltb fo pe && ltb po (fo + len))) [
          | inr no_overlap ↦ rw no_overlap later
          | inl over ↦
              rw over ((0, len, omega arith, refl, (λ z. ground arith), ground arith), later)
        ])

-- Every region of a piece of positive length lies within one of the torrent's files, so no hole
-- is punched past the end of a file, and it is empty only where the file is. The files' lengths
-- add up to less than 2^63, and the piece ends below it.
pub piece_file_regions-Inside :
    (lens : List ℕ) (piece_off piece_len : ℕ)
    → sum lens < two_63
    → piece_off + piece_len < two_63
    → 0 < piece_len
    → All (Inside lens 0) (piece_file_regions lens piece_off piece_len)
unfolding piece_file_regions
piece_file_regions-Inside lens po pl fits small pos =
    let exact : add64 po pl ≡ po + pl = add64_exact po pl (omega arith) in
    rw exact (regions_from-Inside po (po + pl) small (omega arith) 0 0 lens (omega arith))

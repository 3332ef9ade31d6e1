-- ===== src/Regions/Bytes.antt =====
-- The regions of a piece hold exactly its bytes.
use torrent_web_seeder.Prelude.{
  ℕ, zero, suc, ◌+◌, ◌-◌, ◌≤◌, ◌<◌, ◌≡◌, refl, Bool, false, ◌&&◌, ◌||◌, some, List, [], ◌∷◌, ◌==◌,
  ltb, leb, if◌then◌else◌, take, get_elem?, arith, two_63, add64, add64_exact, sub64_exact,
  lt64_exact, min64_exact, max64_exact,
}
use torrent_web_seeder.Regions.{FileRegion, regions_from, piece_file_regions}

abbrev pub sum : List ℕ → ℕ
sum [] = 0
sum (n ∷ ns) = n + sum ns

-- Whether some region holds byte `y` of file `k`.
unfoldable pub holds : ℕ → ℕ → List FileRegion → Bool
holds k y [] = false
holds k y (r ∷ rs) =
    (r.file_index == k && leb r.offset y && ltb y (r.offset + r.length)) || holds k y rs

-- The overlap of a piece with a file, in natural numbers.
abbrev pub overlap : ℕ → ℕ → ℕ → ℕ → ℕ → FileRegion
overlap po pe i fo len =
    let start = (if ltb po fo then fo else po) in
    let stop = (if ltb (fo + len) pe then fo + len else pe) in
    record { file_index = i; offset = start - fo; length = stop - start }

module _ (po pe : ℕ) (h : pe < two_63) (g : po ≤ pe) where
  pub regions_from_step :
      (i fo len : ℕ) (lens : List ℕ)
      → fo + sum (len ∷ lens) < two_63
      → let rest = regions_from po pe (i + 1) (fo + len) lens in
        regions_from po pe i fo (len ∷ lens)
        ≡ (if ltb fo pe && ltb po (fo + len) then overlap po pe i fo len ∷ rest else rest)
  unfolding regions_from
  regions_from_step i fo len lens fits =
      let file_end : add64 fo len ≡ fo + len = add64_exact fo len (omega arith) in
      rw
        (
          file_end,
          lt64_exact fo pe (omega arith) h,
          lt64_exact po (fo + len) (omega arith) (omega arith),
          max64_exact po fo (omega arith) (omega arith),
          min64_exact pe (fo + len) h (omega arith),
        )
        (ground (
          arith,
          sub64_exact po fo,
          sub64_exact fo fo,
          sub64_exact pe po,
          sub64_exact pe fo,
          sub64_exact (fo + len) po,
          sub64_exact (fo + len) fo,
        ))

  -- The regions of later files say nothing of an earlier one.
  holds_earlier :
      (i fo : ℕ) (lens : List ℕ) (j y : ℕ)
      → fo + sum lens < two_63
      → j < i
      → holds j y (regions_from po pe i fo lens) ≡ false
  unfolding holds
  holds_earlier i fo [] j y fits lt = unfold regions_from in refl
  holds_earlier i fo (len ∷ lens) j y fits lt =
      rw (regions_from_step i fo len lens fits)
        (ground (arith, holds_earlier (i + 1) (fo + len) lens j y))

  holds_exact :
      (i fo : ℕ) (lens : List ℕ) (k y len j q : ℕ)
      → fo + sum lens < two_63
      → get_elem? lens k ≡ some len
      → y < len
      → i + k ≡ j
      → fo + sum (take k lens) ≡ q
      → holds j y (regions_from po pe i fo lens) ≡ (leb po (q + y) && ltb (q + y) pe)
  unfolding holds
  holds_exact i fo [] k y len j q fits e lt at start = cc
  holds_exact i fo (n ∷ lens) zero y len j q fits e lt at start =
      rw (regions_from_step i fo n lens fits)
        (ground (arith, holds_earlier (i + 1) (fo + n) lens j y))
  holds_exact i fo (n ∷ lens) (suc k) y len j q fits e lt at start =
      rw (regions_from_step i fo n lens fits) (
        ground (
          arith,
          holds_exact (i + 1) (fo + n) lens k y len j q (omega arith) e lt (omega arith)
              (omega arith),
        ))

-- For a torrent whose files' lengths add up to less than 2^63, and a piece that ends below 2^63:
-- byte `y` of file `k` lies in one of the piece's regions exactly when it lies in the piece.
pub piece_file_regions-bytes :
    (lens : List ℕ) (piece_off piece_len k y len : ℕ)
    → sum lens < two_63
    → piece_off + piece_len < two_63
    → get_elem? lens k ≡ some len
    → y < len
    → let x = sum (take k lens) + y in
      holds k y (piece_file_regions lens piece_off piece_len)
      ≡ (leb piece_off x && ltb x (piece_off + piece_len))
unfolding piece_file_regions
piece_file_regions-bytes lens po pl k y len fits small e lt =
    let exact : add64 po pl ≡ po + pl = add64_exact po pl (omega arith) in
    rw exact (
      holds_exact po (po + pl) small (omega arith) 0 0 lens k y len k _ (omega arith) e lt
        (omega arith) (omega arith))

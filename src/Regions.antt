-- ===== src/Regions.antt =====
-- server/services/mmap.go: which parts of which files a byte range of the torrent lies in.
-- pieceFileRegions serves hole punching, madviseSpanRange drops pages of the mapped files.
pub mod Bytes
pub mod Bounds
pub mod Advised
use torrent_web_seeder.Prelude.{
  ℕ, ◌+◌, Bool, true, false, ◌&&◌, Option, none, some, List, [], ◌∷◌, ◌==◌, ltb, leb, if◌then◌else◌,
  length, get_elem?, Int64, add64, sub64, lt64, le64, min64, max64,
}

pub record FileRegion : Type 0 where
  pub file_index : ℕ
  pub offset : Int64
  pub length : Int64

-- The loop of pieceFileRegions from file `i`, which starts at `file_off`.
unfoldable pub regions_from : Int64 → Int64 → ℕ → Int64 → List Int64 → List FileRegion
regions_from piece_off piece_end i file_off [] = []
regions_from piece_off piece_end i file_off (len ∷ lens) =
    let file_end = add64 file_off len in
    let rest = regions_from piece_off piece_end (i + 1) file_end lens in
    let region : FileRegion = record {
      file_index = i;
      offset = sub64 (max64 piece_off file_off) file_off;
      length = sub64 (min64 piece_end file_end) (max64 piece_off file_off);
    } in
    if lt64 file_off piece_end && lt64 piece_off file_end then region ∷ rest else rest

unfoldable pub piece_file_regions : List Int64 → Int64 → Int64 → List FileRegion
unfolding regions_from
piece_file_regions file_lens piece_off piece_len =
    regions_from piece_off (add64 piece_off piece_len) 0 0 file_lens

-- A slice mmaps[file][start:end] that is handed to madviseEvict.
pub record Advice : Type 0 where
  pub file_index : ℕ
  pub start : Int64
  pub stop : Int64

-- i < len(ts.mmaps) && ts.mmaps[i] != nil && regEnd <= len(ts.mmaps[i]), where a mapping is known
-- by its length.
unfoldable pub is_mapped : List (Option Int64) → ℕ → Int64 → Bool
is_mapped mmaps i reg_end = elim (get_elem? mmaps i) [
  | none ↦ false
  | some none ↦ false
  | some (some len) ↦ le64 reg_end len
]

-- The loop of madviseSpanRange from file `i`; it stops behind the end of the range.
unfoldable pub advise_from :
    List (Option Int64) → Int64 → Int64 → ℕ → Int64 → List Int64 → List Advice
unfolding is_mapped
advise_from mmaps span_off end i file_off [] = []
advise_from mmaps span_off end i file_off (len ∷ lens) =
    let file_end = add64 file_off len in
    let rest =
      (let more = advise_from mmaps span_off end (i + 1) file_end lens in
        if le64 end file_off then [] else more) in
    let reg_start = sub64 (max64 span_off file_off) file_off in
    let reg_end = sub64 (min64 end file_end) file_off in
    let advice : Advice = record { file_index = i; start = reg_start; stop = reg_end } in
    if (lt64 file_off end && lt64 span_off file_end) && is_mapped mmaps i reg_end
    then advice ∷ rest
    else rest

unfoldable pub madvise_span_range : List (Option Int64) → List Int64 → Int64 → Int64 → List Advice
unfolding advise_from
madvise_span_range mmaps file_lens span_off len =
    advise_from mmaps span_off (add64 span_off len) 0 0 file_lens

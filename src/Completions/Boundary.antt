-- ===== src/Completions/Boundary.antt =====
-- A file that ends where a piece ends waits for the piece behind it.
use native.Mathlib.Nat.{div-lt_iff_lt-mul, div-add-mod', div-le_self}
use torrent_web_seeder.Prelude.{
  ℕ, ◌+◌, ◌/◌, ◌%◌, ◌<◌, ◌≡◌, ◌∙◌, ap, refl, Bool, false, inl, inr, Bool-cases, some, List,
  get_elem?, take, get_elem?_of_lt, lt-length_of_some, arith, Text, two_63,
}
use torrent_web_seeder.Files.{Info, FileInfo, FileRange, full_path, ranges_from, file_ranges}
use torrent_web_seeder.Files.Pieces.{
  range_at, IsOrdered, IsLayout, total_length, file_ranges_total, ranges_from_at, quot_mono,
}
use torrent_web_seeder.Completions.{range_complete}
use torrent_web_seeder.Completions.Scan.{AllDone, range_done, range_done_sound, range_complete-done}

module _ (name : Text) (pl : ℕ) (pos : 0 < pl) (small : pl < two_63) where
  range_at-IsOrdered :
      (o : ℕ) (f : FileInfo) → o + f.length < two_63 → IsOrdered (range_at name pl o f)
  range_at-IsOrdered o f h = record {
    ordered = quot_mono name pl pos small o (o + f.length) (omega arith);
    bounded = omega (arith, div-le_self (o + f.length) pl);
  }

range_done_waits :
    (r : FileRange) (pieces : List Bool)
    → IsOrdered r
    → get_elem? pieces r.end_piece ≡ some false
    → range_done pieces r ≡ false
range_done_waits r pieces ordered missing = elim (Bool-cases (range_done pieces r)) [
  | inr n ↦ n
  | inl y ↦
      let done : AllDone pieces r.start_piece r.end_piece = range_done_sound pieces r ordered y in
      let here = lt-length_of_some pieces r.end_piece false missing in
      ground (
        arith,
        done r.end_piece ordered.ordered (omega arith) here,
        get_elem?_of_lt pieces r.end_piece false here,
      )
]

-- In a torrent with a valid layout, a file whose end, counted from the start of the torrent, is below 2^63
-- and a multiple of the piece length has no byte in the piece that starts there; but as long as that
-- piece is missing, the loop over the pieces of the file's range says that it is not complete.
pub range_complete_waits :
    (info : Info) (k : ℕ) (f : FileInfo) (pieces : List Bool) (end : ℕ)
    → IsLayout info
    → get_elem? info.files k ≡ some f
    → total_length (take k info.files) + f.length ≡ end
    → end < two_63
    → end % info.piece_length ≡ 0
    → get_elem? pieces (end / info.piece_length) ≡ some false
    → ((x : ℕ) → x < end → x / info.piece_length < end / info.piece_length)
      × (rs : List FileRange) × (r : FileRange) × (file_ranges info ≡ some rs)
      × (get_elem? rs k ≡ some r)
      × (r.path ≡ full_path info.name f)
      × (range_complete r pieces ≡ some false)
range_complete_waits info k f pieces end h at ends fits edge missing =
    let o = total_length (take k info.files) in
    let pl = info.piece_length in
    let r = range_at info.name pl o f in
    let ordered : IsOrdered r =
      range_at-IsOrdered info.name pl h.positive h.small o f (omega arith) in
    let gone : get_elem? pieces r.end_piece ≡ some false =
      ap (λ e. get_elem? pieces (e / pl)) ends ∙ missing in
    (
      λ x lt. (div-lt_iff_lt-mul h.positive).1 (omega (arith, div-add-mod' end pl)),
      ranges_from info.name pl 0 info.files,
      r,
      file_ranges_total info h,
      ranges_from_at info.name pl h.positive h.small 0 info.files k f o (omega (arith, h.fits)) at
          (omega arith),
      refl,
      range_complete-done r pieces ordered ∙ ap some (range_done_waits r pieces ordered gone),
    )

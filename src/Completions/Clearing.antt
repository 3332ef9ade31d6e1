-- ===== src/Completions/Clearing.antt =====
-- The marks of files that survive the loop of `Uncomplete`.
use torrent_web_seeder.Prelude.{
  ℕ, ◌<◌, ◌≡◌, Bool, true, false, ◌&&◌, inl, inr, Bool-cases, leb, some, List, [], ◌∷◌,
  if◌then◌else◌, get_elem?, set, get_elem?_of_lt, lt-length_of_some, All, arith, two_63, delete,
  nat_eq, Text, text_Eq, text_eq_iff, le64_exact,
}
use torrent_web_seeder.Files.{FileRange, in_range}
use torrent_web_seeder.Files.Pieces.{IsOrdered}
use torrent_web_seeder.Completions.{is_completed_file, uncomplete_ranges}
use torrent_web_seeder.Completions.Scan.{AllDone}
use torrent_web_seeder.Completions.Invariant.{
  MarksHold, AllDone-set_false, is_completed_file-delete,
}

-- A mark that survives the loop of `Uncomplete` was there before it.
pub uncomplete_ranges_shrinks :
    (i : ℕ) (rs : List FileRange) (m : List (Text × Bool)) (path : Text)
    → is_completed_file (uncomplete_ranges i rs m).0 path ≡ true
    → is_completed_file m path ≡ true
unfolding uncomplete_ranges
uncomplete_ranges_shrinks i [] m path h = h
uncomplete_ranges_shrinks i (r ∷ rs) m path h = ground (
  arith,
  uncomplete_ranges_shrinks i rs m path,
  uncomplete_ranges_shrinks i rs (delete r.path m) path,
  is_completed_file-delete r.path path m,
)

-- No file that includes the piece is marked any more.
abbrev pub Cleared : ℕ → List (Text × Bool) → List FileRange → Type 0
Cleared i m = All (λ r. in_range i r ≡ true → is_completed_file m r.path ≡ false)

pub uncomplete_ranges-Cleared :
    (i : ℕ) (rs : List FileRange) (m : List (Text × Bool))
    → Cleared i (uncomplete_ranges i rs m).0 rs
unfolding uncomplete_ranges
uncomplete_ranges-Cleared i [] m = tt
uncomplete_ranges-Cleared i (r ∷ rs) m = (
  λ h. ground (
    arith,
    uncomplete_ranges_shrinks i rs m r.path,
    uncomplete_ranges_shrinks i rs (delete r.path m) r.path,
    is_completed_file-delete r.path r.path m,
    text_eq_iff r.path r.path,
  ),
  uncomplete_ranges-Cleared i rs
      (if in_range i r && is_completed_file m r.path then delete r.path m else m),
)

pub in_range_exact :
    (i : ℕ) (r : FileRange)
    → IsOrdered r
    → i < two_63
    → in_range i r ≡ (leb r.start_piece i && leb i r.end_piece)
unfolding in_range
in_range_exact i r o h = ground (arith, le64_exact r.start_piece i, le64_exact i r.end_piece)

-- Marks that survive and whose files do not include the piece stay true without it.
pub marks_without :
    (i : ℕ) (pieces : List Bool) (m m' : List (Text × Bool)) (rs : List FileRange)
    → i < two_63
    → All IsOrdered rs
    → ((path : Text) → is_completed_file m' path ≡ true → is_completed_file m path ≡ true)
    → Cleared i m' rs
    → MarksHold m pieces rs
    → MarksHold m' (set pieces i false) rs
marks_without i pieces m m' [] hi o sub c v = tt
marks_without i pieces m m' (r ∷ rs) hi o sub c v = (
  λ marked.
      AllDone-set_false pieces i r.start_piece r.end_piece (v.0 (sub r.path marked))
        (λ within. ground (arith, in_range_exact i r o.0 hi, c.0)),
  marks_without i pieces m m' rs hi o.1 sub c.1 v.1,
)

-- A piece that is not complete lies in no marked file.
pub Cleared-of_missing :
    (i : ℕ) (pieces : List Bool) (m : List (Text × Bool)) (rs : List FileRange)
    → i < two_63
    → get_elem? pieces i ≡ some false
    → All IsOrdered rs
    → MarksHold m pieces rs
    → Cleared i m rs
Cleared-of_missing i pieces m [] hi h o v = tt
Cleared-of_missing i pieces m (r ∷ rs) hi h o v = (
  λ within. elim (Bool-cases (is_completed_file m r.path)) [
    | inr e ↦ e
    | inl e ↦
        let done : AllDone pieces r.start_piece r.end_piece = v.0 e in
        ground (
          arith,
          in_range_exact i r o.0 hi,
          done i,
          lt-length_of_some pieces i false h,
          get_elem?_of_lt pieces i false,
        )
  ],
  Cleared-of_missing i pieces m rs hi h o.1 v.1,
)

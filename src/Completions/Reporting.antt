-- ===== src/Completions/Reporting.antt =====
-- `GetCompletedFiles` reports exactly the files all of whose pieces are complete.
use torrent_web_seeder.Prelude.{
  ◌≡◌, refl, sym, ◌∙◌, ap, subst, Bool, true, ◌||◌, inl, inr, Bool-cases, some, List, [], ◌∷◌, map,
  select, ◌==◌, if◌then◌else◌, length, All, All-map, arith, insert, Text, text_Eq, text_eq,
  text_eq_iff,
}
use torrent_web_seeder.Files.{Info, FileRange}
use torrent_web_seeder.Files.Pieces.{
  IsOrdered, IsLayout, file_ranges_total, paths_where, select-paths_where,
}
use torrent_web_seeder.Completions.{
  Completions, is_completed_file, is_empty, file_complete, completed_ranges, get_completed_files,
}
use torrent_web_seeder.Completions.Scan.{
  done_between, range_done-done_between, AllDone, range_done, range_complete-done, range_done_sound,
  range_done_complete, count_done, get_or_of_count, all_complete-count,
}
use torrent_web_seeder.Completions.Invariant.{MarksHold, IsConsistent, is_completed_file-insert}
use torrent_web_seeder.Completions.Uncompleting.{ranges, ranges-IsOrdered}

-- A member of a list has whatever all its elements have.
abbrev Member : FileRange → List FileRange → Type 1
Member r rs = (Q : FileRange → Type 0) → All Q rs → Q r

All-Member : (rs : List FileRange) → All (λ r. Member r rs) rs
All-Member [] = tt
All-Member (r ∷ rs) = (λ Q h. h.0, All-map _ _ rs (λ x m Q h. m Q h.1) (All-Member rs))

-- No two files have one path.
abbrev pub UniquePaths : List FileRange → Type 0
UniquePaths rs = All (λ r. All (λ q. q.path ≡ r.path → q ≡ r) rs) rs

-- What a report holds: the paths of the files whose pieces are all complete, in order.
abbrev pub done_paths : List Bool → List FileRange → List Text
done_paths pieces rs = map (λ r. r.path) (select (range_done pieces) rs)

MarksHold-insert :
    (m : List (Text × Bool)) (pieces : List Bool) (r : FileRange) (rs : List FileRange)
    → AllDone pieces r.start_piece r.end_piece
    → All (λ q. q.path ≡ r.path → q ≡ r) rs
    → MarksHold m pieces rs
    → MarksHold (insert r.path true m) pieces rs
MarksHold-insert m pieces r [] d u v = tt
MarksHold-insert m pieces r (q ∷ rs) d u v = (
  λ marked. elim (Bool-cases (text_eq r.path q.path)) [
    | inl same ↦
        subst (λ x. AllDone pieces x.start_piece x.end_piece)
          (sym (u.0 (sym ((text_eq_iff r.path q.path).0 same)))) d
    | inr other ↦ v.0 (
        sym (
          is_completed_file-insert r.path q.path true m
          ∙ ap (λ b. if b then true else is_completed_file m q.path) other)
        ∙ marked)
  ],
  MarksHold-insert m pieces r rs d u.1 v.1,
)

-- The three ways to be complete agree.
file_complete-done :
    (completed : Bool) (m : List (Text × Bool)) (pieces : List Bool) (r : FileRange)
    → (completed ≡ true → count_done pieces ≡ length pieces)
    → IsOrdered r
    → (is_completed_file m r.path ≡ true → AllDone pieces r.start_piece r.end_piece)
    → file_complete completed m pieces r ≡ some (range_done pieces r)
unfolding file_complete
file_complete-done completed m pieces r all o h =
    elim (Bool-cases (completed || is_completed_file m r.path)) [
      | inr e ↦ rw e (range_complete-done r pieces o)
      | inl e ↦
          let done : AllDone pieces r.start_piece r.end_piece = elim (Bool-cases completed) [
            | inl c ↦ λ j a b l. get_or_of_count pieces j (all c) l
            | inr n ↦ h (ground arith)
          ] in
          rw e (ap some (sym (range_done_complete pieces r o done)))
    ]

module _ (completed : Bool) (pieces : List Bool) (every : List FileRange)
    (flag : completed ≡ true → count_done pieces ≡ length pieces) (unique : UniquePaths every) where
  completed_ranges_report :
      (rs : List FileRange) (m : List (Text × Bool))
      → All IsOrdered rs
      → All (λ r. Member r every) rs
      → MarksHold m pieces every
      → (m' : List (Text × Bool)) × (completed_ranges completed pieces rs m
          ≡ some (m', done_paths pieces rs))
        × MarksHold m' pieces every
  unfolding completed_ranges
  completed_ranges_report [] m o mem v = (m, refl, v)
  completed_ranges_report (r ∷ rs) m o mem v =
      let first = file_complete-done completed m pieces r flag o.0 (
        mem.0 (λ q. is_completed_file m q.path ≡ true → AllDone pieces q.start_piece q.end_piece)
          v) in
      elim (Bool-cases (range_done pieces r)) [
        | inl y ↦
            let (m', run, v') = completed_ranges_report rs (insert r.path true m) o.1 mem.1 (
              MarksHold-insert m pieces r every (range_done_sound pieces r o.0 y)
                (mem.0 (λ x. All (λ q. q.path ≡ x.path → q ≡ x) every) unique) v) in
            (m', rw (first, y, run) refl, v')
        | inr n ↦
            let (m', run, v') = completed_ranges_report rs m o.1 mem.1 v in
            (m', rw (first, n, run) refl, v')
      ]

-- The files that ought to be reported: those with each piece complete, from the piece of the first
-- byte to the piece that the byte behind the last one lies in, as far as the torrent has them. A
-- single-file torrent has its name reported once every piece is complete.
unfoldable pub report : Info → List Bool → List Text
report info pieces =
    if is_empty info.files
    then if count_done pieces == length pieces then info.name ∷ [] else []
    else paths_where (done_between 0 pieces) info.name info.piece_length 0 info.files

done_paths-report :
    (info : Info) (pieces : List Bool)
    → IsLayout info
    → done_paths pieces (ranges info)
      ≡ paths_where (done_between 0 pieces) info.name info.piece_length 0 info.files
done_paths-report info pieces h =
    select-paths_where (done_between 0 pieces) (range_done pieces) info.name info.piece_length 0
      info.files h.positive h.small (omega (arith, h.fits)) (range_done-done_between pieces)

get_completed_files_single :
    (s : Completions)
    → is_empty s.info.files ≡ true
    → IsConsistent (ranges s.info) s
    → get_completed_files s ≡ some (s, report s.info s.pieces)
unfolding get_completed_files report
get_completed_files_single s e v = rw e (ground (arith, all_complete-count s.pieces, v.flagged))

-- In a consistent state of a torrent with a valid layout and distinct paths, `GetCompletedFiles`
-- does not panic, and reports, in the torrent's order, exactly the files with each piece complete
-- from the one of the first byte to the one that the byte behind the file lies in: so a file that
-- ends where a piece ends waits for the piece behind it, if the torrent has it. A single-file
-- torrent has its name reported once every piece is complete. The pieces, the counters and the
-- truth of the file marks are kept.
pub get_completed_files-report :
    (s : Completions)
    → IsLayout s.info
    → UniquePaths (ranges s.info)
    → IsConsistent (ranges s.info) s
    → (t : Completions) × (get_completed_files s ≡ some (t, report s.info s.pieces))
      × IsConsistent (ranges s.info) t
      × (t.pieces ≡ s.pieces)
get_completed_files-report s h u v = elim (Bool-cases (is_empty s.info.files)) [
  | inl e ↦ (s, get_completed_files_single s e v, v, refl)
  | inr e ↦
      let (m, run, marks) =
        completed_ranges_report s.completed s.pieces (ranges s.info)
          (λ c. ground (arith, v.flagged)) u (ranges s.info) s.completed_files
          (ranges-IsOrdered s.info h) (All-Member (ranges s.info)) v.marks in
      (
        record s { completed_files = m },
        unfold get_completed_files report in
            rw (e, file_ranges_total s.info h, run) (rw (done_paths-report s.info s.pieces h) refl),
        record { counted = v.counted; flagged = v.flagged; bounded = v.bounded; marks = marks },
        refl,
      )
]

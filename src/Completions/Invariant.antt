-- ===== src/Completions/Invariant.antt =====
-- What holds of `completions` between two calls: the counters count, and a file that is marked
-- complete has all its pieces.
use torrent_web_seeder.Prelude.{
  ℕ, ◌≤◌, ◌<◌, ◌≡◌, refl, sym, ◌∙◌, ap, Bool, true, false, some, List, ◌==◌, if◌then◌else◌, length,
  get_elem?, get_or, get_or-set, set, length-set, All, All-map, get_elem?_of_lt, set_self, arith,
  two_63, insert, delete, lookup-insert, lookup-delete, Text, text_Eq, text_eq, add64, add64_exact,
}
use torrent_web_seeder.Files.{FileRange}
use torrent_web_seeder.Completions.{Completions, complete, is_completed_file}
use torrent_web_seeder.Completions.Scan.{AllDone, count_done, count_done-le, count_done-set_true}

-- Every range whose path is marked has all its pieces.
abbrev pub MarksHold : List (Text × Bool) → List Bool → List FileRange → Type 0
MarksHold m pieces =
    All (λ r. is_completed_file m r.path ≡ true → AllDone pieces r.start_piece r.end_piece)

-- `rs` are the ranges of the torrent's files, none for a single-file torrent.
pub record IsConsistent (rs : List FileRange) (s : Completions) : Type 0 where
  pub counted : s.completed_count ≡ count_done s.pieces
  pub flagged : s.completed ≡ (count_done s.pieces == length s.pieces)
  pub bounded : length s.pieces < two_63
  pub marks : MarksHold s.completed_files s.pieces rs

AllDone-set_true : (ps : List Bool) (i a b : ℕ) → AllDone ps a b → AllDone (set ps i true) a b
AllDone-set_true ps i a b h j lo hi l =
    ground (arith, h j, get_or-set ps i j true false, length-set ps i true)

pub AllDone-set_false :
    (ps : List Bool) (i a b : ℕ)
    → AllDone ps a b
    → ¬ ((a ≤ i) × (i ≤ b))
    → AllDone (set ps i false) a b
AllDone-set_false ps i a b h out j lo hi l =
    ground (arith, h j, get_or-set ps i j false false, length-set ps i false)

-- Marking a piece that is complete changes nothing; another one is counted.
complete_again :
    (i : ℕ) (s : Completions) → get_elem? s.pieces i ≡ some true → complete i s ≡ some s
unfolding complete
complete_again i s h = rw (h, complete)

completed_state : ℕ → Completions → Completions
completed_state i s = record s {
  completed_count = add64 s.completed_count 1;
  pieces = set s.pieces i true;
  completed = add64 s.completed_count 1 == length s.pieces;
}

complete_new :
    (i : ℕ) (s : Completions)
    → get_elem? s.pieces i ≡ some false
    → complete i s ≡ some (completed_state i s)
unfolding complete completed_state
complete_new i s h = rw (h, complete)

completed_state-IsConsistent :
    (i : ℕ) (s : Completions) (rs : List FileRange)
    → IsConsistent rs s
    → get_elem? s.pieces i ≡ some false
    → IsConsistent rs (completed_state i s)
unfolding completed_state
completed_state-IsConsistent i s rs v h =
    let counts = count_done-set_true s.pieces i h in
    let limit = count_done-le s.pieces in
    let exact : add64 s.completed_count 1 ≡ count_done (set s.pieces i true) =
      ap (λ c. add64 c 1) v.counted ∙ add64_exact _ 1 (omega (arith, v.bounded)) ∙ sym counts in
    record {
      counted = exact;
      flagged = rw (exact, length-set s.pieces i true) refl;
      bounded = rw (length-set s.pieces i true) v.bounded;
      marks =
          All-map _ _ rs (λ r f m. AllDone-set_true s.pieces i r.start_piece r.end_piece (f m))
            v.marks;
    }

-- In a consistent state, `Complete` of a piece that the torrent has does not panic, marks the
-- piece, changes no other, and keeps the counters exact and the file marks true.
pub complete-IsConsistent :
    (i : ℕ) (s : Completions) (rs : List FileRange)
    → IsConsistent rs s
    → i < length s.pieces
    → (t : Completions) × (complete i s ≡ some t)
      × IsConsistent rs t
      × (t.pieces ≡ set s.pieces i true)
complete-IsConsistent i s rs v h = go (get_or s.pieces i false) (get_elem?_of_lt s.pieces i false h)
  where
    go :
        (b : Bool)
        → get_elem? s.pieces i ≡ some b
        → (t : Completions) × (complete i s ≡ some t)
          × IsConsistent rs t
          × (t.pieces ≡ set s.pieces i true)
    go true e = (s, complete_again i s e, v, sym (set_self s.pieces i true e))
    go false e = (
      completed_state i s,
      complete_new i s e,
      completed_state-IsConsistent i s rs v e,
      unfold completed_state in refl,
    )

pub is_completed_file-delete :
    (k path : Text) (m : List (Text × Bool))
    → is_completed_file (delete k m) path
      ≡ (if text_eq k path then false else is_completed_file m path)
unfolding is_completed_file
is_completed_file-delete k path m = ground (arith, lookup-delete k path m)

pub is_completed_file-insert :
    (k path : Text) (b : Bool) (m : List (Text × Bool))
    → is_completed_file (insert k b m) path
      ≡ (if text_eq k path then b else is_completed_file m path)
unfolding is_completed_file
is_completed_file-insert k path b m = ground (arith, lookup-insert k path b m)

-- ===== src/Completions.antt =====
-- server/services/piece_completion.go, the type `completions`: which pieces and files are complete.
--
-- Every method holds the mutex throughout, so it is one step on the state. `none` is a run-time
-- panic: an index out of range, or a division by a piece length of 0. The map `completedFiles`
-- reads as false where it has no entry.
pub mod Scan
pub mod Invariant
pub mod Clearing
pub mod Uncompleting
pub mod Reporting
pub mod Boundary
pub mod Runs
use torrent_web_seeder.Prelude.{
  ℕ, zero, suc, ◌+◌, ◌-◌, Bool, true, false, not, ◌&&◌, ◌||◌, Option, none, some, List, [], ◌∷◌,
  ltb, leb, ◌==◌, if◌then◌else◌, length, get_elem?, get_or, set, lookup, insert, delete, Text,
  text_Eq, Int64, add64, sub64, lt64, le64,
}
use torrent_web_seeder.Files.{Info, FileRange, file_ranges, in_range}

pub record Completions : Type 0 where
  pub pieces : List Bool
  pub completed_count : Int64
  pub completed_files : List (Text × Bool)
  pub completed : Bool
  pub info : Info

infixl 5 ◌>>=◌
abbrev pub ◌>>=◌ {ℓ κ} : {A : Type ℓ} {B : Type κ} → Option A → (A → Option B) → Option B
none >>= f = none
some a >>= f = f a

unfoldable pub complete : ℕ → Completions → Option Completions
complete i s =
    let count = add64 s.completed_count 1 in
    elim (get_elem? s.pieces i) [
      | none ↦ none
      | some done ↦ some (
          if done then s else (record s {
            completed_count = count;
            pieces = set s.pieces i true;
            completed = count == length s.pieces;
          }))
    ]

-- completedFiles[path]
unfoldable pub is_completed_file : List (Text × Bool) → Text → Bool
is_completed_file m path = elim (lookup path m) [ none ↦ false | some b ↦ b ]

abbrev pub is_empty {ℓ} : {A : Type ℓ} → List A → Bool
is_empty [] = true
is_empty (x ∷ xs) = false

-- The loop of `Uncomplete`: the map with the affected files taken out, and their paths.
unfoldable pub uncomplete_ranges :
    ℕ → List FileRange → List (Text × Bool) → List (Text × Bool) × List Text
unfolding in_range is_completed_file
uncomplete_ranges i [] m = (m, [])
uncomplete_ranges i (r ∷ rs) m =
    let hit = in_range i r && is_completed_file m r.path in
    let (m', paths) = uncomplete_ranges i rs (if hit then delete r.path m else m) in
    (m', if hit then r.path ∷ paths else paths)

-- `Uncomplete`, where the piece was complete: what happens to the files.
unfoldable pub uncomplete_files :
    ℕ → Info → List (Text × Bool) → Option (List (Text × Bool) × List Text)
unfolding uncomplete_ranges file_ranges
uncomplete_files i info m =
    if is_empty info.files
    then some (delete info.name m, info.name ∷ [])
    else (do rs ← file_ranges info; some (uncomplete_ranges i rs m))

unfoldable pub uncomplete : ℕ → Completions → Option (Completions × List Text)
unfolding uncomplete_files
uncomplete i s = elim (get_elem? s.pieces i) [
  | none ↦ none
  | some false ↦ some (s, [])
  | some true ↦ do
    (m, paths) ← uncomplete_files i s.info s.completed_files
    some (
      record s {
        completed_count = sub64 s.completed_count 1;
        pieces = set s.pieces i false;
        completed = false;
        completed_files = m;
      },
      paths,
    )
]

-- The loop of `IsPieceInCompletedFile`.
unfoldable pub in_completed_range : ℕ → List FileRange → List (Text × Bool) → Bool
unfolding in_range is_completed_file
in_completed_range i [] m = false
in_completed_range i (r ∷ rs) m =
    (in_range i r && is_completed_file m r.path) || in_completed_range i rs m

unfoldable pub is_piece_in_completed_file : ℕ → Completions → Option Bool
unfolding in_completed_range file_ranges
is_piece_in_completed_file i s =
    if is_empty s.completed_files
    then some false
    else if is_empty s.info.files
    then some (is_completed_file s.completed_files s.info.name)
    else (do rs ← file_ranges s.info; some (in_completed_range i rs s.completed_files))

-- for i := startPiece; i <= endPiece; i++, with `n` rounds left: stops past the last piece, and
-- at one that is not complete.
unfoldable pub scan_pieces : ℕ → ℕ → List Bool → Bool
scan_pieces zero i pieces = true
scan_pieces (suc n) i pieces =
    let rest = scan_pieces n (i + 1) pieces in
    if leb (length pieces) i then true else if get_or pieces i false then rest else false

-- The whole loop. A negative first index panics.
unfoldable pub range_complete : FileRange → List Bool → Option Bool
unfolding scan_pieces
range_complete r pieces =
    if le64 r.start_piece r.end_piece
    then (if lt64 r.start_piece 0
        then none
        else some (scan_pieces (r.end_piece - r.start_piece + 1) r.start_piece pieces))
    else some true

-- The body of the loop of `GetCompletedFiles` over the files.
unfoldable pub file_complete : Bool → List (Text × Bool) → List Bool → FileRange → Option Bool
unfolding range_complete is_completed_file
file_complete completed m pieces r =
    if completed || is_completed_file m r.path then some true else range_complete r pieces

unfoldable pub completed_ranges :
    Bool → List Bool → List FileRange → List (Text × Bool) → Option (List (Text × Bool) × List Text)
unfolding file_complete
completed_ranges completed pieces [] m = some (m, [])
completed_ranges completed pieces (r ∷ rs) m = do
  done ← file_complete completed m pieces r
  (m', paths) ← completed_ranges completed pieces rs (if done then insert r.path true m else m)
  some (m', if done then r.path ∷ paths else paths)

-- for _, b := range s.pieces { if !b { completed = false; break } }
unfoldable pub all_complete : List Bool → Bool
all_complete [] = true
all_complete (b ∷ bs) = b && all_complete bs

unfoldable pub get_completed_files : Completions → Option (Completions × List Text)
unfolding completed_ranges all_complete file_ranges
get_completed_files s =
    if is_empty s.info.files
    then some (s, if s.completed || all_complete s.pieces then s.info.name ∷ [] else [])
    else (do
      rs ← file_ranges s.info
      (m, paths) ← completed_ranges s.completed s.pieces rs s.completed_files
      some (record s { completed_files = m }, paths))

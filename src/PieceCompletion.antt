-- ===== src/PieceCompletion.antt =====
-- server/services/piece_completion.go, the type `pieceCompletion`: the completion of pieces in
-- memory and in the database, as one state. Each method holds the mutex throughout.
--
-- `none` is a run-time panic. The Boolean of a method's result says that no error is returned. A
-- closed store has no database: `Close` sets it to nil.
pub mod Tables
pub mod Recovering
pub mod Storing
pub mod Backing
pub mod Polling
pub mod Polled
pub mod Closing
pub mod Filling
use torrent_web_seeder.Prelude.{
  ℕ, ◌+◌, Bool, true, false, Option, none, some, List, [], ◌∷◌, ◌==◌, ltb, if◌then◌else◌, length,
  set, replicate, lookup, nat_eq, Text,
}
use torrent_web_seeder.Files.{Info}
use torrent_web_seeder.Completions.{
  Completions, ◌>>=◌, complete, uncomplete, is_piece_in_completed_file,
}
use torrent_web_seeder.PieceCompletion.Tables.{Database}

-- storage.Completion
pub record Completion : Type 0 where
  pub complete : Bool
  pub ok : Bool

-- What `Get` comes to: a completion, an error, or a select on a nil connection.
pub data Reading : Type 0 where
  reading : Completion → Reading
  read_error nil_connection : Reading

-- The loop of NewPieceCompletion over the selected rows: `pieces` and `completedCount`.
unfoldable pub recover_rows : List (ℕ × Bool) → List Bool → ℕ → Option (List Bool × ℕ)
recover_rows [] pieces count = some (pieces, count)
recover_rows ((i, false) ∷ rows) pieces count = recover_rows rows pieces count
recover_rows ((i, true) ∷ rows) pieces count =
    let rest = recover_rows rows (set pieces i true) (count + 1) in
    if ltb i (length pieces) then rest else none

-- `completions` as NewPieceCompletion builds it from the rows.
unfoldable pub recover_completions : List (ℕ × Bool) → Info → Option Completions
unfolding recover_rows
recover_completions rows info = do
  (pieces, count) ← recover_rows rows (replicate info.num_pieces false) 0
  some (record {
    pieces = pieces;
    completed_count = count;
    completed = count == length pieces;
    info = info;
    completed_files = [];
  })

module _ (D : Database) where
  open D use {State, rows, readable, put_piece, delete_file, put_file}

  pub record PieceCompletion : Type 0 where
    pub closed : Bool
    pub db : Option State
    pub completions : Completions

  -- NewPieceCompletion, once the tables are there and the rows have been selected.
  unfoldable pub new_piece_completion : State → Info → Option PieceCompletion
  unfolding recover_completions
  new_piece_completion db info = do
    c ← recover_completions (rows db) info
    some (record { closed = false; db = some db; completions = c })

  unfoldable pub get : ℕ → PieceCompletion → Reading
  get i s = elim s.db [
    | none ↦ nil_connection
    | some db ↦
        if readable db
        then elim (lookup i (rows db)) [
          | none ↦ reading (record { complete = false; ok = false })
          | some b ↦ reading (record { complete = b; ok = true })
        ]
        else read_error
  ]

  -- The change in memory, before the statement is run.
  unfoldable pub note : ℕ → Bool → Completions → Option Completions
  note i true c = complete i c
  note i false c = do (c', _) ← uncomplete i c; some c'

  unfoldable pub set_piece : ℕ → Bool → PieceCompletion → Option (PieceCompletion × Bool)
  unfolding note
  set_piece i b s = if s.closed then some (s, false) else (do
    c ← note i b s.completions
    db ← s.db
    let (db', done) = put_piece i b db
    some (record s { db = some db'; completions = c }, done))

  -- The loop of UncompleteFiles, which the first error ends.
  unfoldable pub delete_files : List Text → State → State × Bool
  delete_files [] db = (db, true)
  delete_files (p ∷ ps) db =
      let (db', done) = delete_file p db in
      let rest = delete_files ps db' in if done then rest else (db', false)

  unfoldable pub uncomplete_files : List Text → PieceCompletion → Option (PieceCompletion × Bool)
  unfolding delete_files
  uncomplete_files paths s = if s.closed then some (s, false) else (do
    db ← s.db
    let (db', done) = delete_files paths db
    some (record s { db = some db' }, done))

  unfoldable pub complete_file : Text → PieceCompletion → Option (PieceCompletion × Bool)
  complete_file path s = if s.closed then some (s, false) else (do
    db ← s.db
    let (db', done) = put_file path db
    some (record s { db = some db' }, done))

  -- `done` is what closing the connection comes to.
  unfoldable pub close : Bool → PieceCompletion → PieceCompletion × Bool
  close done s = if s.closed then (s, true) else (record s { db = none; closed = true }, done)

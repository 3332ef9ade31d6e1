-- ===== src/PieceCompletion/Polling.antt =====
-- server/services/piece_completion.go: how NewPieceCompletion opens the database, and the goroutine
-- that puts the complete files on record.
--
-- The goroutine holds a mutex only in GetCompletedFiles and in each CompleteFile: other calls may
-- come between its steps.
use torrent_web_seeder.Prelude.{
  ℕ, zero, suc, Bool, true, false, ◌||◌, Option, some, List, [], ◌∷◌, if◌then◌else◌, Text, Result,
  ok, err,
}
use torrent_web_seeder.Files.{Info}
use torrent_web_seeder.Completions.{◌>>=◌, get_completed_files}
use torrent_web_seeder.PieceCompletion.Tables.{Database}
use torrent_web_seeder.PieceCompletion.{PieceCompletion, new_piece_completion, complete_file}

module _ (D : Database) where
  open D use {State, readable}

  -- `sqlite.OpenConn`, the two scripts that create the tables, and what a failed select says.
  pub record Engine : Type 0 where
    pub open_conn : Text → Result State
    pub create_piece_completion : State → Result State
    pub create_file_completion : State → Result State
    pub select_error : State → Text

  -- NewPieceCompletion; the Boolean says that the connection is closed again.
  unfoldable pub open_rows : Engine → State → Info → Option (Result (PieceCompletion D) × Bool)
  open_rows E db info =
      if readable db
      then (do s ← new_piece_completion D db info; some (ok s, false))
      else some (err (E.select_error db), true)

  unfoldable pub open_tables : Engine → State → Info → Option (Result (PieceCompletion D) × Bool)
  unfolding open_rows
  open_tables E db info = elim (E.create_piece_completion db) [
    | err e ↦ some (err e, true)
    | ok db' ↦ elim (E.create_file_completion db') [
      | err e ↦ some (err e, true)
      | ok db'' ↦ open_rows E db'' info
    ]
  ]

  unfoldable pub open_piece_completion :
      Engine → Text → Info → Option (Result (PieceCompletion D) × Bool)
  unfolding open_tables
  open_piece_completion E path info = elim (E.open_conn path) [
    | err e ↦ some (err e, false)
    | ok db ↦ open_tables E db info
  ]

  -- pieceCompletionForDir: a map in memory in the place of a database that does not open.
  pub data Kept : Type 0 where
    in_database : PieceCompletion D → Kept
    in_memory : Kept

  unfoldable pub keep_or_map : Result (PieceCompletion D) → Kept
  keep_or_map (ok s) = in_database s
  keep_or_map (err e) = in_memory

  unfoldable pub piece_completion_for_dir : Engine → Text → Info → Option Kept
  unfolding open_piece_completion keep_or_map
  piece_completion_for_dir E path info = do
    (r, closed) ← open_piece_completion E path info
    some (keep_or_map r)

  -- The goroutine: before GetCompletedFiles; with the files that are left to record; in its pause of
  -- 5 seconds; returned.
  pub data FilePoller : Type 0 where
    asking sleeping returned : FilePoller
    recording : List Text → FilePoller

  unfoldable pub poll_step :
      FilePoller → PieceCompletion D → Option (FilePoller × PieceCompletion D)
  poll_step asking s = do
    (c, files) ← get_completed_files s.completions
    some (recording files, record s { completions = c })
  poll_step (recording []) s =
      some (if s.completions.completed || s.closed then returned else sleeping, s)
  poll_step (recording (f ∷ fs)) s = do
    (s', done) ← complete_file D f s
    some (if done then recording fs else returned, s')
  poll_step sleeping s = some (asking, s)
  poll_step returned s = some (returned, s)

  -- Steps of the goroutine with no other call in between.
  unfoldable pub poll_steps :
      ℕ → FilePoller → PieceCompletion D → Option (FilePoller × PieceCompletion D)
  unfolding poll_step
  poll_steps zero p s = some (p, s)
  poll_steps (suc n) p s = do (p', s') ← poll_step p s; poll_steps n p' s'

-- ===== src/PieceCompletion/Polled.antt =====
-- server/services/piece_completion.go: what a round of the goroutine of NewPieceCompletion records.
use torrent_web_seeder.Prelude.{
  suc, ◌≡◌, refl, sym, ◌∙◌, ap, ◌==◌, Bool, true, false, ◌||◌, some, List, [], ◌∷◌, if◌then◌else◌,
  Text, text_eq, length, elem, arith,
}
use torrent_web_seeder.Completions.{Completions, get_completed_files}
use torrent_web_seeder.Completions.Reporting.{report, UniquePaths, get_completed_files-report}
use torrent_web_seeder.Completions.Invariant.{IsConsistent}
use torrent_web_seeder.Completions.Scan.{count_done}
use torrent_web_seeder.Completions.Uncompleting.{ranges}
use torrent_web_seeder.Files.Pieces.{IsLayout}
use torrent_web_seeder.PieceCompletion.Tables.{Database}
use torrent_web_seeder.PieceCompletion.{PieceCompletion, complete_file}
use torrent_web_seeder.PieceCompletion.Polling.{
  FilePoller, asking, sleeping, returned, recording, poll_step, poll_steps,
}

-- `has_file` says that a path is in the table file_completion: an insert that raises no error puts
-- its path there, and takes no other away. No insert fails.
module _ (D : Database) (has_file : Text → D.State → Bool)
    (put_file_records : (path other : Text) (db : D.State)
      → has_file other (D.put_file path db).0 ≡ (text_eq path other || has_file other db))
    (put_file_done : (path : Text) (db : D.State) → (D.put_file path db).1 ≡ true) where
  put_files : List Text → D.State → D.State
  put_files [] db = db
  put_files (f ∷ fs) db = put_files fs (D.put_file f db).0

  put_files-has_file :
      (other : Text) (fs : List Text) (db : D.State)
      → has_file other (put_files fs db) ≡ (elem other fs || has_file other db)
  unfolding put_files elem
  put_files-has_file other [] db = refl
  put_files-has_file other (f ∷ fs) db =
      ground (arith, put_files-has_file other fs (D.put_file f db).0, put_file_records f other db)

  -- The state once the last file is on record.
  with_db : D.State → PieceCompletion D → PieceCompletion D
  with_db db s = record s { db = some db }

  last_stage : PieceCompletion D → FilePoller D
  last_stage s = if s.completions.completed then returned else sleeping

  complete_file_open :
      (f : Text) (s : PieceCompletion D) (db : D.State)
      → s.closed ≡ false
      → s.db ≡ some db
      → complete_file D f s ≡ some (with_db (D.put_file f db).0 s, true)
  unfolding complete_file with_db
  complete_file_open f s db o d = rw o (rw d (rw (put_file_done f db) refl))

  recorded_last :
      (s : PieceCompletion D) (db : D.State)
      → s.closed ≡ false
      → s.db ≡ some db
      → poll_step D (recording []) s ≡ some (last_stage s, with_db db s)
  unfolding poll_step last_stage with_db
  recorded_last s db o d = ground arith

  recording_lem :
      (fs : List Text) (s : PieceCompletion D) (db : D.State)
      → s.closed ≡ false
      → s.db ≡ some db
      → poll_steps D (suc (length fs)) (recording fs) s
        ≡ some (last_stage s, with_db (put_files fs db) s)
  unfolding poll_steps put_files last_stage with_db
  recording_lem [] s db o d = recorded_last s db o d
  recording_lem (f ∷ fs) s db o d =
      rw (complete_file_open f s db o d)
        (recording_lem fs (with_db (D.put_file f db).0 s) (D.put_file f db).0 o refl)

  same_flag :
      (c s : Completions)
      → IsConsistent (ranges s.info) c
      → IsConsistent (ranges s.info) s
      → c.pieces ≡ s.pieces
      → c.completed ≡ s.completed
  same_flag c s v w e = v.flagged ∙ ap (λ ps. count_done ps == length ps) e ∙ sym w.flagged

  asked :
      (s : PieceCompletion D) (c : Completions) (files : List Text)
      → get_completed_files s.completions ≡ some (c, files)
      → poll_steps D (suc (suc (length files))) asking s
        ≡ poll_steps D (suc (length files)) (recording files) (record s { completions = c })
  unfolding poll_steps
  asked s c files e = rw e refl

  -- An undisturbed round of the goroutine, of an open store of a torrent with a valid layout and
  -- distinct paths whose completions are consistent, takes two steps more than there are files to
  -- report. It puts exactly these on record, besides what was there: the files with each piece
  -- complete from the one of the first byte to the one that the byte behind the file lies in, or the
  -- single file of a torrent once every piece is complete. Then the goroutine has returned if the
  -- torrent is flagged complete, and pauses otherwise. No insert fails.
  pub poll_records :
      (s : PieceCompletion D) (db : D.State)
      → s.closed ≡ false
      → s.db ≡ some db
      → IsLayout s.completions.info
      → UniquePaths (ranges s.completions.info)
      → IsConsistent (ranges s.completions.info) s.completions
      → let files = report s.completions.info s.completions.pieces in
        (t : PieceCompletion D) × (db' : D.State) × (poll_steps D
            (suc (suc (length files)))
            asking
            s
          ≡ some (if s.completions.completed then returned else sleeping, t))
        × (t.db ≡ some db')
        × ((path : Text) → has_file path db' ≡ (elem path files || has_file path db))
  unfolding last_stage with_db
  poll_records s db o d l u v =
      let (c, run, w, same) = get_completed_files-report s.completions l u v in
      let files = report s.completions.info s.completions.pieces in
      (
        with_db (put_files files db) (record s { completions = c }),
        put_files files db,
        asked s c files run
            ∙ recording_lem files (record s { completions = c }) db o d
            ∙ ap
                (λ (b : Bool). some (
                  if b then returned else sleeping,
                  with_db (put_files files db) (record s { completions = c }),
                ))
                (same_flag c s.completions w v same),
        refl,
        λ path. put_files-has_file path files db,
      )

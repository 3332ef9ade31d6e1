-- ===== src/Tests/Polls.antt =====
-- server/services/piece_completion.go: the goroutine of a torrent that is complete.
use torrent_web_seeder.Prelude.{
  ℕ, suc, ◌≡◌, refl, sym, ◌∙◌, ap, Bool, true, false, ◌||◌, some, List, [], ◌∷◌, ◌==◌,
  if◌then◌else◌, length, arith, Text, text_eq, elem, lookup, insert, lookup-insert, join, quot64,
  add64, nat_eq,
}
use torrent_web_seeder.Completions.{Completions}
use torrent_web_seeder.Completions.Invariant.{IsConsistent}
use torrent_web_seeder.Completions.Uncompleting.{ranges}
use torrent_web_seeder.Completions.Reporting.{report}
use torrent_web_seeder.PieceCompletion.{PieceCompletion}
use torrent_web_seeder.PieceCompletion.Tables.{Database}
use torrent_web_seeder.PieceCompletion.Polling.{poll_steps, asking, returned}
use torrent_web_seeder.PieceCompletion.Polled.{poll_records}
use torrent_web_seeder.Tests.Marks.{
  two_files, two_files-IsLayout, two_files-UniquePaths, impossible,
}
use torrent_web_seeder.Completions.{is_completed_file}
use torrent_web_seeder.Completions.Scan.{count_done}
use torrent_web_seeder.Files.{ranges_from, full_path}

abbrev Tables : Type 0
Tables = List (ℕ × Bool) × List Text

put_lem :
    (i : ℕ) (b : Bool) (s t : Tables)
    → ◌≡◌ {A = Tables × Bool} ((insert i b s.0, s.1), true) (t, true)
    → (j : ℕ) → lookup j t.0 ≡ (if i == j then some b else lookup j s.0)
put_lem i b s t h j = ap (λ p. lookup j p.0.0) (sym h) ∙ lookup-insert i j b s.0

put_failed :
    (i : ℕ) (b : Bool) (s t : Tables)
    → ◌≡◌ {A = Tables × Bool} ((insert i b s.0, s.1), true) (t, false)
    → t.0 ≡ s.0
put_failed i b s t h = absurd (impossible (sym (ap (λ p. p.1) h)))

-- Both tables; no statement fails, and nothing is deleted.
abbrev tables : Database
tables = record {
  State = Tables;
  rows = λ s. s.0;
  readable = λ s. true;
  put_piece = λ i b s. ((insert i b s.0, s.1), true);
  delete_file = λ path s. (s, true);
  put_file = λ path s. ((s.0, path ∷ s.1), true);
  put_piece_done = put_lem;
  put_piece_failed = put_failed;
  delete_file_keeps = λ path s. refl;
  put_file_keeps = λ path s. refl;
}

abbrev has_file : Text → Tables → Bool
has_file p s = elem p s.1

put_file_records :
    (path other : Text) (db : Tables)
    → has_file other (db.0, path ∷ db.1) ≡ (text_eq path other || has_file other db)
unfolding elem
put_file_records path other db = refl

abbrev all_pieces : List Bool
all_pieces = true ∷ true ∷ true ∷ true ∷ []

abbrev complete : Completions
complete = record {
  pieces = all_pieces;
  completed_count = 4;
  completed = true;
  info = two_files;
  completed_files = [];
}

complete-IsConsistent : IsConsistent (ranges two_files) complete
unfolding is_completed_file ranges_from full_path join quot64 add64 lookup count_done
complete-IsConsistent = record {
  counted = refl;
  flagged = refl;
  bounded = omega arith;
  marks = ((λ h. absurd (impossible h)), ((λ h. absurd (impossible h)), tt));
}

abbrev store : PieceCompletion tables
store = record { closed = false; db = some ([], []); completions = complete }

poll_records_example :
    (t : PieceCompletion tables) × (db : Tables) × (poll_steps tables
        (suc (suc (length (report two_files all_pieces))))
        asking
        store
      ≡ some (returned, t))
    × (t.db ≡ some db)
    × ((path : Text)
        → has_file path db ≡ (elem path (report two_files all_pieces) || has_file path ([], [])))
poll_records_example =
    poll_records tables has_file put_file_records (λ path db. refl) store ([], []) refl refl
      two_files-IsLayout two_files-UniquePaths complete-IsConsistent

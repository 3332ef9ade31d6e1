-- ===== src/Tests/Stores.antt =====
-- server/services/piece_completion.go over a table that is a list of rows.
use torrent_web_seeder.Prelude.{
  ℕ, ◌<◌, ◌≡◌, refl, sym, ◌∙◌, ap, subst, Bool, true, false, none, some, List, [], ◌∷◌, ◌==◌,
  if◌then◌else◌, arith, get_or, lookup, insert, lookup-insert, nat_eq,
}
use torrent_web_seeder.Completions.{Completions}
use torrent_web_seeder.Completions.Runs.{IsReady}
use torrent_web_seeder.PieceCompletion.{
  PieceCompletion, recover_completions, new_piece_completion, set_piece, close,
}
use torrent_web_seeder.PieceCompletion.Tables.{Database}
use torrent_web_seeder.PieceCompletion.Recovering.{
  AreRows, is_on_record, recover_completions-IsReady,
}
use torrent_web_seeder.PieceCompletion.Storing.{
  on_record, IsSynced, new_piece_completion-IsSynced, set_piece-IsSynced,
}
use torrent_web_seeder.PieceCompletion.Closing.{Refuses, close-Refuses}
use torrent_web_seeder.Tests.Marks.{two_files, two_files-IsLayout}

true≢false : ¬ (true ≡ false)
true≢false h = ground arith

pub row_put :
    (i : ℕ) (b : Bool) (s t : List (ℕ × Bool))
    → ◌≡◌ {A = List (ℕ × Bool) × Bool} (insert i b s, true) (t, true)
    → (j : ℕ) → lookup j t ≡ (if i == j then some b else lookup j s)
row_put i b s t h j = ap (λ p. lookup j p.0) (sym h) ∙ lookup-insert i j b s

pub row_failed :
    (i : ℕ) (b : Bool) (s t : List (ℕ × Bool))
    → ◌≡◌ {A = List (ℕ × Bool) × Bool} (insert i b s, true) (t, false)
    → t ≡ s
row_failed i b s t h = absurd (true≢false (ap (λ p. p.1) h))

-- No statement fails.
abbrev pub table : Database
table = record {
  State = List (ℕ × Bool);
  rows = λ s. s;
  readable = λ s. true;
  put_piece = λ i b s. (insert i b s, true);
  delete_file = λ path s. (s, true);
  put_file = λ path s. (s, true);
  put_piece_done = row_put;
  put_piece_failed = row_failed;
  delete_file_keeps = λ path s. refl;
  put_file_keeps = λ path s. refl;
}

abbrev pub two_rows : List (ℕ × Bool)
two_rows = (3, true) ∷ (0, false) ∷ []

two_rows-AreRows : AreRows 4 two_rows
unfolding lookup
two_rows-AreRows = (omega arith, refl, (omega arith, refl, tt))

recover_completions-IsReady_example :
    (c : Completions) × (recover_completions two_rows two_files ≡ some c)
    × IsReady two_files 4 c
    × ((j : ℕ) → j < 4 → get_or c.pieces j false ≡ is_on_record two_rows j)
recover_completions-IsReady_example =
    recover_completions-IsReady two_rows two_files two_rows-AreRows (omega arith)

abbrev recovered : Completions
recovered = record {
  pieces = false ∷ false ∷ false ∷ true ∷ [];
  completed_count = 1;
  completed = false;
  info = two_files;
  completed_files = [];
}

abbrev pub opened : PieceCompletion table
opened = record { closed = false; db = some two_rows; completions = recovered }

run-opened : new_piece_completion table two_rows two_files ≡ some opened
unfolding new_piece_completion
run-opened = refl

pub opened-IsSynced : IsSynced table opened
opened-IsSynced =
    let (s, run, v, _, _) =
      new_piece_completion-IsSynced table two_rows two_files two_rows-AreRows (omega arith) in
    subst (IsSynced table) (ap (λ o. elim o [ none ↦ opened | some x ↦ x ]) (sym run ∙ run-opened))
      v

new_piece_completion-IsSynced_example :
    (s : PieceCompletion table) × (new_piece_completion table two_rows two_files ≡ some s)
    × IsSynced table s
    × (s.closed ≡ false)
    × (s.db ≡ some two_rows)
new_piece_completion-IsSynced_example =
    new_piece_completion-IsSynced table two_rows two_files two_rows-AreRows (omega arith)

set_piece-IsSynced_example :
    (t : PieceCompletion table) × (done : Bool) × (set_piece table 0 true opened ≡ some (t, done))
    × (done ≡ true
        → IsSynced table t
          × ((j : ℕ) → on_record table t j ≡ (if 0 == j then true else on_record table opened j)))
    × (done ≡ false
        → ((j : ℕ) → on_record table t j ≡ on_record table opened j)
          × (get_or t.completions.pieces 0 false ≡ true))
set_piece-IsSynced_example =
    set_piece-IsSynced table 0 true opened two_rows refl refl two_files-IsLayout opened-IsSynced
      (omega arith)

close-Refuses_example : Refuses table (close table true opened).0
close-Refuses_example = close-Refuses table true opened (λ h. absurd (true≢false (sym h)))

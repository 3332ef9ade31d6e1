-- ===== src/PieceCompletion/Tables.antt =====
-- What server/services/piece_completion.go asks of its SQLite database.
use torrent_web_seeder.Prelude.{
  ℕ, ◌≡◌, Bool, true, false, some, List, ◌==◌, if◌then◌else◌, lookup, nat_eq, Text,
}

-- `rows` is the table piece_completion, whose index is unique, in the order in which it is selected;
-- `readable` says that a select does not fail. Each statement says whether it raised no error.
pub record Database : Type 1 where
  pub State : Type 0
  pub rows : State → List (ℕ × Bool)
  pub readable : State → Bool
  pub put_piece : ℕ → Bool → State → State × Bool  -- insert or replace into piece_completion
  pub delete_file : Text → State → State × Bool  -- delete from file_completion
  pub put_file : Text → State → State × Bool  -- insert or replace into file_completion
  pub put_piece_done :
      (i : ℕ) (b : Bool) (s t : State)
      → put_piece i b s ≡ (t, true)
      → (j : ℕ) → lookup j (rows t) ≡ (if i == j then some b else lookup j (rows s))
  pub put_piece_failed :
      (i : ℕ) (b : Bool) (s t : State) → put_piece i b s ≡ (t, false) → rows t ≡ rows s
  pub delete_file_keeps : (path : Text) (s : State) → rows (delete_file path s).0 ≡ rows s
  pub put_file_keeps : (path : Text) (s : State) → rows (put_file path s).0 ≡ rows s

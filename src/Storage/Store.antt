-- ===== src/Storage/Store.antt =====
-- What the mmap storage asks of a completion store, and what it relies on.
use torrent_web_seeder.Prelude.{
  ℕ, ◌≡◌, Bool, true, false, Option, some, List, ◌==◌, if◌then◌else◌, Text,
}

-- `set i b` is PieceCompletion.Set: `none` is a panic, the Boolean says that no error is returned.
-- `protection` is the callback that OpenTorrent installs for a *pieceCompletion. `is_complete` is
-- what the store has on record.
pub record CompletionStore : Type 1 where
  pub State : Type 0
  pub set : ℕ → Bool → State → Option (State × Bool)
  pub uncomplete_files : List Text → State → State
  pub protection : State → Option (ℕ → Bool)
  pub is_complete : State → ℕ → Bool
  pub set_written :
      (i : ℕ) (b : Bool) (s t : State)
      → set i b s ≡ some (t, true)
      → (j : ℕ) → is_complete t j ≡ (if i == j then b else is_complete s j)
  pub set_failed :
      (i : ℕ) (b : Bool) (s t : State)
      → set i b s ≡ some (t, false)
      → (j : ℕ) → is_complete t j ≡ is_complete s j
  pub uncomplete_files_keeps :
      (paths : List Text) (s : State) (j : ℕ)
      → is_complete (uncomplete_files paths s) j ≡ is_complete s j

-- ===== src/PieceCompletion/Backing.antt =====
-- What the mmap storage relies on: the store fills the interface that it asks for.
use mathlib.Core.Option.{some-injective}
use torrent_web_seeder.Prelude.{
  none-≢-some, ℕ, ◌≡◌, refl, sym, ◌∙◌, ap, ◌⊎◌, Option-cases, Bool, true, false, inl, inr,
  Bool-cases, Option, none, some, List, [], ◌∷◌, ◌==◌, if◌then◌else◌, arith, nat_eq, Text,
}
use torrent_web_seeder.Completions.{Completions, is_piece_in_completed_file}
use torrent_web_seeder.Storage.Store.{CompletionStore}
use torrent_web_seeder.PieceCompletion.{
  PieceCompletion, note, set_piece, delete_files, uncomplete_files,
}
use torrent_web_seeder.PieceCompletion.Tables.{Database}
use torrent_web_seeder.PieceCompletion.Recovering.{is_on_record}
use torrent_web_seeder.PieceCompletion.Storing.{on_record, set_piece_step, is_on_record-put}

module _ (D : Database) where
  open D use {
    State, rows, put_piece, delete_file, put_piece_done, put_piece_failed, delete_file_keeps,
  }

  set_piece_shut :
      (i : ℕ) (b : Bool) (s : PieceCompletion D)
      → s.closed ≡ true
      → set_piece D i b s ≡ some (s, false)
  unfolding set_piece
  set_piece_shut i b s h = simp h

  set_piece_stuck :
      (i : ℕ) (b : Bool) (s : PieceCompletion D)
      → s.closed ≡ false
      → note D i b s.completions ≡ none
      → set_piece D i b s ≡ none
  unfolding set_piece
  set_piece_stuck i b s o n = rw (o, n) refl

  set_piece_unopened :
      (i : ℕ) (b : Bool) (s : PieceCompletion D) (c : Completions)
      → s.closed ≡ false
      → note D i b s.completions ≡ some c
      → s.db ≡ none
      → set_piece D i b s ≡ none
  unfolding set_piece
  set_piece_unopened i b s c o n d = rw (o, n, d) refl

  -- What a call of `Set` that returns has done.
  set_piece_cases :
      (i : ℕ) (b done : Bool) (s t : PieceCompletion D)
      → set_piece D i b s ≡ some (t, done)
      → ((t ≡ s) × (done ≡ false))
        ⊎ ((c : Completions) × (db : State) × (s.db ≡ some db)
            × (t ≡ record s { db = some (put_piece i b db).0; completions = c })
            × (done ≡ (put_piece i b db).1))
  set_piece_cases i b done s t h = elim (Bool-cases s.closed) [
    | inl shut ↦
        let e = some-injective _ _ (sym (set_piece_shut i b s shut) ∙ h) in
        inl (sym (ap (λ p. p.0) e), sym (ap (λ p. p.1) e))
    | inr o ↦ elim (Option-cases (note D i b s.completions)) [
      | inl n ↦ absurd (none-≢-some (sym (set_piece_stuck i b s o n) ∙ h))
      | inr (c, n) ↦ elim (Option-cases s.db) [
        | inl m ↦ absurd (none-≢-some (sym (set_piece_unopened i b s c o n m) ∙ h))
        | inr (db, d) ↦
            let e = some-injective _ _ (
              sym (set_piece_step D i b (put_piece i b db).1 s c db (put_piece i b db).0 o d n refl)
              ∙ h) in
            inr (c, db, d, sym (ap (λ p. p.0) e), sym (ap (λ p. p.1) e))
      ]
    ]
  ]

  pub set_piece-written :
      (i : ℕ) (b : Bool) (s t : PieceCompletion D)
      → set_piece D i b s ≡ some (t, true)
      → (j : ℕ) → on_record D t j ≡ (if i == j then b else on_record D s j)
  set_piece-written i b s t h j = elim (set_piece_cases i b true s t h) [
    | inl (same, e) ↦ absurd (ground arith)
    | inr (c, db, d, e, done) ↦
        ap (λ x. on_record D x j) e
        ∙ is_on_record-put D i b db (put_piece i b db).0
            (ap (λ x. ((put_piece i b db).0, x)) (sym done)) j
        ∙ rw d refl
  ]

  pub set_piece-failed :
      (i : ℕ) (b : Bool) (s t : PieceCompletion D)
      → set_piece D i b s ≡ some (t, false)
      → (j : ℕ) → on_record D t j ≡ on_record D s j
  set_piece-failed i b s t h j = elim (set_piece_cases i b false s t h) [
    | inl (same, e) ↦ ap (λ x. on_record D x j) same
    | inr (c, db, d, e, done) ↦
        ap (λ x. on_record D x j) e
        ∙ ap (λ r. is_on_record r j)
            (put_piece_failed i b db (put_piece i b db).0
              (ap (λ x. ((put_piece i b db).0, x)) (sym done)))
        ∙ rw d refl
  ]

  delete_files_keeps : (paths : List Text) (db : State) → rows (delete_files D paths db).0 ≡ rows db
  unfolding delete_files
  delete_files_keeps [] db = refl
  delete_files_keeps (p ∷ ps) db = elim (Bool-cases (delete_file p db).1) [
    | inl e ↦ rw e (delete_files_keeps ps (delete_file p db).0 ∙ delete_file_keeps p db)
    | inr e ↦ rw e (delete_file_keeps p db)
  ]

  -- What the mmap storage makes of UncompleteFiles: its error is only logged. An open store has a
  -- database, so that the call does not panic.
  pub uncompleted : List Text → PieceCompletion D → PieceCompletion D
  uncompleted paths s = elim (uncomplete_files D paths s) [ none ↦ s | some (t, done) ↦ t ]

  unfoldable pub after : PieceCompletion D → Option (PieceCompletion D × Bool) → PieceCompletion D
  after s out = elim out [ none ↦ s | some (t, done) ↦ t ]

  pub uncompleted-after :
      (paths : List Text) (s : PieceCompletion D) (out : Option (PieceCompletion D × Bool))
      → uncomplete_files D paths s ≡ out
      → uncompleted paths s ≡ after s out
  unfolding uncompleted after
  uncompleted-after paths s out h = ap (after s) h

  uncomplete_files_shut :
      (paths : List Text) (s : PieceCompletion D)
      → s.closed ≡ true
      → uncomplete_files D paths s ≡ some (s, false)
  unfolding uncomplete_files
  uncomplete_files_shut paths s h = simp h

  uncomplete_files_unopened :
      (paths : List Text) (s : PieceCompletion D)
      → s.closed ≡ false
      → s.db ≡ none
      → uncomplete_files D paths s ≡ none
  unfolding uncomplete_files
  uncomplete_files_unopened paths s o d = rw (o, d) refl

  pub uncomplete_files_open :
      (paths : List Text) (s : PieceCompletion D) (db : State)
      → s.closed ≡ false
      → s.db ≡ some db
      → uncomplete_files D paths s
        ≡ some (record s { db = some (delete_files D paths db).0 }, (delete_files D paths db).1)
  unfolding uncomplete_files
  uncomplete_files_open paths s db o d = rw (o, d) refl

  pub uncompleted_keeps :
      (paths : List Text) (s : PieceCompletion D) (j : ℕ)
      → on_record D (uncompleted paths s) j ≡ on_record D s j
  unfolding after
  uncompleted_keeps paths s j = elim (Bool-cases s.closed) [
    | inl shut ↦
        ap (λ x. on_record D x j) (uncompleted-after paths s _ (uncomplete_files_shut paths s shut))
    | inr o ↦ elim (Option-cases s.db) [
      | inl n ↦
          ap (λ x. on_record D x j)
            (uncompleted-after paths s _ (uncomplete_files_unopened paths s o n))
      | inr (db, d) ↦
          ap (λ x. on_record D x j)
            (uncompleted-after paths s _ (uncomplete_files_open paths s db o d))
          ∙ ap (λ r. is_on_record r j) (delete_files_keeps paths db)
          ∙ rw d refl
    ]
  ]

  -- The callback that OpenTorrent installs. No call panics on a torrent with a piece length.
  pub protected_piece : PieceCompletion D → ℕ → Bool
  protected_piece s i = elim (is_piece_in_completed_file i s.completions) [
    | none ↦ false
    | some b ↦ b
  ]

  -- The completion store that the mmap storage uses.
  abbrev pub piece_store : CompletionStore
  piece_store = record {
    State = PieceCompletion D;
    set = set_piece D;
    uncomplete_files = uncompleted;
    protection = λ s. some (protected_piece s);
    is_complete = on_record D;
    set_written = set_piece-written;
    set_failed = set_piece-failed;
    uncomplete_files_keeps = uncompleted_keeps;
  }

-- ===== src/PieceCompletion/Closing.antt =====
-- What a closed store answers.
use torrent_web_seeder.Prelude.{
  ℕ, ◌≡◌, refl, subst, sym, Bool, true, false, inl, inr, Bool-cases, none, some, List, Text,
}
use torrent_web_seeder.PieceCompletion.{
  PieceCompletion, get, nil_connection, set_piece, uncomplete_files, complete_file, close,
}
use torrent_web_seeder.PieceCompletion.Tables.{Database}

module _ (D : Database) where
  -- A store that refuses every write without a change, and has no connection to read from.
  pub record Refuses (t : PieceCompletion D) : Type 0 where
    pub sets : (i : ℕ) (b : Bool) → set_piece D i b t ≡ some (t, false)
    pub uncompletes : (paths : List Text) → uncomplete_files D paths t ≡ some (t, false)
    pub completes : (path : Text) → complete_file D path t ≡ some (t, false)
    pub gets : (i : ℕ) → get D i t ≡ nil_connection
    pub closes : (done : Bool) → close D done t ≡ (t, true)

  closed-Refuses : (t : PieceCompletion D) → t.closed ≡ true → t.db ≡ none → Refuses t
  unfolding set_piece uncomplete_files complete_file get close
  closed-Refuses t c d = record {
    sets = λ i b. simp c;
    uncompletes = λ paths. simp c;
    completes = λ path. simp c;
    gets = λ i. rw d refl;
    closes = λ done. simp c;
  }

  close_again : (done : Bool) (s : PieceCompletion D) → s.closed ≡ true → close D done s ≡ (s, true)
  unfolding close
  close_again done s c = simp c

  close_open :
      (done : Bool) (s : PieceCompletion D)
      → s.closed ≡ false
      → close D done s ≡ (record s { db = none; closed = true }, done)
  unfolding close
  close_open done s o = simp o

  -- Whatever closing the connection comes to, a closed store stays as it is: each write returns an
  -- error, a second Close returns none, and Get meets a nil connection. The store must have lost
  -- its connection if it was closed before.
  pub close-Refuses :
      (done : Bool) (s : PieceCompletion D)
      → (s.closed ≡ true → s.db ≡ none)
      → Refuses (close D done s).0
  close-Refuses done s h = elim (Bool-cases s.closed) [
    | inl c ↦ subst (λ x. Refuses x.0) (sym (close_again done s c)) (closed-Refuses s c (h c))
    | inr o ↦
        subst (λ x. Refuses x.0) (sym (close_open done s o))
          (closed-Refuses (record s { db = none; closed = true }) refl refl)
  ]

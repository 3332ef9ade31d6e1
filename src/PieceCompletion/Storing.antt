-- ===== src/PieceCompletion/Storing.antt =====
-- Writes to the store: memory and database agree.
use torrent_web_seeder.Prelude.{
  ℕ, ◌<◌, ◌≡◌, refl, sym, ◌∙◌, ap, subst, Bool, true, false, none, some, List, ◌==◌, if◌then◌else◌,
  length, get_or, set, length-set, get_or-set, arith, two_63, nat_eq,
}
use torrent_web_seeder.Files.{Info}
use torrent_web_seeder.Files.Pieces.{IsLayout}
use torrent_web_seeder.Completions.{Completions}
use torrent_web_seeder.Completions.Invariant.{IsConsistent, complete-IsConsistent}
use torrent_web_seeder.Completions.Uncompleting.{ranges, uncomplete-IsConsistent}
use torrent_web_seeder.Completions.Runs.{complete-info, uncomplete-info}
use torrent_web_seeder.PieceCompletion.{PieceCompletion, new_piece_completion, note, set_piece}
use torrent_web_seeder.PieceCompletion.Tables.{Database}
use torrent_web_seeder.PieceCompletion.Recovering.{
  AreRows, is_on_record, recover_completions-IsReady,
}

-- In memory, the change is exactly to the one piece.
pub note-IsConsistent :
    (D : Database) (i : ℕ) (b : Bool) (c : Completions)
    → IsLayout c.info
    → IsConsistent (ranges c.info) c
    → i < length c.pieces
    → (c' : Completions) × (note D i b c ≡ some c')
      × IsConsistent (ranges c'.info) c'
      × (c'.pieces ≡ set c.pieces i b)
unfolding note
note-IsConsistent D i true c h v lt =
    let (c', run, w, same) = complete-IsConsistent i c (ranges c.info) v lt in
    (c', run, subst (λ x. IsConsistent (ranges x) c') (sym (complete-info i c c' run)) w, same)
note-IsConsistent D i false c h v lt =
    let (c', paths, run, w, same, _) = uncomplete-IsConsistent i c h v lt in
    (
      c',
      rw run refl,
      subst (λ x. IsConsistent (ranges x) c') (sym (uncomplete-info i c c' paths run)) w,
      same,
    )

get_or_written :
    (i : ℕ) (b : Bool) (old new : List Bool)
    → i < length old
    → new ≡ set old i b
    → get_or new i false ≡ b
get_or_written i b old new lt same =
    ap (λ p. get_or p i false) same ∙ get_or-set old i i b false ∙ ground arith

module _ (D : Database) where
  open D use {
    State, rows, put_piece, delete_file, put_piece_done, put_piece_failed, delete_file_keeps,
  }

  -- What is on record of piece `j`; a closed store has no record.
  abbrev pub on_record : PieceCompletion D → ℕ → Bool
  on_record s j = elim s.db [ none ↦ false | some db ↦ is_on_record (rows db) j ]

  -- Between two calls: memory is consistent, and says of each piece what the database says.
  pub record IsSynced (s : PieceCompletion D) : Type 0 where
    pub consistent : IsConsistent (ranges s.completions.info) s.completions
    pub agrees :
        (j : ℕ)
        → j < length s.completions.pieces
        → get_or s.completions.pieces j false ≡ on_record s j

  -- A database whose rows have distinct indices, all of them of pieces that the torrent has,
  -- fewer than 2^63, is opened without a panic, and the store in memory is consistent and agrees
  -- with it.
  pub new_piece_completion-IsSynced :
      (db : State) (info : Info)
      → AreRows info.num_pieces (rows db)
      → info.num_pieces < two_63
      → (s : PieceCompletion D) × (new_piece_completion D db info ≡ some s)
        × IsSynced s
        × (s.closed ≡ false)
        × (s.db ≡ some db)
  unfolding new_piece_completion
  new_piece_completion-IsSynced db info r small =
      let (c, run, ready, known) = recover_completions-IsReady (rows db) info r small in
      (
        record { closed = false; db = some db; completions = c },
        rw run refl,
        record {
          consistent = subst (λ i. IsConsistent (ranges i) c) (sym ready.same) ready.consistent;
          agrees = λ j l. known j (omega (arith, ready.sized));
        },
        refl,
        refl,
      )

  pub is_on_record-put :
      (i : ℕ) (b : Bool) (db db' : State)
      → put_piece i b db ≡ (db', true)
      → (j : ℕ) → is_on_record (rows db') j ≡ (if i == j then b else is_on_record (rows db) j)
  is_on_record-put i b db db' h j = ground (arith, put_piece_done i b db db' h j)

  pub set_piece_step :
      (i : ℕ) (b done : Bool) (s : PieceCompletion D) (c : Completions) (db db' : State)
      → s.closed ≡ false
      → s.db ≡ some db
      → note D i b s.completions ≡ some c
      → put_piece i b db ≡ (db', done)
      → set_piece D i b s ≡ some (record s { db = some db'; completions = c }, done)
  unfolding set_piece
  set_piece_step i b done s c db db' o d n p = rw (o, n, d, p) refl

  -- From a state that agrees with the database, of a torrent with a valid layout, a write to an
  -- open store, of a piece that the torrent has, does not panic. If the statement succeeds,
  -- memory and database agree again, and the piece is on record as written. If it fails, the
  -- error is returned and the record is as it was, but memory has changed: it says of the piece
  -- what was to be written.
  pub set_piece-IsSynced :
      (i : ℕ) (b : Bool) (s : PieceCompletion D) (db : State)
      → s.closed ≡ false
      → s.db ≡ some db
      → IsLayout s.completions.info
      → IsSynced s
      → i < length s.completions.pieces
      → (t : PieceCompletion D) × (done : Bool) × (set_piece D i b s ≡ some (t, done))
        × (done ≡ true
            → IsSynced t × ((j : ℕ) → on_record t j ≡ (if i == j then b else on_record s j)))
        × (done ≡ false
            → ((j : ℕ) → on_record t j ≡ on_record s j) × (get_or t.completions.pieces i false ≡ b))
  set_piece-IsSynced i b s db o d h v lt =
      let (c, run, w, same) = note-IsConsistent D i b s.completions h v.consistent lt in
      let db' = (put_piece i b db).0 in
      let before : (j : ℕ) → on_record s j ≡ is_on_record (rows db) j = λ j. rw d refl in
      (
        record s { db = some db'; completions = c },
        (put_piece i b db).1,
        set_piece_step i b (put_piece i b db).1 s c db db' o d run refl,
        (λ e.
            let now = is_on_record-put i b db db' (λ k. (db', e k)) in
            (
              record {
                consistent = w;
                agrees = λ j l. ground (
                  arith,
                  ap (λ p. get_or p j false) same,
                  ap length same,
                  length-set s.completions.pieces i b,
                  get_or-set s.completions.pieces i j b false,
                  v.agrees j,
                  now j,
                  before j,
                );
              },
              λ j. now j ∙ ap (λ x. if i == j then b else x) (sym (before j)),
            )),
        (λ e. (
          (λ j.
              ap (λ r. is_on_record r j) (put_piece_failed i b db db' (λ k. (db', e k)))
              ∙ sym (before j)),
          get_or_written i b s.completions.pieces c.pieces lt same,
        )),
      )

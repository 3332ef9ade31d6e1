-- ===== src/PieceCompletion/Filling.antt =====
-- The completion store fills the interface of the mmap storage: an open store whose statements
-- succeed is good, and stays so.
use mathlib.Core.Option.{some-injective}
use torrent_web_seeder.Prelude.{
  none-≢-some, ℕ, ◌+◌, ◌≤◌, ◌<◌, ◌≡◌, refl, sym, ◌∙◌, ap, subst, Bool, true, false, some,
  Option-cases, inl, inr, List, length, length-set, arith, two_63, Text, Int64,
}
use torrent_web_seeder.Files.Pieces.{IsLayout}
use torrent_web_seeder.Completions.{Completions, uncomplete}
use torrent_web_seeder.Completions.Runs.{complete-info, uncomplete-info}
use torrent_web_seeder.PieceCompletion.{PieceCompletion, note, set_piece, delete_files}
use torrent_web_seeder.PieceCompletion.Tables.{Database}
use torrent_web_seeder.PieceCompletion.Storing.{
  IsSynced, note-IsConsistent, set_piece_step, set_piece-IsSynced, on_record,
}
use torrent_web_seeder.PieceCompletion.Backing.{
  after, uncompleted, uncompleted-after, uncompleted_keeps, uncomplete_files_open, piece_store,
}
use torrent_web_seeder.PieceLru.{PieceLru}
use torrent_web_seeder.PieceLru.Entries.{total_size}
use torrent_web_seeder.PieceLru.Invariant.{IsValid}
use torrent_web_seeder.PieceLru.Within.{EntriesWithin}
use torrent_web_seeder.Storage.{MmapTorrentStorage, mark_complete}
use torrent_web_seeder.Storage.Evicting.{Writes}
use torrent_web_seeder.Storage.Marking.{mark_complete_fits}

module _ (D : Database) where
  open D use {State, put_piece}

  -- No insert into piece_completion fails.
  abbrev pub Inserts : Type 0
  Inserts = (i : ℕ) (b : Bool) (db : State) → (put_piece i b db).1 ≡ true

  -- An open store of a torrent of `n` pieces, in agreement with its database.
  pub record IsOpen (n : ℕ) (s : PieceCompletion D) : Type 0 where
    pub is_open : s.closed ≡ false
    pub db : State
    pub has_db : s.db ≡ some db
    pub layout : IsLayout s.completions.info
    pub synced : IsSynced D s
    pub sized : length s.completions.pieces ≡ n

  note-info :
      (i : ℕ) (b : Bool) (c c' : Completions)
      → IsLayout c.info
      → note D i b c ≡ some c'
      → c'.info ≡ c.info
  unfolding note
  note-info i true c c' h run = complete-info i c c' run
  note-info i false c c' h run = elim (Option-cases (uncomplete i c)) [
    | inl e ↦ absurd (none-≢-some (sym (rw (note, e) refl) ∙ run))
    | inr (r, e) ↦
        let same : r.0 ≡ c' = some-injective _ _ (sym (rw (note, e) refl) ∙ run) in
        ap (λ x. x.info) (sym same) ∙ uncomplete-info i c r.0 r.1 e
  ]

  module _ (n : ℕ) (ins : Inserts) where
    write-IsOpen :
        (i : ℕ) (b : Bool) (s : PieceCompletion D)
        → i < n
        → IsOpen n s
        → (t : PieceCompletion D) × (set_piece D i b s ≡ some (t, true)) × IsOpen n t
    write-IsOpen i b s lt g =
        let lt' : i < length s.completions.pieces = omega (arith, g.sized) in
        let (c, run, w, same) =
          note-IsConsistent D i b s.completions g.layout g.synced.consistent lt' in
        let db' = (put_piece i b g.db).0 in
        let t : PieceCompletion D = record s { db = some db'; completions = c } in
        let step : set_piece D i b s ≡ some (t, true) =
          set_piece_step D i b true s c g.db db' g.is_open g.has_db run
            (λ k. (db', ins i b g.db k)) in
        let (t', done, run', done_well, failed) =
          set_piece-IsSynced D i b s g.db g.is_open g.has_db g.layout g.synced lt' in
        let e = some-injective _ _ (sym run' ∙ step) in
        (
          t,
          step,
          record {
            is_open = g.is_open;
            db = db';
            has_db = refl;
            layout = subst IsLayout (sym (note-info i b s.completions c g.layout run)) g.layout;
            synced = subst (IsSynced D) (ap (λ p. p.0) e) (done_well (ap (λ p. p.1) e)).0;
            sized = ap length same ∙ length-set s.completions.pieces i b ∙ g.sized;
          },
        )

    uncomplete-IsOpen :
        (paths : List Text) (s : PieceCompletion D) → IsOpen n s → IsOpen n (uncompleted D paths s)
    unfolding after
    uncomplete-IsOpen paths s g =
        let db' = (delete_files D paths g.db).0 in
        let t : PieceCompletion D = record s { db = some db' } in
        let e : uncompleted D paths s ≡ t =
          uncompleted-after D paths s _ (uncomplete_files_open D paths s g.db g.is_open g.has_db) in
        subst (IsOpen n) (sym e) (record {
          is_open = g.is_open;
          db = db';
          has_db = refl;
          layout = g.layout;
          synced = record {
            consistent = g.synced.consistent;
            agrees = λ j l.
                g.synced.agrees j l
                ∙ sym (uncompleted_keeps D paths s j)
                ∙ ap (λ x. on_record D x j) e;
          };
          sized = g.sized;
        })

    pub piece_store-Writes : Writes (piece_store D) (IsOpen n) n
    piece_store-Writes = record { writes = write-IsOpen; uncompletes = uncomplete-IsOpen }

    -- With the completion store behind the storage, and a database whose inserts do not fail,
    -- MarkComplete of a piece of the torrent, on a storage with a set budget, a valid tracker of such
    -- pieces within it and a valid layout, an open store that agrees with its database, returns
    -- without an error or a panic; the store is still open and agrees with its database, and the
    -- tracker is valid and within the budget. The budget, and the tracked bytes with the piece, are
    -- below 2^63.
    pub mark_complete_stored :
        (now : Int64) (i : ℕ) (l : PieceLru) (ts : MmapTorrentStorage (PieceCompletion D))
        → IsOpen n ts.pc
        → i < n
        → IsLayout ts.info
        → ts.lru ≡ some l
        → IsValid l
        → EntriesWithin n l.lru_list
        → 0 < l.budget
        → l.budget < two_63
        → total_size l.lru_list + ts.info.piece_size i < two_63
        → l.used ≤ l.budget
        → (ts' : MmapTorrentStorage (PieceCompletion D)) × (l' : PieceLru) × (mark_complete
              (piece_store D)
              now
              i
              ts
            ≡ some (ts', true))
          × IsOpen n ts'.pc
          × (ts'.lru ≡ some l')
          × IsValid l'
          × (l'.used ≤ l.budget)
    mark_complete_stored now i l ts =
        mark_complete_fits (piece_store D) (IsOpen n) n now i l ts piece_store-Writes

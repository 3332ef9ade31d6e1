-- ===== src/Completions/Runs.antt =====
-- The storage and its goroutine call `completions` one locked method at a time.
use torrent_web_seeder.Prelude.{
  ℕ, ◌<◌, ◌≡◌, refl, sym, ◌∙◌, ap, subst, true, false, inl, inr, Option, some, Option-cases, List,
  [], ◌∷◌, length, length-set, arith, Text, delete, text_Eq,
}
use torrent_web_seeder.Files.{Info}
use torrent_web_seeder.Files.Pieces.{IsLayout}
use torrent_web_seeder.Completions.{
  Completions, ◌>>=◌, is_empty, complete, uncomplete, uncomplete_files, get_completed_files,
  is_piece_in_completed_file,
}
use torrent_web_seeder.Completions.Invariant.{IsConsistent, complete-IsConsistent}
use torrent_web_seeder.Completions.Uncompleting.{ranges, uncomplete-IsConsistent}
use torrent_web_seeder.Completions.Reporting.{UniquePaths, get_completed_files-report}

pub data Event : Type 0 where
  completed : ℕ → Event
  uncompleted : ℕ → Event
  polled : Event

unfoldable pub step : Event → Completions → Option Completions
step (completed i) s = complete i s
step (uncompleted i) s = do (t, _) ← uncomplete i s; some t
step polled s = do (t, _) ← get_completed_files s; some t

unfoldable pub run : List Event → Completions → Option Completions
unfolding step
run [] s = some s
run (e ∷ es) s = do t ← step e s; run es t

-- Piece indices that the torrent has.
abbrev pub InBounds : ℕ → List Event → Type 0
InBounds n [] = Unit {0}
InBounds n (completed i ∷ es) = (i < n) × InBounds n es
InBounds n (uncompleted i ∷ es) = (i < n) × InBounds n es
InBounds n (polled ∷ es) = InBounds n es

-- What every event leaves alone.
module _ (i : ℕ) (s t : Completions) where
  pub complete-info : complete i s ≡ some t → t.info ≡ s.info
  unfolding complete
  complete-info h = ground arith

  pub uncomplete-info : (paths : List Text) → uncomplete i s ≡ some (t, paths) → t.info ≡ s.info
  unfolding uncomplete
  uncomplete-info paths h = ground arith

  get_completed_files-info :
      (paths : List Text) → get_completed_files s ≡ some (t, paths) → t.info ≡ s.info
  unfolding get_completed_files
  get_completed_files-info paths h = ground arith

-- The state of a torrent with `n` pieces, between two calls.
pub record IsReady (info : Info) (n : ℕ) (s : Completions) : Type 0 where
  pub same : s.info ≡ info
  pub consistent : IsConsistent (ranges info) s
  pub sized : length s.pieces ≡ n

module _ (info : Info) (n : ℕ) (h : IsLayout info) (u : UniquePaths (ranges info)) where
  IsReady-IsLayout : (s : Completions) → IsReady info n s → IsLayout s.info
  IsReady-IsLayout s r = subst IsLayout (sym r.same) h

  IsReady-IsConsistent : (s : Completions) → IsReady info n s → IsConsistent (ranges s.info) s
  IsReady-IsConsistent s r = subst (λ i. IsConsistent (ranges i) s) (sym r.same) r.consistent

  completed-IsReady :
      (i : ℕ) (s : Completions)
      → IsReady info n s
      → i < n
      → (t : Completions) × (step (completed i) s ≡ some t) × IsReady info n t
  unfolding step
  completed-IsReady i s r lt =
      let (t, run, v, set) =
        complete-IsConsistent i s (ranges info) r.consistent (omega (arith, r.sized)) in
      (
        t,
        run,
        record {
          same = complete-info i s t run ∙ r.same;
          consistent = v;
          sized = ap length set ∙ length-set s.pieces i true ∙ r.sized;
        },
      )

  uncompleted-IsReady :
      (i : ℕ) (s : Completions)
      → IsReady info n s
      → i < n
      → (t : Completions) × (step (uncompleted i) s ≡ some t) × IsReady info n t
  unfolding step
  uncompleted-IsReady i s r lt =
      let (t, paths, run, v, set, _) =
        uncomplete-IsConsistent i s (IsReady-IsLayout s r) (IsReady-IsConsistent s r)
          (omega (arith, r.sized)) in
      (
        t,
        rw run refl,
        record {
          same = uncomplete-info i s t paths run ∙ r.same;
          consistent = subst (λ i. IsConsistent (ranges i) t) r.same v;
          sized = ap length set ∙ length-set s.pieces i false ∙ r.sized;
        },
      )

  polled-IsReady :
      (s : Completions)
      → IsReady info n s
      → (t : Completions) × (step polled s ≡ some t) × IsReady info n t
  unfolding step
  polled-IsReady s r =
      let (t, run, v, same) =
        get_completed_files-report s (IsReady-IsLayout s r)
          (subst (λ i. UniquePaths (ranges i)) (sym r.same) u) (IsReady-IsConsistent s r) in
      (
        t,
        rw run refl,
        record {
          same = get_completed_files-info 0 s t _ run ∙ r.same;
          consistent = subst (λ i. IsConsistent (ranges i) t) r.same v;
          sized = ap length same ∙ r.sized;
        },
      )

  -- On a torrent with a valid layout and distinct paths, and from a consistent state, any
  -- sequence of calls with indices of the torrent's pieces runs without a panic, and leaves the
  -- counters exact and every file mark true.
  pub run-IsReady :
      (es : List Event) (s : Completions)
      → IsReady info n s
      → InBounds n es
      → (t : Completions) × (run es s ≡ some t) × IsReady info n t
  unfolding run
  run-IsReady [] s r b = (s, refl, r)
  run-IsReady (completed i ∷ es) s r b =
      let (t, e, r') = completed-IsReady i s r b.0 in
      let (t', e', r'') = run-IsReady es t r' b.1 in (t', rw e e', r'')
  run-IsReady (uncompleted i ∷ es) s r b =
      let (t, e, r') = uncompleted-IsReady i s r b.0 in
      let (t', e', r'') = run-IsReady es t r' b.1 in (t', rw e e', r'')
  run-IsReady (polled ∷ es) s r b =
      let (t, e, r') = polled-IsReady s r in
      let (t', e', r'') = run-IsReady es t r' b in (t', rw e e', r'')

step_single :
    (e : Event) (s t : Completions)
    → is_empty s.info.files ≡ true
    → s.completed_files ≡ []
    → step e s ≡ some t
    → (is_empty t.info.files ≡ true) × (t.completed_files ≡ [])
unfolding step complete uncomplete uncomplete_files get_completed_files delete
step_single (completed i) s t h k r = ground arith
step_single (uncompleted i) s t h k r = ground arith
step_single polled s t h k r = ground arith

-- In a single-file torrent that starts with no file marked, no sequence of calls that runs ever
-- marks the file, so no piece of it counts as belonging to a completed file, whether or not every
-- piece is complete.
pub single_file_unprotected :
    (es : List Event) (s t : Completions) (i : ℕ)
    → is_empty s.info.files ≡ true
    → s.completed_files ≡ []
    → run es s ≡ some t
    → is_piece_in_completed_file i t ≡ some false
unfolding run is_piece_in_completed_file
single_file_unprotected [] s t i h k r = ground arith
single_file_unprotected (e ∷ es) s t i h k r = elim (Option-cases (step e s)) [
  | inl n ↦ absurd (ground arith)
  | inr (m, q) ↦
      let next = step_single e s m h k q in
      single_file_unprotected es m t i next.0 next.1 (ground arith)
]

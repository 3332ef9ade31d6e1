-- ===== src/Diagnosis/Waits.antt =====
-- server/diagnose.go: the two waits come to an end, once their timers fire.
use torrent_web_seeder.Prelude.{
  ◌≡◌, refl, Bool, true, false, Option, none, some, List, [], ◌∷◌, if◌then◌else◌, codes, Int64,
  ◌||◌, ◌==◌, ◌&&◌, lt64, sub64,
}
use torrent_web_seeder.Diagnosis.{Format, format_bytes}
use torrent_web_seeder.Diagnosis.Phases.{
  line, Printed, MetaEvent, got_info, timed_out, ticked, TestEvent, test_over, test_ticked,
  meta_progress, waiting, progress, test_lines, meta_loop, meta_phase, test_loop, test_phase,
}

-- The metadata arrive, or the timer of the wait fires.
unfoldable pub MetaEnds : List MetaEvent → Type 0
MetaEnds [] = ⊥
MetaEnds (got_info t ∷ es) = Unit
MetaEnds (timed_out t ∷ es) = Unit
MetaEnds (ticked t s ∷ es) = MetaEnds es

-- The metadata arrive in front of the timer.
unfoldable pub arrives : List MetaEvent → Bool
arrives [] = false
arrives (got_info t ∷ es) = true
arrives (timed_out t ∷ es) = false
arrives (ticked t s ∷ es) = arrives es

-- The timer of the download test fires.
unfoldable pub TestEnds : List TestEvent → Type 0
TestEnds [] = ⊥
TestEnds (test_over ∷ es) = Unit
TestEnds (test_ticked t s ∷ es) = TestEnds es

-- An option that has a value still has one when the value is changed.
still_some {ℓ κ} :
    {A : Type ℓ} {B : Type κ} (f : A → B) {x : Option A} {a : A}
    → x ≡ some a
    → elim x as (λ o. Option B) [ none ↦ none | some b ↦ some (f b) ] ≡ some (f a)
still_some f e = rw e refl

meta_loop_ends :
    (timeout : Int64) (es : List MetaEvent)
    → MetaEnds es
    → (ls : List Printed) × (meta_loop timeout es ≡ some (ls, arrives es))
unfolding MetaEnds meta_loop arrives
meta_loop_ends timeout [] h = absurd h
meta_loop_ends timeout (got_info t ∷ es) h = (_, refl)
meta_loop_ends timeout (timed_out t ∷ es) h = (_, refl)
meta_loop_ends timeout (ticked t s ∷ es) h =
    let (ls, e) = meta_loop_ends timeout es h in
    (
      _,
      still_some
          (λ (r : List Printed × Bool). (
            meta_progress t s.shown.active_peers s.shown.connected_seeders s.half_open_peers ∷ r.0,
            r.1,
          ))
          e,
    )

pub meta_phase_ends :
    (known : Bool) (timeout : Int64) (es : List MetaEvent)
    → MetaEnds es
    → (ls : List Printed) × (meta_phase known timeout es ≡ some (ls, (known || arrives es)))
unfolding meta_phase
meta_phase_ends true timeout es h = (_, refl)
meta_phase_ends false timeout es h =
    let (ls, e) = meta_loop_ends timeout es h in
    (
      _,
      still_some
          (λ (r : List Printed × Bool).
            (line (codes "--- Metadata Resolution ---") ∷ (waiting timeout ∷ r.0), r.1))
          e,
    )

module _ (F : Format) where
  test_loop_ends :
      (first prev : Int64) (es : List TestEvent)
      → TestEnds es
      → (ls : List Printed) × (result : Int64) × (test_loop F first prev es ≡ some (ls, result))
  unfolding TestEnds test_loop
  test_loop_ends first prev [] h = absurd h
  test_loop_ends first prev (test_over ∷ es) h = (_, _, refl)
  test_loop_ends first prev (test_ticked t s ∷ es) h =
      let bytes = s.shown.bytes_read_useful_data in
      let (ls, result, e) =
        test_loop_ends (if first == 0 && lt64 0 bytes then t else first) bytes es h in
      (
        _,
        result,
        still_some
            (λ (r : List Printed × Int64). (
              progress t s.shown.active_peers s.shown.connected_seeders (format_bytes F bytes)
                    (sub64 bytes prev)
                  ∷ r.0,
              r.1,
            ))
            e,
      )

  pub test_phase_ends :
      (timeout since : Int64) (es : List TestEvent)
      → TestEnds es
      → (ls : List Printed) × (test_phase F timeout since es ≡ some ls)
  unfolding test_phase
  test_phase_ends timeout since es h =
      let (ls, first, e) = test_loop_ends 0 0 es h in
      (_, still_some (λ (r : List Printed × Int64). test_lines F timeout since r.0 r.1) e)

-- ===== src/TorrentMap/Measured.antt =====
-- Each milestone of a torrent is observed once, at the first tick that reaches it.
use torrent_web_seeder.Prelude.{
  ℕ, ◌≡◌, refl, ◌∙◌, ap, inl, inr, Bool, true, false, ◌&&◌, ◌||◌, not, Bool-cases, if_elim,
  if_false, List, [], ◌∷◌, ◌++◌, if◌then◌else◌, arith,
}
use mathlib.Core.List.{append-nil}
use torrent_web_seeder.TorrentMap.Monitor.{
  Milestone, first_peer, ten_peers, thirty_peers, first_byte, Metric, observed, stalled, Sample,
  Monitor, new_monitor, recorded, reached, stall, observe, tick, run_monitor,
}

abbrev same : Milestone → Milestone → Bool
same first_peer first_peer = true
same ten_peers ten_peers = true
same thirty_peers thirty_peers = true
same first_byte first_byte = true
same _ _ = false

-- The times at which a milestone was observed.
unfoldable pub times : Milestone → List Metric → List ℕ
times k [] = []
times k (stalled s ∷ ms) = times k ms
times k (observed j t ∷ ms) = let rest = times k ms in if same k j then t ∷ rest else rest

-- The time of the first sample that reaches a milestone.
unfoldable pub first_time : Milestone → List Sample → List ℕ
first_time k [] = []
first_time k (s ∷ ss) =
    let rest = first_time k ss in if reached k s then s.since_start ∷ [] else rest

times-append : (k : Milestone) (xs ys : List Metric) → times k (xs ++ ys) ≡ times k xs ++ times k ys
unfolding times
times-append k [] ys = refl
times-append k (stalled s ∷ xs) ys = times-append k xs ys
times-append k (observed j t ∷ xs) ys = elim (Bool-cases (same k j)) [
  | inl y ↦ rw y (ap (◌∷◌ t) (times-append k xs ys))
  | inr n ↦ rw n (times-append k xs ys)
]

times-stall : (k : Milestone) (m : Monitor) (s : Sample) → times k (stall m s) ≡ []
unfolding stall times
times-stall k m s = ground arith

-- The observation of one milestone, seen from another.
times-other :
    (k j : Milestone) (m : Monitor) (s : Sample) → same k j ≡ false → times k (observe j m s) ≡ []
unfolding observe times
times-other k j m s d = elim (Bool-cases (not (recorded j m) && reached j s)) [
  | inl y ↦ rw (observe, y) (rw d refl)
  | inr n ↦ rw (observe, n) refl
]

due : Milestone → Monitor → Sample → List ℕ
due k m s = if not (recorded k m) && reached k s then s.since_start ∷ [] else []

times-observe :
    (k : Milestone) (m : Monitor) (s : Sample)
    → same k k ≡ true
    → times k (observe k m s) ≡ due k m s
unfolding observe times due
times-observe k m s d = elim (Bool-cases (not (recorded k m) && reached k s)) [
  | inl y ↦ rw (observe, y) (rw d refl)
  | inr n ↦ rw (observe, n) refl
]

-- What is seen of five lists in a row.
times_row :
    (k : Milestone) (a b c d e : List Metric)
    → times k (a ++ (b ++ (c ++ (d ++ e))))
      ≡ times k a ++ (times k b ++ (times k c ++ (times k d ++ times k e)))
times_row k a b c d e =
    times-append k a _
    ∙ ap (λ x. times k a ++ x)
        (times-append k b _
          ∙ ap (λ x. times k b ++ x)
              (times-append k c _ ∙ ap (λ x. times k c ++ x) (times-append k d e)))

times-tick : (k : Milestone) (m : Monitor) (s : Sample) → times k (tick m s).1 ≡ due k m s
unfolding tick
times-tick first_peer m s =
    times_row first_peer (stall m s) (observe first_peer m s) (observe ten_peers m s)
      (observe thirty_peers m s) (observe first_byte m s)
    ∙ (λ i.
        times-stall first_peer m s i
        ++ (times-observe first_peer m s refl i
            ++ (times-other first_peer ten_peers m s refl i
                ++ (times-other first_peer thirty_peers m s refl i
                    ++ times-other first_peer first_byte m s refl i))))
    ∙ append-nil (due first_peer m s)
times-tick ten_peers m s =
    times_row ten_peers (stall m s) (observe first_peer m s) (observe ten_peers m s)
      (observe thirty_peers m s) (observe first_byte m s)
    ∙ (λ i.
        times-stall ten_peers m s i
        ++ (times-other ten_peers first_peer m s refl i
            ++ (times-observe ten_peers m s refl i
                ++ (times-other ten_peers thirty_peers m s refl i
                    ++ times-other ten_peers first_byte m s refl i))))
    ∙ append-nil (due ten_peers m s)
times-tick thirty_peers m s =
    times_row thirty_peers (stall m s) (observe first_peer m s) (observe ten_peers m s)
      (observe thirty_peers m s) (observe first_byte m s)
    ∙ (λ i.
        times-stall thirty_peers m s i
        ++ (times-other thirty_peers first_peer m s refl i
            ++ (times-other thirty_peers ten_peers m s refl i
                ++ (times-observe thirty_peers m s refl i
                    ++ times-other thirty_peers first_byte m s refl i))))
    ∙ append-nil (due thirty_peers m s)
times-tick first_byte m s =
    times_row first_byte (stall m s) (observe first_peer m s) (observe ten_peers m s)
      (observe thirty_peers m s) (observe first_byte m s)
    ∙ (λ i.
        times-stall first_byte m s i
        ++ (times-other first_byte first_peer m s refl i
            ++ (times-other first_byte ten_peers m s refl i
                ++ (times-other first_byte thirty_peers m s refl i
                    ++ times-observe first_byte m s refl i))))

recorded-tick :
    (k : Milestone) (m : Monitor) (s : Sample)
    → recorded k (tick m s).0 ≡ (recorded k m || reached k s)
unfolding recorded tick
recorded-tick first_peer m s = refl
recorded-tick ten_peers m s = refl
recorded-tick thirty_peers m s = refl
recorded-tick first_byte m s = refl

due_or_later :
    (a b : Bool) (t : ℕ) (rest : List ℕ)
    → (if not a && b then t ∷ [] else []) ++ (if a || b then [] else rest)
      ≡ (if a then [] else if b then t ∷ [] else rest)
due_or_later true b t rest = refl
due_or_later false true t rest = refl
due_or_later false false t rest = refl

none_recorded : (k : Milestone) → recorded k new_monitor ≡ false
unfolding recorded
none_recorded first_peer = refl
none_recorded ten_peers = refl
none_recorded thirty_peers = refl
none_recorded first_byte = refl

run_times :
    (k : Milestone) (m : Monitor) (ss : List Sample)
    → times k (run_monitor m ss) ≡ (if recorded k m then [] else first_time k ss)
unfolding run_monitor first_time times
run_times k m [] = if_elim (λ (ts : List ℕ). [] ≡ ts) (recorded k m) refl refl
run_times k m (s ∷ ss) =
    times-append k (tick m s).1 (run_monitor (tick m s).0 ss)
    ∙ (λ i. times-tick k m s i ++ run_times k (tick m s).0 ss i)
    ∙ ap (λ b. due k m s ++ (if b then [] else first_time k ss)) (recorded-tick k m s)
    ∙ unfold due in due_or_later (recorded k m) (reached k s) s.since_start (first_time k ss)

-- Each of the four times that are measured of a new torrent, to its first peer, to 10 and 30 peers
-- and to its first useful byte, is observed at most once: at the first tick that finds it reached, and
-- with that tick's time.
pub run_monitor_once :
    (k : Milestone) (ss : List Sample) → times k (run_monitor new_monitor ss) ≡ first_time k ss
run_monitor_once k ss =
    run_times k new_monitor ss
    ∙ if_false (recorded k new_monitor) [] (first_time k ss) (none_recorded k)

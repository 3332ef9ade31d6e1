-- ===== src/TorrentClient/Dialing.antt =====
-- server/services/torrent_client.go: categorizeError, and the dials that are counted: Dial of
-- metricsDialer, HTTPDialContext and TrackerDialContext.
use torrent_web_seeder.Prelude.{
  ℕ, ◌+◌, ◌≡◌, Bool, ◌||◌, Option, none, some, List, [], ◌∷◌, if◌then◌else◌, if_elim, inl, inr,
  Bool-cases, Text, codes, contains, text_eq, arith,
}

-- An error, with what os.IsTimeout and errors.Is say of it and of the error that it wraps.
pub record DialError : Type 0 where
  pub is_timeout : Bool
  pub is_deadline_exceeded : Bool
  pub unwraps_to_deadline_exceeded : Bool
  pub is_canceled : Bool
  pub message : Text

unfoldable pub categorize_error : Option DialError → Text
categorize_error none = codes "none"
categorize_error (some e) =
    if e.is_timeout || e.is_deadline_exceeded || e.unwraps_to_deadline_exceeded
    then codes "timeout"
    else if e.is_canceled
    then codes "canceled"
    else if contains e.message (codes "connection refused")
    then codes "connection_refused"
    else if contains e.message (codes "connection reset by peer")
    then codes "connection_reset"
    else if contains e.message (codes "no such host")
    then codes "no_such_host"
    else codes "other"

-- The three counters, as functions of their labels.
pub record DialMetrics : Type 0 where
  pub attempts : Text → ℕ
  pub failures : Text → Text → ℕ
  pub successes : Text → ℕ

abbrev pub inc : (Text → ℕ) → Text → Text → ℕ
inc f k j = if text_eq k j then f j + 1 else f j

unfoldable pub begin_dial : Text → DialMetrics → DialMetrics
begin_dial type m = record m { attempts = inc m.attempts type }

unfoldable pub count_failure : Text → Text → (Text → Text → ℕ) → Text → Text → ℕ
count_failure type e f t = if text_eq type t then inc (f t) e else f t

-- What follows the call of the dialer, by its error.
unfoldable pub end_dial : Text → Option DialError → DialMetrics → DialMetrics
unfolding count_failure
end_dial type none m = record m { successes = inc m.successes type }
end_dial type (some e) m = record m {
  failures = count_failure type (categorize_error (some e)) m.failures;
}

-- The labels that a failure can have.
abbrev pub categories : List Text
categories =
    codes "timeout"
    ∷ (codes "canceled"
        ∷ (codes "connection_refused"
            ∷ (codes "connection_reset" ∷ (codes "no_such_host" ∷ (codes "other" ∷ [])))))

unfoldable pub sum_failures : List Text → (Text → ℕ) → ℕ
sum_failures [] f = 0
sum_failures (c ∷ cs) f = f c + sum_failures cs f

abbrev AddsOne : (Text → ℕ) → Text → Type 0
AddsOne f c = sum_failures categories (inc f c) ≡ sum_failures categories f + 1

sum_failures-categorized : (f : Text → ℕ) (e : DialError) → AddsOne f (categorize_error (some e))
unfolding categorize_error sum_failures text_eq
sum_failures-categorized f e =
    if_elim (AddsOne f) (e.is_timeout || e.is_deadline_exceeded || e.unwraps_to_deadline_exceeded)
      (omega arith)
      (if_elim (AddsOne f) e.is_canceled (omega arith) (
        if_elim (AddsOne f) (contains e.message (codes "connection refused")) (omega arith) (
          if_elim (AddsOne f) (contains e.message (codes "connection reset by peer")) (omega arith)
            (if_elim (AddsOne f) (contains e.message (codes "no such host")) (omega arith)
              (omega arith)))))

-- Dials of several goroutines, in the order in which they count.
pub data DialEvent : Type 0 where
  begins : Text → DialEvent
  ends : Text → Option DialError → DialEvent

unfoldable pub run_dials : List DialEvent → DialMetrics → DialMetrics
unfolding begin_dial end_dial
run_dials [] m = m
run_dials (begins type ∷ es) m = run_dials es (begin_dial type m)
run_dials (ends type e ∷ es) m = run_dials es (end_dial type e m)

-- The dials of a type that began, and those that ended.
unfoldable pub begun : Text → List DialEvent → ℕ
begun t [] = 0
begun t (begins type ∷ es) = begun t es + (if text_eq type t then 1 else 0)
begun t (ends type e ∷ es) = begun t es

unfoldable pub ended : Text → List DialEvent → ℕ
ended t [] = 0
ended t (begins type ∷ es) = ended t es
ended t (ends type e ∷ es) = ended t es + (if text_eq type t then 1 else 0)

abbrev outcomes : Text → DialMetrics → ℕ
outcomes t m = m.successes t + sum_failures categories (m.failures t)

attempts-begin_dial :
    (t type : Text) (m : DialMetrics)
    → (begin_dial type m).attempts t ≡ m.attempts t + (if text_eq type t then 1 else 0)
unfolding begin_dial
attempts-begin_dial t type m = ground arith

attempts-run_dials :
    (t : Text) (es : List DialEvent) (m : DialMetrics)
    → (run_dials es m).attempts t ≡ m.attempts t + begun t es
unfolding run_dials begun
attempts-run_dials t [] m = omega arith
attempts-run_dials t (begins type ∷ es) m =
    let inner = attempts-run_dials t es (begin_dial type m) in
    let first = attempts-begin_dial t type m in omega arith
attempts-run_dials t (ends type none ∷ es) m = attempts-run_dials t es (end_dial type none m)
attempts-run_dials t (ends type (some e) ∷ es) m =
    attempts-run_dials t es (end_dial type (some e) m)

outcomes-end_dial :
    (t type : Text) (o : Option DialError) (m : DialMetrics)
    → outcomes t (end_dial type o m) ≡ outcomes t m + (if text_eq type t then 1 else 0)
unfolding end_dial
outcomes-end_dial t type none m = ground arith
outcomes-end_dial t type (some e) m = elim (Bool-cases (text_eq type t)) [
  | inl y ↦ rw y (omega (arith, sum_failures-categorized (m.failures t) e))
  | inr n ↦ rw n (omega arith)
]

outcomes-run_dials :
    (t : Text) (es : List DialEvent) (m : DialMetrics)
    → outcomes t (run_dials es m) ≡ outcomes t m + ended t es
unfolding run_dials ended
outcomes-run_dials t [] m = omega arith
outcomes-run_dials t (begins type ∷ es) m = outcomes-run_dials t es (begin_dial type m)
outcomes-run_dials t (ends type e ∷ es) m =
    omega (arith, outcomes-run_dials t es (end_dial type e m), outcomes-end_dial t type e m)

abbrev pub no_dials : DialMetrics
no_dials = record { attempts = λ t. 0; failures = λ t e. 0; successes = λ t. 0 }

-- Every dial of a type that has ended is counted once: as a success, or as a failure of one of the
-- six categories. So when all have ended, the attempts are the successes and these failures.
pub run_dials_add_up :
    (t : Text) (es : List DialEvent)
    → begun t es ≡ ended t es
    → (run_dials es no_dials).attempts t
      ≡ (run_dials es no_dials).successes t
        + sum_failures categories ((run_dials es no_dials).failures t)
unfolding sum_failures
run_dials_add_up t es h =
    omega (arith, attempts-run_dials t es no_dials, outcomes-run_dials t es no_dials)

-- ===== src/TorrentMap/Kept.antt =====
-- What a step before the deadline of a torrent leaves of it, in server/services/torrent_map.go.
use mathlib.Core.Option.{some-injective}
use torrent_web_seeder.Prelude.{
  none-≢-some, ℕ, ◌+◌, ◌≤◌, ◌<◌, ◌≡◌, sym, ◌∙◌, ap, subst, true, false, inl, inr, Bool-cases, none,
  some, Option-cases, List, if◌then◌else◌, arith, lookup, insert, lookup-insert, lookup-delete,
  Text, text_Eq, text_eq, text_eq_iff,
}
use torrent_web_seeder.TorrentMap.{
  TorrentMap, Timer, runs_until, fired, Sources, reset, touch_torrent, keep_torrent, get_torrent,
  fire, drop_torrent, ttl, failed, no_torrent, torrent,
}
use torrent_web_seeder.TorrentMap.Running.{get_torrent_cases}

-- The torrent is in the client, and its timer runs until `d`.
pub record IsRunning (h : Text) (d : ℕ) (s : TorrentMap) : Type 0 where
  pub timer : lookup h s.timers ≡ some (runs_until d)
  pub held : lookup h s.loaded ≡ some true

failed-≢-torrent : ¬ (failed ≡ torrent)
failed-≢-torrent h = cc

no_torrent-≢-torrent : ¬ (no_torrent ≡ torrent)
no_torrent-≢-torrent h = cc

put_other :
    {V : Type 0} (k h : Text) (v : V) (m : List (Text × V))
    → text_eq k h ≡ false
    → lookup h (insert k v m) ≡ lookup h m
put_other k h v m d = lookup-insert k h v m ∙ ap (λ b. if b then some v else lookup h m) d

put_same :
    {V : Type 0} (k h : Text) (v : V) (m : List (Text × V))
    → text_eq k h ≡ true
    → lookup h (insert k v m) ≡ some v
put_same k h v m e = lookup-insert k h v m ∙ ap (λ b. if b then some v else lookup h m) e

at :
    {V : Type 0} (k h : Text) (v : V) (m : List (Text × V))
    → text_eq k h ≡ true
    → lookup k m ≡ some v
    → lookup h m ≡ some v
at k h v m e l = subst (λ x. lookup x m ≡ some v) ((text_eq_iff k h).0 e) l

differ :
    {V : Type 0} (k h : Text) (v : V) (m : List (Text × V))
    → lookup k m ≡ none
    → lookup h m ≡ some v
    → text_eq k h ≡ false
differ k h v m n f = elim (Bool-cases (text_eq k h)) [
  | inr d ↦ d
  | inl y ↦
      let gone : lookup h m ≡ none = subst (λ x. lookup x m ≡ none) ((text_eq_iff k h).0 y) n in
      absurd (none-≢-some (sym gone ∙ f))
]

differ_timer :
    (k h : Text) (a b : Timer) (m : List (Text × Timer))
    → lookup k m ≡ some a
    → lookup h m ≡ some b
    → ¬ (a ≡ b)
    → text_eq k h ≡ false
differ_timer k h a b m e f no_eq = elim (Bool-cases (text_eq k h)) [
  | inr d ↦ d
  | inl y ↦ absurd (no_eq (some-injective _ _ (sym (at k h a m y e) ∙ f)))
]

deadline : Timer → ℕ
deadline (runs_until d) = d
deadline fired = 0

-- A reset of any timer leaves the torrent's timer running, no shorter than before.
reset_keeps :
    (now d : ℕ) (k h : Text) (ti : Timer) (m : List (Text × Timer))
    → lookup k m ≡ some ti
    → lookup h m ≡ some (runs_until d)
    → d ≤ now + ttl
    → (d' : ℕ) × (lookup h (insert k (reset now ti) m) ≡ some (runs_until d'))
      × (d ≤ d')
      × (d' ≤ now + ttl)
unfolding reset
reset_keeps now d k h ti m e f le = elim (Bool-cases (text_eq k h)) [
  | inl y ↦
      let same : ti ≡ runs_until d = some-injective _ _ (sym (at k h ti m y e) ∙ f) in
      (
        now + ttl,
        put_same k h (reset now ti) m y ∙ ap (λ x. some (reset now x)) same,
        le,
        omega arith,
      )
  | inr n ↦ (d, put_other k h (reset now ti) m n ∙ f, omega arith, le)
]

-- What a step before the deadline leaves.
pub record Kept (h : Text) (d now : ℕ) (t : TorrentMap) : Type 0 where
  pub until : ℕ
  pub running : IsRunning h until t
  pub no_shorter : d ≤ until
  pub bounded : until ≤ now + ttl

module _ (now d : ℕ) (h : Text) (s : TorrentMap) (r : IsRunning h d s) (le : d ≤ now + ttl) where
  unchanged : Kept h d now s
  unchanged = record { until = d; running = r; no_shorter = omega arith; bounded = le }

  pub touch_torrent-Kept : (k : Text) → Kept h d now (touch_torrent now k s)
  unfolding touch_torrent
  touch_torrent-Kept k = elim (Option-cases (lookup k s.timers)) [
    | inl n ↦ rw (touch_torrent, n) unchanged
    | inr (ti, e) ↦
        let (d', run, a, b) = reset_keeps now d k h ti s.timers e r.timer le in
        rw (touch_torrent, e)
          (record {
            until = d';
            running = record { timer = run; held = r.held };
            no_shorter = a;
            bounded = b;
          })
  ]

  held_still : (k : Text) → lookup h (insert k true s.loaded) ≡ some true
  held_still k = elim (Bool-cases (text_eq k h)) [
    | inl y ↦ put_same k h true s.loaded y
    | inr n ↦ put_other k h true s.loaded n ∙ r.held
  ]

  keep_torrent-Kept : (k : Text) → Kept h d now (keep_torrent now k s)
  unfolding keep_torrent
  keep_torrent-Kept k = elim (Option-cases (lookup k s.timers)) [
    | inl n ↦
        rw (keep_torrent, n)
          (record {
            until = d;
            running = record {
              timer =
                  put_other k h (runs_until (now + ttl)) s.timers
                    (differ k h (runs_until d) s.timers n r.timer)
                  ∙ r.timer;
              held = held_still k;
            };
            no_shorter = omega arith;
            bounded = le;
          })
    | inr (ti, e) ↦
        let (d', run, a, b) = reset_keeps now d k h ti s.timers e r.timer le in
        rw (keep_torrent, e)
          (record {
            until = d';
            running = record { timer = run; held = held_still k };
            no_shorter = a;
            bounded = b;
          })
  ]

  pub get_torrent-Kept : (o : Sources) (k : Text) → Kept h d now (get_torrent now o k s).0
  get_torrent-Kept o k = elim (get_torrent_cases now o k s) [
    | inl e ↦ subst (λ x. Kept h d now x.0) (sym e) unchanged
    | inr (inl e) ↦ subst (λ x. Kept h d now x.0) (sym e) unchanged
    | inr (inr e) ↦ subst (λ x. Kept h d now x.0) (sym e) (keep_torrent-Kept k)
  ]

  pub fire-Kept :
      (k : Text) (d0 : ℕ)
      → lookup k s.timers ≡ some (runs_until d0)
      → d0 < d
      → Kept h d now (fire k s)
  unfolding fire deadline
  fire-Kept k d0 e lt =
      let other : text_eq k h ≡ false =
        differ_timer k h (runs_until d0) (runs_until d) s.timers e r.timer
          (λ q. omega (arith, ap deadline q)) in
      record {
        until = d;
        running = record { timer = put_other k h fired s.timers other ∙ r.timer; held = r.held };
        no_shorter = omega arith;
        bounded = le;
      }

  pub drop_torrent-Kept :
      (k : Text) → lookup k s.timers ≡ some fired → Kept h d now (drop_torrent k s)
  unfolding drop_torrent
  drop_torrent-Kept k e =
      let other : text_eq k h ≡ false =
        differ_timer k h fired (runs_until d) s.timers e r.timer (λ q. cc) in
      record {
        until = d;
        running = record {
          timer =
              lookup-delete k h s.timers
              ∙ ap (λ b. if b then none else lookup h s.timers) other
              ∙ r.timer;
          held =
              lookup-delete k h s.loaded
              ∙ ap (λ b. if b then none else lookup h s.loaded) other
              ∙ r.held;
        };
        no_shorter = omega arith;
        bounded = le;
      }

-- ===== src/TorrentMap/Dropping.antt =====
-- When a torrent leaves the client: not within ten minutes of its last use, but for one race.
use torrent_web_seeder.Prelude.{
  ℕ, ◌+◌, ◌≤◌, ◌<◌, ◌≡◌, refl, sym, ◌∙◌, ap, subst, true, inl, inr, none, some, Option-cases,
  if◌then◌else◌, arith, lookup, lookup-delete, Text, text_Eq, text_eq_iff,
}
use torrent_web_seeder.TorrentMap.{
  TorrentMap, runs_until, fired, Sources, reset, keep_torrent, get_torrent, drop_torrent, Step,
  touched, got, fires, drops, Steps, here, next, ttl, failed, no_torrent, torrent,
}
use torrent_web_seeder.TorrentMap.Running.{lookup-insert_self, get_torrent_cases}
use torrent_web_seeder.TorrentMap.Kept.{
  IsRunning, Kept, touch_torrent-Kept, get_torrent-Kept, fire-Kept, drop_torrent-Kept,
}

failed-≢-torrent : ¬ (failed ≡ torrent)
failed-≢-torrent h = cc

no_torrent-≢-torrent : ¬ (no_torrent ≡ torrent)
no_torrent-≢-torrent h = cc

step-Kept :
    {now : ℕ} {s t : TorrentMap} (d : ℕ) (h : Text)
    → Step now s t
    → IsRunning h d s
    → d ≤ now + ttl
    → now < d
    → Kept h d now t
step-Kept {now} {s} d h (touched k) r le lt = touch_torrent-Kept now d h s r le k
step-Kept {now} {s} d h (got o k) r le lt = get_torrent-Kept now d h s r le o k
step-Kept {now} {s} d h (fires k d0 e l) r le lt = fire-Kept now d h s r le k d0 e (omega arith)
step-Kept {now} {s} d h (drops k e) r le lt = drop_torrent-Kept now d h s r le k e

Steps-order : {now end : ℕ} {s t : TorrentMap} → Steps now s end t → now ≤ end
Steps-order here = omega arith
Steps-order (next l st sts) = omega (arith, Steps-order sts)

Steps-held :
    {now end : ℕ} {s t : TorrentMap} (d : ℕ) (h : Text)
    → Steps now s end t
    → IsRunning h d s
    → d ≤ now + ttl
    → end < d
    → lookup h t.loaded ≡ some true
Steps-held d h here r le lt = r.held
Steps-held d h (next l st sts) r le lt =
    let order = Steps-order sts in
    let k = step-Kept d h st r (omega arith) (omega arith) in
    Steps-held k.until h sts k.running k.bounded (omega (arith, k.no_shorter))

-- When Get keeps a torrent whose timer has not fired, the timer runs for ten minutes.
keep_torrent-IsRunning :
    (now : ℕ) (h : Text) (s : TorrentMap)
    → ¬ (lookup h s.timers ≡ some fired)
    → IsRunning h (now + ttl) (keep_torrent now h s)
unfolding keep_torrent
keep_torrent-IsRunning now h s f = elim (Option-cases (lookup h s.timers)) [
  | inl n ↦
      rw (keep_torrent, n)
        (record {
          timer = lookup-insert_self h (runs_until (now + ttl)) s.timers;
          held = lookup-insert_self h true s.loaded;
        })
  | inr (runs_until d, e) ↦
      rw (keep_torrent, e)
        (record {
          timer = unfold reset in lookup-insert_self h (runs_until (now + ttl)) s.timers;
          held = lookup-insert_self h true s.loaded;
        })
  | inr (fired, e) ↦ absurd (f e)
]

-- What a call of Get that returns a torrent has done.
get_torrent_kept :
    (now : ℕ) (o : Sources) (h : Text) (s : TorrentMap)
    → (get_torrent now o h s).1 ≡ torrent
    → (get_torrent now o h s).0 ≡ keep_torrent now h s
get_torrent_kept now o h s e = elim (get_torrent_cases now o h s) [
  | inl q ↦ absurd (failed-≢-torrent (sym (ap (λ x. x.1) q) ∙ e))
  | inr (inl q) ↦ absurd (no_torrent-≢-torrent (sym (ap (λ x. x.1) q) ∙ e))
  | inr (inr q) ↦ ap (λ x. x.0) q
]

-- A torrent that Get returns while its timer has not fired stays in the client for ten minutes,
-- whatever calls, timers and goroutines of this and other torrents come in between.
pub get_torrent_stays :
    (now end : ℕ) (o : Sources) (h : Text) (s t : TorrentMap)
    → ¬ (lookup h s.timers ≡ some fired)
    → (get_torrent now o h s).1 ≡ torrent
    → Steps now (get_torrent now o h s).0 end t
    → end < now + ttl
    → lookup h t.loaded ≡ some true
get_torrent_stays now end o h s t f e sts lt =
    let same = get_torrent_kept now o h s e in
    Steps-held (now + ttl) h sts
      (subst (IsRunning h (now + ttl)) (sym same) (keep_torrent-IsRunning now h s f)) (omega arith)
      lt

-- A torrent that Get returns after its timer has fired is dropped all the same: the goroutine of
-- the timer can take its next step at any time, and takes the torrent out of the client.
pub get_torrent_dropped :
    (now later : ℕ) (o : Sources) (h : Text) (s : TorrentMap)
    → lookup h s.timers ≡ some fired
    → (get_torrent now o h s).1 ≡ torrent
    → now ≤ later
    → (t : TorrentMap) × Steps now (get_torrent now o h s).0 later t × (lookup h t.loaded ≡ none)
unfolding keep_torrent lookup
get_torrent_dropped now later o h s f e le =
    let r = (get_torrent now o h s).0 in
    let still : lookup h r.timers ≡ some fired =
      subst (λ x. lookup h x.timers ≡ some fired) (sym (get_torrent_kept now o h s e))
        (rw (keep_torrent, f) (unfold reset in lookup-insert_self h fired s.timers)) in
    (
      drop_torrent h r,
      next le (drops h still) here,
      unfold drop_torrent in
          lookup-delete h h r.loaded
          ∙ ap (λ b. if b then none else lookup h r.loaded) ((text_eq_iff h h).1 refl),
    )

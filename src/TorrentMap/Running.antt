-- ===== src/TorrentMap/Running.antt =====
-- What holds of the map of torrents whatever its users and timers do.
use torrent_web_seeder.Prelude.{
  ℕ, ◌+◌, ◌≡◌, refl, sym, ◌∙◌, ap, subst, ◌⊎◌, true, inl, inr, Bool-cases, none, some, Option-cases,
  List, if◌then◌else◌, length, arith, lookup, insert, lookup-insert, lookup-delete, Text, text_Eq,
  text_eq, text_eq_iff,
}
use torrent_web_seeder.TorrentMap.{
  Outcome, TorrentMap, new_torrent_map, Timer, runs_until, fired, Sources, Answer, store_error,
  missing, found, reset, touch_torrent, keep_torrent, find_info, get_torrent, fire, drop_torrent,
  Step, touched, got, fires, drops, Steps, here, next, ttl, failed, no_torrent, torrent,
}
use torrent_web_seeder.TorrentMap.Timers.{
  UniqueKeys, length-insert_new, length-insert_old, length-delete, UniqueKeys-insert,
  UniqueKeys-delete,
}

-- Each torrent has one timer, the gauge counts the timers, and every loaded torrent has a timer.
pub record IsValid (s : TorrentMap) : Type 0 where
  pub unique : UniqueKeys s.timers
  pub counted : s.active ≡ length s.timers
  pub timed : (h : Text) → lookup h s.timers ≡ none → lookup h s.loaded ≡ none

-- A timer that is there is written.
reset_timer : Text → Timer → TorrentMap → TorrentMap
reset_timer h ti s = record s { timers = insert h ti s.timers }

load : Text → TorrentMap → TorrentMap
load h s = record s { loaded = insert h true s.loaded }

reset_timer-IsValid :
    (h : Text) (ti old : Timer) (s : TorrentMap)
    → lookup h s.timers ≡ some old
    → IsValid s
    → IsValid (reset_timer h ti s)
unfolding reset_timer
reset_timer-IsValid h ti old s e v = record {
  unique = UniqueKeys-insert h ti s.timers v.unique;
  counted = v.counted ∙ sym (length-insert_old h ti old s.timers e);
  timed = λ k n. ground (arith, lookup-insert h k ti s.timers, v.timed k);
}

load-IsValid :
    (h : Text) (ti : Timer) (s : TorrentMap)
    → lookup h s.timers ≡ some ti
    → IsValid s
    → IsValid (load h s)
unfolding load
load-IsValid h ti s e v = record {
  unique = v.unique;
  counted = v.counted;
  timed = λ k n. elim (Bool-cases (text_eq h k)) [
    | inl y ↦
        let here : lookup k s.timers ≡ some ti =
          subst (λ x. lookup x s.timers ≡ some ti) ((text_eq_iff h k).0 y) e in
        ground arith
    | inr d ↦ ground (arith, lookup-insert h k true s.loaded, v.timed k)
  ];
}

-- A new torrent: its timer, and the gauge.
start : Text → Timer → TorrentMap → TorrentMap
start h ti s = record s { timers = insert h ti s.timers; active = s.active + 1 }

start-IsValid :
    (h : Text) (ti : Timer) (s : TorrentMap)
    → lookup h s.timers ≡ none
    → IsValid s
    → IsValid (start h ti s)
unfolding start
start-IsValid h ti s e v = record {
  unique = UniqueKeys-insert h ti s.timers v.unique;
  counted = omega (arith, v.counted, length-insert_new h ti s.timers e);
  timed = λ k n. ground (arith, lookup-insert h k ti s.timers, v.timed k);
}

drop_torrent-IsValid :
    (h : Text) (ti : Timer) (s : TorrentMap)
    → lookup h s.timers ≡ some ti
    → IsValid s
    → IsValid (drop_torrent h s)
unfolding drop_torrent
drop_torrent-IsValid h ti s e v = record {
  unique = UniqueKeys-delete h s.timers v.unique;
  counted = omega (arith, v.counted, length-delete h ti s.timers v.unique e);
  timed = λ k n. ground (arith, lookup-delete h k s.timers, lookup-delete h k s.loaded, v.timed k);
}

pub lookup-insert_self :
    {V : Type 0} (h : Text) (v : V) (m : List (Text × V)) → lookup h (insert h v m) ≡ some v
lookup-insert_self h v m =
    lookup-insert h h v m ∙ ap (λ b. if b then some v else lookup h m) ((text_eq_iff h h).1 refl)

touch_torrent-IsValid :
    (now : ℕ) (h : Text) (s : TorrentMap) → IsValid s → IsValid (touch_torrent now h s)
unfolding touch_torrent reset_timer
touch_torrent-IsValid now h s v = elim (Option-cases (lookup h s.timers)) [
  | inl n ↦ rw (touch_torrent, n) v
  | inr (ti, e) ↦ rw (touch_torrent, e) (reset_timer-IsValid h (reset now ti) ti s e v)
]

keep_torrent-IsValid :
    (now : ℕ) (h : Text) (s : TorrentMap) → IsValid s → IsValid (keep_torrent now h s)
unfolding keep_torrent reset_timer load start
keep_torrent-IsValid now h s v = elim (Option-cases (lookup h s.timers)) [
  | inl n ↦
      let ti = runs_until (now + ttl) in
      rw (keep_torrent, n)
        (load-IsValid h ti (start h ti s) (lookup-insert_self h ti s.timers)
          (start-IsValid h ti s n v))
  | inr (old, e) ↦
      let ti = reset now old in
      rw (keep_torrent, e)
        (load-IsValid h ti (reset_timer h ti s) (lookup-insert_self h ti s.timers)
          (reset_timer-IsValid h ti old s e v))
]

pub Outcome-cases : (o : Outcome) → (o ≡ failed) ⊎ ((o ≡ no_torrent) ⊎ (o ≡ torrent))
Outcome-cases failed = inl refl
Outcome-cases no_torrent = inr (inl refl)
Outcome-cases torrent = inr (inr refl)

pub Answer-cases :
    {M : Type 0} (a : Answer M) → (a ≡ store_error) ⊎ ((a ≡ missing) ⊎ ((m : M) × (a ≡ found m)))
Answer-cases store_error = inl refl
Answer-cases missing = inr (inl refl)
Answer-cases (found m) = inr (inr (m, refl))

-- What Get comes to: the map as it was, or the torrent kept.
pub get_torrent_cases :
    (now : ℕ) (o : Sources) (h : Text) (s : TorrentMap)
    → (get_torrent now o h s ≡ (s, failed))
      ⊎ (get_torrent now o h s ≡ (s, no_torrent))
      ⊎ (get_torrent now o h s ≡ (keep_torrent now h s, torrent))
unfolding get_torrent
get_torrent_cases now o h s = elim (Bool-cases o.client_ready) [
  | inr no_client ↦ inl (rw (get_torrent, no_client) refl)
  | inl ready ↦ elim (Answer-cases (find_info o h)) [
    | inl e ↦ inl (rw (get_torrent, ready, e) refl)
    | inr (inl e) ↦ inr (inl (rw (get_torrent, ready, e) refl))
    | inr (inr (m, e)) ↦ elim (Bool-cases (o.can_add m)) [
      | inl can ↦ inr (inr (rw (get_torrent, ready, e, can) refl))
      | inr cannot ↦ inl (rw (get_torrent, ready, e, cannot) refl)
    ]
  ]
]

pub step-IsValid : {now : ℕ} {s t : TorrentMap} → Step now s t → IsValid s → IsValid t
step-IsValid {now} {s} (touched h) v = touch_torrent-IsValid now h s v
step-IsValid {now} {s} (got o h) v = elim (get_torrent_cases now o h s) [
  | inl e ↦ subst (λ x. IsValid x.0) (sym e) v
  | inr (inl e) ↦ subst (λ x. IsValid x.0) (sym e) v
  | inr (inr e) ↦ subst (λ x. IsValid x.0) (sym e) (keep_torrent-IsValid now h s v)
]
step-IsValid {now} {s} (fires h d e l) v =
    unfold fire reset_timer in reset_timer-IsValid h fired (runs_until d) s e v
step-IsValid {now} {s} (drops h e) v = drop_torrent-IsValid h fired s e v

Steps-IsValid : {now end : ℕ} {s t : TorrentMap} → Steps now s end t → IsValid s → IsValid t
Steps-IsValid here v = v
Steps-IsValid (next l st sts) v = Steps-IsValid sts (step-IsValid st v)

-- In every state that calls, timers and their goroutines reach from the empty map, each torrent has
-- one timer, the gauge of active torrents is the number of timers, and every torrent in the client
-- has a timer that will drop it.
pub new_torrent_map-IsValid :
    (now end : ℕ) (s : TorrentMap) → Steps now new_torrent_map end s → IsValid s
unfolding lookup
new_torrent_map-IsValid now end s sts =
    Steps-IsValid sts (record { unique = tt; counted = refl; timed = λ h n. refl })

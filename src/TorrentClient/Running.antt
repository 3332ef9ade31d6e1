-- ===== src/TorrentClient/Running.antt =====
-- server/services/torrent_client.go: what holds of the clients in every state that Get and the
-- goroutines reach.
use torrent_web_seeder.Prelude.{
  ℕ, ◌≡◌, refl, ◌<◌, true, false, none, some, Bool-cases, if_split, Text, Result, ok, err, arith,
  ◌≢◌, inl, inr,
}
use torrent_web_seeder.TorrentClient.Life.{
  TorrentClient, waiting, found_idle, returned, Step, gets, ticks, closes_idle, sees_closed, holds,
  get_client, close_idle, check_idle, set_torrents, set_watcher, Steps, here, next, never_started,
  make_client, is_current,
}

-- Before Close: an open client is the one that is kept, and it is watched; the client that is kept
-- is open; a state that is not initialised keeps none.
pub record IsValid (s : TorrentClient) : Type 0 where
  pub kept : (i : ℕ) → (s.clients i).is_open ≡ true → s.cl ≡ some i
  pub watched : (i : ℕ) → (s.clients i).is_open ≡ true → (s.clients i).watcher ≢ returned
  pub current : (i : ℕ) → s.cl ≡ some i → (s.clients i).is_open ≡ true
  pub empty : s.inited ≡ false → s.cl ≡ none
  pub numbered : (i : ℕ) → (s.clients i).is_open ≡ true → i < s.made

module _ {s : TorrentClient} (v : IsValid s) where
  open v use {kept, watched, current, empty, numbered}

  make_client-IsValid : (r : Result (Unit {0})) → s.inited ≡ false → IsValid (make_client r s)
  unfolding make_client
  make_client-IsValid (err e) f = record {
    kept = λ j o. cc (kept j o, empty f);
    watched = watched;
    current = λ j e. cc;
    empty = λ e. cc;
    numbered = numbered;
  }
  make_client-IsValid (ok u) f = record {
    kept = λ j o. ground (arith, kept j, empty f);
    watched = λ j o. ground (arith, watched j);
    current = λ j e. ground arith;
    empty = λ e. cc;
    numbered = λ j o. ground (arith, numbered j);
  }

  get_client-IsValid : (r : Result (Unit {0})) → IsValid (get_client r s).0
  unfolding get_client
  get_client-IsValid r = if_split IsValid s.inited (λ y. v) (λ n. make_client-IsValid r n)

  close_idle-IsValid : (i : ℕ) → (s.clients i).watcher ≡ found_idle → IsValid (close_idle i s)
  unfolding close_idle
  close_idle-IsValid i w = elim (Bool-cases (is_current i s.cl)) [
    | inl y ↦ rw y (record {
      kept = λ j o. ground (arith, kept j);
      watched = λ j o. ground (arith, watched j, kept j);
      current = λ j e. cc;
      empty = λ e. refl;
      numbered = λ j o. ground (arith, numbered j);
    })
    | inr n ↦ rw n (record {
      kept = λ j o. ground (arith, kept j);
      watched = λ j o. ground (arith, watched j, kept j);
      current = λ j e. ground (arith, current j);
      empty = λ e. empty e;
      numbered = λ j o. ground (arith, numbered j);
    })
  ]

  check_idle-IsValid : (i : ℕ) → (s.clients i).watcher ≡ waiting → IsValid (check_idle i s)
  unfolding check_idle
  check_idle-IsValid i w = record {
    kept = λ j o. ground (arith, kept j);
    watched = λ j o. ground (arith, watched j);
    current = λ j e. ground (arith, current j);
    empty = λ e. ground (arith, empty);
    numbered = λ j o. ground (arith, numbered j);
  }

  set_watcher-IsValid : (i : ℕ) → (s.clients i).is_open ≡ false → IsValid (set_watcher i returned s)
  unfolding set_watcher
  set_watcher-IsValid i c = record {
    kept = λ j o. ground (arith, kept j);
    watched = λ j o. ground (arith, watched j);
    current = λ j e. ground (arith, current j);
    empty = empty;
    numbered = λ j o. ground (arith, numbered j);
  }

  set_torrents-IsValid : (i n : ℕ) → IsValid (set_torrents i n s)
  unfolding set_torrents
  set_torrents-IsValid i n = record {
    kept = λ j o. ground (arith, kept j);
    watched = λ j o. ground (arith, watched j);
    current = λ j e. ground (arith, current j);
    empty = empty;
    numbered = λ j o. ground (arith, numbered j);
  }

Step-IsValid : {s t : TorrentClient} → Step s t → IsValid s → IsValid t
Step-IsValid (gets r) v = get_client-IsValid v r
Step-IsValid (ticks i w) v = check_idle-IsValid v i w
Step-IsValid (closes_idle i w) v = close_idle-IsValid v i w
Step-IsValid (sees_closed i w c) v = set_watcher-IsValid v i c
Step-IsValid (holds i n o) v = set_torrents-IsValid v i n

Steps-IsValid : {s t : TorrentClient} → Steps s t → IsValid s → IsValid t
Steps-IsValid here v = v
Steps-IsValid (next st more) v = Steps-IsValid more (Step-IsValid st v)

never_started-IsValid : IsValid never_started
never_started-IsValid = record {
  kept = λ i o. cc;
  watched = λ i o. cc;
  current = λ i e. cc;
  empty = λ e. refl;
  numbered = λ i o. cc;
}

pub reached-IsValid : {s : TorrentClient} → Steps never_started s → IsValid s
reached-IsValid r = Steps-IsValid r never_started-IsValid

-- In every state that is reached without Close, at most one client is open: the one that Get
-- returns. Its goroutine has not returned.
pub one_client :
    {s : TorrentClient} (i : ℕ)
    → Steps never_started s
    → (s.clients i).is_open ≡ true
    → (s.cl ≡ some i) × ((s.clients i).watcher ≢ returned)
one_client i r o = let v = reached-IsValid r in (v.kept i o, v.watched i o)

-- Without Close, what Get returns is an error, or a client that is open.
get_client_open :
    {s : TorrentClient} (r : Result (Unit {0}))
    → Steps never_started s
    → (i : ℕ) → (get_client r s).1.0 ≡ some i
    → ((get_client r s).0.clients i).is_open ≡ true
unfolding get_client
get_client_open r st i = (get_client-IsValid (reached-IsValid st) r).current i

-- A start that failed.
pub record Failed (e : Text) (s : TorrentClient) : Type 0 where
  pub no_client : s.cl ≡ none
  pub failure : s.error ≡ some e
  pub inited : s.inited ≡ true

Step-Failed : {e : Text} {s t : TorrentClient} → Step s t → Failed e s → Failed e t
unfolding get_client close_idle check_idle set_watcher set_torrents
Step-Failed (gets r) f = ground arith
Step-Failed (ticks i w) f = ground arith
Step-Failed (closes_idle i w) f = ground arith
Step-Failed (sees_closed i w c) f = ground arith
Step-Failed (holds i n o) f = ground arith

Steps-Failed : {e : Text} {s t : TorrentClient} → Steps s t → Failed e s → Failed e t
Steps-Failed here f = f
Steps-Failed (next st more) f = Steps-Failed more (Step-Failed st f)

make_client-Failed :
    (e : Text) (s : TorrentClient) → s.inited ≡ false → Failed e (get_client (err e) s).0
unfolding get_client
make_client-Failed e s h = ground arith

get_client-Failed :
    (e : Text) (r : Result (Unit {0})) (s : TorrentClient)
    → Failed e s
    → (get_client r s) ≡ (s, (none, some e))
unfolding get_client
get_client-Failed e r s f = ground arith

-- Once a start has failed, each later Get returns its error and changes nothing, whatever Gets and
-- goroutines come in between, and whatever a new start would come to.
pub get_client_fails_for_good :
    (e : Text) (s t : TorrentClient) (r : Result (Unit {0}))
    → s.inited ≡ false
    → Steps (get_client (err e) s).0 t
    → get_client r t ≡ (t, (none, some e))
get_client_fails_for_good e s t r h st =
    get_client-Failed e r t (Steps-Failed st (make_client-Failed e s h))

-- ===== src/TorrentClient/Racing.antt =====
-- server/services/torrent_client.go: the goroutine that closes an idle client looks for torrents
-- before it takes the mutex.
use torrent_web_seeder.Prelude.{ℕ, ◌≡◌, sym, subst, true, false, some, Result, arith}
use torrent_web_seeder.TorrentClient.Life.{
  TorrentClient, waiting, found_idle, ticks, closes_idle, holds, get_client, close_idle, check_idle,
  set_torrents, Steps, here, next, never_started,
}
use torrent_web_seeder.TorrentClient.Running.{reached-IsValid}

-- A tick, a Get that returns the client, torrents added to it, and the rest of the goroutine.
after_race : ℕ → ℕ → TorrentClient → TorrentClient
after_race i n s = close_idle i (set_torrents i n (check_idle i s))

pub got : (s : TorrentClient) (r : Result (Unit {0})) → s.inited ≡ true → (get_client r s).0 ≡ s
unfolding get_client
got s r f = ground arith

module _ (s : TorrentClient) (i n : ℕ) (f : s.inited ≡ true) (c : s.cl ≡ some i)
    (e : (s.clients i).torrents ≡ 0) (w : (s.clients i).watcher ≡ waiting)
    (live : (s.clients i).is_open ≡ true) where
  still_open : ((check_idle i s).clients i).is_open ≡ true
  unfolding check_idle
  still_open = ground arith

  still_inited : (check_idle i s).inited ≡ true
  unfolding check_idle
  still_inited = ground arith

  still_found : ((set_torrents i n (check_idle i s)).clients i).watcher ≡ found_idle
  unfolding check_idle set_torrents
  still_found = ground arith

  raced : Steps (check_idle i s) (after_race i n s)
  unfolding after_race
  raced = next (holds i n still_open) (next (closes_idle i still_found) here)

  race_torrents : ((after_race i n s).clients i).torrents ≡ n
  unfolding after_race check_idle set_torrents close_idle
  race_torrents = ground arith

  race_closed : ((after_race i n s).clients i).is_open ≡ false
  unfolding after_race check_idle set_torrents close_idle
  race_closed = ground arith

  race_returned : (r : Result (Unit {0})) → (get_client r (check_idle i s)).1.0 ≡ some i
  unfolding get_client check_idle
  race_returned r = ground arith

-- In a state that is reached without Close, with a client that Get returns, without torrents, its
-- goroutine waiting: a tick, then a Get that returns this client, then torrents added to it, and
-- the rest of the goroutine closes the client that was handed out, torrents and all.
pub handed_out_closed :
    (s : TorrentClient) (i n : ℕ) (r : Result (Unit {0}))
    → Steps never_started s
    → s.inited ≡ true
    → s.cl ≡ some i
    → (s.clients i).torrents ≡ 0
    → (s.clients i).watcher ≡ waiting
    → (t : TorrentClient) × (u : TorrentClient) × Steps s t
      × ((get_client r t).1.0 ≡ some i)
      × Steps (get_client r t).0 u
      × ((u.clients i).torrents ≡ n)
      × ((u.clients i).is_open ≡ false)
handed_out_closed s i n r st f c e w =
    let live = (reached-IsValid st).current i c in
    (
      check_idle i s,
      after_race i n s,
      next (ticks i w) here,
      race_returned s i n f c e w live r,
      subst (λ x. Steps x (after_race i n s))
          (sym (got (check_idle i s) r (still_inited s i n f c e w live)))
          (raced s i n f c e w live),
      race_torrents s i n f c e w live,
      race_closed s i n f c e w live,
    )

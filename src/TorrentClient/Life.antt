-- ===== src/TorrentClient/Life.antt =====
-- server/services/torrent_client.go: Get, Close and the goroutine that closes an idle client.
--
-- Get holds the mutex throughout, so it is one step. The goroutine of a client asks for the
-- client's torrents without the mutex and closes it under the mutex: two steps.
use torrent_web_seeder.Prelude.{
  ℕ, suc, ◌≡◌, Bool, true, false, Option, none, some, ◌==◌, if◌then◌else◌, Text, Result, ok, err,
}

-- The goroutine: in its select; past a tick at which the client had no torrents; returned.
pub data Watcher : Type 0 where
  waiting found_idle returned : Watcher

-- A client of anacrolix/torrent: whether it is not closed, and how many torrents it holds.
pub record Client : Type 0 where
  pub is_open : Bool
  pub torrents : ℕ
  pub watcher : Watcher

-- The fields cl, err and inited of TorrentClient, and the clients that were made, by number.
pub record TorrentClient : Type 0 where
  pub cl : Option ℕ
  pub error : Option Text
  pub inited : Bool
  pub made : ℕ
  pub clients : ℕ → Client

abbrev pub no_client : Client
no_client = record { is_open = false; torrents = 0; watcher = returned }

abbrev pub never_started : TorrentClient
never_started = record {
  cl = none;
  error = none;
  inited = false;
  made = 0;
  clients = λ i. no_client;
}

abbrev pub put : ℕ → Client → (ℕ → Client) → ℕ → Client
put i c f j = if i == j then c else f j

-- (*TorrentClient).get comes to an error, or to a new client with its goroutine.
unfoldable pub make_client : Result (Unit {0}) → TorrentClient → TorrentClient
make_client (err e) s = record s { cl = none; error = some e; inited = true }
make_client (ok u) s = record s {
  cl = some s.made;
  error = none;
  inited = true;
  made = suc s.made;
  clients = put s.made (record { is_open = true; torrents = 0; watcher = waiting }) s.clients;
}

unfoldable pub get_client :
    Result (Unit {0}) → TorrentClient → TorrentClient × (Option ℕ × Option Text)
unfolding make_client
get_client r s = let s' = (if s.inited then s else make_client r s) in (s', (s'.cl, s'.error))

-- Close of the client itself.
unfoldable pub close_client : ℕ → TorrentClient → TorrentClient
close_client i s = record s { clients = put i (record (s.clients i) { is_open = false }) s.clients }

unfoldable pub set_watcher : ℕ → Watcher → TorrentClient → TorrentClient
set_watcher i w s = record s { clients = put i (record (s.clients i) { watcher = w }) s.clients }

-- The tick of a minute: `continue` with torrents in the client.
unfoldable pub check_idle : ℕ → TorrentClient → TorrentClient
unfolding set_watcher
check_idle i s = if (s.clients i).torrents == 0 then set_watcher i found_idle s else s

abbrev pub is_current : ℕ → Option ℕ → Bool
is_current i none = false
is_current i (some j) = j == i

-- What the goroutine then does under the mutex.
unfoldable pub close_idle : ℕ → TorrentClient → TorrentClient
unfolding set_watcher close_client
close_idle i s =
    if is_current i s.cl
    then set_watcher i returned (record (close_client i s) { cl = none; inited = false })
    else set_watcher i returned s

-- (*TorrentClient).Close, without the mutex.
unfoldable pub close_torrent_client : TorrentClient → TorrentClient
unfolding close_client
close_torrent_client s = elim s.cl [ none ↦ s | some i ↦ close_client i s ]

-- A torrent is added to an open client, or dropped from it.
unfoldable pub set_torrents : ℕ → ℕ → TorrentClient → TorrentClient
set_torrents i n s = record s { clients = put i (record (s.clients i) { torrents = n }) s.clients }

pub data Step : TorrentClient → TorrentClient → Type 0 where
  gets : {s : TorrentClient} → (r : Result (Unit {0})) → Step s (get_client r s).0
  ticks : {s : TorrentClient} → (i : ℕ) → (s.clients i).watcher ≡ waiting → Step s (check_idle i s)
  closes_idle :
      {s : TorrentClient} → (i : ℕ) → (s.clients i).watcher ≡ found_idle → Step s (close_idle i s)
  -- A receive from cl.Closed().
  sees_closed :
      {s : TorrentClient}
      → (i : ℕ) → (s.clients i).watcher ≡ waiting
      → (s.clients i).is_open ≡ false
      → Step s (set_watcher i returned s)
  holds :
      {s : TorrentClient} → (i n : ℕ) → (s.clients i).is_open ≡ true → Step s (set_torrents i n s)

pub data Steps : TorrentClient → TorrentClient → Type 0 where
  here : {s : TorrentClient} → Steps s s
  next : {s t u : TorrentClient} → Step s t → Steps t u → Steps s u

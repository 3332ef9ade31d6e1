-- ===== src/TorrentClient.antt =====
-- server/services/torrent_client.go: the options of the torrent client, and its configuration.
--
-- The values of the command line are read through a parameter (Cli.Context). bytefmt.ToBytes and
-- url.Parse are parameters, and so is the default configuration of anacrolix/torrent, of which the
-- fields that are set here are kept.
pub mod Flags
pub mod Life
pub mod Running
pub mod Racing
pub mod Dialing
use torrent_web_seeder.Prelude.{
  ℕ, ◌-◌, Bool, true, false, ◌&&◌, ◌||◌, not, Option, none, some, List, [], ◌∷◌, ◌++◌, ◌==◌,
  if◌then◌else◌, Text, text_eq, codes, is_nil, Int64, two_64, Result, ok, err,
}
use torrent_web_seeder.Cli.{Context, wrap}
use torrent_web_seeder.TorrentClient.Flags

-- The fields of TorrentClient that NewTorrentClient sets.
pub record Options : Type 0 where
  pub r_limit : Int64
  pub data_dir : Text
  pub proxy : Text
  pub ua : Text
  pub d_utp : Bool
  pub d_web_torrent : Bool
  pub d_webseeds : Bool
  pub established_conns_per_torrent : Int64
  pub half_open_conns_per_torrent : Int64
  pub torrent_peers_high_water : Int64
  pub torrent_peers_low_water : Int64
  pub total_half_open_conns : Int64
  pub no_upload : Bool
  pub seed : Bool
  pub max_unverified_bytes : Int64
  pub debug : Bool
  pub min_dial_timeout : Int64
  pub nominal_dial_timeout : Int64
  pub handshake_timeout : Int64
  pub keep_alive_timeout : Int64
  pub piece_hashers_per_torrent : Int64
  pub dial_rate_limit : Int64
  pub per_torrent_cache_budget : Int64
  pub torrent_client_debug : Bool

-- int64(-1)
abbrev pub minus_one : Int64
minus_one = two_64 - 1

infixl 5 ◌>>=◌
abbrev pub ◌>>=◌ {ℓ κ} : {A : Type ℓ} {B : Type κ} → Result A → (A → Result B) → Result B
ok a >>= f = f a
err e >>= f = err e

-- What is set for an empty flag, or else the bytes that the flag says. A uint64 and the int64 that
-- it is converted to have one bit pattern.
unfoldable pub parse_bytes : (Text → Result ℕ) → Text → Bool → Int64 → Text → Result Int64
parse_bytes to_bytes message unset default text =
    if unset
    then ok default
    else elim (to_bytes text) [ err e ↦ err (wrap message e) | ok n ↦ ok n ]

unfoldable pub parse_download_rate : (Text → Result ℕ) → Context → Result Int64
unfolding parse_bytes
parse_download_rate to_bytes c =
    let text = c.string Flags.download_rate in
    parse_bytes to_bytes (codes "failed to parse download rate flag") (is_nil text) minus_one text

unfoldable pub parse_max_unverified_bytes : (Text → Result ℕ) → Context → Result Int64
unfolding parse_bytes
parse_max_unverified_bytes to_bytes c =
    let text = c.string Flags.max_unverified_bytes in
    parse_bytes to_bytes (codes "failed to parse max unverified bytes flag") (is_nil text) minus_one
      text

unfoldable pub parse_cache_budget : (Text → Result ℕ) → Context → Result Int64
unfolding parse_bytes
parse_cache_budget to_bytes c =
    let text = c.string Flags.per_torrent_cache_budget in
    parse_bytes to_bytes (codes "failed to parse per-torrent cache budget flag")
      (is_nil text || text_eq text (codes "0")) 0 text

-- The options from the flags and the three numbers of bytes.
unfoldable pub options : Context → Int64 → Int64 → Int64 → Options
options c dr ub cache_budget = record {
  r_limit = dr;
  data_dir = c.string Flags.data_dir;
  proxy = c.string Flags.http_proxy;
  ua = c.string Flags.user_agent;
  d_utp = c.bool Flags.disable_utp;
  d_web_torrent = c.bool Flags.disable_webtorrent;
  d_webseeds = c.bool Flags.disable_webseeds;
  established_conns_per_torrent = c.int Flags.established_conns_per_torrent;
  half_open_conns_per_torrent = c.int Flags.half_open_conns_per_torrent;
  torrent_peers_high_water = c.int Flags.torrent_peers_high_water;
  torrent_peers_low_water = c.int Flags.torrent_peers_low_water;
  total_half_open_conns = c.int Flags.total_half_open_conns;
  no_upload = c.bool Flags.no_upload;
  seed = c.bool Flags.seed;
  max_unverified_bytes = ub;
  debug = c.bool Flags.debug;
  min_dial_timeout = c.duration Flags.min_dial_timeout;
  nominal_dial_timeout = c.duration Flags.nominal_dial_timeout;
  handshake_timeout = c.duration Flags.handshake_timeout;
  keep_alive_timeout = c.duration Flags.keep_alive_timeout;
  piece_hashers_per_torrent = c.int Flags.piece_hashers_per_torrent;
  dial_rate_limit = c.int Flags.dial_rate_limit;
  per_torrent_cache_budget = cache_budget;
  torrent_client_debug = c.bool Flags.torrent_client_debug;
}

unfoldable pub new_torrent_client : (Text → Result ℕ) → Context → Result Options
unfolding parse_download_rate parse_max_unverified_bytes parse_cache_budget options
new_torrent_client to_bytes c = do
  dr ← parse_download_rate to_bytes c
  ub ← parse_max_unverified_bytes to_bytes c
  cache_budget ← parse_cache_budget to_bytes c
  ok (options c dr ub cache_budget)

-- rate.NewLimiter of a rate and a burst.
pub record Limiter : Type 0 where
  pub rate : Int64
  pub burst : Int64

-- torrent.ClientConfig, as far as it is set: a limiter or a proxy that is `none` is nil.
pub record ClientConfig (Url : Type 0) : Type 0 where
  pub debug : Bool
  pub discards_log : Bool
  pub storage_dir : Text
  pub storage_budget : Int64
  pub http_user_agent : Text
  pub no_upload : Bool
  pub seed : Bool
  pub disable_utp : Bool
  pub disable_webtorrent : Bool
  pub disable_webseeds : Bool
  pub http_proxy : Option Url
  pub established_conns_per_torrent : Int64
  pub half_open_conns_per_torrent : Int64
  pub torrent_peers_high_water : Int64
  pub torrent_peers_low_water : Int64
  pub total_half_open_conns : Int64
  pub download_rate_limiter : Option Limiter
  pub max_unverified_bytes : Int64
  pub dial_rate_limiter : Option Limiter
  pub nominal_dial_timeout : Int64
  pub min_dial_timeout : Int64
  pub handshakes_timeout : Int64
  pub keep_alive_timeout : Int64
  pub piece_hashers_per_torrent : Int64

-- The value of an option, unless it is 0.
unfoldable pub unless_zero : Int64 → Int64 → Int64
unless_zero option default = if option == 0 then default else option

unfoldable pub parse_proxy :
    {Url : Type 0} → (Text → Result Url) → Text → Option Url → Result (Option Url)
parse_proxy parse proxy default = if is_nil proxy then ok default else elim (parse proxy) [
  | err e ↦ err (wrap (codes "failed to parse proxy u=" ++ proxy) e)
  | ok u ↦ ok (some u)
]

-- The first part of (*TorrentClient).get, which ends where torrent.NewClient is called.
unfoldable pub client_config :
    {Url : Type 0} → (Text → Result Url) → ClientConfig Url → Options → Result (ClientConfig Url)
unfolding unless_zero parse_proxy
client_config parse cfg s = do
  http_proxy ← parse_proxy parse s.proxy cfg.http_proxy
  ok (record {
    debug = if s.torrent_client_debug then true else cfg.debug;
    discards_log = not s.torrent_client_debug;
    storage_dir = s.data_dir;
    storage_budget = s.per_torrent_cache_budget;
    http_user_agent = if is_nil s.ua then cfg.http_user_agent else s.ua;
    no_upload = s.no_upload;
    seed = s.seed;
    disable_utp = s.d_utp;
    disable_webtorrent = s.d_web_torrent;
    disable_webseeds = s.d_webseeds;
    http_proxy = http_proxy;
    established_conns_per_torrent =
        unless_zero s.established_conns_per_torrent cfg.established_conns_per_torrent;
    half_open_conns_per_torrent =
        unless_zero s.half_open_conns_per_torrent cfg.half_open_conns_per_torrent;
    torrent_peers_high_water = unless_zero s.torrent_peers_high_water cfg.torrent_peers_high_water;
    torrent_peers_low_water = unless_zero s.torrent_peers_low_water cfg.torrent_peers_low_water;
    total_half_open_conns = unless_zero s.total_half_open_conns cfg.total_half_open_conns;
    download_rate_limiter =
        if s.r_limit == minus_one
        then cfg.download_rate_limiter
        else some (record { rate = s.r_limit; burst = s.r_limit });
    max_unverified_bytes =
        if s.max_unverified_bytes == minus_one
        then cfg.max_unverified_bytes
        else s.max_unverified_bytes;
    dial_rate_limiter =
        if s.dial_rate_limit == 0
        then cfg.dial_rate_limiter
        else some (record { rate = s.dial_rate_limit; burst = s.dial_rate_limit });
    nominal_dial_timeout = unless_zero s.nominal_dial_timeout cfg.nominal_dial_timeout;
    min_dial_timeout = unless_zero s.min_dial_timeout cfg.min_dial_timeout;
    handshakes_timeout = unless_zero s.handshake_timeout cfg.handshakes_timeout;
    keep_alive_timeout = unless_zero s.keep_alive_timeout cfg.keep_alive_timeout;
    piece_hashers_per_torrent =
        unless_zero s.piece_hashers_per_torrent cfg.piece_hashers_per_torrent;
  })

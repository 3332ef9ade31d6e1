-- ===== src/TorrentClient/Flags.antt =====
-- server/services/torrent_client.go: the names of the client's flags, and how they are registered.
use torrent_web_seeder.Prelude.{List, [], ◌∷◌, ◌++◌, Text, codes}
use torrent_web_seeder.Cli.{Flag, string_flag, int_flag, duration_flag, bool_flag}

abbrev pub download_rate : Text
download_rate = codes "download-rate"

abbrev pub user_agent : Text
user_agent = codes "user-agent"

abbrev pub http_proxy : Text
http_proxy = codes "http-proxy"

abbrev pub no_upload : Text
no_upload = codes "no-upload"

abbrev pub seed : Text
seed = codes "seed"

abbrev pub disable_utp : Text
disable_utp = codes "disable-utp"

abbrev pub disable_webtorrent : Text
disable_webtorrent = codes "disable-webtorrent"

abbrev pub disable_webseeds : Text
disable_webseeds = codes "disable-webseeds"

abbrev pub established_conns_per_torrent : Text
established_conns_per_torrent = codes "established-conns-per-torrent"

abbrev pub half_open_conns_per_torrent : Text
half_open_conns_per_torrent = codes "half-open-conns-per-torrent"

abbrev pub torrent_peers_high_water : Text
torrent_peers_high_water = codes "torrent-peers-high-water"

abbrev pub torrent_peers_low_water : Text
torrent_peers_low_water = codes "torrent-peers-low-water"

abbrev pub debug : Text
debug = codes "debug"

abbrev pub torrent_client_debug : Text
torrent_client_debug = codes "torrent-client-debug"

abbrev pub max_unverified_bytes : Text
max_unverified_bytes = codes "max-unverified-bytes"

abbrev pub total_half_open_conns : Text
total_half_open_conns = codes "total-half-open-conns"

abbrev pub min_dial_timeout : Text
min_dial_timeout = codes "min-dial-timeout"

abbrev pub nominal_dial_timeout : Text
nominal_dial_timeout = codes "nominal-dial-timeout"

abbrev pub handshake_timeout : Text
handshake_timeout = codes "handshake-timeout"

abbrev pub keep_alive_timeout : Text
keep_alive_timeout = codes "keep-alive-timeout"

abbrev pub piece_hashers_per_torrent : Text
piece_hashers_per_torrent = codes "piece-hashers-per-torrent"

abbrev pub dial_rate_limit : Text
dial_rate_limit = codes "dial-rate-limit"

abbrev pub per_torrent_cache_budget : Text
per_torrent_cache_budget = codes "per-torrent-cache-budget"

abbrev pub data_dir : Text
data_dir = codes "data-dir"

-- `temp_dir` is os.TempDir().
unfoldable pub register_torrent_client_flags : Text → List Flag → List Flag
register_torrent_client_flags temp_dir f =
    f
    ++ (string_flag download_rate (codes "download rate") [] (codes "DOWNLOAD_RATE")
        ∷ string_flag user_agent (codes "user agent") [] (codes "USER_AGENT")
        ∷ string_flag http_proxy (codes "http proxy") [] (codes "HTTP_PROXY")
        ∷ string_flag data_dir (codes "data dir") temp_dir (codes "DATA_DIR")
        ∷ bool_flag no_upload (codes "no upload") (codes "NO_UPLOAD")
        ∷ bool_flag seed (codes "seed") (codes "SEED")
        ∷ bool_flag disable_webtorrent (codes "disables WebTorrent") (codes "DISABLE_WEBTORRENT")
        ∷ bool_flag disable_webseeds (codes "disables webseeds") (codes "DISABLE_WEBSEEDS")
        ∷ bool_flag disable_utp (codes "disables utp") (codes "DISABLE_UTP")
        ∷ int_flag established_conns_per_torrent (codes "established conns per torrent") 0
            (codes "ESTABLISHED_CONNS_PER_TORRENT")
        ∷ int_flag half_open_conns_per_torrent (codes "half-open conns per torrent") 0
            (codes "HALF_OPEN_CONNS_PER_TORRENT")
        ∷ int_flag torrent_peers_high_water (codes "torrent peers high water") 0
            (codes "TORRENT_PEERS_HIGH_WATER")
        ∷ int_flag torrent_peers_low_water (codes "torrent peers low water") 0
            (codes "TORRENT_PEERS_LOW_WATER")
        ∷ bool_flag debug (codes "debug logging for the application") (codes "DEBUG")
        ∷ bool_flag torrent_client_debug
            (codes "verbose debug logging for anacrolix torrent client")
            (codes "TORRENT_CLIENT_DEBUG")
        ∷ string_flag max_unverified_bytes (codes "max unverified bytes") []
            (codes "MAX_UNVERIFIED_BYTES")
        ∷ int_flag total_half_open_conns (codes "total half open conns") 0
            (codes "TOTAL_HALF_OPEN_CONNS")
        ∷ duration_flag min_dial_timeout (codes "min dial timeout") 0 (codes "MIN_DIAL_TIMEOUT")
        ∷ duration_flag nominal_dial_timeout (codes "nominal dial timeout") 0
            (codes "NOMINAL_DIAL_TIMEOUT")
        ∷ duration_flag handshake_timeout (codes "handshake timeout") 0 (codes "HANDSHAKE_TIMEOUT")
        ∷ duration_flag keep_alive_timeout (codes "keep alive timeout") 0
            (codes "KEEPALIVE_TIMEOUT")
        ∷ int_flag piece_hashers_per_torrent (codes "piece hashers per torrent") 0
            (codes "PIECE_HASHERS_PER_TORRENT")
        ∷ int_flag dial_rate_limit (codes "dial rate limit") 0 (codes "DIAL_RATE_LIMIT")
        ∷ string_flag per_torrent_cache_budget
            (codes "per-torrent cache budget (e.g. 50GB, 0 = unlimited)") (codes "50GB")
            (codes "PER_TORRENT_CACHE_BUDGET")
        ∷ [])

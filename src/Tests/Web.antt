-- ===== src/Tests/Web.antt =====
-- server/services/web_seeder.go: requests for a torrent of two files, one of which is on record.
use torrent_web_seeder.Prelude.{
  ◌-◌, ◌≡◌, ◌≢◌, ◌↔◌, ◌⊎◌, refl, true, false, none, some, List, [], ◌∷◌, ◌++◌, arith, Text, codes,
  length, take, has_prefix, text_eq, text_Eq, lookup, insert, delete, elem, ok, err, join,
}
use torrent_web_seeder.Files.{Info, full_path}
use torrent_web_seeder.FileCache.{Disk, present}
use torrent_web_seeder.FileCache.Counted.{lower_case}
use torrent_web_seeder.FileCount.{InfoStores}
use torrent_web_seeder.TorrentMap.{
  TorrentMap, new_torrent_map, Sources, get_torrent, missing, found, no_torrent, got, here, next,
}
use torrent_web_seeder.TorrentMap.Running.{IsValid, new_torrent_map-IsValid}
use torrent_web_seeder.WebSeeder.Request.{Request, get_hash, is_hash}
use torrent_web_seeder.WebSeeder.Calls.{Services, Call}
use torrent_web_seeder.WebSeeder.Files.{serve_file}
use torrent_web_seeder.WebSeeder.Available.{serve_done, serve_stats}
use torrent_web_seeder.WebSeeder.Available.Exact.{IsAvailable, done_and_stats_exact}
use torrent_web_seeder.WebSeeder.Available.OnRecord.{with_caches}
use torrent_web_seeder.WebSeeder.Routes.{Route, route, route_path, serve_http}
use torrent_web_seeder.WebSeeder.Routes.Paths.{file_url, route-file_url}
use torrent_web_seeder.WebSeeder.Routes.Answers.{answers}
use torrent_web_seeder.WebSeeder.Routes.Serving.{serve_file_once}
use torrent_web_seeder.WebSeeder.Routes.Loading.{NeedsTorrent, serve_http_loads, serve_http-IsValid}

program : Unit {0}
unfolding get_torrent lookup insert delete text_eq elem has_prefix full_path join get_hash route
    route_path
program = tt

abbrev pub hash : Text
hash = codes "0123456789"

abbrev pub info : Info
info = record {
  name = codes "N";
  files =
      record { path = codes "a" ∷ []; length = 3 }
      ∷ record { path = codes "d" ∷ codes "b" ∷ []; length = 5 }
      ∷ [];
  piece_length = 4;
  num_pieces = 2;
  total_length = 8;
  piece_offset = λ i. i;
  piece_size = λ i. 4;
}

abbrev pub kept : List Text
kept = codes "N/d/b" ∷ []

-- A pattern that ends in a wildcard.
abbrev pub disk : Disk
disk = record {
  Conn = List Text;
  get_dir = λ h. ok (codes "/data/" ++ h);
  stat = λ p. present;
  open_conn = λ p. ok kept;
  rows = ok;
  like = λ x pattern. has_prefix (lower_case x) (lower_case (take (length pattern - 1) pattern));
  kept = λ k. none;
  sha1_hex = λ p. codes "ab" ++ p;
  join_path = λ ps. join ps (codes "/");
}

abbrev pub stores : InfoStores
stores = record {
  MetaInfo = Info;
  file_store = λ h. ok none;
  torrent_store = λ h. ok (some info);
  unmarshal_info = ok;
  kept = λ h. none;
}

abbrev pub sources : Sources
sources = record {
  MetaInfo = Text;
  client_ready = true;
  file_store = λ h. missing;
  torrent_store = found;
  can_add = λ m. true;
}

abbrev pub bare : Services
bare = record {
  sources = sources;
  torrent_error = λ h. codes "torrent error";
  torrent_of = λ h. record {
    name = codes "N";
    upverted = (codes "a" ∷ []) ∷ (codes "d" ∷ codes "b" ∷ []) ∷ [];
    files = codes "N/a" ∷ codes "N/d/b" ∷ [];
  };
  list = ok [];
  cache = λ h p. ok [];
  dir_complete = λ h p n. ok false;
  total_files = λ h. ok 0;
  dir_file_count = λ h p. ok 0;
  vault = none;
  ask_vault = λ m u. err (codes "vault error");
  stream = λ h p. none;
  is_handler = true;
  can_flush = true;
  opens = λ p. true;
  encodes = λ h. true;
  etag = λ h p. codes "tag";
  since_epoch = λ t. false;
}

abbrev seeder : Services
seeder = with_caches bare disk stores

abbrev pub request : Request
request = record {
  method = codes "GET";
  path = file_url hash (codes "N/a");
  raw_query = [];
  query = [];
  info_hash = [];
  origin = [];
  if_none_match = [];
  if_modified_since = [];
}

hash_ok : is_hash hash ≡ true
unfolding is_hash
hash_ok = refl

route-file_url_example : route request ≡ some (route_path request hash (codes "N/a"))
route-file_url_example = route-file_url request hash (codes "N/a") hash_ok refl refl

got_torrent : (get_torrent 0 sources hash new_torrent_map).1 ≢ no_torrent
unfolding program
got_torrent e = cc

serve_file_once_example :
    (calls : List Call) × ((serve_file seeder 0 request new_torrent_map hash (codes "N/a")).1
      ≡ some calls)
    × (answers calls ≡ 1)
unfolding with_caches
serve_file_once_example =
    serve_file_once seeder 0 request new_torrent_map hash (codes "N/a") got_torrent

serve_http_loads_example :
    ((serve_http seeder 0 request new_torrent_map).0 ≡ new_torrent_map)
    ⊎ ((x : Route) × (route request ≡ some x)
        × ((h : Text) × NeedsTorrent seeder request x h
            × ((serve_http seeder 0 request new_torrent_map).0
                ≡ (get_torrent 0 sources h new_torrent_map).0)))
unfolding with_caches
serve_http_loads_example = serve_http_loads seeder 0 request new_torrent_map

abbrev held : TorrentMap
held = (get_torrent 0 sources (codes "a") new_torrent_map).0

held-IsValid : IsValid held
held-IsValid =
    new_torrent_map-IsValid 0 0 held (next {later = 0} (omega arith) (got sources (codes "a")) here)

serve_http-IsValid_example : IsValid (serve_http seeder 0 request held).0
serve_http-IsValid_example = serve_http-IsValid seeder 0 request held held-IsValid

done_and_stats_exact_example :
    ((serve_done seeder hash (codes "N/d") ≡ []) ↔ IsAvailable seeder hash (codes "N/d"))
    × (((serve_stats seeder 0 new_torrent_map hash (codes "N/d")).1
          ≡ some (Call.not_found_sent ∷ []))
        ↔ IsAvailable seeder hash (codes "N/d"))
done_and_stats_exact_example = done_and_stats_exact seeder 0 new_torrent_map hash (codes "N/d")

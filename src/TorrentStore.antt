-- ===== src/TorrentStore.antt =====
-- server/services/torrent_store.go, torrent_store_map.go and touch_map.go: the client of the torrent
-- store, the torrents that it pulls, and the file that is touched for a torrent.
--
-- gRPC, the parser of torrents and the file system are parameters; `decimal` is the verb %d. `pull_torrent`
-- and `touch_file` are what is computed when the lazy map in front of them has no answer.
use torrent_web_seeder.Prelude.{
  ◌≡◌, Option, none, some, List, [], ◌∷◌, ◌++◌, Text, codes, Int64, Result, ok, err, arith,
}
use torrent_web_seeder.Cli.{Flag, string_flag, int_flag, Context, wrap}
use torrent_web_seeder.FileCache.{Presence, present, absent, unknown}

abbrev pub torrent_store_host : Text
torrent_store_host = codes "torrent-store-host"

abbrev pub torrent_store_port : Text
torrent_store_port = codes "torrent-store-port"

unfoldable pub register_torrent_store_flags : List Flag → List Flag
register_torrent_store_flags f =
    f
    ++ (string_flag torrent_store_host (codes "torrent store host") []
          (codes "TORRENT_STORE_SERVICE_HOST, TORRENT_STORE_HOST")
        ∷ int_flag torrent_store_port (codes "torrent store port") 50051
            (codes "TORRENT_STORE_SERVICE_PORT, TORRENT_STORE_PORT")
        ∷ [])

-- `answer` is cl and err, once they are set; `conn` is not nil.
pub record TorrentStore (Conn : Type 0) : Type 0 where
  pub host : Text
  pub port : Int64
  pub conn : Option Conn
  pub answer : Option (Result Conn)

module _ {Conn : Type 0} where
  unfoldable pub new_torrent_store : Context → TorrentStore Conn
  new_torrent_store c = record {
    host = c.string torrent_store_host;
    port = c.int torrent_store_port;
    conn = none;
    answer = none;
  }

  -- A client is known by its connection. A connection that fails is nil.
  unfoldable pub dial :
      (Int64 → Text) → (Text → Result Conn) → TorrentStore Conn → TorrentStore Conn × Result Conn
  dial decimal new_client s =
      let addr = s.host ++ (codes ":" ++ decimal s.port) in
      elim (new_client addr) [
        | err e ↦ (
          record s { conn = none },
          err (wrap (codes "failed to dial torrent store addr=" ++ addr) e),
        )
        | ok conn ↦ (record s { conn = some conn }, ok conn)
      ]

  unfoldable pub get_store :
      (Int64 → Text) → (Text → Result Conn) → TorrentStore Conn → TorrentStore Conn × Result Conn
  unfolding dial
  get_store decimal new_client s = elim s.answer [
    | some r ↦ (s, r)
    | none ↦ (let (s', r) = dial decimal new_client s in (record s' { answer = some r }, r))
  ]

  -- TorrentStoreMap.get: the bytes that the store answers with, parsed.
  unfoldable pub pull_torrent :
      {MetaInfo : Type 0}
      → (Conn → Text → Result Text)
      → (Text → Result MetaInfo)
      → Result Conn
      → Text
      → Result MetaInfo
  pull_torrent pull load client h = elim client [
    | err e ↦ err (wrap (codes "failed to get torrent store client") e)
    | ok c ↦ elim (pull c h) [
      | err e ↦ err (wrap (codes "failed to pull torrent from the torrent store") e)
      | ok bytes ↦ elim (load bytes) [
        | err e ↦ err (wrap (codes "failed to parse torrent") e)
        | ok mi ↦ ok mi
      ]
    ]
  ]

  -- A second Get comes to what the first came to, whatever the network answers by then.
  get_store-get_store :
      (decimal : Int64 → Text) (now later : Text → Result Conn) (s : TorrentStore Conn)
      → let first = get_store decimal now s in get_store decimal later first.0 ≡ first
  unfolding get_store
  get_store-get_store decimal now later s = ground arith

-- What happens to the file of a torrent.
pub data TouchEffect : Type 0 where
  created touched : Text → TouchEffect

-- TouchMap.touch: a file that is not known to be absent has its times set.
unfoldable pub touch_file :
    (Text → Result Text)
    → (Text → Presence)
    → (Text → Option Text)
    → (Text → Option Text)
    → Text
    → Result TouchEffect
touch_file get_dir stat create chtimes h = elim (get_dir h) [
  | err e ↦ err e
  | ok dir ↦
      (let f = dir ++ codes ".touch" in
        let set_times : Result TouchEffect = (elim (chtimes f) [
          | some e ↦ err e
          | none ↦ ok (touched f)
        ]) in
        elim (stat f) [
          | absent ↦ elim (create f) [ some e ↦ err e | none ↦ ok (created f) ]
          | present ↦ set_times
          | unknown e ↦ set_times
        ])
]

-- ===== src/Stat.antt =====
-- server/services/stat.go: the status of a torrent or a file, and the stream of changes.
--
-- What anacrolix/torrent says of a torrent at one moment is the record `Torrent`; its constant
-- PiecePriorityNormal is a parameter. The metadata of a request is its list of info-hash values.
pub mod Pieces
pub mod Stream
pub mod Handler
use torrent_web_seeder.Prelude.{
  ℕ, zero, suc, ◌+◌, ◌%◌, Bool, true, false, not, ◌&&◌, ◌||◌, Option, none, some, List, [], ◌∷◌,
  ◌==◌, ltb, if◌then◌else◌, length, map, Text, text_eq, Int64, add64, sub64,
}

-- The enumerations of torrent-web-seeder.proto.
pub data Status : Type 0 where
  initialization seeding idle terminated waiting_for_peers restoring backingup : Status

pub data Priority : Type 0 where
  no_priority normal high readahead next now : Priority

pub Priority-discrete : Discrete Priority
Priority-discrete = hlevel

pub record Piece : Type 0 where
  pub position : Int64
  pub complete : Bool
  pub priority : Priority

pub record StatReply : Type 0 where
  pub total : Int64
  pub completed : Int64
  pub peers : ℕ  -- int32
  pub status : Status
  pub pieces : List Piece
  pub seeders : ℕ  -- int32
  pub leechers : ℕ  -- int32

-- torrent.PieceState and torrent.FilePieceState
pub record PieceState : Type 0 where
  pub priority : ℕ
  pub complete : Bool
  pub bytes : Int64

pub record File : Type 0 where
  pub path : Text
  pub length : Int64
  pub state : List PieceState

pub record Torrent : Type 0 where
  pub bytes_completed : Int64
  pub piece_states : List PieceState
  pub active_peers : Int64
  pub connected_seeders : Int64
  pub total_length : Int64
  pub files : List File

-- int32(n)
unfoldable pub to_int32 : Int64 → ℕ
to_int32 n = n % 4294967296

unfoldable pub bytes_from : Int64 → List PieceState → Int64
bytes_from res [] = res
bytes_from res (p ∷ ps) = bytes_from (if p.complete then add64 res p.bytes else res) ps

unfoldable pub file_bytes_completed : List PieceState → Int64
unfolding bytes_from
file_bytes_completed states = bytes_from 0 states

unfoldable pub reply_priority : ℕ → ℕ → Priority
reply_priority normal_priority p =
    if p == normal_priority then normal else if ltb normal_priority p then high else no_priority

unfoldable pub reply_pieces : ℕ → ℕ → List PieceState → List Piece
unfolding reply_priority
reply_pieces normal_priority i [] = []
reply_pieces normal_priority i (p ∷ ps) =
    record {
      position = i;
      complete = p.complete;
      priority = reply_priority normal_priority p.priority;
    }
    ∷ reply_pieces normal_priority (i + 1) ps

-- The reply that torrentStat and fileStat build alike.
unfoldable pub make_reply : ℕ → Torrent → Int64 → Int64 → List PieceState → StatReply
unfolding reply_pieces to_int32
make_reply normal_priority t completed total states = record {
  total = total;
  completed = completed;
  peers = to_int32 t.active_peers;
  status = if completed == 0 then waiting_for_peers else seeding;
  pieces = reply_pieces normal_priority 0 states;
  seeders = to_int32 t.connected_seeders;
  leechers = to_int32 (sub64 t.active_peers t.connected_seeders);
}

unfoldable pub torrent_stat : ℕ → Torrent → StatReply
unfolding make_reply
torrent_stat normal_priority t =
    make_reply normal_priority t t.bytes_completed t.total_length t.piece_states

unfoldable pub file_stat : ℕ → Torrent → File → StatReply
unfolding make_reply file_bytes_completed
file_stat normal_priority t f =
    make_reply normal_priority t (file_bytes_completed f.state) f.length f.state

unfoldable pub find_file : List File → Text → Option File
find_file [] path = none
find_file (f ∷ fs) path = if text_eq f.path path then some f else find_file fs path

pub data Failure : Type 0 where
  no_info_hash : Failure
  lookup_failed : Failure
  file_not_found : Text → Failure

pub data Outcome {ℓ} (A : Type ℓ) : Type ℓ where
  reply : A → Outcome A
  failed : Failure → Outcome A
  nil_torrent : Outcome A

-- The info hash of a request; an absent or empty one is refused.
unfoldable pub info_hash : List Text → Option Text
info_hash [] = none
info_hash ([] ∷ hs) = none
info_hash ((c ∷ h) ∷ hs) = some (c ∷ h)

-- TorrentMap.Get as the service sees it: an error, a nil torrent, or a torrent.
pub data Lookup : Type 0 where
  lookup_error : Lookup
  lookup_nil : Lookup
  found : Torrent → Lookup

-- `statUncached` behind the torrent: a whole torrent for the empty path, or one of its files.
unfoldable pub stat_of : ℕ → Torrent → Text → Outcome StatReply
unfolding find_file torrent_stat file_stat
stat_of normal_priority t [] = reply (torrent_stat normal_priority t)
stat_of normal_priority t (c ∷ path) = elim (find_file t.files (c ∷ path)) [
  | none ↦ failed (file_not_found (c ∷ path))
  | some f ↦ reply (file_stat normal_priority t f)
]

unfoldable pub stat_uncached : ℕ → (Text → Lookup) → List Text → Text → Outcome StatReply
unfolding info_hash stat_of
stat_uncached normal_priority get hashes path = elim (info_hash hashes) [
  | none ↦ failed no_info_hash
  | some h ↦ elim (get h) [
    | lookup_error ↦ failed lookup_failed
    | lookup_nil ↦ nil_torrent
    | found t ↦ stat_of normal_priority t path
  ]
]

-- `Files`
unfoldable pub list_files : (Text → Lookup) → List Text → Outcome (List Text)
unfolding info_hash
list_files get hashes = elim (info_hash hashes) [
  | none ↦ failed no_info_hash
  | some h ↦ elim (get h) [
    | lookup_error ↦ failed lookup_failed
    | lookup_nil ↦ nil_torrent
    | found t ↦ reply (map (λ f. f.path) t.files)
  ]
]

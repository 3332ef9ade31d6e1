-- ===== src/Storage/Opening.antt =====
-- OpenTorrent and recoverLRU: the storage of a torrent from what is on the disk.
--
-- The files are mapped, and the completion store is open. `walk` is the order in which Go walks a map,
-- and `get` is what the store's Get answers for each piece, none for an error.
use torrent_web_seeder.Prelude.{
  ℕ, zero, suc, ◌+◌, Bool, false, ◌&&◌, Option, none, some, List, [], ◌∷◌, ◌++◌, if◌then◌else◌,
  length, replicate, Int64, lt64,
}
use torrent_web_seeder.PieceLru
use torrent_web_seeder.PieceLru.{PieceLru}
use torrent_web_seeder.Files.{Info}
use torrent_web_seeder.Completions.{◌>>=◌, is_empty}
use torrent_web_seeder.PieceCompletion.{Completion}
use torrent_web_seeder.Storage.Store.{CompletionStore}
use torrent_web_seeder.Storage.{
  MmapTorrentStorage, Effect, bytes_added, piece_counted, read_ahead, guarded, evict_over_budget,
}

-- What mMapTorrent returns.
pub record Mapped : Type 0 where
  pub files : List Bool
  pub file_lens : List Int64
  pub mmaps : List (Option Int64)

unfoldable pub is_recorded : Option Completion → Bool
is_recorded none = false
is_recorded (some c) = c.ok && c.complete

-- The loop of recoverLRU, over `k` pieces from index `i`.
unfoldable pub complete_pieces : (ℕ → Option Completion) → Info → ℕ → ℕ → List (ℕ × Int64)
unfolding is_recorded
complete_pieces get info i zero = []
complete_pieces get info i (suc k) =
    let rest = complete_pieces get info (i + 1) k in
    if is_recorded (get i) then (i, info.piece_size i) ∷ rest else rest

-- The tracker, and what is added to the gauges.
unfoldable pub recover_lru :
    (List (ℕ × Int64) → List (ℕ × Int64))
    → Int64
    → (ℕ → Option Completion)
    → Info
    → PieceLru
    → PieceLru × List Effect
unfolding complete_pieces PieceLru.recover
recover_lru walk now get info lru =
    let pieces = complete_pieces get info 0 info.num_pieces in
    let lru' = PieceLru.recover now (walk pieces) lru in
    if is_empty pieces
    then (lru, [])
    else (lru', bytes_added lru'.used ∷ replicate (length pieces) piece_counted)

-- The loop over the mappings that are not nil.
unfoldable pub advise_sequential : ℕ → List (Option Int64) → List Effect
advise_sequential i [] = []
advise_sequential i (none ∷ ms) = advise_sequential (i + 1) ms
advise_sequential i (some n ∷ ms) = read_ahead i ∷ advise_sequential (i + 1) ms

unfoldable pub eviction_enabled : Int64 → Info → Bool
eviction_enabled budget info = lt64 0 budget && lt64 budget info.total_length

module _ (S : CompletionStore) where
  open S use {State}

  -- The storage without a tracker.
  unfoldable pub untracked : State → Info → Mapped → MmapTorrentStorage State
  untracked pc info m = record {
    pc = pc;
    lru = none;
    info = info;
    files = m.files;
    file_lens = m.file_lens;
    mmaps = m.mmaps;
    verify_ch = [];
    effects = [];
  }

  unfoldable pub evict_recovered :
      Int64 → PieceLru → MmapTorrentStorage State → Option (MmapTorrentStorage State)
  unfolding evict_over_budget
  evict_recovered budget lru ts = if lt64 budget lru.used then evict_over_budget S ts else some ts

  unfoldable pub advised : MmapTorrentStorage State → MmapTorrentStorage State
  unfolding advise_sequential
  advised ts = record ts { effects = ts.effects ++ advise_sequential 0 ts.mmaps }

  unfoldable pub open_torrent :
      Int64
      → (List (ℕ × Int64) → List (ℕ × Int64))
      → Int64
      → (ℕ → Option Completion)
      → State
      → Info
      → Mapped
      → Option (MmapTorrentStorage State)
  open_torrent budget walk now get pc info m =
      let ts = untracked pc info m in
      let (lru, effects) =
        recover_lru walk now get info (guarded S pc (PieceLru.new_piece_lru budget)) in
      if eviction_enabled budget info
      then (do
        ts' ← evict_recovered budget lru (record ts { lru = some lru; effects = effects })
        some (advised ts'))
      else some (advised ts)

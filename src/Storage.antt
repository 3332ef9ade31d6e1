-- ===== src/Storage.antt =====
-- server/services/mmap.go: the storage of one torrent, its pieces marked complete and evicted.
--
-- The completion store (storage.PieceCompletion, with the optional UncompleteFiles) is a parameter.
-- `none` is a run-time panic. What a call does to files, mappings and gauges is a list of effects,
-- in order; errors of punchHole and madvise are only logged, so their outcome changes nothing.
pub mod Store
pub mod Evicting
pub mod Released
pub mod Evicted
pub mod Marking
pub mod Sweeping
pub mod Opening
pub mod Mapping
pub mod Mapped
pub mod Placed
pub mod Recovered
pub mod Reading
use torrent_web_seeder.Prelude.{
  ℕ, zero, suc, ◌+◌, Bool, true, false, not, ◌&&◌, ◌||◌, Option, none, some, List, [], ◌∷◌, ◌++◌,
  map, select, ◌==◌, ltb, leb, if◌then◌else◌, length, get_elem?, Text, Int64, add64, sub64, lt64,
  le64, min64,
}
use torrent_web_seeder.PieceLru
use torrent_web_seeder.PieceLru.{PieceLru}
use torrent_web_seeder.Files.{Info, FileRange, file_ranges, in_range}
use torrent_web_seeder.Completions.{◌>>=◌, is_empty}
use torrent_web_seeder.Regions.{
  FileRegion, Advice, is_mapped, piece_file_regions, madvise_span_range,
}
use torrent_web_seeder.Storage.Store.{CompletionStore}

pub data Effect : Type 0 where
  hole_punched : FileRegion → Effect
  pages_dropped : Advice → Effect
  bytes_added : Int64 → Effect
  bytes_freed : Int64 → Effect
  piece_counted : Effect
  piece_uncounted : Effect
  eviction_counted : Effect
  read_ahead : ℕ → Effect  -- madviseSequential on the mapping of a file

-- `files` says which file handles are not nil; `mmaps` holds the length of each mapping that is not
-- nil; `verify_ch` is the buffered channel of evicted pieces, oldest first.
pub record MmapTorrentStorage (State : Type 0) : Type 0 where
  pub pc : State
  pub lru : Option PieceLru
  pub info : Info
  pub files : List Bool
  pub file_lens : List Int64
  pub mmaps : List (Option Int64)
  pub verify_ch : List ℕ
  pub effects : List Effect

-- make(chan int, 256)
abbrev pub verify_capacity : ℕ
verify_capacity = 256

-- The body of the loop over a piece's regions in evictPiece.
unfoldable pub evict_region : List Bool → List (Option Int64) → FileRegion → List Effect
evict_region files mmaps r =
    let advice : List Effect = (elim (get_elem? mmaps r.file_index) [
      | some (some len) ↦
          (let end = min64 (add64 r.offset r.length) len in
            let a : Advice = record { file_index = r.file_index; start = r.offset; stop = end } in
            if lt64 r.offset end then pages_dropped a ∷ [] else [])
      | _ ↦ []
    ]) in
    elim (get_elem? files r.file_index) [ some true ↦ hole_punched r ∷ advice | _ ↦ [] ]

unfoldable pub evict_regions : List Bool → List (Option Int64) → List FileRegion → List Effect
unfolding evict_region
evict_regions files mmaps [] = []
evict_regions files mmaps (r ∷ rs) = evict_region files mmaps r ++ evict_regions files mmaps rs

-- The paths that uncompleteAffectedFiles collects.
unfoldable pub affected_files : ℕ → Info → Option (List Text)
affected_files i info =
    if is_empty info.files
    then some (info.name ∷ [])
    else (do rs ← file_ranges info; some (map (λ r. r.path) (select (in_range i) rs)))

module _ (S : CompletionStore) where
  open S use {State, set, uncomplete_files, protection}

  unfoldable pub uncomplete_affected_files : ℕ → Info → State → Option State
  unfolding affected_files
  uncomplete_affected_files i info pc = do
    paths ← affected_files i info
    some (if is_empty paths then pc else uncomplete_files paths pc)

  -- The `select` with a default: a full channel drops the index.
  unfoldable pub queue_verify : ℕ → List ℕ → List ℕ
  queue_verify i ch = if ltb (length ch) verify_capacity then ch ++ i ∷ [] else ch

  -- evictPiece behind the write to the store: steps 2 to 5.
  unfoldable pub evict_written :
      ℕ → State → PieceLru → MmapTorrentStorage State → Option (MmapTorrentStorage State)
  unfolding uncomplete_affected_files queue_verify evict_regions
  evict_written i pc lru ts = do
    pc' ← uncomplete_affected_files i ts.info pc
    let regions = piece_file_regions ts.file_lens (ts.info.piece_offset i) (ts.info.piece_size i)
    let lru' = PieceLru.remove i lru
    let freed = sub64 lru.used lru'.used
    some (record ts {
      pc = pc';
      lru = some lru';
      verify_ch = queue_verify i ts.verify_ch;
      effects =
          ts.effects
          ++ (evict_regions ts.files ts.mmaps regions
              ++ (bytes_freed freed ∷ piece_uncounted ∷ eviction_counted ∷ []));
    })

  -- A failed write to the store is logged and ends the eviction.
  unfoldable pub evict_piece : ℕ → MmapTorrentStorage State → Option (MmapTorrentStorage State)
  unfolding evict_written
  evict_piece i ts = do
    (pc, written) ← set i false ts.pc
    if written then (do lru ← ts.lru; evict_written i pc lru ts) else some (record ts { pc = pc })

  unfoldable pub evict_pieces :
      List ℕ → MmapTorrentStorage State → Option (MmapTorrentStorage State)
  evict_pieces [] ts = some ts
  evict_pieces (i ∷ is) ts = do ts' ← evict_piece i ts; evict_pieces is ts'

  -- The tracker with the callback that OpenTorrent installs, which asks the store at each call.
  unfoldable pub guarded : State → PieceLru → PieceLru
  guarded pc lru = record lru { is_protected = protection pc }

  unfoldable pub evict_over_budget : MmapTorrentStorage State → Option (MmapTorrentStorage State)
  evict_over_budget ts = do
    lru ← ts.lru
    evict_pieces (PieceLru.compute_evictions (guarded ts.pc lru)) ts

  -- The ticker's case of startEvictionSweep.
  unfoldable pub sweep : MmapTorrentStorage State → Option (MmapTorrentStorage State)
  sweep ts = do
    lru ← ts.lru
    if lt64 lru.budget lru.used && lt64 0 lru.budget then evict_over_budget ts else some ts

  -- MarkComplete behind the write to the store.
  unfoldable pub mark_written :
      Int64 → ℕ → State → MmapTorrentStorage State → Option (MmapTorrentStorage State)
  mark_written now i pc ts =
      let size = ts.info.piece_size i in
      elim ts.lru [
        | none ↦ some (record ts { pc = pc })
        | some lru ↦
            (let (lru', evictions) = PieceLru.add now i size (guarded pc lru) in
              let advice = madvise_span_range ts.mmaps ts.file_lens (ts.info.piece_offset i) size in
              evict_pieces evictions (record ts {
                pc = pc;
                lru = some lru';
                effects =
                    ts.effects
                    ++ (map pages_dropped advice ++ (bytes_added size ∷ piece_counted ∷ []));
              }))
      ]

  -- The Boolean says that no error is returned.
  unfoldable pub mark_complete :
      Int64 → ℕ → MmapTorrentStorage State → Option (MmapTorrentStorage State × Bool)
  mark_complete now i ts = do
    (pc, written) ← set i true ts.pc
    if written
        then (do ts' ← mark_written now i pc ts; some (ts', true))
        else some (record ts { pc = pc }, false)

  unfoldable pub mark_not_complete :
      ℕ → MmapTorrentStorage State → Option (MmapTorrentStorage State × Bool)
  mark_not_complete i ts = do
    (pc, written) ← set i false ts.pc
    some (record ts { pc = pc }, written)

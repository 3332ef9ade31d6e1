-- ===== src/Tests/Openings.antt =====
-- server/services/mmap.go: a torrent is opened, and a piece marked complete in a database.
use mathlib.Core.List.Permᴰ
use torrent_web_seeder.Prelude.{
  ℕ, ◌+◌, ◌≤◌, ◌<◌, ◌≡◌, refl, Bool, true, some, List, [], ◌∷◌, arith, two_63, Int64,
}
use torrent_web_seeder.PieceLru.{PieceLru, new_piece_lru}
use torrent_web_seeder.PieceLru.Entries.{total_size}
use torrent_web_seeder.PieceLru.Invariant.{IsValid, new-IsValid}
use torrent_web_seeder.PieceLru.Within.{EntriesWithin}
use torrent_web_seeder.PieceCompletion.{Completion, PieceCompletion}
use torrent_web_seeder.PieceCompletion.Backing.{piece_store}
use torrent_web_seeder.PieceCompletion.Filling.{IsOpen, mark_complete_stored}
use torrent_web_seeder.Storage.{MmapTorrentStorage, mark_complete}
use torrent_web_seeder.Storage.Opening.{Mapped, complete_pieces, eviction_enabled, open_torrent}
use torrent_web_seeder.Storage.Recovered.{Opened, open_torrent_fits}
use torrent_web_seeder.PieceLru.Recovery.{sizes}
use torrent_web_seeder.Tests.Evictions.{
  info, info-IsLayout, open_store, open_store-Writes, AnyRow, two_first,
}
use torrent_web_seeder.Tests.Stores.{table, two_rows, opened, opened-IsSynced}
use torrent_web_seeder.Tests.Marks.{two_files-IsLayout}

abbrev given : ℕ → Completion
given i = record { complete = true; ok = true }

abbrev walk : List (ℕ × Int64) → List (ℕ × Int64)
walk ps = ps

abbrev mapped : Mapped
mapped = record { files = true ∷ true ∷ []; file_lens = 7 ∷ 6 ∷ []; mmaps = some 7 ∷ some 6 ∷ [] }

few : sizes (complete_pieces (λ i. some (given i)) info 0 4) < two_63
unfolding complete_pieces
few = omega arith

open_torrent_fits_example :
    (ts : MmapTorrentStorage (ℕ → Bool)) × (open_torrent open_store 8 walk 100_000_000_000
        (λ i. some (given i))
        two_first
        info
        mapped
      ≡ some ts)
    × AnyRow ts.pc
    × Opened (eviction_enabled 8 info) 8 ts
open_torrent_fits_example =
    open_torrent_fits walk (λ ps. Permᴰ.refl ps) 100_000_000_000 (λ i. some (given i)) info few
      open_store AnyRow open_store-Writes info-IsLayout 8 two_first mapped tt (omega arith)

opened-IsOpen : IsOpen table 4 opened
opened-IsOpen = record {
  is_open = refl;
  db = two_rows;
  has_db = refl;
  layout = two_files-IsLayout;
  synced = opened-IsSynced;
  sized = refl;
}

abbrev empty : PieceLru
empty = new_piece_lru 8

empty_lem :
    (total_size empty.lru_list + 4 < two_63)
    × (empty.used ≤ empty.budget)
    × (0 < empty.budget)
    × (empty.budget < two_63)
    × EntriesWithin 4 empty.lru_list
unfolding new_piece_lru
empty_lem = (omega arith, omega arith, omega arith, omega arith, tt)

abbrev storage : MmapTorrentStorage (PieceCompletion table)
storage = record {
  pc = opened;
  lru = some empty;
  info = info;
  files = true ∷ true ∷ [];
  file_lens = 7 ∷ 6 ∷ [];
  mmaps = some 7 ∷ some 6 ∷ [];
  verify_ch = [];
  effects = [];
}

mark_complete_stored_example :
    (ts' : MmapTorrentStorage (PieceCompletion table)) × (l' : PieceLru) × (mark_complete
        (piece_store table)
        100
        0
        storage
      ≡ some (ts', true))
    × IsOpen table 4 ts'.pc
    × (ts'.lru ≡ some l')
    × IsValid l'
    × (l'.used ≤ empty.budget)
mark_complete_stored_example =
    mark_complete_stored table 4 (λ i b db. refl) 100 0 empty storage opened-IsOpen (omega arith)
      info-IsLayout refl (new-IsValid 8) empty_lem.4 empty_lem.2 empty_lem.3 empty_lem.0 empty_lem.1

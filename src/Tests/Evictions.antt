-- ===== src/Tests/Evictions.antt =====
-- server/services/mmap.go on a torrent of two files with a budget of two pieces.
use torrent_web_seeder.Prelude.{
  ℕ, ◌+◌, ◌*◌, ◌≤◌, ◌<◌, ◌≡◌, refl, Bool, true, false, ◌||◌, some, List, [], ◌∷◌, ◌==◌,
  if◌then◌else◌, arith, codes, two_63, lookup, insert, delete, add64, sub64, lt64, le64, min64,
  max64,
}
use torrent_web_seeder.PieceLru.{PieceLru, recover, new_piece_lru, add}
use torrent_web_seeder.PieceLru.Entries.{total_size}
use torrent_web_seeder.PieceLru.Invariant.{IsValid}
use torrent_web_seeder.Storage.Sweeping.{sweep_fits}
use torrent_web_seeder.PieceLru.Runs.{
  Call, add_piece, recover_pieces, call, run_calls, run_calls-IsValid,
}
use torrent_web_seeder.Files.{Info}
use torrent_web_seeder.Files.Pieces.{IsLayout}
use torrent_web_seeder.Storage.Store.{CompletionStore}
use torrent_web_seeder.Storage.{MmapTorrentStorage, sweep, mark_complete, mark_not_complete}
use torrent_web_seeder.PieceLru.Within.{EntriesWithin}
use torrent_web_seeder.Storage.Evicting.{Writes}
use torrent_web_seeder.Storage.Evicted.{Evicted}
use torrent_web_seeder.Storage.Marking.{mark_complete_fits, mark_not_complete_tracked}

-- A store that is a table; it refuses every write once it is closed.
record Table : Type 0 where
  closed : Bool
  row : ℕ → Bool

unfoldable write : ℕ → Bool → Table → Table × Bool
write i b s =
    if s.closed then (s, false) else (record s { row = λ j. if i == j then b else s.row j }, true)

write_row :
    (i : ℕ) (b : Bool) (s t : Table)
    → some (write i b s) ≡ some (t, true)
    → (j : ℕ) → t.row j ≡ (if i == j then b else s.row j)
unfolding write
write_row i b s t h j = ground arith

write_closed :
    (i : ℕ) (b : Bool) (s t : Table)
    → some (write i b s) ≡ some (t, false)
    → (j : ℕ) → t.row j ≡ s.row j
unfolding write
write_closed i b s t h j = ground arith

abbrev store : CompletionStore
store = record {
  State = Table;
  set = λ i b s. some (write i b s);
  uncomplete_files = λ paths s. s;
  protection = λ s. some (λ i. i == 0);
  is_complete = λ s i. s.row i;
  set_written = write_row;
  set_failed = write_closed;
  uncomplete_files_keeps = λ paths s j. refl;
}

abbrev overwrite : ℕ → Bool → (ℕ → Bool) → (ℕ → Bool) × Bool
overwrite i b s = ((λ j. if i == j then b else s j), true)

pub open_row :
    (i : ℕ) (b : Bool) (s t : ℕ → Bool)
    → some (overwrite i b s) ≡ some (t, true)
    → (j : ℕ) → t j ≡ (if i == j then b else s j)
open_row i b s t h j = ground arith

pub open_never_fails :
    (i : ℕ) (b : Bool) (s t : ℕ → Bool)
    → some (overwrite i b s) ≡ some (t, false)
    → (j : ℕ) → t j ≡ s j
open_never_fails i b s t h j = ground arith

-- A store that is never closed.
abbrev pub open_store : CompletionStore
open_store = record {
  State = ℕ → Bool;
  set = λ i b s. some (overwrite i b s);
  uncomplete_files = λ paths s. s;
  protection = λ s. some (λ i. i == 0);
  is_complete = λ s i. s i;
  set_written = open_row;
  set_failed = open_never_fails;
  uncomplete_files_keeps = λ paths s j. refl;
}

-- Every state is good.
abbrev pub AnyRow : (ℕ → Bool) → Type 0
AnyRow s = Unit

pub open_store-Writes : Writes open_store AnyRow 4
open_store-Writes = record {
  writes = λ i b s lt g. ((λ j. if i == j then b else s j), refl, tt);
  uncompletes = λ paths s g. tt;
}

abbrev pub info : Info
info = record {
  name = codes "t";
  files =
      record { path = codes "a" ∷ []; length = 7 }
      ∷ record { path = codes "b" ∷ []; length = 6 }
      ∷ [];
  piece_length = 4;
  num_pieces = 4;
  total_length = 13;
  piece_offset = λ i. 4 * i;
  piece_size = λ i. if i == 3 then 1 else 4;
}

pub info-IsLayout : IsLayout info
info-IsLayout = record { positive = omega arith; small = omega arith; fits = omega arith }

abbrev calls : List Call
calls = add_piece 100 0 4 ∷ add_piece 200 1 4 ∷ []

abbrev tracker : PieceLru
tracker = run_calls calls (new_piece_lru 8)

tracker-IsValid : IsValid tracker
tracker-IsValid = run_calls-IsValid 8 calls

program : Unit {0}
unfolding run_calls call new_piece_lru add lookup insert delete add64 sub64 lt64 le64 min64 max64
program = tt

tracker_own : EntriesWithin 4 tracker.lru_list
unfolding program
tracker_own = (omega arith, (omega arith, tt))

tracker_budget :
    (0 < tracker.budget)
    × (tracker.budget < two_63)
    × (total_size tracker.lru_list + 4 < two_63)
    × (tracker.used ≤ tracker.budget)
unfolding program
tracker_budget = (omega arith, omega arith, omega arith, omega arith)

abbrev storage_of : {S : Type 0} → S → MmapTorrentStorage S
storage_of pc = record {
  pc = pc;
  lru = some tracker;
  info = info;
  files = true ∷ true ∷ [];
  file_lens = 7 ∷ 6 ∷ [];
  mmaps = some 7 ∷ some 6 ∷ [];
  verify_ch = [];
  effects = [];
}

abbrev pub two_first : ℕ → Bool
two_first i = i == 0 || i == 1

abbrev opened : MmapTorrentStorage (ℕ → Bool)
opened = storage_of two_first

mark_complete_fits_example :
    (ts' : MmapTorrentStorage (ℕ → Bool)) × (l' : PieceLru) × (mark_complete open_store 300 2 opened
      ≡ some (ts', true))
    × AnyRow ts'.pc
    × (ts'.lru ≡ some l')
    × IsValid l'
    × (l'.used ≤ tracker.budget)
mark_complete_fits_example =
    mark_complete_fits open_store AnyRow 4 300 2 tracker opened open_store-Writes tt (omega arith)
      info-IsLayout refl tracker-IsValid tracker_own tracker_budget.0 tracker_budget.1
      tracker_budget.2 tracker_budget.3

abbrev without : ℕ → ℕ → Bool
without i j = if i == j then false else two_first j

abbrev shut : Table
shut = record { closed = true; row = two_first }

shut_fails : some (write 1 false shut) ≡ some (shut, false)
unfolding write
shut_fails = refl

mark_not_complete_tracked_example :
    (ts' : MmapTorrentStorage (ℕ → Bool)) × (mark_not_complete open_store 1 opened
      ≡ some (ts', true))
    × (ts'.lru ≡ some tracker)
    × (ts'.pc 1 ≡ false)
mark_not_complete_tracked_example =
    mark_not_complete_tracked open_store 1 (without 1) tracker opened refl refl

-- A tracker that has recovered three pieces with a budget of two.
abbrev recovery : List Call
recovery = recover_pieces 100_000_000_000 ((0, 4) ∷ (1, 4) ∷ (2, 4) ∷ []) ∷ []

abbrev over : PieceLru
over = run_calls recovery (new_piece_lru 8)

over_lem : (0 < over.budget) × (over.budget < two_63) × (total_size over.lru_list < two_63)
unfolding program recover
over_lem = (omega arith, omega arith, omega arith)

over_own : EntriesWithin 4 over.lru_list
unfolding program recover
over_own = (omega arith, (omega arith, (omega arith, tt)))

sweep_fits_example :
    (ts' : MmapTorrentStorage (ℕ → Bool)) × (l' : PieceLru) × (sweep open_store
        (record opened { lru = some over })
      ≡ some ts')
    × AnyRow ts'.pc
    × (ts'.lru ≡ some l')
    × IsValid l'
    × (l'.used ≤ over.budget)
sweep_fits_example =
    sweep_fits open_store AnyRow 4 over (record opened { lru = some over }) open_store-Writes tt
      info-IsLayout refl (run_calls-IsValid 8 recovery) over_own over_lem.1 over_lem.2 over_lem.0

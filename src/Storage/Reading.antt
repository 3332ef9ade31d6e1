-- ===== src/Storage/Reading.antt =====
-- ReadAt and Close.
--
-- The number of bytes that the section reader copies is a parameter. Closing the channel and the span
-- has no effect that the model holds.
use torrent_web_seeder.Prelude.{
  ℕ, ◌+◌, ◌≡◌, refl, inl, inr, Option, none, some, Option-cases, List, [], ◌∷◌, ◌++◌, map,
  if◌then◌else◌, length, replicate, Int64, add64, lt64, lookup, nat_eq,
}
use torrent_web_seeder.PieceLru
use torrent_web_seeder.PieceLru.{PieceLru}
use torrent_web_seeder.PieceLru.Invariant.{IsValid, touch-IsValid}
use torrent_web_seeder.Regions.{Advice, madvise_span_range}
use torrent_web_seeder.Storage.{
  MmapTorrentStorage, Effect, pages_dropped, bytes_freed, piece_uncounted,
}

-- The loop over the mappings that are not nil.
unfoldable pub drop_mappings : ℕ → List (Option Int64) → List Effect
drop_mappings i [] = []
drop_mappings i (none ∷ ms) = drop_mappings (i + 1) ms
drop_mappings i (some n ∷ ms) =
    let whole : Advice = record { file_index = i; start = 0; stop = n } in
    pages_dropped whole ∷ drop_mappings (i + 1) ms

unfoldable pub uncount : Option PieceLru → List Effect
uncount none = []
uncount (some lru) = bytes_freed lru.used ∷ replicate (length lru.entries) piece_uncounted

module _ {State : Type 0} where
  -- The pages of what was copied, if anything was.
  unfoldable pub drop_read : ℕ → Int64 → Int64 → MmapTorrentStorage State → List Effect
  drop_read i off n ts =
      if lt64 0 n
      then map pages_dropped
          (madvise_span_range ts.mmaps ts.file_lens (add64 (ts.info.piece_offset i) off) n)
      else []

  unfoldable pub read_at :
      Int64 → ℕ → Int64 → Int64 → MmapTorrentStorage State → MmapTorrentStorage State
  unfolding drop_read PieceLru.touch
  read_at now i off n ts = elim ts.lru [
    | none ↦ ts
    | some lru ↦ record ts {
      lru = some (PieceLru.touch now i lru);
      effects = ts.effects ++ drop_read i off n ts;
    }
  ]

  unfoldable pub close_storage : MmapTorrentStorage State → MmapTorrentStorage State
  unfolding drop_mappings uncount
  close_storage ts = record ts {
    effects = ts.effects ++ (uncount ts.lru ++ drop_mappings 0 ts.mmaps);
  }

touch-used : (now : Int64) (i : ℕ) (l : PieceLru) → (PieceLru.touch now i l).used ≡ l.used
unfolding PieceLru.touch PieceLru.refresh
touch-used now i l = elim (Option-cases (lookup i l.entries)) [
  | inl n ↦ rw (PieceLru.touch, n) refl
  | inr (e, q) ↦ rw (PieceLru.touch, q) refl
]

-- Reading keeps the tracker valid, and the bytes in use as they are.
read_at-IsValid :
    {State : Type 0} (now : Int64) (i : ℕ) (off n : Int64) (l : PieceLru)
    (ts : MmapTorrentStorage State)
    → ts.lru ≡ some l
    → IsValid l
    → (l' : PieceLru) × ((read_at now i off n ts).lru ≡ some l') × IsValid l' × (l'.used ≡ l.used)
unfolding read_at
read_at-IsValid now i off n l ts e v =
    (PieceLru.touch now i l, rw (read_at, e) refl, touch-IsValid now i l v, touch-used now i l)

-- ===== src/Storage/Marking.antt =====
-- MarkComplete keeps the cache of the torrent within its budget.
use torrent_web_seeder.Prelude.{
  ℕ, ◌+◌, ◌≤◌, ◌<◌, ◌≡◌, refl, ◌∙◌, true, false, some, [], ◌∷◌, ◌++◌, map, arith, two_63, Int64,
}
use torrent_web_seeder.PieceLru
use torrent_web_seeder.PieceLru.{PieceLru}
use torrent_web_seeder.PieceLru.Entries.{total_size}
use torrent_web_seeder.PieceLru.Invariant.{IsValid, add-IsValid}
use torrent_web_seeder.PieceLru.Budget.{remove_all, remove_all-IsValid}
use torrent_web_seeder.PieceLru.Adding.{add_fits}
use torrent_web_seeder.Files.Pieces.{IsLayout}
use torrent_web_seeder.Regions.{madvise_span_range}
use torrent_web_seeder.Storage.Store.{CompletionStore}
use torrent_web_seeder.Storage.{
  MmapTorrentStorage, guarded, mark_written, mark_complete, mark_not_complete, evict_pieces,
  pages_dropped, bytes_added, piece_counted,
}
use torrent_web_seeder.Storage.Evicting.{Writes, evict_pieces-remove_all}
use torrent_web_seeder.PieceLru.Within.{EntriesWithin, Within, add-Within}

module _ (S : CompletionStore) where
  open S use {State, set, is_complete, set_written}

  pub guarded-IsValid : (pc : State) (l : PieceLru) → IsValid l → IsValid (guarded S pc l)
  unfolding guarded
  guarded-IsValid pc l v = record {
    distinct = v.distinct;
    agrees = v.agrees;
    accounted = v.accounted;
  }

  -- The state in which MarkComplete starts to evict.
  marked_state : Int64 → ℕ → State → PieceLru → MmapTorrentStorage State → MmapTorrentStorage State
  marked_state now i pc l ts = record ts {
    pc = pc;
    lru = some (PieceLru.add now i (ts.info.piece_size i) (guarded S pc l)).0;
    effects =
        ts.effects
        ++ (map pages_dropped (
              madvise_span_range ts.mmaps ts.file_lens (ts.info.piece_offset i)
                (ts.info.piece_size i))
            ++ (bytes_added (ts.info.piece_size i) ∷ piece_counted ∷ []));
  }

  mark_written_tracked :
      (now : Int64) (i : ℕ) (pc : State) (l : PieceLru) (ts : MmapTorrentStorage State)
      → ts.lru ≡ some l
      → mark_written S now i pc ts
        ≡ evict_pieces S
            (PieceLru.add now i (ts.info.piece_size i) (guarded S pc l)).1
            (marked_state now i pc l ts)
  unfolding mark_written marked_state
  mark_written_tracked now i pc l ts e = rw (e, mark_written) refl

  mark_complete_written :
      (now : Int64) (i : ℕ) (pc : State) (ts ts' : MmapTorrentStorage State)
      → set i true ts.pc ≡ some (pc, true)
      → mark_written S now i pc ts ≡ some ts'
      → mark_complete S now i ts ≡ some (ts', true)
  unfolding mark_complete
  mark_complete_written now i pc ts ts' w run = rw w (rw run refl)

  -- When no write to the store of a piece of the torrent fails in a good state, which the store is
  -- in and stays in, MarkComplete of such a piece, on a storage with a set budget, a valid tracker of
  -- such pieces within it and a valid layout, returns without an error or a panic, and leaves the
  -- store good and the tracker valid and within the budget. The budget, and the tracked bytes with the
  -- piece, are below 2^63.
  pub mark_complete_fits :
      (Good : State → Type 0) (n : ℕ) (now : Int64) (i : ℕ) (l : PieceLru)
      (ts : MmapTorrentStorage State)
      → Writes S Good n
      → Good ts.pc
      → i < n
      → IsLayout ts.info
      → ts.lru ≡ some l
      → IsValid l
      → EntriesWithin n l.lru_list
      → 0 < l.budget
      → l.budget < two_63
      → total_size l.lru_list + ts.info.piece_size i < two_63
      → l.used ≤ l.budget
      → (ts' : MmapTorrentStorage State) × (l' : PieceLru) × (mark_complete S now i ts
          ≡ some (ts', true))
        × Good ts'.pc
        × (ts'.lru ≡ some l')
        × IsValid l'
        × (l'.used ≤ l.budget)
  mark_complete_fits Good n now i l ts w good lt h e v own pos hb ht fits =
      let (pc, written, good') = w.writes i true ts.pc lt good in
      let g = guarded S pc l in
      let gv : IsValid g = guarded-IsValid pc l v in
      let size = ts.info.piece_size i in
      let l1 = (PieceLru.add now i size g).0 in
      let evictions = (PieceLru.add now i size g).1 in
      let within : Within n evictions = add-Within n now i size g lt (unfold guarded in own) in
      let ts1 = marked_state now i pc l ts in
      let (ts2, run, gone, _, kept) =
        evict_pieces-remove_all S Good n w evictions l1 ts1 within (unfold marked_state in good')
          (unfold marked_state in h) (unfold marked_state in refl) in
      (
        ts2,
        remove_all evictions l1,
        mark_complete_written now i pc ts ts2 written (mark_written_tracked now i pc l ts e ∙ run),
        kept,
        gone,
        remove_all-IsValid evictions l1 (add-IsValid now i size g gv),
        unfold guarded in add_fits now i size g gv pos hb ht fits,
      )

  -- MarkNotComplete whose write succeeds, on a storage with a tracker, takes the record back and
  -- leaves the tracker alone: a tracked piece stays tracked, with its bytes in use, although the
  -- store holds it as missing.
  pub mark_not_complete_tracked :
      (i : ℕ) (pc : State) (l : PieceLru) (ts : MmapTorrentStorage State)
      → ts.lru ≡ some l
      → set i false ts.pc ≡ some (pc, true)
      → (ts' : MmapTorrentStorage State) × (mark_not_complete S i ts ≡ some (ts', true))
        × (ts'.lru ≡ some l)
        × (is_complete ts'.pc i ≡ false)
  mark_not_complete_tracked i pc l ts e w = (
    record ts { pc = pc },
    unfold mark_not_complete in rw w refl,
    e,
    set_written i false ts.pc pc w i ∙ ground arith,
  )

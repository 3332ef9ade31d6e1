-- ===== src/Storage/Evicted.antt =====
-- evictPiece, by what it leaves: the holes, the dropped pages, the gauges, the queue, the tracker and
-- the files that are no longer complete, each by itself.
use torrent_web_seeder.Prelude.{
  ℕ, ◌≡◌, false, none, some, List, [], ◌∷◌, ◌++◌, select, ◌==◌, ltb, if◌then◌else◌, length, lookup,
  nat_eq, sub64,
}
use torrent_web_seeder.PieceLru
use torrent_web_seeder.PieceLru.{PieceLru}
use torrent_web_seeder.Completions.{is_empty}
use torrent_web_seeder.Regions.{piece_file_regions}
use torrent_web_seeder.Storage.Store.{CompletionStore}
use torrent_web_seeder.Storage.{
  Effect, bytes_freed, piece_uncounted, eviction_counted, MmapTorrentStorage,
}
use torrent_web_seeder.Storage.Released.{
  gather, hole_of, drop_of, gauge_of, is_open, mapped_parts, touched_files,
}

module _ (S : CompletionStore) where
  open S use {State, set, uncomplete_files, is_complete, set_written, uncomplete_files_keeps}

  -- Behind an eviction of piece `i`, from a tracker `l` to `l'`, with `new` effects.
  pub record Evicted (i : ℕ) (l l' : PieceLru) (pc : State) (ts ts' : MmapTorrentStorage State)
      (new : List Effect) : Type 0 where
    pub untracked : (j : ℕ) → lookup j l'.entries ≡ (if i == j then none else lookup j l.entries)
    pub used :
        l'.used ≡ (elim (lookup i l.entries) [ none ↦ l.used | some e ↦ sub64 l.used e.size ])
    pub missing : (j : ℕ) → is_complete ts'.pc j ≡ (if i == j then false else is_complete ts.pc j)
    pub uncompleted : ts'.pc ≡ (
        if is_empty (touched_files i ts.info)
        then pc
        else uncomplete_files (touched_files i ts.info) pc)
    pub queued :
        ts'.verify_ch
        ≡ (if ltb (length ts.verify_ch) 256 then ts.verify_ch ++ (i ∷ []) else ts.verify_ch)
    pub same_info : ts'.info ≡ ts.info
    pub same_files :
        (ts'.files ≡ ts.files) × (ts'.file_lens ≡ ts.file_lens) × (ts'.mmaps ≡ ts.mmaps)
    pub holed :
        gather hole_of new
        ≡ select
            (is_open ts.files)
            (piece_file_regions ts.file_lens (ts.info.piece_offset i) (ts.info.piece_size i))
    pub dropped : gather drop_of new ≡ mapped_parts ts.mmaps (gather hole_of new)
    pub gauged :
        gather gauge_of new
        ≡ bytes_freed (sub64 l.used l'.used) ∷ piece_uncounted ∷ eviction_counted ∷ []

-- ===== src/Storage/Evicting.antt =====
-- What evictPiece does to the tracker, the store and the queue.
use torrent_web_seeder.Prelude.{
  ℕ, ◌<◌, ◌⊎◌, ◌≡◌, refl, sym, ◌∙◌, subst, Bool, true, false, inl, inr, Bool-cases, some, List, [],
  ◌∷◌, ◌++◌, map, select, ◌==◌, if◌then◌else◌, sub64, Text,
}
use torrent_web_seeder.PieceLru
use torrent_web_seeder.PieceLru.{PieceLru}
use torrent_web_seeder.PieceLru.Budget.{remove_all}
use torrent_web_seeder.PieceLru.Within.{Within}
use torrent_web_seeder.Files.{Info, in_range}
use torrent_web_seeder.Files.Pieces.{IsLayout, file_ranges_total}
use torrent_web_seeder.Completions.{is_empty}
use torrent_web_seeder.Completions.Uncompleting.{ranges}
use torrent_web_seeder.Regions.{piece_file_regions}
use torrent_web_seeder.Storage.Store.{CompletionStore}
use torrent_web_seeder.Storage.{
  MmapTorrentStorage, affected_files, evict_regions, uncomplete_affected_files, queue_verify,
  evict_piece, evict_pieces, bytes_freed, piece_uncounted, eviction_counted,
}

affected_files_total :
    (i : ℕ) (info : Info)
    → IsLayout info
    → (paths : List Text) × (affected_files i info ≡ some paths)
affected_files_total i info h = elim (Bool-cases (is_empty info.files)) [
  | inl e ↦ (info.name ∷ [], unfold affected_files in rw e refl)
  | inr e ↦ (
    map (λ r. r.path) (select (in_range i) (ranges info)),
    unfold affected_files in rw (e, file_ranges_total info h) refl,
  )
]

module _ (S : CompletionStore) where
  open S use {
    State, set, uncomplete_files, is_complete, set_written, set_failed, uncomplete_files_keeps,
  }

  uncomplete_affected_files_total :
      (i : ℕ) (info : Info) (pc : State)
      → IsLayout info
      → (pc' : State) × (uncomplete_affected_files S i info pc ≡ some pc')
        × ((j : ℕ) → is_complete pc' j ≡ is_complete pc j)
        × ((pc' ≡ pc) ⊎ ((paths : List Text) × (pc' ≡ uncomplete_files paths pc)))
  uncomplete_affected_files_total i info pc h =
      let (paths, run) = affected_files_total i info h in
      elim (Bool-cases (is_empty paths)) [
        | inl e ↦ (pc, unfold uncomplete_affected_files in rw (run, e) refl, λ j. refl, inl refl)
        | inr e ↦ (
          uncomplete_files paths pc,
          unfold uncomplete_affected_files in rw (run, e) refl,
          uncomplete_files_keeps paths pc,
          inr (paths, refl),
        )
      ]

  -- The state behind an eviction whose write succeeded.
  record IsEvicted (i : ℕ) (l : PieceLru) (pc : State) (ts ts' : MmapTorrentStorage State)
      : Type 0 where
    untracked : ts'.lru ≡ some (PieceLru.remove i l)
    missing : (j : ℕ) → is_complete ts'.pc j ≡ (if i == j then false else is_complete ts.pc j)
    cleaned : (ts'.pc ≡ pc) ⊎ ((paths : List Text) × (ts'.pc ≡ uncomplete_files paths pc))
    queued : ts'.verify_ch ≡ queue_verify S i ts.verify_ch
    same_info : ts'.info ≡ ts.info
    same_lens : ts'.file_lens ≡ ts.file_lens
    freed :
        ts'.effects
        ≡ ts.effects
          ++ (evict_regions ts.files ts.mmaps
                (piece_file_regions ts.file_lens (ts.info.piece_offset i) (ts.info.piece_size i))
              ++ (bytes_freed (sub64 l.used (PieceLru.remove i l).used)
                  ∷ piece_uncounted
                  ∷ eviction_counted
                  ∷ []))

  -- An eviction whose write to the store succeeds, on a storage with a tracker and a valid
  -- layout, does not panic: the piece is missing in the store, which keeps the record of every
  -- other, the tracker has removed it, its holes are punched and its pages dropped region by
  -- region, the gauges are corrected by the freed bytes, and the piece is queued for
  -- verification if the queue has room.
  evict_piece-IsEvicted :
      (i : ℕ) (l : PieceLru) (pc : State) (ts : MmapTorrentStorage State)
      → IsLayout ts.info
      → ts.lru ≡ some l
      → set i false ts.pc ≡ some (pc, true)
      → (ts' : MmapTorrentStorage State) × (evict_piece S i ts ≡ some ts') × IsEvicted i l pc ts ts'
  evict_piece-IsEvicted i l pc ts h e w =
      let (pc', run, keeps, cleaned) = uncomplete_affected_files_total i ts.info pc h in
      let regions =
        piece_file_regions ts.file_lens (ts.info.piece_offset i) (ts.info.piece_size i) in
      (
        record ts {
          pc = pc';
          lru = some (PieceLru.remove i l);
          verify_ch = queue_verify S i ts.verify_ch;
          effects =
              ts.effects
              ++ (evict_regions ts.files ts.mmaps regions
                  ++ (bytes_freed (sub64 l.used (PieceLru.remove i l).used)
                      ∷ piece_uncounted
                      ∷ eviction_counted
                      ∷ []));
        },
        unfold evict_piece in rw (w, e, run) refl,
        record {
          untracked = refl;
          missing = λ j. keeps j ∙ set_written i false ts.pc pc w j;
          cleaned = cleaned;
          queued = refl;
          same_info = refl;
          same_lens = refl;
          freed = refl;
        },
      )

  -- A write that fails, without a panic, ends the eviction: the tracker, the files, the queue
  -- and the store's record are as they were.
  pub evict_piece_failed :
      (i : ℕ) (pc : State) (ts : MmapTorrentStorage State)
      → set i false ts.pc ≡ some (pc, false)
      → (evict_piece S i ts ≡ some (record ts { pc = pc }))
        × ((j : ℕ) → is_complete pc j ≡ is_complete ts.pc j)
  evict_piece_failed i pc ts w = (unfold evict_piece in rw w refl, set_failed i false ts.pc pc w)

  -- From a good state, a write of a piece below `n` neither fails nor panics, and leaves a good
  -- state, as UncompleteFiles does.
  pub record Writes (Good : State → Type 0) (n : ℕ) : Type 0 where
    pub writes :
        (i : ℕ) (b : Bool) (s : State)
        → i < n
        → Good s
        → (t : State) × (set i b s ≡ some (t, true)) × Good t
    pub uncompletes : (paths : List Text) (s : State) → Good s → Good (uncomplete_files paths s)

  evict_pieces_step :
      (i : ℕ) (is : List ℕ) (ts ts1 : MmapTorrentStorage State)
      → evict_piece S i ts ≡ some ts1
      → evict_pieces S (i ∷ is) ts ≡ evict_pieces S is ts1
  evict_pieces_step i is ts ts1 run = unfold evict_pieces in rw run refl

  still_good :
      (Good : State → Type 0) (n : ℕ) (pc pc' : State)
      → Writes Good n
      → Good pc
      → ((pc' ≡ pc) ⊎ ((paths : List Text) × (pc' ≡ uncomplete_files paths pc)))
      → Good pc'
  still_good Good n pc pc' w g (inl e) = subst Good (sym e) g
  still_good Good n pc pc' w g (inr (paths, e)) = subst Good (sym e) (w.uncompletes paths pc g)

  module _ (Good : State → Type 0) (n : ℕ) (w : Writes Good n) where
    pub evict_pieces-remove_all :
        (is : List ℕ) (l : PieceLru) (ts : MmapTorrentStorage State)
        → Within n is
        → Good ts.pc
        → IsLayout ts.info
        → ts.lru ≡ some l
        → (ts' : MmapTorrentStorage State) × (evict_pieces S is ts ≡ some ts')
          × (ts'.lru ≡ some (remove_all is l))
          × (ts'.info ≡ ts.info)
          × Good ts'.pc
    unfolding remove_all
    evict_pieces-remove_all [] l ts lt g h e = (ts, unfold evict_pieces in refl, e, refl, g)
    evict_pieces-remove_all (i ∷ is) l ts (here, lt) g h e =
        let (pc, written, good) = w.writes i false ts.pc here g in
        let (ts1, run, done) = evict_piece-IsEvicted i l pc ts h e written in
        let (ts2, run', gone, same, kept) =
          evict_pieces-remove_all is (PieceLru.remove i l) ts1 lt
            (still_good Good n pc ts1.pc w good done.cleaned)
            (subst IsLayout (sym done.same_info) h) done.untracked in
        (ts2, evict_pieces_step i is ts ts1 run ∙ run', gone, same ∙ done.same_info, kept)

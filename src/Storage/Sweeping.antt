-- ===== src/Storage/Sweeping.antt =====
-- The background sweep brings the cache back within its budget.
use torrent_web_seeder.Prelude.{
  ℕ, ◌≤◌, ◌<◌, ◌≡◌, refl, ◌∙◌, ap, subst, ◌&&◌, inl, inr, Bool-cases, some, Option-cases, List, [],
  ◌∷◌, if◌then◌else◌, arith, two_63, lookup, nat_eq, lt64, lt64_exact,
}
use torrent_web_seeder.PieceLru
use torrent_web_seeder.PieceLru.{PieceLru}
use torrent_web_seeder.PieceLru.Entries.{total_size}
use torrent_web_seeder.PieceLru.Invariant.{IsValid}
use torrent_web_seeder.PieceLru.Budget.{
  remove_all, remove_all-IsValid, compute_evictions_fit, used_exact,
}
use torrent_web_seeder.Files.Pieces.{IsLayout}
use torrent_web_seeder.PieceLru.Within.{EntriesWithin, Within, compute_evictions-Within}
use torrent_web_seeder.Completions.{◌>>=◌}
use torrent_web_seeder.Storage.Store.{CompletionStore}
use torrent_web_seeder.Storage.{MmapTorrentStorage, guarded, evict_over_budget, evict_pieces, sweep}
use torrent_web_seeder.Storage.Evicting.{Writes, evict_pieces-remove_all}
use torrent_web_seeder.Storage.Marking.{guarded-IsValid}

module _ (S : CompletionStore) where
  open S use {State}

  -- What a tracker removes does not depend on what it protects.
  remove-guarded :
      (i : ℕ) (pc : State) (l : PieceLru)
      → PieceLru.remove i (guarded S pc l) ≡ guarded S pc (PieceLru.remove i l)
  unfolding guarded PieceLru.remove
  remove-guarded i pc l = elim (Option-cases (lookup i l.entries)) [
    | inl n ↦ rw (PieceLru.remove, n) refl
    | inr (e, q) ↦ rw (PieceLru.remove, q) refl
  ]

  remove_all-guarded :
      (is : List ℕ) (pc : State) (l : PieceLru)
      → remove_all is (guarded S pc l) ≡ guarded S pc (remove_all is l)
  unfolding remove_all
  remove_all-guarded [] pc l = refl
  remove_all-guarded (i ∷ is) pc l =
      ap (remove_all is) (remove-guarded i pc l) ∙ remove_all-guarded is pc (PieceLru.remove i l)

  module _ (Good : State → Type 0) (n : ℕ) (l : PieceLru) (ts : MmapTorrentStorage State)
      (w : Writes S Good n) (good : Good ts.pc) (h : IsLayout ts.info) (e : ts.lru ≡ some l)
      (v : IsValid l) (own : EntriesWithin n l.lru_list) (hb : l.budget < two_63)
      (ht : total_size l.lru_list < two_63) where
    evict_over_budget_step :
        evict_over_budget S ts ≡ evict_pieces S (PieceLru.compute_evictions (guarded S ts.pc l)) ts
    unfolding evict_over_budget
    evict_over_budget_step =
        ap
          (λ o. o >>= (λ lru. evict_pieces S (PieceLru.compute_evictions (guarded S ts.pc lru)) ts))
          e

    sweep_step :
        sweep S ts
        ≡ (if lt64 l.budget l.used && lt64 0 l.budget then evict_over_budget S ts else some ts)
    unfolding sweep
    sweep_step =
        ap
          (λ o. o >>= (λ lru.
            if lt64 lru.budget lru.used && lt64 0 lru.budget
            then evict_over_budget S ts
            else some ts))
          e

    -- A storage within its budget.
    pub record IsWithin (ts' : MmapTorrentStorage State) : Type 0 where
      pub tracker : PieceLru
      pub still_good : Good ts'.pc
      pub tracked : ts'.lru ≡ some tracker
      pub valid : IsValid tracker
      pub within : tracker.used ≤ l.budget

    pub evict_over_budget_fits :
        0 < l.budget
        → (ts' : MmapTorrentStorage State) × (evict_over_budget S ts ≡ some ts') × IsWithin ts'
    evict_over_budget_fits pos =
        let g = guarded S ts.pc l in
        let is = PieceLru.compute_evictions g in
        let within : Within n is = compute_evictions-Within n g (unfold guarded in own) in
        let (ts', run, gone, _, kept) =
          evict_pieces-remove_all S Good n w is l ts within good h e in
        let fits : (remove_all is g).used ≤ l.budget =
          unfold guarded in compute_evictions_fit g (guarded-IsValid S ts.pc l v) pos hb ht in
        (
          ts',
          evict_over_budget_step ∙ run,
          record {
            tracker = remove_all is l;
            still_good = kept;
            tracked = gone;
            valid = remove_all-IsValid is l v;
            within =
                subst (λ u. u ≤ l.budget)
                  (ap (λ x. x.used) (remove_all-guarded is ts.pc l) ∙ unfold guarded in refl) fits;
          },
        )

    -- When no write to the store of a piece of the torrent fails in a good state, which the store is
    -- in and stays in, a round of the sweep on a storage with a budget, a valid tracker of such pieces
    -- and a valid layout does not panic and leaves the store good and the tracker valid and within the
    -- budget. The tracked bytes and the budget are below 2^63.
    pub sweep_fits :
        0 < l.budget
        → (ts' : MmapTorrentStorage State) × (l' : PieceLru) × (sweep S ts ≡ some ts')
          × Good ts'.pc
          × (ts'.lru ≡ some l')
          × IsValid l'
          × (l'.used ≤ l.budget)
    sweep_fits pos = elim (Bool-cases (lt64 l.budget l.used && lt64 0 l.budget)) [
      | inl over ↦
          let (ts', run, q) = evict_over_budget_fits pos in
          (ts', q.tracker, sweep_step ∙ rw over run, q.still_good, q.tracked, q.valid, q.within)
      | inr fine ↦ (
        ts,
        l,
        sweep_step ∙ rw fine refl,
        good,
        e,
        v,
        ground (arith, used_exact l v ht, lt64_exact l.budget l.used, lt64_exact 0 l.budget),
      )
    ]

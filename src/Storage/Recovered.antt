-- ===== src/Storage/Recovered.antt =====
-- A torrent is opened within its budget.
use mathlib.Core.List.{Permᴰ}
use torrent_web_seeder.Prelude.{
  ℕ, zero, suc, ◌+◌, ◌≤◌, ◌<◌, ◌≡◌, refl, sym, ◌∙◌, ap, subst, inl, inr, Bool, true, false,
  Bool-cases, if_elim, Option, none, some, List, [], arith, two_63, nat_eq, Int64, sub64, lt64,
  lt64_exact,
}
use torrent_web_seeder.PieceLru.{PieceLru, recover, recovered_age, new_piece_lru}
use torrent_web_seeder.PieceLru.Entries.{total_size}
use torrent_web_seeder.PieceLru.Invariant.{IsValid, new-IsValid, recover-IsValid}
use torrent_web_seeder.PieceLru.Budget.{used_exact}
use torrent_web_seeder.PieceLru.Within.{EntriesWithin}
use torrent_web_seeder.PieceLru.Recovery.{
  sizes, PiecesWithin, sizes_permuted, PiecesWithin-permuted, recover_from_size,
  recover_from-Within, recover_from-budget,
}
use torrent_web_seeder.Files.{Info}
use torrent_web_seeder.Files.Pieces.{IsLayout}
use torrent_web_seeder.Completions.{is_empty}
use torrent_web_seeder.PieceCompletion.{Completion}
use torrent_web_seeder.Storage.Store.{CompletionStore}
use torrent_web_seeder.Storage.{MmapTorrentStorage, Effect, guarded}
use torrent_web_seeder.Storage.Evicting.{Writes}
use torrent_web_seeder.Storage.Marking.{guarded-IsValid}
use torrent_web_seeder.Storage.Sweeping.{evict_over_budget_fits}
use torrent_web_seeder.Storage.Opening.{
  Mapped, is_recorded, complete_pieces, recover_lru, eviction_enabled, untracked, evict_recovered,
  advised, open_torrent,
}

complete_pieces-PiecesWithin :
    (n : ℕ) (get : ℕ → Option Completion) (info : Info) (i k : ℕ)
    → i + k ≤ n
    → PiecesWithin n (complete_pieces get info i k)
unfolding complete_pieces
complete_pieces-PiecesWithin n get info i zero h = tt
complete_pieces-PiecesWithin n get info i (suc k) h =
    let rest = complete_pieces-PiecesWithin n get info (i + 1) k (omega arith) in
    if_elim (PiecesWithin n) (is_recorded (get i)) (omega arith, rest) rest

-- The tracker of an opened storage: none, or one that is valid and within the budget.
pub data Opened {State : Type 0} (enabled : Bool) (budget : Int64) (ts : MmapTorrentStorage State)
    : Type 0 where
  unlimited : enabled ≡ false → ts.lru ≡ none → Opened enabled budget ts
  limited :
      (l : PieceLru)
      → enabled ≡ true
      → ts.lru ≡ some l
      → IsValid l
      → l.used ≤ budget
      → Opened enabled budget ts

-- A tracker as OpenTorrent leaves it, before the eviction.
record IsRecovered (n : ℕ) (budget : Int64) (l : PieceLru) : Type 0 where
  valid : IsValid l
  own : EntriesWithin n l.lru_list
  small : total_size l.lru_list < two_63
  budgeted : l.budget ≡ budget

module _ (walk : List (ℕ × Int64) → List (ℕ × Int64))
    (walks : (ps : List (ℕ × Int64)) → Permᴰ ps (walk ps)) (now : Int64)
    (get : ℕ → Option Completion) (info : Info)
    (few : sizes (complete_pieces get info 0 info.num_pieces) < two_63) where
  recover_lru-IsRecovered :
      (budget : Int64) (l : PieceLru)
      → IsValid l
      → EntriesWithin info.num_pieces l.lru_list
      → total_size l.lru_list ≡ 0
      → l.budget ≡ budget
      → IsRecovered info.num_pieces budget (recover_lru walk now get info l).0
  unfolding recover_lru
  recover_lru-IsRecovered budget l v a empty b =
      let pieces = complete_pieces get info 0 info.num_pieces in
      let within =
        complete_pieces-PiecesWithin info.num_pieces get info 0 info.num_pieces (omega arith) in
      let walked = PiecesWithin-permuted info.num_pieces (walks pieces) within in
      let old : IsRecovered info.num_pieces budget l = record {
        valid = v;
        own = a;
        small = omega (arith, empty);
        budgeted = b;
      } in
      let t = sub64 now recovered_age in
      let new : IsRecovered info.num_pieces budget (recover now (walk pieces) l) = record {
        valid = recover-IsValid now (walk pieces) l v;
        own = unfold recover in recover_from-Within info.num_pieces t (walk pieces) l walked a;
        small =
            unfold recover in
            omega (
              arith,
              recover_from_size t (walk pieces) l,
              sizes_permuted (walks pieces),
              few,
              empty,
            );
        budgeted = unfold recover in recover_from-budget t (walk pieces) l ∙ b;
      } in
      if_elim (λ (out : PieceLru × List Effect). IsRecovered info.num_pieces budget out.0)
        (is_empty pieces) old new

  module _ (S : CompletionStore) where
    open S use {State}

    fresh_list : (budget : Int64) (pc : State) → (guarded S pc (new_piece_lru budget)).lru_list ≡ []
    unfolding guarded new_piece_lru
    fresh_list budget pc = refl

    fresh_budget :
        (budget : Int64) (pc : State) → (guarded S pc (new_piece_lru budget)).budget ≡ budget
    unfolding guarded new_piece_lru
    fresh_budget budget pc = refl

    fresh-IsRecovered :
        (budget : Int64) (pc : State)
        → IsRecovered info.num_pieces budget
            (recover_lru walk now get info (guarded S pc (new_piece_lru budget))).0
    fresh-IsRecovered budget pc =
        let l = guarded S pc (new_piece_lru budget) in
        recover_lru-IsRecovered budget l
          (guarded-IsValid S pc (new_piece_lru budget) (new-IsValid budget))
          (subst (EntriesWithin info.num_pieces) (sym (fresh_list budget pc)) tt)
          (ap total_size (fresh_list budget pc)) (fresh_budget budget pc)

    advised_lru : (ts : MmapTorrentStorage State) → (advised S ts).lru ≡ ts.lru
    unfolding advised
    advised_lru ts = refl

    advised_pc : (ts : MmapTorrentStorage State) → (advised S ts).pc ≡ ts.pc
    unfolding advised
    advised_pc ts = refl

    module _ (Good : State → Type 0) (w : Writes S Good info.num_pieces) (h : IsLayout info) where
      evict_recovered_fits :
          (budget : Int64) (l : PieceLru) (ts : MmapTorrentStorage State)
          → Good ts.pc
          → ts.info ≡ info
          → ts.lru ≡ some l
          → IsRecovered info.num_pieces budget l
          → 0 < budget
          → budget < two_63
          → (ts' : MmapTorrentStorage State) × (l' : PieceLru) × (evict_recovered S budget l ts
              ≡ some ts')
            × Good ts'.pc
            × (ts'.lru ≡ some l')
            × IsValid l'
            × (l'.used ≤ budget)
      evict_recovered_fits budget l ts g same e r pos hb = elim (Bool-cases (lt64 budget l.used)) [
        | inr fine ↦ (
          ts,
          l,
          unfold evict_recovered in rw fine refl,
          g,
          e,
          r.valid,
          ground (arith, used_exact l r.valid r.small, lt64_exact budget l.used),
        )
        | inl over ↦
            let lb : l.budget < two_63 = omega (arith, r.budgeted) in
            let lpos : 0 < l.budget = omega (arith, r.budgeted) in
            let (ts', run, q) =
              evict_over_budget_fits S Good info.num_pieces l ts w g (subst IsLayout (sym same) h) e
                r.valid r.own lb r.small lpos in
            (
              ts',
              q.tracker,
              unfold evict_recovered in rw over run,
              q.still_good,
              q.tracked,
              q.valid,
              omega (arith, q.within, r.budgeted),
            )
      ]

      enabled_budget :
          (budget : Int64) → budget < two_63 → eviction_enabled budget info ≡ true → 0 < budget
      unfolding eviction_enabled
      enabled_budget budget hb on = ground (arith, lt64_exact 0 budget)

      -- OpenTorrent, of a torrent with a valid layout whose files are mapped and whose store is good,
      -- does not panic, whatever the store answers for each piece and in whatever order Go walks the
      -- pieces that are recorded as complete. The store is good afterwards; a torrent that is larger
      -- than a set budget has a valid tracker within that budget, and any other torrent has no tracker.
      -- The budget and the recorded bytes are below 2^63.
      pub open_torrent_fits :
          (budget : Int64) (pc : State) (m : Mapped)
          → Good pc
          → budget < two_63
          → (ts : MmapTorrentStorage State) × (open_torrent S budget walk now get pc info m
              ≡ some ts)
            × Good ts.pc
            × Opened (eviction_enabled budget info) budget ts
      open_torrent_fits budget pc m g hb = elim (Bool-cases (eviction_enabled budget info)) [
        | inr off ↦ (
          advised S (untracked S pc info m),
          unfold open_torrent in rw off refl,
          subst Good (sym (advised_pc (untracked S pc info m))) (unfold untracked in g),
          unlimited off (advised_lru (untracked S pc info m) ∙ unfold untracked in refl),
        )
        | inl on ↦
            let r = recover_lru walk now get info (guarded S pc (new_piece_lru budget)) in
            let ts1 : MmapTorrentStorage State = record (untracked S pc info m) {
              lru = some r.0;
              effects = r.1;
            } in
            let pos : 0 < budget = enabled_budget budget hb on in
            let (ts', l', run, good, tracked, valid, within) =
              evict_recovered_fits budget r.0 ts1 (unfold untracked in g) (unfold untracked in refl)
                refl (fresh-IsRecovered budget pc) pos hb in
            (
              advised S ts',
              unfold open_torrent in rw on (rw run refl),
              subst Good (sym (advised_pc ts')) good,
              limited l' on (advised_lru ts' ∙ tracked) valid within,
            )
      ]

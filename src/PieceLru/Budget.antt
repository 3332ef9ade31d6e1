-- ===== src/PieceLru/Budget.antt =====
-- What `computeEvictions` promises: as few pieces as bring the cache within its budget.
use torrent_web_seeder.Prelude.{
  ℕ, zero, suc, ◌-◌, ◌≤◌, ◌<◌, ◌≡◌, refl, sym, ◌∙◌, ap, false, inl, inr, Bool-cases, some, List, [],
  ◌∷◌, map, take, drop, ltb, if◌then◌else◌, arith, lt64, le64, sub64, two_63, sub64_exact,
  lt64_exact, le64_exact, lookup, nat_eq,
}
use torrent_web_seeder.PieceLru.{
  PieceEntry, PieceLru, remove_element, remove, compute_evictions, remaining_budget,
}
use torrent_web_seeder.PieceLru.Entries.{find, total_size, Distinct}
use torrent_web_seeder.PieceLru.Invariant.{IsValid, remove-IsValid}
use torrent_web_seeder.PieceLru.Order.{
  eviction_order, shed, shed_stop, shed_more, compute_evictions-shed,
}
use torrent_web_seeder.PieceLru.Permuted.{
  SameEntries, find_head, SameEntries-tail, SameEntries-total_size, eviction_order-SameEntries,
  Distinct-eviction_order,
}

abbrev pub indices : List PieceEntry → List ℕ
indices = map (λ e. e.index)

-- Without its first `k` pieces the list fits in the budget, and without fewer it does not.
pub record IsLeastCut (budget : ℕ) (es : List PieceEntry) (k : ℕ) : Type 0 where
  pub within : total_size (drop k es) ≤ budget
  pub least : (j : ℕ) → j < k → budget < total_size (drop j es)

IsLeastCut-suc :
    (b : ℕ) (e : PieceEntry) (es : List PieceEntry) (k : ℕ)
    → b < total_size (e ∷ es)
    → IsLeastCut b es k
    → IsLeastCut b (e ∷ es) (suc k)
IsLeastCut-suc b e es k over c = record {
  within = c.within;
  least = elim [ zero ↦ λ h. over | suc j ↦ λ h. c.least j (omega arith) ];
}

shed-IsLeastCut :
    (b : ℕ) (es : List PieceEntry)
    → b < two_63
    → total_size es < two_63
    → (k : ℕ) × (shed b (total_size es) es ≡ indices (take k es)) × IsLeastCut b es k
shed-IsLeastCut b [] hb ht =
    (0, unfold shed in refl, record { within = omega arith; least = λ j h. elim h [ ] })
shed-IsLeastCut b (e ∷ es) hb ht =
    let total = total_size (e ∷ es) in
    elim (Bool-cases (ltb b total)) [
      | inl over ↦
          let (k, cut, c) = shed-IsLeastCut b es hb (omega arith) in
          let exact : sub64 total e.size ≡ total_size es =
            sub64_exact total e.size (omega arith) (omega arith) ∙ omega arith in
          (
            suc k,
            shed_more b total e es (lt64_exact b total hb ht ∙ over)
                ∙ ap (◌∷◌ e.index) (ap (λ u. shed b u es) exact ∙ cut),
            IsLeastCut-suc b e es k (ground arith) c,
          )
      | inr fits ↦ (
        0,
        shed_stop b total (e ∷ es) (lt64_exact b total hb ht ∙ fits),
        record { within = ground arith; least = λ j h. elim h [ ] },
      )
    ]

pub used_exact :
    (l : PieceLru) → IsValid l → total_size l.lru_list < two_63 → l.used ≡ total_size l.lru_list
used_exact l v h = omega (arith, v.accounted)

-- For a valid tracker with a budget set, and the tracked bytes and the budget below 2^63, the pieces
-- to evict are the first `k` of the eviction order (unprotected before protected, least recently
-- used first), for the least `k` after which the remaining pieces fit in the budget.
pub compute_evictions-IsLeastCut :
    (l : PieceLru)
    → IsValid l
    → 0 < l.budget
    → l.budget < two_63
    → total_size l.lru_list < two_63
    → (k : ℕ) × (compute_evictions l ≡ indices (take k (eviction_order l)))
      × IsLeastCut l.budget (eviction_order l) k
compute_evictions-IsLeastCut l v pos hb ht =
    let total : total_size (eviction_order l) ≡ total_size l.lru_list =
      SameEntries-total_size (eviction_order l) l.lru_list (Distinct-eviction_order l v.distinct)
        v.distinct (eviction_order-SameEntries l v.distinct) in
    let (k, cut, c) = shed-IsLeastCut l.budget (eviction_order l) hb (omega arith) in
    let limited : le64 l.budget 0 ≡ false = le64_exact l.budget 0 hb (omega arith) ∙ ground arith in
    let used : l.used ≡ total_size (eviction_order l) = omega (arith, used_exact l v ht) in
    (
      k,
      compute_evictions-shed l
          ∙ ap (λ t. if t then [] else shed l.budget l.used (eviction_order l)) limited
          ∙ ap (λ u. shed l.budget u (eviction_order l)) used
          ∙ cut,
      c,
    )

-- The caller removes every piece that it evicts.
unfoldable pub remove_all : List ℕ → PieceLru → PieceLru
remove_all [] l = l
remove_all (i ∷ is) l = remove_all is (remove i l)

pub remove_all-IsValid : (is : List ℕ) (l : PieceLru) → IsValid l → IsValid (remove_all is l)
unfolding remove_all
remove_all-IsValid [] l v = v
remove_all-IsValid (i ∷ is) l v = remove_all-IsValid is (remove i l) (remove-IsValid i l v)

remove_found :
    (i : ℕ) (l : PieceLru) (e : PieceEntry)
    → IsValid l
    → find i l.lru_list ≡ some e
    → (remove i l).lru_list ≡ remove_element i l.lru_list
unfolding remove
remove_found i l e v h = let h' : lookup i l.entries ≡ some e = v.agrees i ∙ h in rw (h', remove)

-- Removing the first `k` of a list that matches the tracker leaves the rest of it.
remove_all-SameEntries :
    (k : ℕ) (es : List PieceEntry) (l : PieceLru)
    → IsValid l
    → Distinct es
    → SameEntries es l.lru_list
    → SameEntries (drop k es) (remove_all (indices (take k es)) l).lru_list
unfolding remove_all
remove_all-SameEntries zero es l v d s = s
remove_all-SameEntries (suc k) [] l v d s = s
remove_all-SameEntries (suc k) (e ∷ es) l v d s =
    remove_all-SameEntries k es (remove e.index l) (remove-IsValid e.index l v) d.1 (λ i.
      SameEntries-tail e es l.lru_list d v.distinct s i
      ∙ ap (find i) (sym (remove_found e.index l e v (sym (s e.index) ∙ find_head e es))))

Distinct-drop : (k : ℕ) (es : List PieceEntry) → Distinct es → Distinct (drop k es)
Distinct-drop zero es d = d
Distinct-drop (suc k) [] d = tt
Distinct-drop (suc k) (e ∷ es) d = Distinct-drop k es d.1

module _ (l : PieceLru) (v : IsValid l) (pos : 0 < l.budget) (hb : l.budget < two_63)
    (ht : total_size l.lru_list < two_63) where
  -- With a budget set, and the tracked bytes and the budget below 2^63, a valid tracker from which the caller has
  -- removed the pieces that `computeEvictions` names has its bytes in use within the budget.
  pub compute_evictions_fit : (remove_all (compute_evictions l) l).used ≤ l.budget
  compute_evictions_fit =
      let (k, cut, c) = compute_evictions-IsLeastCut l v pos hb ht in
      let o = eviction_order l in
      let d : Distinct o = Distinct-eviction_order l v.distinct in
      let rest = remove_all (indices (take k o)) l in
      let w : IsValid rest = remove_all-IsValid (indices (take k o)) l v in
      let same : total_size (drop k o) ≡ total_size rest.lru_list =
        SameEntries-total_size _ _ (Distinct-drop k o d) w.distinct
          (remove_all-SameEntries k o l v d (eviction_order-SameEntries l v.distinct)) in
      rw cut (omega (arith, w.accounted, c.within, same))

-- `RemainingBudget` of a valid tracker is what the tracked pieces leave of the budget: 0 when
-- they exceed it, and 0 when no budget is set. The tracked bytes and the budget are below 2^63.
pub remaining_budget_exact :
    (l : PieceLru)
    → IsValid l
    → total_size l.lru_list < two_63
    → l.budget < two_63
    → remaining_budget l ≡ l.budget - total_size l.lru_list
unfolding remaining_budget sub64 lt64 le64
remaining_budget_exact l v ht hb = ground (arith, used_exact l v ht)

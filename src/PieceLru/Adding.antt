-- ===== src/PieceLru/Adding.antt =====
-- `Add` as the storage uses it: the cache is back within its budget once the pieces that `Add`
-- names are removed, and which piece goes when all the others are protected.
use mathlib.Core.List.{reverse-cons, append_assoc}
use torrent_web_seeder.Prelude.{
  ℕ, ◌+◌, ◌≤◌, ◌<◌, ◌≡◌, refl, ◌∙◌, ap, Bool, true, false, not, inl, inr, none, some, Option-cases,
  List, [], ◌∷◌, ◌++◌, reverse, select, if◌then◌else◌, arith, Int64, add64, sub64, add64_exact,
  lt64, le64, lt64_exact, le64_exact, two_63, lookup, nat_eq,
}
use torrent_web_seeder.PieceLru.{
  PieceEntry, PieceLru, protects, refresh, track, add, compute_evictions,
}
use torrent_web_seeder.PieceLru.Entries.{find, total_size}
use torrent_web_seeder.PieceLru.Invariant.{IsValid, track-IsValid}
use torrent_web_seeder.PieceLru.Order.{eviction_order, shed, shed_more, compute_evictions-shed}
use torrent_web_seeder.PieceLru.Budget.{remove_all, used_exact, compute_evictions_fit}

add_fresh :
    (now : Int64) (i : ℕ) (size : Int64) (l : PieceLru)
    → IsValid l
    → find i l.lru_list ≡ none
    → add now i size l ≡ (track now i size l, compute_evictions (track now i size l))
unfolding add
add_fresh now i size l v h = let miss : lookup i l.entries ≡ none = v.agrees i ∙ h in rw (miss, add)

add_tracked :
    (now : Int64) (i : ℕ) (size : Int64) (l : PieceLru) (e : PieceEntry)
    → IsValid l
    → find i l.lru_list ≡ some e
    → add now i size l ≡ (refresh now e l, [])
unfolding add
add_tracked now i size l e v h =
    let hit : lookup i l.entries ≡ some e = v.agrees i ∙ h in rw (hit, add)

-- On a valid tracker within a set budget, `Add` of a new or of a tracked piece, with the removal
-- of the pieces that it returns, leaves the cache within the budget. The budget, and the tracked
-- bytes with the piece, are below 2^63.
pub add_fits :
    (now : Int64) (i : ℕ) (size : Int64) (l : PieceLru)
    → IsValid l
    → 0 < l.budget
    → l.budget < two_63
    → total_size l.lru_list + size < two_63
    → l.used ≤ l.budget
    → (remove_all (add now i size l).1 (add now i size l).0).used ≤ l.budget
add_fits now i size l v pos hb ht fits = elim (Option-cases (find i l.lru_list)) [
  | inr (e, h) ↦ rw (add_tracked now i size l e v h) (unfold remove_all refresh in fits)
  | inl h ↦ rw (add_fresh now i size l v h) (
      unfold track in
      compute_evictions_fit (track now i size l) (track-IsValid now i size l v h) pos hb
        (omega arith))
]

-- Every piece of the list is protected.
abbrev pub AllProtected : (ℕ → Bool) → List PieceEntry → Type 0
AllProtected p [] = Unit {0}
AllProtected p (e ∷ es) = (p e.index ≡ true) × AllProtected p es

select-AllProtected :
    (p : ℕ → Bool) (xs ys : List PieceEntry)
    → AllProtected p xs
    → select (λ e. not (p e.index)) (reverse xs ++ ys) ≡ select (λ e. not (p e.index)) ys
select-AllProtected p [] ys a = refl
select-AllProtected p (e ∷ es) ys a =
    rw (reverse-cons e es, append_assoc)
      (select-AllProtected p es (e ∷ ys) a.1
        ∙ ap
            (λ b.
              if not b
              then e ∷ select (λ x. not (p x.index)) ys
              else select (λ x. not (p x.index)) ys)
            a.0)

-- When every tracked piece belongs to a completed file and the new one does not, a new piece
-- that takes a valid cache over its set budget is itself the first to go, although it is the
-- most recently used. The tracked bytes with the piece are below 2^63.
pub add_evicts_newest :
    (now : Int64) (i : ℕ) (size : Int64) (l : PieceLru)
    → IsValid l
    → find i l.lru_list ≡ none
    → protects l.is_protected i ≡ false
    → AllProtected (protects l.is_protected) l.lru_list
    → 0 < l.budget
    → l.budget < total_size l.lru_list + size
    → total_size l.lru_list + size < two_63
    → (rest : List ℕ) × ((add now i size l).1 ≡ i ∷ rest)
add_evicts_newest now i size l v h free prot pos over ht =
    let e : PieceEntry = record { index = i; size = size; last_access = now } in
    let t = track now i size l in
    let p = protects l.is_protected in
    let kept = select (λ x. p x.index) (reverse (e ∷ l.lru_list)) in
    let order : eviction_order t ≡ e ∷ kept =
      unfold track eviction_order in
      ap (λ xs. select (λ x. not (p x.index)) xs ++ kept) (reverse-cons e l.lru_list)
      ∙ ap (λ xs. xs ++ kept) (select-AllProtected p l.lru_list (e ∷ []) prot)
      ∙ ap (λ b. (if not b then e ∷ [] else []) ++ kept) free in
    let limited : le64 t.budget 0 ≡ false =
      unfold track in le64_exact l.budget 0 (omega arith) (omega arith) ∙ ground arith in
    let used : t.used ≡ total_size l.lru_list + size =
      unfold track in
      ap (λ u. add64 u size) (used_exact l v (omega arith)) ∙ add64_exact _ size (omega arith) in
    let more : lt64 t.budget t.used ≡ true =
      unfold track in
      ap (lt64 l.budget) used ∙ lt64_exact l.budget _ (omega arith) (omega arith) ∙ ground arith in
    (
      shed t.budget (sub64 t.used e.size) kept,
      ap (λ r. r.1) (add_fresh now i size l v h)
          ∙ compute_evictions-shed t
          ∙ ap (λ b. if b then [] else shed t.budget t.used (eviction_order t)) limited
          ∙ ap (shed t.budget t.used) order
          ∙ shed_more t.budget t.used e kept more,
    )

-- ===== src/PieceLru/Within.antt =====
-- A tracker of pieces below a number evicts only such pieces.
use torrent_web_seeder.Prelude.{
  ℕ, ◌<◌, Bool, ◌||◌, inl, inr, Option-cases, if_elim, List, [], ◌∷◌, ◌++◌, reverse, All, lookup,
  nat_eq, Int64, lt64, le64, sub64,
}
use mathlib.Core.List.{reverse-cons}
use torrent_web_seeder.PieceLru.{
  PieceEntry, PieceLru, Pass, protects, first_pass, second_pass, compute_evictions, track, add,
}

module _ (n : ℕ) where
  abbrev pub EntriesWithin : List PieceEntry → Type 0
  EntriesWithin es = All (λ e. e.index < n) es

  abbrev pub Within : List ℕ → Type 0
  Within is = All (λ i. i < n) is

  Within-append : (xs ys : List ℕ) → Within xs → Within ys → Within (xs ++ ys)
  Within-append [] ys a b = b
  Within-append (x ∷ xs) ys (h, a) b = (h, Within-append xs ys a b)

  pub EntriesWithin-append :
      (xs ys : List PieceEntry) → EntriesWithin xs → EntriesWithin ys → EntriesWithin (xs ++ ys)
  EntriesWithin-append [] ys a b = b
  EntriesWithin-append (x ∷ xs) ys (h, a) b = (h, EntriesWithin-append xs ys a b)

  EntriesWithin-reverse : (xs : List PieceEntry) → EntriesWithin xs → EntriesWithin (reverse xs)
  EntriesWithin-reverse [] a = tt
  EntriesWithin-reverse (x ∷ xs) (h, a) =
      rw (reverse-cons x xs)
        (EntriesWithin-append (reverse xs) (x ∷ []) (EntriesWithin-reverse xs a) (h, tt))

  -- Both results of the first loop.
  record IsWithin (r : Pass) : Type 0 where
    evicted : Within r.to_evict
    left : EntriesWithin r.candidates

  first_pass-IsWithin :
      (p : ℕ → Bool) (budget sim_used : Int64) (es : List PieceEntry)
      → EntriesWithin es
      → IsWithin (first_pass p budget sim_used es)
  unfolding first_pass
  first_pass-IsWithin p budget sim_used [] a = record { evicted = tt; left = tt }
  first_pass-IsWithin p budget sim_used (e ∷ es) (h, a) =
      let skipped = first_pass-IsWithin p budget sim_used es a in
      let evicted = first_pass-IsWithin p budget (sub64 sim_used e.size) es a in
      if_elim IsWithin (lt64 budget sim_used)
        (if_elim IsWithin (p e.index)
          (record { evicted = skipped.evicted; left = (h, skipped.left) })
          (record { evicted = (h, evicted.evicted); left = evicted.left }))
        (record { evicted = tt; left = tt })

  second_pass-Within :
      (budget sim_used : Int64) (es : List PieceEntry)
      → EntriesWithin es
      → Within (second_pass budget sim_used es)
  unfolding second_pass
  second_pass-Within budget sim_used [] a = tt
  second_pass-Within budget sim_used (e ∷ es) (h, a) =
      if_elim Within (le64 sim_used budget) tt
        (h, second_pass-Within budget (sub64 sim_used e.size) es a)

  pub compute_evictions-Within :
      (l : PieceLru) → EntriesWithin l.lru_list → Within (compute_evictions l)
  unfolding compute_evictions
  compute_evictions-Within l a =
      let r = first_pass (protects l.is_protected) l.budget l.used (reverse l.lru_list) in
      let both =
        first_pass-IsWithin (protects l.is_protected) l.budget l.used (reverse l.lru_list)
          (EntriesWithin-reverse l.lru_list a) in
      if_elim Within (le64 l.budget 0 || le64 l.used l.budget) {x = []} tt (
        Within-append r.to_evict (second_pass l.budget r.sim_used r.candidates) both.evicted
          (second_pass-Within l.budget r.sim_used r.candidates both.left))

  pub add-Within :
      (now : Int64) (i : ℕ) (size : Int64) (l : PieceLru)
      → i < n
      → EntriesWithin l.lru_list
      → Within (add now i size l).1
  unfolding add
  add-Within now i size l lt a = elim (Option-cases (lookup i l.entries)) [
    | inr (e, q) ↦ rw (add, q) tt
    | inl q ↦ rw (add, q) (compute_evictions-Within (track now i size l) (unfold track in (lt, a)))
  ]

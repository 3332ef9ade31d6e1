-- ===== src/PieceLru/Permuted.antt =====
-- Two lists without repeated indices that answer every lookup alike hold the same bytes. The
-- eviction order holds the same entries as the tracker's list.
use mathlib.Core.List.{reverse-cons}
use torrent_web_seeder.Prelude.{
  ℕ, ◌≡◌, refl, sym, ◌∙◌, Bool, not, ◌⊎◌, inl, inr, Bool-cases, none, some, List, [], ◌∷◌, ◌++◌,
  reverse, select, if◌then◌else◌, arith,
}
use torrent_web_seeder.PieceLru.{PieceEntry, PieceLru, remove_element, protects}
use torrent_web_seeder.PieceLru.Entries.{
  find, total_size, Distinct, find-remove_element, Distinct-remove_element,
  total_size-remove_element, find-append, Distinct-append_one,
}
use torrent_web_seeder.PieceLru.Order.{eviction_order}

abbrev pub SameEntries : List PieceEntry → List PieceEntry → Type 0
SameEntries xs ys = (i : ℕ) → find i xs ≡ find i ys

pub find_head : (e : PieceEntry) (es : List PieceEntry) → find e.index (e ∷ es) ≡ some e
unfolding find
find_head e es = ground arith

-- Taking the head off one list and its index out of the other keeps them alike.
pub SameEntries-tail :
    (e : PieceEntry) (xs ys : List PieceEntry)
    → Distinct (e ∷ xs)
    → Distinct ys
    → SameEntries (e ∷ xs) ys
    → SameEntries xs (remove_element e.index ys)
unfolding find
SameEntries-tail e xs ys d d' s i = ground (arith, s i, d.0, find-remove_element e.index i ys d')

pub SameEntries-total_size :
    (xs ys : List PieceEntry)
    → Distinct xs
    → Distinct ys
    → SameEntries xs ys
    → total_size xs ≡ total_size ys
SameEntries-total_size [] [] d d' s = refl
SameEntries-total_size [] (y ∷ ys) d d' s =
    absurd (unfold find in ground (arith, s y.index, find_head y ys))
SameEntries-total_size (e ∷ xs) ys d d' s = omega (
  arith,
  SameEntries-total_size xs (remove_element e.index ys) d.1 (Distinct-remove_element e.index ys d')
      (SameEntries-tail e xs ys d d' s),
  total_size-remove_element e.index ys e (sym (s e.index) ∙ find_head e xs),
)

-- A test of the index alone lets the entry through, or not.
find-select :
    (q : ℕ → Bool) (i : ℕ) (es : List PieceEntry)
    → find i (select (λ e. q e.index) es) ≡ (if q i then find i es else none)
unfolding find
find-select q i [] = ground arith
find-select q i (e ∷ es) = ground (arith, find-select q i es)

Distinct-select :
    (q : ℕ → Bool) (es : List PieceEntry) → Distinct es → Distinct (select (λ e. q e.index) es)
Distinct-select q [] d = tt
Distinct-select q (e ∷ es) d = elim (Bool-cases (q e.index)) [
  | inl y ↦ rw y (rw (find-select q e.index es) (rw y d.0), Distinct-select q es d.1)
  | inr n ↦ rw n (Distinct-select q es d.1)
]

Distinct-append :
    (xs ys : List PieceEntry)
    → Distinct xs
    → Distinct ys
    → ((i : ℕ) → (find i xs ≡ none) ⊎ (find i ys ≡ none))
    → Distinct (xs ++ ys)
Distinct-append [] ys d d' apart = d'
Distinct-append (e ∷ xs) ys d d' apart = (
  unfold find in ground (arith, apart e.index, find_head e xs, d.0, find-append e.index xs ys),
  Distinct-append xs ys d.1 d' (λ i. unfold find in ground (arith, apart i)),
)

pub find-reverse :
    (i : ℕ) (es : List PieceEntry)
    → Distinct es
    → Distinct (reverse es) × (find i (reverse es) ≡ find i es)
unfolding find
find-reverse i [] d = (tt, refl)
find-reverse i (e ∷ es) d =
    let at_head = find-reverse e.index es d.1 in
    rw (reverse-cons e es) (
      Distinct-append_one (reverse es) e at_head.0 (at_head.1 ∙ d.0),
      ground (arith, d.0, (find-reverse i es d.1).1, find-append i (reverse es) (e ∷ [])),
    )

module _ (l : PieceLru) (d : Distinct l.lru_list) where
  abbrev p : ℕ → Bool
  p = protects l.is_protected

  abbrev back : List PieceEntry
  back = reverse l.lru_list

  pub eviction_order-SameEntries : SameEntries (eviction_order l) l.lru_list
  unfolding eviction_order
  eviction_order-SameEntries i = ground (
    arith,
    find-append i (select (λ e. not (p e.index)) back) (select (λ e. p e.index) back),
    find-select (λ j. not (p j)) i back,
    find-select p i back,
    (find-reverse i l.lru_list d).1,
  )

  pub Distinct-eviction_order : Distinct (eviction_order l)
  unfolding eviction_order
  Distinct-eviction_order =
      Distinct-append _ _ (Distinct-select (λ j. not (p j)) back (find-reverse 0 l.lru_list d).0)
        (Distinct-select p back (find-reverse 0 l.lru_list d).0)
        (λ i. ground (arith, find-select (λ j. not (p j)) i back, find-select p i back))

-- ===== src/PieceLru/Entries.antt =====
-- Lists of piece entries: lookup by index, sums of sizes, and what a removal does to them.
use torrent_web_seeder.Prelude.{
  ℕ, ◌+◌, ◌≡◌, refl, sym, subst, Option, none, some, List, [], ◌∷◌, ◌++◌, ◌==◌, if◌then◌else◌,
  arith,
}
use torrent_web_seeder.PieceLru.{PieceEntry, remove_element}

-- The entry with an index, if one is in the list.
unfoldable pub find : ℕ → List PieceEntry → Option PieceEntry
find i [] = none
find i (e ∷ es) = if e.index == i then some e else find i es

abbrev pub total_size : List PieceEntry → ℕ
total_size [] = 0
total_size (e ∷ es) = e.size + total_size es

-- No index occurs twice.
abbrev pub Distinct : List PieceEntry → Type 0
Distinct [] = Unit {0}
Distinct (e ∷ es) = (find e.index es ≡ none) × Distinct es

pub find-index : (i : ℕ) (es : List PieceEntry) (e : PieceEntry) → find i es ≡ some e → e.index ≡ i
unfolding find
find-index i [] e h = ground arith
find-index i (x ∷ es) e h = ground (arith, find-index i es e)

pub find_self :
    (i : ℕ) (es : List PieceEntry) (e : PieceEntry) → find i es ≡ some e → find e.index es ≡ some e
find_self i es e h = subst (λ j. find j es ≡ some e) (sym (find-index i es e h)) h

pub remove_element_absent :
    (i : ℕ) (es : List PieceEntry) → find i es ≡ none → remove_element i es ≡ es
unfolding find remove_element
remove_element_absent i [] h = refl
remove_element_absent i (e ∷ es) h = ground (arith, remove_element_absent i es)

pub find-remove_element :
    (i j : ℕ) (es : List PieceEntry)
    → Distinct es
    → find j (remove_element i es) ≡ (if i == j then none else find j es)
unfolding find remove_element
find-remove_element i j [] d = ground arith
find-remove_element i j (e ∷ es) d = ground (arith, find-remove_element i j es)

pub Distinct-remove_element :
    (i : ℕ) (es : List PieceEntry) → Distinct es → Distinct (remove_element i es)
unfolding find remove_element
Distinct-remove_element i [] d = tt
Distinct-remove_element i (e ∷ es) d =
    ground (arith, Distinct-remove_element i es, find-remove_element i e.index es)

pub total_size-remove_element :
    (i : ℕ) (es : List PieceEntry) (e : PieceEntry)
    → find i es ≡ some e
    → total_size (remove_element i es) + e.size ≡ total_size es
unfolding find remove_element
total_size-remove_element i [] e h = ground arith
total_size-remove_element i (x ∷ es) e h = ground (arith, total_size-remove_element i es e)

pub find-append :
    (i : ℕ) (xs ys : List PieceEntry)
    → find i (xs ++ ys) ≡ elim (find i xs) [ some e ↦ some e | none ↦ find i ys ]
unfolding find
find-append i [] ys = refl
find-append i (e ∷ es) ys = ground (arith, find-append i es ys)

pub total_size-append :
    (xs ys : List PieceEntry) → total_size (xs ++ ys) ≡ total_size xs + total_size ys
total_size-append [] ys = omega arith
total_size-append (e ∷ es) ys = omega (arith, total_size-append es ys)

pub Distinct-append_one :
    (es : List PieceEntry) (e : PieceEntry)
    → Distinct es
    → find e.index es ≡ none
    → Distinct (es ++ e ∷ [])
unfolding find
Distinct-append_one [] e d h = (refl, tt)
Distinct-append_one (x ∷ es) e d h =
    ground (arith, Distinct-append_one es e, find-append x.index es (e ∷ []))

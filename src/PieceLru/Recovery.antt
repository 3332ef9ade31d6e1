-- ===== src/PieceLru/Recovery.antt =====
-- What Recover makes of a list of pieces: their bytes, whatever their order.
use mathlib.Core.List.{Permᴰ}
use torrent_web_seeder.Prelude.{
  ℕ, ◌+◌, ◌≤◌, ◌<◌, ◌≡◌, refl, ◌∙◌, ap, subst, inl, inr, Option-cases, List, [], ◌∷◌, arith, lookup,
  nat_eq, Int64,
}
use torrent_web_seeder.PieceLru.{PieceLru, recover_piece, recover_from}
use torrent_web_seeder.PieceLru.Entries.{total_size, total_size-append}
use torrent_web_seeder.PieceLru.Within.{EntriesWithin, EntriesWithin-append}

abbrev pub sizes : List (ℕ × Int64) → ℕ
sizes [] = 0
sizes (p ∷ ps) = p.1 + sizes ps

abbrev pub PiecesWithin : ℕ → List (ℕ × Int64) → Type 0
PiecesWithin n [] = Unit {0}
PiecesWithin n (p ∷ ps) = (p.0 < n) × PiecesWithin n ps

pub sizes_permuted : {xs ys : List (ℕ × Int64)} → Permᴰ xs ys → sizes xs ≡ sizes ys
sizes_permuted Permᴰ.nil = refl
sizes_permuted (Permᴰ.cons e p) = omega (arith, ap (λ x. x.1) e, sizes_permuted p)
sizes_permuted (Permᴰ.swap e f) = omega (arith, ap (λ x. x.1) e, ap (λ x. x.1) f)
sizes_permuted (Permᴰ.trans p q) = sizes_permuted p ∙ sizes_permuted q

pub PiecesWithin-permuted :
    (n : ℕ) {xs ys : List (ℕ × Int64)} → Permᴰ xs ys → PiecesWithin n xs → PiecesWithin n ys
PiecesWithin-permuted n Permᴰ.nil a = tt
PiecesWithin-permuted n (Permᴰ.cons e p) a =
    (subst (λ x. x.0 < n) e a.0, PiecesWithin-permuted n p a.1)
PiecesWithin-permuted n (Permᴰ.swap e f) a =
    (subst (λ x. x.0 < n) f a.1.0, (subst (λ x. x.0 < n) e a.0, a.1.1))
PiecesWithin-permuted n (Permᴰ.trans p q) a =
    PiecesWithin-permuted n q (PiecesWithin-permuted n p a)

recover_piece_size :
    (t : Int64) (i : ℕ) (size : Int64) (l : PieceLru)
    → total_size (recover_piece t i size l).lru_list ≤ total_size l.lru_list + size
unfolding recover_piece
recover_piece_size t i size l = elim (Option-cases (lookup i l.entries)) [
  | inr (e, q) ↦ rw (recover_piece, q) (omega arith)
  | inl q ↦
      rw (recover_piece, q)
        (omega (
          arith,
          total_size-append l.lru_list (record { index = i; size = size; last_access = t } ∷ []),
        ))
]

pub recover_from_size :
    (t : Int64) (ps : List (ℕ × Int64)) (l : PieceLru)
    → total_size (recover_from t ps l).lru_list ≤ total_size l.lru_list + sizes ps
unfolding recover_from
recover_from_size t [] l = omega arith
recover_from_size t ((i, size) ∷ ps) l =
    omega (arith, recover_from_size t ps (recover_piece t i size l), recover_piece_size t i size l)

recover_piece-Within :
    (n : ℕ) (t : Int64) (i : ℕ) (size : Int64) (l : PieceLru)
    → i < n
    → EntriesWithin n l.lru_list
    → EntriesWithin n (recover_piece t i size l).lru_list
unfolding recover_piece
recover_piece-Within n t i size l lt a = elim (Option-cases (lookup i l.entries)) [
  | inr (e, q) ↦ rw (recover_piece, q) a
  | inl q ↦
      rw (recover_piece, q)
        (EntriesWithin-append n l.lru_list (record { index = i; size = size; last_access = t } ∷ [])
          a (lt, tt))
]

pub recover_from-Within :
    (n : ℕ) (t : Int64) (ps : List (ℕ × Int64)) (l : PieceLru)
    → PiecesWithin n ps
    → EntriesWithin n l.lru_list
    → EntriesWithin n (recover_from t ps l).lru_list
unfolding recover_from
recover_from-Within n t [] l b a = a
recover_from-Within n t ((i, size) ∷ ps) l (lt, b) a =
    recover_from-Within n t ps (recover_piece t i size l) b (recover_piece-Within n t i size l lt a)

recover_piece-budget :
    (t : Int64) (i : ℕ) (size : Int64) (l : PieceLru) → (recover_piece t i size l).budget ≡ l.budget
unfolding recover_piece
recover_piece-budget t i size l = ground arith

pub recover_from-budget :
    (t : Int64) (ps : List (ℕ × Int64)) (l : PieceLru) → (recover_from t ps l).budget ≡ l.budget
unfolding recover_from
recover_from-budget t [] l = refl
recover_from-budget t ((i, size) ∷ ps) l =
    recover_from-budget t ps (recover_piece t i size l) ∙ recover_piece-budget t i size l

-- ===== src/Prelude/Cutting.antt =====
-- Lemmas on splitting and trimming.
use mathlib.Core.Path.{◌≡◌, refl, ap, ◌∙◌}
use mathlib.Core.Logic.{◌⊎◌, inl, inr}
use mathlib.Core.Bool.{Bool, true, false}
use mathlib.Core.List.{List, [], ◌∷◌, ◌++◌, reverse, reverse-append, reverse-cons}
use Prim.Native.Nat.{ℕ}
use native.Mathlib.Omega.{arith}
use torrent_web_seeder.Prelude.Tests.{◌==◌, ==_iff, Bool-cases}
use torrent_web_seeder.Prelude.Lists.{drop, length}
use torrent_web_seeder.Prelude.Bytes.{Text, has_prefix}
use torrent_web_seeder.Prelude.Strings.{split, cons_part, trim_left, trim_right, trim_prefix}

pub has_prefix-append : (s t : Text) → has_prefix (s ++ t) s ≡ true
unfolding has_prefix
has_prefix-append [] t = refl
has_prefix-append (c ∷ s) t = ground (arith, ==_iff c c, has_prefix-append s t)

drop-append : (s t : Text) → drop (length s) (s ++ t) ≡ t
drop-append [] t = refl
drop-append (c ∷ s) t = drop-append s t

pub trim_prefix-append : (s t : Text) → trim_prefix (s ++ t) s ≡ t
unfolding trim_prefix
trim_prefix-append s t = rw (has_prefix-append s t) (drop-append s t)

-- No byte of the text passes the test.
abbrev pub Lacks : (ℕ → Bool) → Text → Type 0
Lacks p [] = Unit {0}
Lacks p (c ∷ s) = (p c ≡ false) × Lacks p s

pub split-append :
    (sep : ℕ) (s t : Text) → Lacks (λ c. c == sep) s → split sep (s ++ (sep ∷ t)) ≡ s ∷ split sep t
unfolding split cons_part
split-append sep [] t h = ground (arith, ==_iff sep sep)
split-append sep (c ∷ s) t (h, hs) = rw (h, split-append sep s t hs) refl

pub split_whole : (sep : ℕ) (s : Text) → Lacks (λ c. c == sep) s → split sep s ≡ s ∷ []
unfolding split cons_part
split_whole sep [] h = refl
split_whole sep (c ∷ s) (h, hs) = rw (h, split_whole sep s hs) refl

trim_left_kept :
    (p : ℕ → Bool) (xs : Text) (c : ℕ) (ys : Text)
    → p c ≡ false
    → trim_left p (xs ++ (c ∷ ys)) ≡ trim_left p xs ++ (c ∷ ys)
unfolding trim_left
trim_left_kept p [] c ys h = rw h refl
trim_left_kept p (x ∷ xs) c ys h = ground (arith, trim_left_kept p xs c ys h)

trim_left_end :
    (p : ℕ → Bool) (xs : Text) (c : ℕ)
    → (trim_left p (xs ++ (c ∷ [])) ≡ [])
      ⊎ ((ys : Text) × (trim_left p (xs ++ (c ∷ [])) ≡ ys ++ (c ∷ [])))
unfolding trim_left
trim_left_end p [] c = elim (Bool-cases (p c)) [
  | inl y ↦ inl (rw y refl)
  | inr n ↦ inr ([], rw n refl)
]
trim_left_end p (x ∷ xs) c = elim (Bool-cases (p x)) [
  | inl y ↦ rw y (trim_left_end p xs c)
  | inr n ↦ inr (x ∷ xs, rw n refl)
]

-- A byte that is kept keeps everything in front of it.
trim_right_kept :
    (p : ℕ → Bool) (c : ℕ) (s : Text) → p c ≡ false → trim_right p (c ∷ s) ≡ c ∷ trim_right p s
unfolding trim_right
trim_right_kept p c s h =
    ap (λ x. reverse (trim_left p x)) (reverse-cons c s)
    ∙ ap reverse (trim_left_kept p (reverse s) c [] h)
    ∙ reverse-append (trim_left p (reverse s)) (c ∷ [])

pub trim_right-append :
    (p : ℕ → Bool) (s t : Text) → Lacks p s → trim_right p (s ++ t) ≡ s ++ trim_right p t
trim_right-append p [] t h = refl
trim_right-append p (c ∷ s) t (h, hs) =
    trim_right_kept p c (s ++ t) h ∙ ap (◌∷◌ c) (trim_right-append p s t hs)

-- What is left of a text is empty or starts as the text does.
pub trim_right_start :
    (p : ℕ → Bool) (c : ℕ) (s : Text)
    → (trim_right p (c ∷ s) ≡ []) ⊎ ((t : Text) × (trim_right p (c ∷ s) ≡ c ∷ t))
unfolding trim_right
trim_right_start p c s = elim (trim_left_end p (reverse s) c) [
  | inl e ↦ inl (ap (λ x. reverse (trim_left p x)) (reverse-cons c s) ∙ ap reverse e)
  | inr (ys, e) ↦ inr (
    reverse ys,
    ap (λ x. reverse (trim_left p x)) (reverse-cons c s)
        ∙ ap reverse e
        ∙ reverse-append ys (c ∷ []),
  )
]

pub trim_left_front : (p : ℕ → Bool) (c : ℕ) (s : Text) → p c ≡ false → trim_left p (c ∷ s) ≡ c ∷ s
unfolding trim_left
trim_left_front p c s h = rw h refl

split_shape : (sep : ℕ) (s : Text) → (p : Text) × (ps : List Text) × (split sep s ≡ p ∷ ps)
unfolding split cons_part
split_shape sep [] = ([], [], refl)
split_shape sep (c ∷ s) =
    let (p, ps, e) = split_shape sep s in
    elim (Bool-cases (c == sep)) [
      | inl y ↦ ([], split sep s, rw y refl)
      | inr n ↦ (c ∷ p, ps, rw (n, e) refl)
    ]

-- A separator splits whatever stands in front of it from what follows.
pub split_at : (sep : ℕ) (s t : Text) → split sep (s ++ (sep ∷ t)) ≡ split sep s ++ split sep t
unfolding split cons_part
split_at sep [] t = ground (arith, ==_iff sep sep)
split_at sep (c ∷ s) t =
    let (p, ps, e) = split_shape sep s in
    let rest = split_at sep s t in
    elim (Bool-cases (c == sep)) [
      | inl y ↦ rw y (ap (◌∷◌ []) rest)
      | inr n ↦ rw n (ap (cons_part c) rest ∙ rw e refl)
    ]

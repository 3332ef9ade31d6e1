-- ===== src/Prelude/Members.antt =====
-- Membership in a list of texts, and counting without repetition.
use Prim.Native.Nat.{suc, ◌≤◌}
use mathlib.Core.Path.{◌≡◌, refl, sym, ◌∙◌, ap, subst}
use mathlib.Core.Logic.{◌↔◌, ◌⊎◌, inl, inr}
use mathlib.Core.Bool.{Bool, true, false, ◌&&◌, ◌||◌}
use mathlib.Core.List.{List, [], ◌∷◌}
use native.Mathlib.Omega.{arith}
use torrent_web_seeder.Prelude.Tests.{if◌then◌else◌, if_elim, Bool-cases}
use torrent_web_seeder.Prelude.Lists.{length, select}
use torrent_web_seeder.Prelude.Bytes.{Text, text_eq, text_eq_iff}

unfoldable pub elem : Text → List Text → Bool
elem x [] = false
elem x (y ∷ ys) = text_eq y x || elem x ys

-- No text twice.
abbrev pub Unique : List Text → Type 0
Unique [] = Unit
Unique (x ∷ xs) = (elem x xs ≡ false) × Unique xs

-- Without the first occurrence.
abbrev erase : Text → List Text → List Text
erase x [] = []
erase x (y ∷ ys) = if text_eq y x then ys else y ∷ erase x ys

length-erase :
    (x : Text) (ys : List Text) → elem x ys ≡ true → length ys ≡ suc (length (erase x ys))
unfolding elem
length-erase x [] h = cc
length-erase x (y ∷ ys) h = ground (arith, length-erase x ys)

elem-erase :
    (x z : Text) (ys : List Text)
    → text_eq x z ≡ false
    → elem z ys ≡ true
    → elem z (erase x ys) ≡ true
unfolding elem
elem-erase x z [] d h = cc
elem-erase x z (y ∷ ys) d h = elim (Bool-cases (text_eq y x)) [
  | inl e ↦
      let other : text_eq y z ≡ false =
        subst (λ w. text_eq w z ≡ false) (sym ((text_eq_iff y x).0 e)) d in
      ground arith
  | inr n ↦ ground (arith, elem-erase x z ys d)
]

elem_both : {b : Bool} → b ≡ false → ¬ (b ≡ true)
elem_both p q = cc

elem_apart :
    (x z : Text) (xs : List Text) → elem x xs ≡ false → elem z xs ≡ true → text_eq x z ≡ false
elem_apart x z xs a h = elim (Bool-cases (text_eq x z)) [
  | inr d ↦ d
  | inl e ↦ absurd (elem_both (subst (λ w. elem w xs ≡ false) ((text_eq_iff x z).0 e) a) h)
]

elem_here : (x : Text) (xs : List Text) → elem x (x ∷ xs) ≡ true
unfolding elem
elem_here x xs = rw ((text_eq_iff x x).1 refl) refl

elem_later : (x z : Text) (xs : List Text) → elem z xs ≡ true → elem z (x ∷ xs) ≡ true
unfolding elem
elem_later x z xs h = ground arith

-- A list without repetition is no longer than a list that has all its texts.
pub length_le :
    (xs ys : List Text)
    → Unique xs
    → ((x : Text) → elem x xs ≡ true → elem x ys ≡ true)
    → length xs ≤ length ys
unfolding elem
length_le [] ys u h = omega arith
length_le (x ∷ xs) ys (a, u) h =
    let shorter =
      length_le xs (erase x ys) u
        (λ z i. elem-erase x z ys (elem_apart x z xs a i) (h z (elem_later x z xs i))) in
    omega (arith, length-erase x ys (h x (elem_here x xs)))

elem_cases : (x z : Text) (xs : List Text) → elem z (x ∷ xs) ≡ true → (x ≡ z) ⊎ (elem z xs ≡ true)
unfolding elem
elem_cases x z xs h = elim (Bool-cases (text_eq x z)) [
  | inl e ↦ inl ((text_eq_iff x z).0 e)
  | inr n ↦ inr (ground arith)
]

and_false : (b : Bool) → (b && false) ≡ false
and_false true = refl
and_false false = refl

pub elem-select :
    (p : Text → Bool) (x : Text) (xs : List Text) → elem x (select p xs) ≡ (p x && elem x xs)
unfolding elem
elem-select p x [] = ground arith
elem-select p x (y ∷ ys) = elim (Bool-cases (text_eq y x)) [
  | inl e ↦
      let same : p y ≡ p x = ap p ((text_eq_iff y x).0 e) in ground (arith, elem-select p x ys)
  | inr n ↦ ground (arith, elem-select p x ys)
]

pub Unique-select : (p : Text → Bool) (xs : List Text) → Unique xs → Unique (select p xs)
Unique-select p [] u = tt
Unique-select p (x ∷ xs) (a, u) =
    if_elim Unique (p x) (elem-select p x xs ∙ (rw a (and_false (p x))), Unique-select p xs u)
      (Unique-select p xs u)

pub select_agree :
    (p q : Text → Bool) (xs : List Text)
    → ((x : Text) → elem x xs ≡ true → p x ≡ q x)
    → select p xs ≡ select q xs
select_agree p q [] h = refl
select_agree p q (x ∷ xs) h =
    let same = select_agree p q xs (λ z i. h z (elem_later x z xs i)) in
    rw (h x (elem_here x xs)) (rw same refl)

-- Without repetition, a list whose texts another has is as long only if it has all of the other's.
pub count_all :
    (xs ys : List Text)
    → Unique xs
    → Unique ys
    → ((x : Text) → elem x xs ≡ true → elem x ys ≡ true)
    → (length ys ≤ length xs) ↔ ((y : Text) → elem y ys ≡ true → elem y xs ≡ true)
count_all xs ys u v h = (
  λ long y i. elim (Bool-cases (elem y xs)) [
    | inl there ↦ there
    | inr missing ↦
        let shorter =
          length_le (y ∷ xs) ys (missing, u)
            (λ z j. elim (elem_cases y z xs j) [
              | inl e ↦ subst (λ w. elem w ys ≡ true) e i
              | inr k ↦ h z k
            ]) in
        absurd (omega arith)
  ],
  λ all. length_le ys xs v all,
)

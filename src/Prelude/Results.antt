-- ===== src/Prelude/Results.antt =====
-- What a function of type (A, error) returns.
use mathlib.Core.Path.{◌≡◌, refl}
use mathlib.Core.Logic.{◌⊎◌, inl, inr}
use mathlib.Core.List.{[], ◌∷◌}
use mathlib.Core.Option.{none, some}
use Prim.Native.Nat.{ℕ}
use torrent_web_seeder.Prelude.Bytes.{Text}

pub none-≢-some {ℓ} : {A : Type ℓ} {a : A} → ¬ (none ≡ some a)
none-≢-some h = cc

-- A value, or the text of an error.
pub data Result {ℓ} (A : Type ℓ) : Type ℓ where
  ok : A → Result A
  err : Text → Result A

pub Result-cases {ℓ} :
    {A : Type ℓ} (r : Result A) → ((e : Text) × (r ≡ err e)) ⊎ ((a : A) × (r ≡ ok a))
Result-cases (ok a) = inr (a, refl)
Result-cases (err e) = inl (e, refl)

-- A text that may be an error, empty, or not.
pub Text-cases :
    (a : Result Text)
    → ((e : Text) × (a ≡ err e)) ⊎ ((a ≡ ok []) ⊎ ((c : ℕ) × (cp : Text) × (a ≡ ok (c ∷ cp))))
Text-cases (err e) = inl (e, refl)
Text-cases (ok []) = inr (inl refl)
Text-cases (ok (c ∷ cp)) = inr (inr (c, cp, refl))

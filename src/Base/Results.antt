-- ===== src/Base/Results.antt =====
-- Go's `(value, error)` pair of a function that returns one or the other.
use mathlib.Core.Path.{◌≡◌, refl}
use mathlib.Core.Bool.{Bool}

pub data Outcome {ℓ κ} (E : Type ℓ) (A : Type κ) : Type (ℓ ⊔ κ) where
  ok : A → Outcome E A
  err : E → Outcome E A

-- What a value that carries a flag was.
module _ {ℓ κ} {E : Type ℓ} {A : Type κ} {a b : A} {c d : Bool} where
  pub ok_out : ◌≡◌ {A = Outcome E (A × Bool)} (ok (a, c)) (ok (b, d)) → a ≡ b
  ok_out e = cc

  pub ok_flag : ◌≡◌ {A = Outcome E (A × Bool)} (ok (a, c)) (ok (b, d)) → c ≡ d
  ok_flag e = cc

module _ {ℓ κ ι} {E : Type ℓ} {A : Type κ} {B : Type ι} where
  infixl 5 ◌>>=◌
  -- The early return of `if err != nil { return err }`.
  abbrev pub ◌>>=◌ : Outcome E A → (A → Outcome E B) → Outcome E B
  err e >>= next = err e
  ok a >>= next = next a

  -- A chain that returned a value went through both of its parts.
  pub both_ok :
      (first : Outcome E A) (next : A → Outcome E B) {b : B}
      → (first >>= next) ≡ ok b
      → (a : A) × (first ≡ ok a) × (next a ≡ ok b)
  both_ok (err e) next h = cc
  both_ok (ok a) next h = (a, refl, h)

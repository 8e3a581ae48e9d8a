-- ===== src/EncTypes/RoundTrip.antt =====
-- The names of a mask stand for the mask.
use go_adldap.Base.{
  ℕ, zero, suc, ◌<◌, ◌≡◌, refl, sym, subst, arith, Bool, true, false, ◌&&◌, ◌==◌, ==_iff,
  Bool-cases, inl, inr,
}
use go_adldap.Base.Text.{trim_left, trim_right, is_space, upper, to_upper, starts_with, same_text}
use go_adldap.EncTypes.{enc_type_bit, enc_type_bits_from, enc_type_bits, named_bits, enc_type_names}

-- A test of every number below a bound.
below : ℕ → (ℕ → Bool) → Bool
below zero p = true
below (suc n) p = p n && below n p

both_true : (a b : Bool) → (a && b) ≡ true → (a ≡ true) × (b ≡ true)
both_true true b h = (refl, h)
both_true false b h = cc

below_lem : (n : ℕ) (p : ℕ → Bool) (v : ℕ) → below n p ≡ true → v < n → p v ≡ true
unfolding below
below_lem zero p v h k = elim k [ ]
below_lem (suc n) p v h k =
    let (now, rest) = both_true (p n) (below n p) h in
    elim (Bool-cases (v == n)) [
      | inl e ↦ subst (λ x. p x ≡ true) (sym ((==_iff v n).0 e)) now
      | inr e ↦ below_lem n p v rest (ground arith)
    ]

comes_back : ℕ → Bool
comes_back v = enc_type_bits (enc_type_names v) == v

comes_back_all : below 32 comes_back ≡ true
unfolding below comes_back enc_type_bits enc_type_names named_bits enc_type_bits_from enc_type_bit
    same_text starts_with trim_left trim_right is_space to_upper upper
comes_back_all = refl

-- A mask of the five known bits is the one that EncTypeBits folds its names into.
pub enc_type_bits-enc_type_names : (v : ℕ) → v < 32 → enc_type_bits (enc_type_names v) ≡ v
unfolding comes_back
enc_type_bits-enc_type_names v h = (==_iff _ v).0 (below_lem 32 comes_back v comes_back_all h)

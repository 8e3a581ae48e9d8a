-- ===== src/GroupType/Wire.antt =====
-- A groupType is read back from its text.
use go_adldap.Base.{
  ℕ, zero, suc, ◌+◌, ◌*◌, ◌-◌, ◌/◌, ◌%◌, ◌^◌, ◌<◌, ◌≤◌, ◌≡◌, refl, ap, ◌∙◌, arith, Bool, true,
  false, not, ◌&&◌, some, [], ◌∷◌, ◌++◌, ltb, ltb-true, ltb-false, leb, if◌then◌else◌, is_empty,
  Bool-cases, inl, inr,
}
use go_adldap.Base.Bytes.{Bytes}
use go_adldap.Base.Text.{is_space, trim_left, trim_right, decimal}
use go_adldap.GroupType.{
  group_type_string, is_digit, all_digits, decimal_value, magnitude, parse_int, parse_group_type,
}

-- What the printed digits are, and what they are worth.
pub record IsText (n : ℕ) (s : Bytes) : Type 0 where
  pub digits : all_digits s ≡ true
  pub worth : decimal_value 0 s ≡ n
  pub some_digit : is_empty s ≡ false

decimal_value-append :
    (v : ℕ) (a : Bytes) (c : ℕ)
    → decimal_value v (a ++ (c ∷ [])) ≡ 10 * decimal_value v a + (c - 48)
unfolding decimal_value
decimal_value-append v [] c = refl
decimal_value-append v (x ∷ a) c = decimal_value-append (10 * v + (x - 48)) a c

all_digits-append :
    (a : Bytes) (c : ℕ)
    → all_digits a ≡ true
    → is_digit c ≡ true
    → all_digits (a ++ (c ∷ [])) ≡ true
unfolding all_digits
all_digits-append [] c h e = rw e refl
all_digits-append (x ∷ a) c h e = ground (arith, all_digits-append a c)

is_digit-add : (d : ℕ) → d < 10 → is_digit (48 + d) ≡ true
unfolding is_digit
is_digit-add d h = ground arith

is_empty-append : (a : Bytes) (c : ℕ) → is_empty (a ++ (c ∷ [])) ≡ false
is_empty-append [] c = refl
is_empty-append (x ∷ a) c = refl

IsText-one : (n : ℕ) → n < 10 → IsText n ((48 + n) ∷ [])
unfolding all_digits decimal_value
IsText-one n h = record {
  digits = rw (is_digit-add n h) refl;
  worth = omega arith;
  some_digit = refl;
}

IsText-append : (n : ℕ) (a : Bytes) → IsText (n / 10) a → IsText n (a ++ ((48 + n % 10) ∷ []))
IsText-append n a t = record {
  digits = all_digits-append a _ t.digits (is_digit-add (n % 10) (omega arith));
  worth = omega (arith, decimal_value-append 0 a (48 + n % 10), t.worth);
  some_digit = is_empty-append a _;
}

pub decimal-IsText : (k n : ℕ) → n < 10 ^ suc k → IsText n (decimal (suc k) n)
unfolding decimal
decimal-IsText zero n h = rw (ltb-true n 10 (omega arith)) (IsText-one n (omega arith))
decimal-IsText (suc k) n h = elim (Bool-cases (ltb n 10)) [
  | inl e ↦ rw e (IsText-one n (ground arith))
  | inr e ↦ rw e (IsText-append n _ (decimal-IsText k (n / 10) (omega arith)))
]

-- A text without spaces is left as it is.
abbrev no_space : Bytes → Bool
no_space [] = true
no_space (c ∷ s) = not (is_space c) && no_space s

trim_right_lem : (s : Bytes) → no_space s ≡ true → trim_right s ≡ s
unfolding trim_right
trim_right_lem [] h = refl
trim_right_lem (c ∷ s) h = ground (arith, trim_right_lem s)

trim_left_lem : (s : Bytes) → no_space s ≡ true → trim_left s ≡ s
unfolding trim_left
trim_left_lem [] h = refl
trim_left_lem (c ∷ s) h = ground arith

digits-no_space : (s : Bytes) → all_digits s ≡ true → no_space s ≡ true
unfolding all_digits is_digit is_space
digits-no_space [] h = refl
digits-no_space (c ∷ s) h = ground (arith, digits-no_space s)

pub magnitude_lem :
    (negative : Bool) (n : ℕ) (s : Bytes)
    → n < 2 ^ 63
    → IsText n s
    → magnitude negative s ≡ some (if negative then (2 ^ 32 - n % 2 ^ 32) % 2 ^ 32 else n % 2 ^ 32)
unfolding magnitude
magnitude_lem true n s h t =
    rw (t.some_digit, t.digits, t.worth, ltb-false (2 ^ 63) n (omega arith)) refl
magnitude_lem false n s h t =
    let fits : leb (2 ^ 63) n ≡ false = ground arith in
    rw (t.some_digit, t.digits, t.worth, fits) refl

-- A text of digits alone has no sign.
pub parse_int_digits :
    (s : Bytes) → all_digits s ≡ true → is_empty s ≡ false → parse_int s ≡ magnitude false s
unfolding parse_int all_digits is_digit
parse_int_digits [] h e = cc
parse_int_digits (c ∷ s) h e = ground arith

parse_group_type_lem : (s : Bytes) → no_space s ≡ true → parse_group_type s ≡ parse_int s
unfolding parse_group_type
parse_group_type_lem s h = rw (trim_left_lem s h, trim_right_lem s h)

parse_positive : (n : ℕ) (s : Bytes) → n < 2 ^ 32 → IsText n s → parse_group_type s ≡ some n
parse_positive n s h t =
    parse_group_type_lem s (digits-no_space s t.digits)
    ∙ parse_int_digits s t.digits t.some_digit
    ∙ magnitude_lem false n s (omega arith) t
    ∙ ap some (omega arith)

parse_negative :
    (n : ℕ) (s : Bytes)
    → n < 2 ^ 32
    → 0 < n
    → IsText n s
    → parse_group_type (45 ∷ s) ≡ some (2 ^ 32 - n)
unfolding parse_int is_space
parse_negative n s h positive t =
    parse_group_type_lem (45 ∷ s) (digits-no_space s t.digits)
    ∙ magnitude_lem true n s (omega arith) t
    ∙ ap some (omega arith)

-- A groupType of 32 bits is read back from the text that it is written as, the negative one of a
-- security group too.
pub parse_group_type-group_type_string :
    (v : ℕ) → v < 2 ^ 32 → parse_group_type (group_type_string v) ≡ some v
unfolding group_type_string
parse_group_type-group_type_string v h = elim (Bool-cases (ltb v (2 ^ 31))) [
  | inl e ↦ rw e (parse_positive v _ h (decimal-IsText 9 v (omega arith)))
  | inr e ↦
      let small : 2 ^ 31 ≤ v = ground arith in
      rw e (
        parse_negative (2 ^ 32 - v) _ (omega arith) (omega arith)
          (decimal-IsText 9 (2 ^ 32 - v) (omega arith))
        ∙ ap some (omega arith))
]

-- ===== src/FileTime/RoundTrip.antt =====
-- A time is read back from its FILETIME.
use go_adldap.Base.{
  ℕ, ◌+◌, ◌-◌, ◌*◌, ◌%◌, ◌^◌, ◌<◌, ◌≡◌, refl, ap, ◌∙◌, arith, false, some, [], ◌∷◌, ltb, ltb-true,
  leb, if◌then◌else◌, is_empty, Bool-cases, inl, inr, ne→==-false,
}
use go_adldap.Base.Bytes.{Bytes}
use go_adldap.Base.Text.{decimal}
use go_adldap.GroupType.{is_digit, all_digits}
use go_adldap.GroupType.Wire.{IsText, decimal-IsText}
use go_adldap.FileTime.{
  file_time_never, file_time_epoch_offset, magnitude64, parse_int64, format_int64,
  file_time_to_time, div_int64, time_to_file_time,
}

pub parse_int64_digits : (n : ℕ) (s : Bytes) → n < 2 ^ 63 → IsText n s → parse_int64 s ≡ some n
unfolding parse_int64 magnitude64 all_digits is_digit
parse_int64_digits n [] h t = absurd (no_digit t.some_digit)
  where
    no_digit : is_empty {A = ℕ} [] ≡ false → ⊥
    no_digit e = cc
parse_int64_digits n (c ∷ s) h t =
    let plain : parse_int64 (c ∷ s) ≡ magnitude64 false (c ∷ s) = ground (arith, t.digits) in
    plain ∙ magnitude64_lem n (c ∷ s) h t
  where
    magnitude64_lem : (n : ℕ) (s : Bytes) → n < 2 ^ 63 → IsText n s → magnitude64 false s ≡ some n
    magnitude64_lem n s h t =
        let fits : leb (2 ^ 63) n ≡ false = ground arith in
        rw (t.some_digit, t.digits, t.worth, fits) refl

-- A time without what a FILETIME does not hold: the nanoseconds below a hundred, towards zero.
abbrev pub whole : ℕ → ℕ
whole t = if ltb t (2 ^ 63) then t - t % 100 else (t + (2 ^ 64 - t) % 100) % 2 ^ 64

-- The value of a FILETIME that is written is positive.
abbrev value : ℕ → ℕ
value t = (div_int64 t 100 + file_time_epoch_offset) % 2 ^ 64

value_bounds : (t : ℕ) → t < 2 ^ 64 → (0 < value t) × (value t < 2 ^ 62)
unfolding div_int64
value_bounds t h = elim (Bool-cases (ltb t (2 ^ 63))) [
  | inl e ↦ rw e (ground arith)
  | inr e ↦ rw e (ground arith)
]

value_back :
    (t : ℕ)
    → t < 2 ^ 64
    → (value t + (2 ^ 64 - file_time_epoch_offset)) % 2 ^ 64 * 100 % 2 ^ 64 ≡ whole t
unfolding div_int64
value_back t h = elim (Bool-cases (ltb t (2 ^ 63))) [
  | inl e ↦ rw e (ground arith)
  | inr e ↦ rw e (ground arith)
]

-- Every time of an int64 of nanoseconds has a FILETIME that is read back as this time, towards the
-- epoch to whole hundreds of nanoseconds, and never as the one that means never.
pub file_time_to_time-time_to_file_time :
    (t : ℕ) → t < 2 ^ 64 → file_time_to_time (time_to_file_time t) ≡ some (some (whole t))
unfolding file_time_to_time time_to_file_time format_int64
file_time_to_time-time_to_file_time t h =
    let (positive, small) = value_bounds t h in
    let text : IsText (value t) (decimal 20 (value t)) =
      decimal-IsText 19 (value t) (omega arith) in
    rw
      (
        ltb-true (value t) (2 ^ 63) (omega arith),
        text.some_digit,
        parse_int64_digits (value t) (decimal 20 (value t)) (omega arith) text,
        ne→==-false (value t) 0 (omega arith),
        ne→==-false (value t) file_time_never (omega arith),
      )
      (ap (λ w. some (some w)) (value_back t h))

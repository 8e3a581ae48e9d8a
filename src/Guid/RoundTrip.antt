-- ===== src/Guid/RoundTrip.antt =====
-- GUIDToBytes reads back the text of GUIDToString.
use go_adldap.Base.{
  ℕ, zero, suc, ◌<◌, ◌≡◌, refl, sym, ap, ◌∙◌, arith, Bool, true, false, not, none, some, [], ◌∷◌,
  ◌++◌, ◌==◌, if◌then◌else◌, length, All,
}
use go_adldap.Base.Bytes.{Bytes, IsByte, byte_at, byte_at-IsByte}
use go_adldap.Guid.{hex_bytes, guid_text, guid_to_string, swapped, without_dashes, guid_to_bytes}
use go_adldap.Guid.Digits.{
  IsSolid, parse_pairs-hex_bytes, hex_bytes-IsSolid, field-IsSolid, dash_step, no_dash, hex_u16,
  hex_u32, trim_left-IsSolid, trim_right-IsSolid,
}

-- The list of the values of a function below a number.
abbrev table : ℕ → (ℕ → ℕ) → Bytes
table zero f = []
table (suc n) f = f 0 ∷ table n (λ i. f (suc i))

table_lem : (n : ℕ) (b : Bytes) → length b ≡ n → b ≡ table n (byte_at b)
table_lem zero [] h = refl
table_lem zero (x ∷ b) h = absurd (omega arith)
table_lem (suc n) [] h = absurd (omega arith)
table_lem (suc n) (x ∷ b) h = ap (λ l. x ∷ l) (table_lem n b (omega arith))

module _ (f : ℕ → ℕ) (small : (i : ℕ) → f i < 256) where
  -- The fields of a GUID, in the order of its text.
  abbrev first_field : Bytes
  first_field = f 3 ∷ f 2 ∷ f 1 ∷ f 0 ∷ []

  abbrev second_field : Bytes
  second_field = f 5 ∷ f 4 ∷ []

  abbrev third_field : Bytes
  third_field = f 7 ∷ f 6 ∷ []

  abbrev fourth_field : Bytes
  fourth_field = f 8 ∷ f 9 ∷ []

  abbrev last_field : Bytes
  last_field = f 10 ∷ f 11 ∷ f 12 ∷ f 13 ∷ f 14 ∷ f 15 ∷ []

  abbrev field_text : Bytes
  field_text =
      hex_bytes first_field
      ++ (45
          ∷ (hex_bytes second_field
              ++ (45
                  ∷ (hex_bytes third_field
                      ++ (45 ∷ (hex_bytes fourth_field ++ (45 ∷ hex_bytes last_field)))))))

  abbrev all_fields : Bytes
  all_fields = first_field ++ (second_field ++ (third_field ++ (fourth_field ++ last_field)))

  guid_text_lem : guid_text (table 16 f) ≡ field_text
  guid_text_lem =
      rw
        (
          hex_u32 (f 0) (f 1) (f 2) (f 3) (small 0) (small 1) (small 2) (small 3),
          hex_u16 (f 4) (f 5) (small 4) (small 5),
          hex_u16 (f 6) (f 7) (small 6) (small 7),
          hex_u16 (f 9) (f 8) (small 9) (small 8),
        )
        refl

  first_bytes : All IsByte first_field
  first_bytes = (small 3, (small 2, (small 1, (small 0, tt))))

  second_bytes : All IsByte second_field
  second_bytes = (small 5, (small 4, tt))

  third_bytes : All IsByte third_field
  third_bytes = (small 7, (small 6, tt))

  fourth_bytes : All IsByte fourth_field
  fourth_bytes = (small 8, (small 9, tt))

  last_bytes : All IsByte last_field
  last_bytes = (small 10, (small 11, (small 12, (small 13, (small 14, (small 15, tt))))))

  all_bytes : All IsByte all_fields
  all_bytes = (
    small 3,
    (
      small 2,
      (
        small 1,
        (
          small 0,
          (
            small 5,
            (
              small 4,
              (
                small 7,
                (
                  small 6,
                  (
                    small 8,
                    (
                      small 9,
                      (small 10, (small 11, (small 12, (small 13, (small 14, (small 15, tt)))))),
                    ),
                  ),
                ),
              ),
            ),
          ),
        ),
      ),
    ),
  )

  length_fields : length (hex_bytes all_fields) ≡ 32
  unfolding hex_bytes
  length_fields = refl

  field_text-IsSolid : All IsSolid field_text
  field_text-IsSolid = field-IsSolid first_field _ first_bytes (
      field-IsSolid second_field _ second_bytes (
        field-IsSolid third_field _ third_bytes
          (field-IsSolid fourth_field _ fourth_bytes (hex_bytes-IsSolid last_field last_bytes))))

  without_dashes_lem : without_dashes field_text ≡ hex_bytes all_fields
  without_dashes_lem = dash_step first_field _ _ first_bytes (
      dash_step second_field _ _ second_bytes (
        dash_step third_field _ _ third_bytes
          (dash_step fourth_field _ _ fourth_bytes (no_dash last_field last_bytes))))

  guid_to_bytes-field_text : guid_to_bytes field_text ≡ some (table 16 f)
  unfolding guid_to_bytes
  guid_to_bytes-field_text =
      rw
        (
          trim_left-IsSolid field_text field_text-IsSolid,
          trim_right-IsSolid field_text field_text-IsSolid,
          without_dashes_lem,
          length_fields,
        )
        (ap swapped (parse_pairs-hex_bytes all_fields all_bytes))

-- The text that GUIDToString gives for a value of bytes is read back by GUIDToBytes as that value.
pub guid_to_bytes-guid_to_string :
    (b text : Bytes) → All IsByte b → guid_to_string b ≡ some text → guid_to_bytes text ≡ some b
unfolding guid_to_string
guid_to_bytes-guid_to_string b text bytes h = by_length (length b == 16) refl h
  where
    at : ℕ → ℕ
    at = byte_at b

    at_small : (i : ℕ) → at i < 256
    at_small i = byte_at-IsByte b i bytes

    by_length :
        (right : Bool)
        → (length b == 16) ≡ right
        → (if not right then none else some (guid_text b)) ≡ some text
        → guid_to_bytes text ≡ some b
    by_length false e k = cc
    by_length true e k =
        let same : b ≡ table 16 at = table_lem 16 b (ground arith) in
        let of_some : guid_text b ≡ text = cc in
        let spelled : text ≡ field_text at at_small =
          sym of_some ∙ ap guid_text same ∙ guid_text_lem at at_small in
        ap guid_to_bytes spelled ∙ guid_to_bytes-field_text at at_small ∙ ap some (sym same)

-- ===== src/Ranged/Keys.antt =====
-- The key of a page is understood.
use go_adldap.Base.{
  ℕ, suc, ◌^◌, ◌<◌, ◌≡◌, refl, sym, ap, ◌∙◌, arith, Bool, true, false, some, List, [], ◌∷◌, ◌++◌,
  append_assoc, length, length-append, drop-append, is_empty,
}
use go_adldap.Base.Bytes.{Bytes}
use go_adldap.Base.Text.{codes, same_text, same_text_eq, to_lower, lower, starts_with, decimal}
use go_adldap.GroupType.{all_digits, is_digit}
use go_adldap.GroupType.Wire.{IsText, decimal-IsText, parse_int_digits, magnitude_lem}
use go_adldap.Directory.{lookup}
use go_adldap.Ranged.{range_option, split_once, last_page, scan_keys, find_ranged_attr}

starts_with-append : (p t : Bytes) → starts_with (p ++ t) p ≡ true
unfolding starts_with
starts_with-append [] t = by_text t
  where
    by_text : (t : Bytes) → starts_with t [] ≡ true
    by_text [] = refl
    by_text (c ∷ t) = refl
starts_with-append (c ∷ p) t = ground (arith, starts_with-append p t)

to_lower-append : (a b : Bytes) → to_lower (a ++ b) ≡ to_lower a ++ to_lower b
unfolding to_lower
to_lower-append [] b = refl
to_lower-append (c ∷ a) b = ap (λ l. lower c ∷ l) (to_lower-append a b)

length-to_lower : (a : Bytes) → length (to_lower a) ≡ length a
unfolding to_lower
length-to_lower [] = refl
length-to_lower (c ∷ a) = ap suc (length-to_lower a)

pub to_lower_digits : (s : Bytes) → all_digits s ≡ true → to_lower s ≡ s
unfolding to_lower lower all_digits is_digit
to_lower_digits [] h = refl
to_lower_digits (c ∷ s) h = ground (arith, to_lower_digits s)

pub split_once-append :
    (s hi : Bytes) → all_digits s ≡ true → split_once (s ++ (45 ∷ hi)) ≡ some (s, hi)
unfolding split_once all_digits is_digit
split_once-append [] hi h = refl
split_once-append (c ∷ s) hi h = ground (arith, split_once-append s hi)

-- The ends of the key of a page: the upper bound, or a star on the last one.
abbrev pub star : Bytes
star = codes "*"

digits_no_star : (s : Bytes) → all_digits s ≡ true → is_empty s ≡ false → same_text s star ≡ false
unfolding same_text all_digits is_digit
digits_no_star [] h e = cc
digits_no_star (c ∷ s) h e = ground arith

pub last_page-star : (k s : Bytes) → last_page k (some (s, star)) ≡ some (k, true)
unfolding same_text
last_page-star k s = refl

pub last_page-bound :
    (k s : Bytes) (n : ℕ) → n < 2 ^ 63 → last_page k (some (s, decimal 20 n)) ≡ some (k, false)
last_page-bound k s n h =
    let t : IsText n (decimal 20 n) = decimal-IsText 19 n (omega arith) in
    rw
      (
        digits_no_star (decimal 20 n) t.digits t.some_digit,
        parse_int_digits (decimal 20 n) t.digits t.some_digit,
        magnitude_lem false n (decimal 20 n) h t,
      )
      refl

-- The key of a page, in the spelling of the schema.
abbrev pub page_key : Bytes → ℕ → Bytes → Bytes
page_key name lo hi = name ++ (range_option ++ (decimal 20 lo ++ (45 ∷ hi)))

module _ (name attr : Bytes) (spelling : to_lower name ≡ to_lower attr) (lo : ℕ)
    (small : lo < 2 ^ 63) where
  lo-IsText : IsText lo (decimal 20 lo)
  lo-IsText = decimal-IsText 19 lo (omega arith)

  length-page_key : (hi : Bytes) → length name < length (page_key name lo hi)
  length-page_key hi = omega (
    arith,
    length-append name (range_option ++ (decimal 20 lo ++ (45 ∷ hi))),
    length-append range_option (decimal 20 lo ++ (45 ∷ hi)),
  )

  key_longer : (hi : Bytes) → same_text (page_key name lo hi) attr ≡ false
  key_longer hi = by_cases (same_text (page_key name lo hi) attr) refl
    where
      same_length : page_key name lo hi ≡ attr → length (page_key name lo hi) ≡ length name
      same_length h =
          ap length h ∙ sym (length-to_lower attr) ∙ ap length (sym spelling) ∙ length-to_lower name

      by_cases :
          (b : Bool)
          → same_text (page_key name lo hi) attr ≡ b
          → same_text (page_key name lo hi) attr ≡ false
      by_cases false h = h
      by_cases true h = absurd (
          omega
            (arith, same_length (same_text_eq (page_key name lo hi) attr h), length-page_key hi))

  lower_key :
      (hi : Bytes)
      → to_lower hi ≡ hi
      → to_lower (page_key name lo hi)
        ≡ (to_lower attr ++ range_option) ++ (decimal 20 lo ++ (45 ∷ hi))
  unfolding to_lower lower
  lower_key hi h =
      to_lower-append name (range_option ++ (decimal 20 lo ++ (45 ∷ hi)))
      ∙ rw
          (
            spelling,
            to_lower-append range_option (decimal 20 lo ++ (45 ∷ hi)),
            to_lower-append (decimal 20 lo) (45 ∷ hi),
            to_lower_digits (decimal 20 lo) lo-IsText.digits,
            h,
          )
          (sym (append_assoc (to_lower attr) range_option (decimal 20 lo ++ (45 ∷ hi))))

  -- The key is found, and says whether it is that of the last page.
  pub find_ranged_attr-page_key :
      (dn hi : Bytes) (v : List Bytes) (last : Bool)
      → to_lower hi ≡ hi
      → last_page (page_key name lo hi) (some (decimal 20 lo, hi))
        ≡ some (page_key name lo hi, last)
      → find_ranged_attr (record { dn = dn; attrs = (page_key name lo hi, v) ∷ [] }) attr
        ≡ some (page_key name lo hi, last)
  unfolding find_ranged_attr scan_keys lookup
  find_ranged_attr-page_key dn hi v last low h =
      rw
        (
          key_longer hi,
          lower_key hi low,
          starts_with-append (to_lower attr ++ range_option) (decimal 20 lo ++ (45 ∷ hi)),
          drop-append (to_lower attr ++ range_option) (decimal 20 lo ++ (45 ∷ hi)),
          split_once-append (decimal 20 lo) hi lo-IsText.digits,
        )
        h

  -- A page with an upper bound is not the last one.
  pub find_bound :
      (n : ℕ)
      → n < 2 ^ 63
      → (dn : Bytes) (v : List Bytes)
      → find_ranged_attr
          (record { dn = dn; attrs = (page_key name lo (decimal 20 n), v) ∷ [] })
          attr
        ≡ some (page_key name lo (decimal 20 n), false)
  find_bound n h dn v =
      find_ranged_attr-page_key dn (decimal 20 n) v false
        (to_lower_digits (decimal 20 n) (decimal-IsText 19 n (omega arith)).digits)
        (last_page-bound (page_key name lo (decimal 20 n)) (decimal 20 lo) n h)

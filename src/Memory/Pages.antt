-- ===== src/Memory/Pages.antt =====
-- What the directory in memory answers to the requests of ranged.go.
use go_adldap.Base.{
  ℕ, ◌+◌, ◌-◌, ◌^◌, ◌<◌, ◌≤◌, ◌≡◌, ◌⊎◌, inl, inr, refl, sym, ap, ◌∙◌, arith, Bool, true, false,
  ◌||◌, ◌&&◌, Option, none, some, List, [], ◌∷◌, ◌++◌, ◌==◌, leb, if◌then◌else◌, length, take, drop,
  min, take_past, length-drop, any, filter, is_empty, Outcome, ok, err,
}
use go_adldap.Base.Bytes.{Bytes}
use go_adldap.Base.Text.{
  codes, same_text, same_text_refl, equal_fold, to_lower, lower, starts_with, decimal,
}
use go_adldap.Directory.{Entry, Request, OpError, op_error, search, Reply, lookup}
use go_adldap.Ranged.{range_option, ranged_request}
use go_adldap.LdapErr.{transport}
use go_adldap.Ranged.Keys.{split_once-append, page_key, star}
use go_adldap.Ranged.Paging.{page}
use go_adldap.FileTime.RoundTrip.{parse_int64_digits}
use go_adldap.GroupType.Wire.{IsText, decimal-IsText}
use go_adldap.Memory.{
  page_all, page_for, memory_search, answers, is_found, set_attr, Attrs, MemServer, base_attr,
  is_wanted_key, project, after_range, range_start, range_pages,
}

abbrev pub has_option : Bytes → Bool
has_option attr = any (λ c. c == 59) attr

-- The description of a ranged request.
abbrev pub description : Bytes → Bytes → Bytes
description attr t = attr ++ (range_option ++ t)

base_attr-description :
    (attr t : Bytes) → has_option attr ≡ false → base_attr (description attr t) ≡ attr
unfolding base_attr
base_attr-description [] t h = refl
base_attr-description (c ∷ attr) t h = ground (arith, base_attr-description attr t)

or_parts : (a b : Bool) → (a || b) ≡ false → (a ≡ false) × (b ≡ false)
or_parts true b h = cc
or_parts false b h = (refl, h)

lower_semicolon : (c : ℕ) → (c == 59) ≡ false → (lower c == 59) ≡ false
unfolding lower
lower_semicolon c h = ground arith

no_prefix :
    (c : ℕ) (s : Bytes) → (c == 59) ≡ false → starts_with (to_lower (c ∷ s)) range_option ≡ false
unfolding starts_with to_lower
no_prefix c s h = rw (lower_semicolon c h) refl

after_range-description :
    (attr t : Bytes) → has_option attr ≡ false → after_range (description attr t) ≡ some t
unfolding after_range starts_with to_lower lower
after_range-description [] t h = refl
after_range-description (c ∷ attr) t h =
    rw (no_prefix c (description attr t) (or_parts (c == 59) (has_option attr) h).0)
      (after_range-description attr t (or_parts (c == 59) (has_option attr) h).1)

and_false : (b : Bool) → (b && false) ≡ false
and_false true = refl
and_false false = refl

not_star : (attr t : Bytes) → same_text (description attr t) (codes "*") ≡ false
unfolding same_text
not_star [] t = refl
not_star (c ∷ []) t = and_false (c == 42)
not_star (c ∷ d ∷ attr) t = and_false (c == 42)

abbrev pub asked : Bytes → ℕ → Bytes
asked attr lo = description attr (decimal 20 lo ++ codes "-*")

range_start-asked :
    (attr : Bytes) (lo : ℕ)
    → has_option attr ≡ false
    → lo < 2 ^ 63
    → range_start (asked attr lo) ≡ some lo
unfolding range_start
range_start-asked attr lo plain small =
    let text : IsText lo (decimal 20 lo) = decimal-IsText 19 lo (omega arith) in
    let fits : leb (2 ^ 63) lo ≡ false = ground arith in
    rw
      (
        after_range-description attr (decimal 20 lo ++ codes "-*") plain,
        split_once-append (decimal 20 lo) (codes "*") text.digits,
        parse_int64_digits lo (decimal 20 lo) small text,
        fits,
      )
      refl

filter_same :
    {A : Type 0} (p q : A → Bool)
    → ((x : A) → p x ≡ q x)
    → (xs : List A) → filter p xs ≡ filter q xs
filter_same p q same [] = refl
filter_same p q same (x ∷ xs) = rw (same x, filter_same p q same xs) refl

or_false : (b : Bool) → (b || false) ≡ b
or_false true = refl
or_false false = refl

is_wanted_key-asked :
    (attr : Bytes) (lo : ℕ) (k : Bytes)
    → has_option attr ≡ false
    → is_wanted_key (asked attr lo ∷ []) k ≡ equal_fold attr k
is_wanted_key-asked attr lo k plain =
    rw
      (
        not_star attr (decimal 20 lo ++ codes "-*"),
        base_attr-description attr (decimal 20 lo ++ codes "-*") plain,
      )
      (or_false (equal_fold attr k))

abbrev entry_of : Bytes → Bytes × List Bytes → Entry
entry_of dn kv = record { dn = dn; attrs = kv ∷ [] }

-- An entry that has the attribute once.
module _ (attr : Bytes) (vs : List Bytes) (attrs : Attrs) (plain : has_option attr ≡ false)
    (only : filter (λ (k, v). equal_fold attr k) attrs ≡ (attr, vs) ∷ []) where
  pub project-asked : (lo : ℕ) → project attrs (asked attr lo ∷ []) ≡ (attr, vs) ∷ []
  unfolding project
  project-asked lo =
      filter_same (λ (k, v). is_wanted_key (asked attr lo ∷ []) k) (λ (k, v). equal_fold attr k)
        (λ (k, v). is_wanted_key-asked attr lo k plain) attrs
      ∙ only

  -- Few values are answered under the attribute's name.
  pub range_pages_few :
      (limit lo : ℕ)
      → (limit ≡ 0) ⊎ (length vs ≤ limit)
      → range_pages ((attr, vs) ∷ []) (asked attr lo ∷ []) limit ≡ some ((attr, vs) ∷ [])
  unfolding range_pages page_all lookup
  range_pages_few limit lo (inl none_set) =
      let off : (limit == 0) ≡ true = ground arith in rw (off) refl
  range_pages_few limit lo (inr fits) =
      let few : leb (length vs) limit ≡ true = ground arith in
      rw (base_attr-description attr (decimal 20 lo ++ codes "-*") plain, same_text_refl attr, few)
        (by_limit (limit == 0))
    where
      by_limit :
          (b : Bool)
          → if◌then◌else◌ {A = Option Attrs} b (some ((attr, vs) ∷ [])) (some ((attr, vs) ∷ []))
            ≡ some ((attr, vs) ∷ [])
      by_limit true = refl
      by_limit false = refl

  pub range_pages_many :
      (limit lo : ℕ)
      → 0 < limit
      → limit < length vs
      → lo ≤ length vs
      → length vs < 2 ^ 63
      → range_pages ((attr, vs) ∷ []) (asked attr lo ∷ []) limit
        ≡ some (page_for attr vs limit lo ∷ [])
  unfolding range_pages page_all lookup set_attr
  range_pages_many limit lo positive many h small =
      let on : (limit == 0) ≡ false = ground arith in
      let much : leb (length vs) limit ≡ false = ground arith in
      let inside : min lo (length vs) ≡ lo = ground arith in
      rw
        (
          on,
          base_attr-description attr (decimal 20 lo ++ codes "-*") plain,
          same_text_refl attr,
          much,
          range_start-asked attr lo plain (omega arith),
          base_attr-description attr (decimal 20 lo ++ codes "-*") plain,
          same_text_refl attr,
          inside,
        )
        refl

  -- What is answered is the page of ranged.go's contract.
  pub page_for_lem :
      (dn : Bytes) (limit lo : ℕ)
      → ◌≡◌ {A = Entry}
          (record { dn = dn; attrs = page_for attr vs limit lo ∷ [] })
          (page attr (λ _. limit) vs dn lo)
  page_for_lem dn limit lo = by_end (leb (length vs) (lo + limit)) (λ e. ground arith)
    where
      by_end :
          (b : Bool)
          → (b ≡ true → length vs ≤ lo + limit)
          → ◌≡◌ {A = Entry}
              (record {
                dn = dn;
                attrs =
                    (if b then (page_key attr lo star, drop lo vs) else (
                      page_key attr lo (decimal 20 (lo + limit - 1)),
                      take limit (drop lo vs),
                    ))
                    ∷ [];
              })
              (record {
                dn = dn;
                attrs =
                    (
                      page_key attr lo (if b then star else decimal 20 (lo + limit - 1)),
                      take limit (drop lo vs),
                    )
                    ∷ [];
              })
      by_end true past =
          ap (λ v. entry_of dn (page_key attr lo star, v))
            (sym (take_past limit (drop lo vs) (omega (arith, past refl, length-drop lo vs))))
      by_end false past = refl

module _ (match_filter : Bytes → Attrs → Bool) (classify : ℕ → OpError) where
  -- The directory as the other side of a connection: a result code is classified.
  abbrev pub replied : Option (Outcome ℕ (List Entry)) → Reply
  replied none = err (op_error transport)
  replied (some (err code)) = err (classify code)
  replied (some (ok entries)) = ok entries

  abbrev pub serve : MemServer → Request → Reply
  serve m (search r) = replied (memory_search match_filter m r)
  serve m r = err (op_error transport)

  pub answered_one :
      (m : MemServer) (dn have attr : Bytes) (attrs paged_attrs : Attrs) (lo : ℕ)
      → is_empty dn ≡ false
      → filter (is_found match_filter (ranged_request dn attr 0)) m.entries ≡ (have, attrs) ∷ []
      → range_pages (project attrs (asked attr lo ∷ [])) (asked attr lo ∷ []) m.range_limit
        ≡ some paged_attrs
      → serve m (search (ranged_request dn attr lo))
        ≡ ok (record { dn = have; attrs = paged_attrs } ∷ [])
  unfolding memory_search answers
  answered_one m dn have attr attrs paged_attrs lo named found pages = rw (named, found, pages) refl

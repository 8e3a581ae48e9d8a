-- ===== src/Memory/Retrieval.antt =====
-- The ranged retrieval of ranged.go from the directory in memory.
mod Tests
use go_adldap.Base.{
  ℕ, zero, suc, ◌^◌, ◌<◌, ◌≤◌, ◌++◌, ◌+◌, ◌≡◌, ◌⊎◌, inl, inr, refl, ap, ◌∙◌, arith, Bool, false,
  Option, some, List, [], ◌∷◌, length, filter, is_empty, ok,
}
use go_adldap.Base.Bytes.{Bytes}
use go_adldap.Base.Text.{equal_fold, same_text_refl}
use go_adldap.Directory.{OpError, Entry, search, lookup, answered_by, Proc, Reply}
use go_adldap.Ranged.{
  ranged_request, ranged_from, ranged_values, find_ranged_attr, page_of, page_values,
}
use go_adldap.Ranged.Paging.{ranged_values-IsPaged}
use go_adldap.Memory.{Attrs, MemServer, is_found, range_pages}
use go_adldap.Memory.Pages.{
  has_option, asked, project-asked, range_pages_few, range_pages_many, page_for_lem, serve,
  answered_one,
}

module _ (match_filter : Bytes → Attrs → Bool) (classify : ℕ → OpError) (m : MemServer)
    (dn attr : Bytes) (attrs : Attrs) (vs : List Bytes) (named : is_empty dn ≡ false)
    (plain : has_option attr ≡ false)
    (found : filter (is_found match_filter (ranged_request dn attr 0)) m.entries ≡ (dn, attrs) ∷ [])
    (only : filter (λ (k, v). equal_fold attr k) attrs ≡ (attr, vs) ∷ []) where
  -- What is answered where all values fit.
  answered_few :
      (m.range_limit ≡ 0) ⊎ (length vs ≤ m.range_limit)
      → serve match_filter classify m (search (ranged_request dn attr 0))
        ≡ ok (record { dn = dn; attrs = (attr, vs) ∷ [] } ∷ [])
  answered_few fits =
      answered_one match_filter classify m dn dn attr attrs ((attr, vs) ∷ []) 0 named found (
        ap (λ a. range_pages a (asked attr 0 ∷ []) m.range_limit)
          (project-asked attr vs attrs plain only 0)
        ∙ range_pages_few attr vs attrs plain only m.range_limit 0 fits)

  read_few :
      (fuel : ℕ)
      → (m.range_limit ≡ 0) ⊎ (length vs ≤ m.range_limit)
      → answered_by (serve match_filter classify m) (ranged_values (suc fuel) dn attr)
        ≡ ok (some vs)
  unfolding ranged_values ranged_from answered_by find_ranged_attr lookup
  read_few fuel fits =
      ap (λ r. answered_by (serve match_filter classify m) (page_of dn attr [] next r))
        (answered_few fits)
      ∙ whole_entry
    where
      next : Entry → ℕ → Proc (Option (List Bytes))
      next e n = ranged_from fuel dn attr (0 + n) ([] ++ page_values attr e)

      whole_entry :
          answered_by
            (serve match_filter classify m)
            (page_of dn attr [] next (ok (record { dn = dn; attrs = (attr, vs) ∷ [] } ∷ [])))
          ≡ ok (some vs)
      whole_entry = rw (same_text_refl attr, same_text_refl attr) refl

  read_many :
      (fuel : ℕ)
      → 0 < m.range_limit
      → m.range_limit < length vs
      → length vs < 2 ^ 63
      → length vs < fuel
      → answered_by (serve match_filter classify m) (ranged_values fuel dn attr) ≡ ok (some vs)
  read_many fuel positive many small enough =
      ranged_values-IsPaged attr (λ _. m.range_limit) vs dn attr (serve match_filter classify m)
        fuel refl small enough
        (λ lo h. (
          positive,
          answered_one match_filter classify m dn dn attr attrs _ lo named found (
                ap (λ a. range_pages a (asked attr lo ∷ []) m.range_limit)
                  (project-asked attr vs attrs plain only lo)
                ∙ range_pages_many attr vs attrs plain only m.range_limit lo positive many h small)
              ∙ ap (λ e. ok (e ∷ [])) (page_for_lem attr vs attrs plain only dn m.range_limit lo),
        ))

  -- The two halves of ranged retrieval fit. A directory in memory, under any limit on the values of a
  -- page, has one entry that a search for the object finds, named as the request names it, and the
  -- entry has the attribute once, under that name, which has no option. Then, with fuel for one page
  -- per value and one more, rangedValues over that directory ends and returns exactly the values that
  -- it holds, in their order.
  pub ranged_values-serve :
      (fuel : ℕ)
      → length vs < 2 ^ 63
      → length vs < fuel
      → answered_by (serve match_filter classify m) (ranged_values fuel dn attr) ≡ ok (some vs)
  ranged_values-serve zero small enough = absurd (omega arith)
  ranged_values-serve (suc fuel) small enough = by_limit (fits_or_not m.range_limit)
    where
      fits_or_not :
          (limit : ℕ) → ((limit ≡ 0) ⊎ (length vs ≤ limit)) ⊎ ((0 < limit) × (limit < length vs))
      fits_or_not limit = ground arith

      by_limit :
          ((m.range_limit ≡ 0) ⊎ (length vs ≤ m.range_limit))
            ⊎ ((0 < m.range_limit) × (m.range_limit < length vs))
          → answered_by (serve match_filter classify m) (ranged_values (suc fuel) dn attr)
            ≡ ok (some vs)
      by_limit (inl fits) = read_few fuel fits
      by_limit (inr (positive, many)) = read_many (suc fuel) positive many small enough

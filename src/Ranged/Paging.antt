-- ===== src/Ranged/Paging.antt =====
-- The loop of ranged.go ends, with every value that the domain controller holds.
use go_adldap.Base.{
  ℕ, zero, suc, ◌+◌, ◌-◌, ◌^◌, ◌<◌, ◌≤◌, ◌≡◌, refl, ap, ◌∙◌, arith, Bool, true, false, ◌||◌, Option,
  none, some, List, [], ◌∷◌, ◌++◌, append_assoc, leb, if◌then◌else◌, length, take, drop, is_empty,
  take-append-drop, drop_add, length-take, length-drop, take_past, ok,
}
use go_adldap.Base.Bytes.{Bytes}
use go_adldap.Base.Text.{same_text, same_text_refl, to_lower, lower, decimal}
use go_adldap.Directory.{Entry, lookup, Proc, Request, Reply, search, pure, answered_by}
use go_adldap.Ranged.{
  page_of, values_at, ranged_request, ranged_from, ranged_values, find_ranged_attr, after_page,
  page_values,
}
use go_adldap.Ranged.Keys.{page_key, find_ranged_attr-page_key, find_bound, star}

some_value : (xs : List Bytes) → 0 < length xs → is_empty xs ≡ false
some_value [] h = absurd (omega arith)
some_value (x ∷ xs) h = refl

-- An entry with a single attribute, whose key is understood.
module _ (dn attr k : Bytes) (v : List Bytes) (last : Bool) where
  abbrev one_attr : Entry
  one_attr = record { dn = dn; attrs = (k, v) ∷ [] }

  after_page_lem :
      (out : List Bytes) (next : ℕ → Proc (Option (List Bytes)))
      → after_page dn out one_attr (some (k, last)) next
        ≡ (if last || is_empty v then pure (some (out ++ v)) else next (length v))
  unfolding lookup
  after_page_lem out next = rw (same_text_refl k) refl

  page_values_lem : find_ranged_attr one_attr attr ≡ some (k, last) → page_values attr one_attr ≡ v
  unfolding lookup
  page_values_lem h = ap (λ r. found r) h ∙ rw (same_text_refl k) refl
    where
      found : Option (Bytes × Bool) → List Bytes
      found r = elim r [ none ↦ [] | some (key, last) ↦ values_at (lookup key one_attr.attrs) ]

module _ (name : Bytes) (size : ℕ → ℕ) (vs : List Bytes) where
  -- The values of the page at `lo`, and the key they come under.
  abbrev page_at : ℕ → List Bytes
  page_at lo = take (size lo) (drop lo vs)

  abbrev is_last : ℕ → Bool
  is_last lo = leb (length vs) (lo + size lo)

  abbrev page_end : ℕ → Bytes
  page_end lo = if is_last lo then star else decimal 20 (lo + size lo - 1)

  abbrev pub page : Bytes → ℕ → Entry
  page dn lo = record { dn = dn; attrs = (page_key name lo (page_end lo), page_at lo) ∷ [] }

  -- The domain controller answers each request from a position on with a page that is not empty.
  abbrev pub IsPaged : Bytes → Bytes → (Request → Reply) → Type 0
  IsPaged dn attr server =
      (lo : ℕ)
      → lo ≤ length vs
      → (0 < size lo) × (server (search (ranged_request dn attr lo)) ≡ ok (page dn lo ∷ []))

  module _ (attr : Bytes) (spelling : to_lower name ≡ to_lower attr)
      (small : length vs < 2 ^ 63) where
    page_found :
        (dn : Bytes) (lo : ℕ)
        → lo ≤ length vs
        → find_ranged_attr (page dn lo) attr ≡ some (page_key name lo (page_end lo), is_last lo)
    unfolding to_lower lower same_text
    page_found dn lo h = by_last (is_last lo) (λ e. ground arith)
      where
        by_last :
            (b : Bool)
            → (b ≡ false → lo + size lo < length vs)
            → find_ranged_attr
                (record {
                  dn = dn;
                  attrs =
                      (
                        page_key name lo (if b then star else decimal 20 (lo + size lo - 1)),
                        page_at lo,
                      )
                      ∷ [];
                })
                attr
              ≡ some (page_key name lo (if b then star else decimal 20 (lo + size lo - 1)), b)
        by_last true k =
            find_ranged_attr-page_key name attr spelling lo (omega arith) dn star (page_at lo) true
              refl refl
        by_last false k =
            find_bound name attr spelling lo (omega (arith, k refl)) (lo + size lo - 1)
              (omega (arith, k refl)) dn (page_at lo)

    -- From a position on, the loop adds what is left.
    abbrev Reads : Bytes → (Request → Reply) → ℕ → Type 0
    Reads dn server fuel =
        (lo : ℕ) (out : List Bytes)
        → lo ≤ length vs
        → length vs < lo + fuel
        → answered_by server (ranged_from fuel dn attr lo out) ≡ ok (some (out ++ drop lo vs))

    next_page-Reads :
        (dn : Bytes) (server : Request → Reply)
        → IsPaged dn attr server
        → (fuel : ℕ) → Reads dn server fuel
        → Reads dn server (suc fuel)
    unfolding ranged_from answered_by
    next_page-Reads dn server paged fuel ih lo out h enough =
        ap (λ r. answered_by server (page_of dn attr out next r)) (paged lo h).1
        ∙ ap (λ r. answered_by server (after_page dn out (page dn lo) r (next (page dn lo))))
            (page_found dn lo h)
        ∙ ap (answered_by server) (
            after_page_lem dn attr (page_key name lo (page_end lo)) (page_at lo) (is_last lo) out
              (next (page dn lo)))
        ∙ by_last (is_last lo) (λ e. ground arith) (λ e. ground arith)
      where
        full : lo + size lo < length vs → length (page_at lo) ≡ size lo
        full k = omega (arith, length-take (size lo) (drop lo vs), length-drop lo vs)

        rest :
            length (page_at lo) ≡ size lo
            → (out ++ page_at lo) ++ drop (lo + length (page_at lo)) vs ≡ out ++ drop lo vs
        rest k =
            append_assoc out (page_at lo) (drop (lo + length (page_at lo)) vs)
            ∙ ap (λ l. out ++ l)
                (ap (λ n. page_at lo ++ drop (lo + n) vs) k
                  ∙ ap (λ l. page_at lo ++ l) (drop_add lo (size lo) vs)
                  ∙ take-append-drop (size lo) (drop lo vs))

        next : Entry → ℕ → Proc (Option (List Bytes))
        next e n = ranged_from fuel dn attr (lo + n) (out ++ page_values attr e)

        by_last :
            (b : Bool)
            → (b ≡ true → length vs ≤ lo + size lo)
            → (b ≡ false → lo + size lo < length vs)
            → answered_by server (
                if b || is_empty (page_at lo)
                then pure (some (out ++ page_at lo))
                else next (page dn lo) (length (page_at lo)))
              ≡ ok (some (out ++ drop lo vs))
        by_last true past more =
            ap (λ l. ok (some (out ++ l)))
              (take_past (size lo) (drop lo vs) (omega (arith, past refl, length-drop lo vs)))
        by_last false past more =
            rw (some_value (page_at lo) (omega (arith, full (more refl), (paged lo h).0))) (
              ap
                (λ l.
                  answered_by server
                    (ranged_from fuel dn attr (lo + length (page_at lo)) (out ++ l)))
                (page_values_lem dn attr (page_key name lo (page_end lo)) (page_at lo) (is_last lo)
                  (page_found dn lo h))
              ∙ ih (lo + length (page_at lo)) (out ++ page_at lo)
                  (omega (arith, full (more refl), more refl))
                  (omega (arith, full (more refl), (paged lo h).0))
              ∙ ap (λ l. ok (some l)) (rest (full (more refl))))

    ranged_from-Reads :
        (dn : Bytes) (server : Request → Reply)
        → IsPaged dn attr server
        → (fuel : ℕ) → Reads dn server fuel
    ranged_from-Reads dn server paged zero lo out h enough = absurd (omega arith)
    ranged_from-Reads dn server paged (suc fuel) lo out h enough =
        next_page-Reads dn server paged fuel (ranged_from-Reads dn server paged fuel) lo out h
          enough

  -- The loop reads everything. A domain controller holds the values `vs` of the attribute and
  -- answers each request from a position on with the page there, of any size but zero, keyed by
  -- the attribute in any case with the range: a star at the end, the upper bound before it. Then,
  -- with fuel for one page per value and one more, the operation ends and returns exactly `vs`.
  pub ranged_values-IsPaged :
      (dn attr : Bytes) (server : Request → Reply) (fuel : ℕ)
      → to_lower name ≡ to_lower attr
      → length vs < 2 ^ 63
      → length vs < fuel
      → IsPaged dn attr server
      → answered_by server (ranged_values fuel dn attr) ≡ ok (some vs)
  unfolding ranged_values
  ranged_values-IsPaged dn attr server fuel spelling small enough paged =
      ranged_from-Reads attr spelling small dn server paged fuel 0 [] (omega arith) (omega arith)

-- ===== src/Schema/Laws.antt =====
-- Every name is resolved, and to its own GUID.
use go_adldap.Base.{
  ◌||◌, ◌≡◌, refl, ◌⊎◌, inl, inr, Bool, true, false, Option, none, some, List, [], ◌∷◌,
  if◌then◌else◌, is_empty, Outcome, ok, err,
}
use go_adldap.Base.Bytes.{Bytes}
use go_adldap.Base.Text.{same_text_refl}
use go_adldap.LdapErr.{constraint}
use go_adldap.Guid.{guid_to_string}
use go_adldap.Directory.{first, OpError, op_error, Request, search, Reply, Proc, ◌>>=◌, pure, fail}
use go_adldap.Directory.Logic.{History, Holds, Holds-bind, Holds-weaken, Holds-frame}
use go_adldap.Adcore.{Adcore}
use go_adldap.Search.Found.{Saw}
use go_adldap.Search.Laws.{IsSearch}
use go_adldap.Schema.{
  SchemaRef, RefKind, ref_attribute, ref_class, ref_extended_right, ref_unknown, SchemaQuery,
  Resolved, is_known, same_kind, same_ref, is_guid_string, one_ref, raw_value, guid_value,
  schema_query, schema_request, resolve_with, resolve_one, resolve_ref, resolve_from, resolve,
}

module _ (lib : Adcore) (schema_nc config_nc : Bytes) where
  -- A search for the name so far found one object, whose attribute gives the GUID.
  abbrev pub Says : SchemaRef → Bytes → History → Type 0
  Says ref guid h =
      (q : SchemaQuery) × (schema_query lib schema_nc config_nc ref.kind ≡ some q)
      × Saw
          (λ r e.
            (r ≡ search (schema_request lib schema_nc config_nc q ref.name))
            × (raw_value q.binary_guid (first e q.attr) ≡ pure guid))
          h

  -- A name is a GUID itself, or a search says what it stands for.
  abbrev pub IsGuidOf : SchemaRef → Bytes → History → Type 0
  IsGuidOf ref guid h = ((is_guid_string ref.name ≡ true) × (guid ≡ ref.name)) ⊎ Says ref guid h

  abbrev pub AreGuids : Resolved → History → Type 0
  AreGuids [] h = Unit
  AreGuids ((ref, guid) ∷ out) h = IsGuidOf ref guid h × AreGuids out h

  abbrev pub AreKnown : List SchemaRef → Resolved → Type 0
  AreKnown [] out = Unit
  AreKnown (ref ∷ refs) out = (is_known ref out ≡ true) × AreKnown refs out

  -- Every reference has a GUID, and each GUID is that of its reference.
  abbrev pub IsResolved : List SchemaRef → History → Outcome OpError Resolved → Type 0
  IsResolved refs h (ok out) = AreKnown refs out × AreGuids out h
  IsResolved refs h (err e) = Unit

  AreGuids-more :
      (out : Resolved) (h : History) (r : Request) (x : Reply)
      → AreGuids out h
      → AreGuids out ((r, x) ∷ h)
  AreGuids-more [] h r x k = tt
  AreGuids-more ((ref, guid) ∷ out) h r x (inl own, k) = (inl own, AreGuids-more out h r x k)
  AreGuids-more ((ref, guid) ∷ out) h r x (inr (q, is, saw), k) =
      (inr (q, is, inr saw), AreGuids-more out h r x k)

  abbrev SaysIt : SchemaRef → History → Outcome OpError Bytes → Type 0
  SaysIt ref h (ok guid) = Says ref guid h
  SaysIt ref h (err e) = Unit

  -- A value that is read is the outcome of its own reading.
  read_back :
      (R : History → Outcome OpError Bytes → Type 0) (h : History) (binary : Bool) (raw : Bytes)
      → ((guid : Bytes) → raw_value binary raw ≡ pure guid → R h (ok guid))
      → ((e : OpError) → R h (err e))
      → Holds IsSearch R h (raw_value binary raw)
  read_back R h binary raw on_ok on_err = by_cases (is_empty raw) binary (guid_to_string raw) on_ok
    where
      value : Bool → Bool → Option Bytes → Proc Bytes
      value absent binary t =
          if absent then fail (op_error constraint) else if binary then guid_value t else pure raw

      by_cases :
          (absent binary : Bool) (t : Option Bytes)
          → ((guid : Bytes) → value absent binary t ≡ pure guid → R h (ok guid))
          → Holds IsSearch R h (value absent binary t)
      by_cases true binary t on_ok = on_err (op_error constraint)
      by_cases false true none on_ok = on_err (op_error constraint)
      by_cases false true (some guid) on_ok = on_ok guid refl
      by_cases false false t on_ok = on_ok raw refl

  one_ref-SaysIt :
      (h : History) (ref : SchemaRef) (q : SchemaQuery)
      → schema_query lib schema_nc config_nc ref.kind ≡ some q
      → (x : Reply)
      → Holds IsSearch
          (SaysIt ref)
          ((search (schema_request lib schema_nc config_nc q ref.name), x) ∷ h)
          (one_ref q x)
  one_ref-SaysIt h ref q is (err e) = tt
  one_ref-SaysIt h ref q is (ok []) = tt
  one_ref-SaysIt h ref q is (ok (e ∷ [])) =
      read_back (SaysIt ref) _ q.binary_guid (first e q.attr)
        (λ guid same. (q, is, inl (e, refl, (refl, same)))) (λ bad. tt)
  one_ref-SaysIt h ref q is (ok (e ∷ second ∷ entries)) = tt

  resolve_one-SaysIt :
      (h : History) (ref : SchemaRef)
      → Holds IsSearch (SaysIt ref) h (resolve_one lib schema_nc config_nc ref)
  unfolding resolve_one
  resolve_one-SaysIt h ref = by_query (schema_query lib schema_nc config_nc ref.kind) refl
    where
      by_query :
          (o : Option SchemaQuery)
          → schema_query lib schema_nc config_nc ref.kind ≡ o
          → Holds IsSearch (SaysIt ref) h (resolve_with lib schema_nc config_nc ref.name o)
      by_query none is = tt
      by_query (some q) is = (tt, λ x. one_ref-SaysIt h ref q is x)

  -- What was known stays known.
  abbrev Grows : Resolved → Resolved → Type 0
  Grows out out' = (ref : SchemaRef) → is_known ref out ≡ true → is_known ref out' ≡ true

  known_first :
      (ref : SchemaRef) (guid : Bytes) (out : Resolved) → is_known ref ((ref, guid) ∷ out) ≡ true
  unfolding is_known same_ref
  known_first ref guid out = rw (same_kind_refl ref.kind, same_text_refl ref.name) refl
    where
      same_kind_refl : (k : RefKind) → same_kind k k ≡ true
      same_kind_refl ref_attribute = refl
      same_kind_refl ref_class = refl
      same_kind_refl ref_extended_right = refl
      same_kind_refl ref_unknown = refl

  known_more : (ref : SchemaRef) (guid : Bytes) (out : Resolved) → Grows out ((ref, guid) ∷ out)
  unfolding is_known
  known_more ref guid out ref' k = by_test (same_ref ref ref')
    where
      by_test : (b : Bool) → (b || is_known ref' out) ≡ true
      by_test true = refl
      by_test false = k

  abbrev Extends : List SchemaRef → Resolved → History → Outcome OpError Resolved → Type 0
  Extends refs out h (ok out') = AreKnown refs out' × AreGuids out' h × Grows out out'
  Extends refs out h (err e) = Unit

  resolve_ref-Extends :
      (h : History) (out : Resolved) (ref : SchemaRef)
      → AreGuids out h
      → Holds IsSearch (Extends (ref ∷ []) out) h (resolve_ref lib schema_nc config_nc out ref)
  resolve_ref-Extends h out ref guids =
      by_tests (is_known ref out) (is_guid_string ref.name) (λ k. k) (λ k. k)
    where
      found :
          Holds IsSearch
            (Extends (ref ∷ []) out)
            h
            (resolve_one lib schema_nc config_nc ref >>= λ guid. pure ((ref, guid) ∷ out))
      found =
          Holds-bind IsSearch (λ h' o. AreGuids out h' × SaysIt ref h' o) (Extends (ref ∷ []) out) h
            _ _
            (Holds-frame IsSearch (SaysIt ref) (AreGuids out) (AreGuids-more out) h _ guids
              (resolve_one-SaysIt h ref))
            (λ h' guid (still, says).
              ((known_first ref guid out, tt), (inr says, still), known_more ref guid out))
            (λ h' e k. tt)

      by_tests :
          (known is_guid : Bool)
          → (known ≡ true → is_known ref out ≡ true)
          → (is_guid ≡ true → is_guid_string ref.name ≡ true)
          → Holds IsSearch (Extends (ref ∷ []) out) h (
              if known
              then pure out
              else if is_guid
              then pure ((ref, ref.name) ∷ out)
              else resolve_one lib schema_nc config_nc ref >>= λ guid. pure ((ref, guid) ∷ out))
      by_tests true is_guid k g = ((k refl, tt), guids, λ ref' had. had)
      by_tests false true k g = (
        (known_first ref ref.name out, tt),
        (inl (g refl, refl), guids),
        known_more ref ref.name out,
      )
      by_tests false false k g = found

  resolve_from-Extends :
      (h : History) (out : Resolved) (refs : List SchemaRef)
      → AreGuids out h
      → Holds IsSearch (Extends refs out) h (resolve_from lib schema_nc config_nc out refs)
  unfolding resolve_from
  resolve_from-Extends h out [] guids = (tt, guids, λ ref had. had)
  resolve_from-Extends h out (ref ∷ refs) guids =
      Holds-bind IsSearch (Extends (ref ∷ []) out) (Extends (ref ∷ refs) out) h _ _
        (resolve_ref-Extends h out ref guids)
        (λ h' out' ((known, u), guids', grows).
          Holds-weaken IsSearch (Extends refs out') IsSearch (Extends (ref ∷ refs) out) h' _
            (resolve_from-Extends h' out' refs guids') (λ h'' r q. q)
            (λ h'' o k. also h'' out' o known grows k))
        (λ h' e k. tt)
    where
      also :
          (h'' : History) (out' : Resolved) (o : Outcome OpError Resolved)
          → is_known ref out' ≡ true
          → Grows out out'
          → Extends refs out' h'' o
          → Extends (ref ∷ refs) out h'' o
      also h'' out' (err e) known grows k = tt
      also h'' out' (ok all) known grows (known_refs, guids, grows') =
          ((grows' ref known, known_refs), guids, λ ref' had. grows' ref' (grows ref' had))

  -- Whatever the domain controller replies, Resolve writes nothing, and where it succeeds every
  -- reference is in the result, and each GUID there is the name of its reference, a GUID already, or
  -- what the attribute of the one object gave that a search for that name found: never that of one of
  -- several.
  pub resolve-IsResolved :
      (refs : List SchemaRef)
      → Holds IsSearch (IsResolved refs) [] (resolve lib schema_nc config_nc refs)
  unfolding resolve
  resolve-IsResolved refs =
      Holds-weaken IsSearch (Extends refs []) IsSearch (IsResolved refs) [] _
        (resolve_from-Extends [] [] refs tt) (λ h r q. q) (λ h o k. only h o k)
    where
      only :
          (h : History) (o : Outcome OpError Resolved) → Extends refs [] h o → IsResolved refs h o
      only h (ok out) (known, guids, grows) = (known, guids)
      only h (err e) k = tt

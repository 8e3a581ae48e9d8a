-- ===== src/Principals/Laws.antt =====
-- The value of a delegation names every principal.
use go_adldap.Base.{◌≡◌, false, none, some, List, [], ◌∷◌, is_empty, Outcome, ok, err}
use go_adldap.Base.Bytes.{Bytes}
use go_adldap.SecDesc.Principals.{build_principal_sd}
use go_adldap.Directory.{first, Identity, OpError}
use go_adldap.Directory.Logic.{History}
use go_adldap.Adcore.{Adcore}
use go_adldap.Search.Found.{Saw}
use go_adldap.Principals.{object_sid, DomainSidCache}

-- A search so far found one object, of this SID, which is not empty.
abbrev pub HasSid : Bytes → History → Type 0
HasSid sid h = Saw (λ r e. (first e object_sid ≡ sid) × (is_empty sid ≡ false)) h

-- One SID for each identity.
abbrev pub IsWhole : List Identity → List Bytes → History → Type 0
IsWhole [] [] h = Unit
IsWhole (id ∷ ids) (sid ∷ sids) h = HasSid sid h × IsWhole ids sids h
IsWhole [] (sid ∷ sids) h = ⊥
IsWhole (id ∷ ids) [] h = ⊥

abbrev FoundSid : History → Outcome OpError Bytes → Type 0
FoundSid h (ok sid) = HasSid sid h
FoundSid h (err e) = Unit

abbrev pub AllFound : List Identity → History → Outcome OpError (List Bytes) → Type 0
AllFound ids h (ok sids) = IsWhole ids sids h
AllFound ids h (err e) = Unit

-- A cache that has an answer keeps it.
abbrev pub Keeps : DomainSidCache → DomainSidCache → Type 0
Keeps none cache' = Unit
Keeps (some o) cache' = cache' ≡ some o

abbrev pub IsCached :
    DomainSidCache → History → Outcome OpError (Outcome OpError Bytes × DomainSidCache) → Type 0
IsCached cache h (ok (o, cache')) = (cache' ≡ some o) × Keeps cache cache'
IsCached cache h (err e) = ⊥

-- The value that is built is that of the cached domain and of one SID for each identity.
abbrev pub IsBuilt :
    List Identity
    → DomainSidCache
    → History
    → Outcome OpError (Outcome OpError Bytes × DomainSidCache)
    → Type 0
IsBuilt ids cache h (ok (ok sd, cache')) =
    (dsid : Bytes) × (sids : List Bytes) × (cache' ≡ some (ok dsid))
    × Keeps cache cache'
    × IsWhole ids sids h
    × (build_principal_sd dsid sids ≡ ok sd)
IsBuilt ids cache h (ok (err e, cache')) = Keeps cache cache'
IsBuilt ids cache h (err e) = ⊥

module _ (lib : Adcore) (dnc : Bytes) (ids : List Identity) (cache : DomainSidCache) where
  abbrev BuiltFor : Bytes → History → Outcome OpError Bytes → Type 0
  BuiltFor dsid h (ok sd) =
      (sids : List Bytes) × IsWhole ids sids h × (build_principal_sd dsid sids ≡ ok sd)
  BuiltFor dsid h (err e) = Unit

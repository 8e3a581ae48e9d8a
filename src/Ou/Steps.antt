-- ===== src/Ou/Steps.antt =====
-- The steps that the operations on an organizational unit share: the read, and the change of its
-- protection.
use go_adldap.Base.{
  ◌≡◌, refl, ap, ◌∙◌, subst, Bool, true, false, List, [], ◌∷◌, is_empty, if◌then◌else◌, Outcome, ok,
  err,
}
use go_adldap.Base.Bytes.{Bytes}
use go_adldap.LdapErr.{denied}
use go_adldap.SecDesc.{SdError}
use go_adldap.SecDesc.Protection.{set_protected}
use go_adldap.Directory.{
  Entry, Identity, OpError, op_error_at, Request, search, add, modify, modify_dn, delete, Reply,
  fail, first,
}
use go_adldap.Directory.Logic.{History, Holds, Holds-bind}
use go_adldap.Adcore.{Adcore}
use go_adldap.Search.Laws.{IsSearch, FindsNone, get_one-FindsNone}
use go_adldap.Operation.Laws.{Anything, finished-Holds, modelled-FindsNone}
use go_adldap.Ou.Protection.{
  set_protection, read_protection, write_protection, descriptor_request, replace_descriptor,
  security_descriptor,
}
use go_adldap.Ou.{ou_get, ou_model}

-- The update of a descriptor is what SetProtected makes of the descriptor that was just read from
-- the same object, and only where it changed something.
abbrev pub IsUpdateOf : Bytes → Bool → Bytes → History → Type 0
IsUpdateOf dn want updated [] = ⊥
IsUpdateOf dn want updated ((r, err e) ∷ h) = ⊥
IsUpdateOf dn want updated ((r, ok []) ∷ h) = ⊥
IsUpdateOf dn want updated ((r, ok (e ∷ entries)) ∷ h) =
    (r ≡ search (descriptor_request dn))
    × (set_protected (first e security_descriptor) want ≡ ok (updated, true))

-- A request that reads, or replaces the descriptor of `dn` alone, by such an update.
abbrev pub Protects : Bytes → Bool → History → Request → Type 0
Protects dn want h (search r) = Unit
Protects dn want h (modify d mods controls) =
    (updated : Bytes) × (modify d mods controls ≡ replace_descriptor dn updated)
    × IsUpdateOf dn want updated h
Protects dn want h r = ⊥

module _ (dn : Bytes) (want : Bool) where
  write_protection-Protects :
      (h : History) (e : Entry) (entries : List Entry) (o : Outcome SdError (Bytes × Bool))
      → set_protected (first e security_descriptor) want ≡ o
      → Holds
          (Protects dn want)
          Anything
          ((search (descriptor_request dn), ok (e ∷ entries)) ∷ h)
          (write_protection dn o)
  write_protection-Protects h e entries (err bad) eq = tt
  write_protection-Protects h e entries (ok (updated, false)) eq = tt
  write_protection-Protects h e entries (ok (updated, true)) eq =
      ((updated, refl, (refl, eq)), λ x. finished-Holds (Protects dn want) _ x)

  protect_current-Protects :
      (h : History) (e : Entry) (entries : List Entry) (absent : Bool)
      → Holds (Protects dn want) Anything ((search (descriptor_request dn), ok (e ∷ entries)) ∷ h) (
          if absent
          then fail (op_error_at denied dn)
          else write_protection dn (set_protected (first e security_descriptor) want))
  protect_current-Protects h e entries true = tt
  protect_current-Protects h e entries false = write_protection-Protects h e entries _ refl

  read_protection-Protects :
      (h : History) (x : Reply)
      → Holds
          (Protects dn want)
          Anything
          ((search (descriptor_request dn), x) ∷ h)
          (read_protection dn want x)
  read_protection-Protects h (err e) = tt
  read_protection-Protects h (ok []) = tt
  read_protection-Protects h (ok (e ∷ entries)) =
      protect_current-Protects h e entries (is_empty (first e security_descriptor))

  -- Whatever the domain controller replies, setProtection writes nothing but the descriptor of the
  -- object, under the control that limits the write to the DACL, and only the update that SetProtected
  -- makes of the descriptor that was read from the same object just before.
  pub set_protection-Protects :
      (h : History) → Holds (Protects dn want) Anything h (set_protection dn want)
  unfolding set_protection
  set_protection-Protects h = (tt, λ x. read_protection-Protects h x)

-- The same, about the object that the request names.
abbrev pub ProtectsIts : Bool → History → Request → Type 0
ProtectsIts want h (modify d mods controls) = Protects d want h (modify d mods controls)
ProtectsIts want h (search r) = Unit
ProtectsIts want h r = ⊥

pub Protects-ProtectsIts :
    (dn : Bytes) (want : Bool) (h : History) (r : Request)
    → Protects dn want h r
    → ProtectsIts want h r
Protects-ProtectsIts dn want h (search r) p = tt
Protects-ProtectsIts dn want h (modify d mods controls) (updated, e, update) =
    let same : dn ≡ d = cc in
    (
      updated,
      e ∙ ap (λ x. replace_descriptor x updated) same,
      subst (λ x. IsUpdateOf x want updated h) same update,
    )
Protects-ProtectsIts dn want h (add d attrs) p = p
Protects-ProtectsIts dn want h (modify_dn d rdn old superior) p = p
Protects-ProtectsIts dn want h (delete d) p = p

module _ (lib : Adcore) (dnc : Bytes)
    (kept : (e : OpError) (id : Identity) → (lib.with_identity e id).kind ≡ e.kind) where
  -- The read of a unit.
  pub ou_get-FindsNone :
      (h : History) (id : Identity) → Holds IsSearch FindsNone h (ou_get lib dnc id)
  unfolding ou_get
  ou_get-FindsNone h id =
      Holds-bind IsSearch FindsNone FindsNone h _ _ (get_one-FindsNone lib dnc kept h id _ _ _)
        (λ h' e found. modelled-FindsNone IsSearch h' (ou_model lib e))
        (λ h' e none_found. none_found)

-- ===== src/Ou/Laws.antt =====
-- The delete of an organizational unit.
use go_adldap.Base.{
  suc, ◌≡◌, refl, arith, Bool, true, false, ◌&&◌, List, [], ◌∷◌, ltb-true, length, if◌then◌else◌,
  Outcome, ok, err,
}
use go_adldap.Base.Bytes.{Bytes}
use go_adldap.LdapErr.{not_found}
use go_adldap.Directory.{
  Entry, Identity, by_guid, OpError, Request, search, add, modify, modify_dn, delete, Reply, Proc,
  pure, fail, map_error, ◌>>=◌,
}
use go_adldap.Directory.Logic.{History, Holds, Holds-bind, Holds-map_error, Holds-weaken}
use go_adldap.Adcore.{Adcore, is_kind_too_many}
use go_adldap.Search.Laws.{IsSearch, FindsNone}
use go_adldap.Operation.{when}
use go_adldap.Operation.Laws.{
  Anything, IsGone, none-IsGone, delete_and_confirm-IsGone, found-IsGone,
}
use go_adldap.Ou.Protection.{set_protection}
use go_adldap.Ou.{
  Ou, ou_get, child_request, child_count, delete_if_empty, delete_current, delete_found, ou_delete,
}
use go_adldap.Ou.Steps.{
  Protects, ProtectsIts, Protects-ProtectsIts, set_protection-Protects, ou_get-FindsNone,
}

-- The search for children of `dn` was the last request, and found none.
abbrev pub NoChild : Bytes → History → Type 0
NoChild dn [] = ⊥
NoChild dn ((r, err e) ∷ h) = ⊥
NoChild dn ((r, ok []) ∷ h) = r ≡ search (child_request dn)
NoChild dn ((r, ok (e ∷ entries)) ∷ h) = ⊥

-- What a delete may request: searches, the lifting of the protection, and the delete of an object in
-- which the request just before found no child.
abbrev pub DeletesSafely : History → Request → Type 0
DeletesSafely h (delete dn) = NoChild dn h
DeletesSafely h r = ProtectsIts false h r

search_safe : (h : History) (r : Request) → IsSearch h r → DeletesSafely h r
search_safe h (search s) q = tt
search_safe h (modify d mods controls) q = elim q [ ]
search_safe h (add d attrs) q = elim q [ ]
search_safe h (modify_dn d rdn old superior) q = elim q [ ]
search_safe h (delete d) q = elim q [ ]

protect_safe : (h : History) (r : Request) → ProtectsIts false h r → DeletesSafely h r
protect_safe h (search s) q = tt
protect_safe h (modify d mods controls) q = q
protect_safe h (add d attrs) q = q
protect_safe h (modify_dn d rdn old superior) q = q
protect_safe h (delete d) q = elim q [ ]

module _ (lib : Adcore) (dnc : Bytes)
    (kept : (e : OpError) (id : Identity) → (lib.with_identity e id).kind ≡ e.kind)
    (means : (e : OpError) → lib.is_not_found e ≡ true → e.kind ≡ not_found) where
  abbrev pub Safe : History → Proc (Unit {0}) → Type 0
  Safe = Holds DeletesSafely IsGone

  get_safely : (h : History) (id : Identity) → Holds DeletesSafely FindsNone h (ou_get lib dnc id)
  get_safely h id =
      Holds-weaken IsSearch FindsNone DeletesSafely FindsNone h _
        (ou_get-FindsNone lib dnc kept h id) search_safe (λ h' o k. k)

  delete_if_empty-Safe :
      (h : History) (id : Identity) (current : Ou) (entries : List Entry)
      → Safe
          ((search (child_request current.dn), ok entries) ∷ h)
          (delete_if_empty lib dnc id current (length entries))
  delete_if_empty-Safe h id current [] =
      delete_and_confirm-IsGone DeletesSafely lib means _ id current.dn
        (ou_get lib dnc (by_guid current.guid)) refl (λ h'. get_safely h' (by_guid current.guid))
  delete_if_empty-Safe h id current (e ∷ entries) =
      rw (ltb-true 0 (suc (length entries)) (omega arith)) tt

  count_safely :
      (h : History) (id : Identity) (current : Ou) (x : Reply)
      → Safe
          ((search (child_request current.dn), x) ∷ h)
          (child_count lib dnc id x >>= delete_if_empty lib dnc id current)
  count_safely h id current (ok entries) = delete_if_empty-Safe h id current entries
  count_safely h id current (err e) = by_kind (is_kind_too_many e.kind)
    where
      by_kind :
          (b : Bool)
          → Safe ((search (child_request current.dn), err e) ∷ h) (
              (if b then pure 1 else fail (lib.with_identity e id))
              >>= delete_if_empty lib dnc id current)
      by_kind true = tt
      by_kind false = tt

  delete_current-Safe :
      (h : History) (id : Identity) (unprotect : Bool) (current : Ou)
      → Safe h (delete_current lib dnc id unprotect current)
  unfolding delete_current
  delete_current-Safe h id unprotect current =
      Holds-bind DeletesSafely Anything IsGone h _ _ (lift_safely (unprotect && current.protected))
        (λ h' u k. (tt, λ x. count_safely h' id current x)) (λ h' e k. tt)
    where
      lift_safely :
          (b : Bool)
          → Holds DeletesSafely Anything h
              (when b (map_error (λ e. lib.with_identity e id) (set_protection current.dn false)))
      lift_safely false = tt
      lift_safely true =
          Holds-map_error DeletesSafely Anything Anything (λ e. lib.with_identity e id) h _
            (Holds-weaken (Protects current.dn false) Anything DeletesSafely Anything h _
              (set_protection-Protects current.dn false h)
              (λ h' r q. protect_safe h' r (Protects-ProtectsIts current.dn false h' r q))
              (λ h' o k. tt))
            (λ h' u k. tt) (λ h' e k. tt)

  -- Where WithIdentity keeps the kind of an error and only that kind means not found: whatever the
  -- domain controller replies, Delete requests the delete of an object only right after a search
  -- that found no child of it, writes nothing else but the descriptor that lifts the protection, and
  -- reports success only where the last reply says that there is no such object.
  pub ou_delete-Safe : (id : Identity) (unprotect : Bool) → Safe [] (ou_delete lib dnc id unprotect)
  unfolding ou_delete
  ou_delete-Safe id unprotect =
      found-IsGone DeletesSafely FindsNone [] (ou_get lib dnc id)
        (delete_found lib dnc id unprotect) (get_safely [] id) (λ h' o k. found_safely h' o k)
    where
      found_safely :
          (h : History) (o : Outcome OpError Ou)
          → FindsNone h o
          → Safe h (delete_found lib dnc id unprotect o)
      found_safely h (ok current) k = delete_current-Safe h id unprotect current
      found_safely h (err e) k = none-IsGone DeletesSafely lib means h e k

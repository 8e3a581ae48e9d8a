-- ===== src/Acl/Safety.antt =====
-- What Grant and Revoke write.
use go_adldap.Base.{
  ◌≡◌, ◌⊎◌, inl, inr, refl, Bool, true, false, Option, none, some, List, [], ◌∷◌, is_empty,
  if◌then◌else◌, Outcome, ok, err,
}
use go_adldap.Base.Bytes.{Bytes}
use go_adldap.LdapErr.{denied}
use go_adldap.SecDesc.{SdError}
use go_adldap.SecDesc.Ace.{DecodedAce, decode_aces, add_aces, remove_aces}
use go_adldap.Directory.{
  Entry, first, Identity, by_dn, OpError, op_error_at, Request, search, add, modify, modify_dn,
  delete, Reply, pure, fail, map_error, ◌>>=◌,
}
use go_adldap.Directory.Logic.{History, Holds, Holds-bind, Holds-weaken, Holds-frame}
use go_adldap.Adcore.{Adcore}
use go_adldap.Search.Laws.{IsSearch, last_reply, IsOnly, get_one-IsOnly}
use go_adldap.Ou.Protection.{security_descriptor, replace_descriptor}
use go_adldap.Operation.{finished}
use go_adldap.Operation.Laws.{Anything}
use go_adldap.Acl.{
  Ace, read_descriptor, aces_of, decoded, acl_get, write_changed, explicit_keys, missing,
  add_missing, acl_grant, drop_keys, matches, remove_named, acl_revoke,
}

-- The domain controller answered a search with this entry alone.
abbrev pub Seen : Entry → History → Type 0
Seen e [] = ⊥
Seen e ((r, x) ∷ h) = (x ≡ ok (e ∷ [])) ⊎ Seen e h

last_reply-Seen : (e : Entry) (h : History) → last_reply h ≡ some (ok (e ∷ [])) → Seen e h
last_reply-Seen e [] k = cc
last_reply-Seen e ((r, x) ∷ h) k = inl cc

-- The descriptor that was read.
abbrev IsRead : History → Outcome OpError (Entry × Bytes) → Type 0
IsRead h (err e) = Unit
IsRead h (ok (e, sd)) = Seen e h × (sd ≡ first e security_descriptor)

-- A write of the descriptor of an object that was read, where the new bytes are as `Made` says of the
-- entry that was read, and no other write.
abbrev pub WritesMade : (History → Entry → Bytes → Type 0) → History → Request → Type 0
WritesMade Made h (search r) = Unit
WritesMade Made h (modify dn mods controls) =
    (e : Entry) × (updated : Bytes) × Seen e h
    × (modify dn mods controls ≡ replace_descriptor e.dn updated)
    × Made h e updated
WritesMade Made h r = ⊥

search_allowed :
    (Made : History → Entry → Bytes → Type 0) (h : History) (r : Request)
    → IsSearch h r
    → WritesMade Made h r
search_allowed Made h (search r) q = tt
search_allowed Made h (modify dn mods controls) q = elim q [ ]
search_allowed Made h (add dn attrs) q = elim q [ ]
search_allowed Made h (modify_dn dn rdn old superior) q = elim q [ ]
search_allowed Made h (delete dn) q = elim q [ ]

module _ (lib : Adcore) (dnc : Bytes) (Made : History → Entry → Bytes → Type 0) where
  read_descriptor-IsRead :
      (h : History) (id : Identity) → Holds (WritesMade Made) IsRead h (read_descriptor lib dnc id)
  unfolding read_descriptor
  read_descriptor-IsRead h id =
      Holds-bind (WritesMade Made) IsOnly IsRead h _ _
        (Holds-weaken IsSearch IsOnly (WritesMade Made) IsOnly h _
          (get_one-IsOnly lib dnc h id _ _ _) (search_allowed Made) (λ h' o k. k))
        (λ h' e k. by_test h' e k (is_empty (first e security_descriptor))) (λ h' e k. tt)
    where
      by_test :
          (h' : History) (e : Entry)
          → last_reply h' ≡ some (ok (e ∷ []))
          → (b : Bool)
          → Holds {A = Entry × Bytes}
              (WritesMade Made)
              IsRead
              h'
              (if b then fail (op_error_at denied e.dn) else pure (e, first e security_descriptor))
      by_test h' e k true = tt
      by_test h' e k false = (last_reply-Seen e h' k, refl)

  write_changed-Made :
      (h : History) (id : Identity) (e : Entry) (o : Outcome SdError (Bytes × Bool))
      → Seen e h
      → ((updated : Bytes) → o ≡ ok (updated, true) → Made h e updated)
      → Holds (WritesMade Made) Anything h (write_changed lib dnc id e.dn o)
  write_changed-Made h id e (err bad) seen made = tt
  write_changed-Made h id e (ok (updated, false)) seen made = tt
  write_changed-Made h id e (ok (updated, true)) seen made =
      ((e, updated, seen, refl, made updated refl), λ x. by_reply x)
    where
      by_reply :
          (x : Reply)
          → Holds
              (WritesMade Made)
              Anything
              ((replace_descriptor e.dn updated, x) ∷ h)
              (map_error (λ e. lib.with_identity e id) (finished x))
      by_reply (ok entries) = tt
      by_reply (err bad) = tt

module _ (lib : Adcore) (dnc : Bytes) (canonical_ace_key : Ace → Bytes) (list : List Ace) where
  -- The entry without the explicit entries that are named.
  abbrev pub IsRevoked : History → Entry → Bytes → Type 0
  IsRevoked h e updated =
      (drop : List Bytes) × (drop_keys lib dnc canonical_ace_key list ≡ some drop)
      × (remove_aces (first e security_descriptor) (matches lib dnc canonical_ace_key drop)
          ≡ ok (updated, true))

  -- Whatever the domain controller replies, Revoke writes nothing but the descriptor of an object
  -- that it has just read, and only where RemoveACEs, with the keys of the entries that are named,
  -- changed the descriptor that was read.
  acl_revoke-IsRevoked :
      (id : Identity)
      → Holds (WritesMade IsRevoked) Anything [] (acl_revoke lib dnc canonical_ace_key id list)
  unfolding acl_revoke
  acl_revoke-IsRevoked id = by_test (is_empty list)
    where
      remove_holds :
          (h : History) (e : Entry) (sd : Bytes) (drop : Option (List Bytes))
          → drop_keys lib dnc canonical_ace_key list ≡ drop
          → Seen e h
          → sd ≡ first e security_descriptor
          → Holds
              (WritesMade IsRevoked)
              Anything
              h
              (remove_named lib dnc canonical_ace_key id e.dn sd drop)
      remove_holds h e sd none k seen same = tt
      remove_holds h e sd (some drop) k seen same =
          write_changed-Made lib dnc IsRevoked h id e _ seen
            (λ updated made. (drop, k, rw (← same) made))

      by_test :
          (b : Bool)
          → Holds (WritesMade IsRevoked) Anything [] (
              if b
              then pure tt
              else (read_descriptor lib dnc id >>= λ found.
                  remove_named lib dnc canonical_ace_key id found.0.dn found.1
                    (drop_keys lib dnc canonical_ace_key list)))
      by_test true = tt
      by_test false =
          Holds-bind (WritesMade IsRevoked) IsRead Anything [] _ _
            (read_descriptor-IsRead lib dnc IsRevoked [] id)
            (λ h' found k. remove_holds h' found.0 found.1 _ refl k.0 k.1) (λ h' e k. tt)

  -- The entry with the entries that were missing among those that were read.
  abbrev pub IsGranted : History → Entry → Bytes → Type 0
  IsGranted h e updated =
      (again : Entry) × (old add : List DecodedAce) × Seen again h
      × (decode_aces (first again security_descriptor) ≡ ok old)
      × (missing lib dnc canonical_ace_key (explicit_keys lib dnc canonical_ace_key (aces_of old))
            list
          ≡ some add)
      × (add_aces (first e security_descriptor) add ≡ ok (updated, true))

  abbrev Got : History → Outcome OpError (List Ace) → Type 0
  Got h (err e) = Unit
  Got h (ok existing) =
      (again : Entry) × (old : List DecodedAce) × Seen again h
      × (decode_aces (first again security_descriptor) ≡ ok old)
      × (existing ≡ aces_of old)

  decoded-Got :
      (h : History) (e : Entry) (sd : Bytes) (o : Outcome SdError (List DecodedAce))
      → Seen e h
      → sd ≡ first e security_descriptor
      → decode_aces sd ≡ o
      → Holds (WritesMade IsGranted) Got h (decoded lib dnc o)
  decoded-Got h e sd (err bad) seen same k = tt
  decoded-Got h e sd (ok old) seen same k = (e, old, seen, rw (← same) k, refl)

  acl_get-Got :
      (h : History) (id : Identity) → Holds (WritesMade IsGranted) Got h (acl_get lib dnc id)
  unfolding acl_get
  acl_get-Got h id =
      Holds-bind (WritesMade IsGranted) IsRead Got h _ _
        (read_descriptor-IsRead lib dnc IsGranted h id)
        (λ h' found k. decoded-Got h' found.0 found.1 _ k.0 k.1 refl) (λ h' e k. tt)

  -- Whatever the domain controller replies, Grant writes nothing but the descriptor of an object that
  -- it has just read, and only what AddACEs makes of the descriptor that was read with those of the
  -- entries asked for that are missing among the explicit ones of a second read.
  pub acl_grant-IsGranted :
      (id : Identity)
      → Holds (WritesMade IsGranted) Anything [] (acl_grant lib dnc canonical_ace_key id list)
  unfolding acl_grant
  acl_grant-IsGranted id = by_test (is_empty list)
    where
      add_holds :
          (h : History) (e : Entry) (sd : Bytes) (existing : List Ace)
          (wanted : Option (List DecodedAce))
          → missing lib dnc canonical_ace_key
              (explicit_keys lib dnc canonical_ace_key existing)
              list
            ≡ wanted
          → Seen e h
          → sd ≡ first e security_descriptor
          → Got h (ok existing)
          → Holds
              (WritesMade IsGranted)
              Anything
              h
              (add_missing lib dnc canonical_ace_key id e.dn sd wanted)
      add_holds h e sd existing none k seen same got = tt
      add_holds h e sd existing (some new) k seen same got =
          let (again, old, seen_again, old_decoded, is) = got in
          write_changed-Made lib dnc IsGranted h id e _ seen (λ updated made.
            (again, old, new, seen_again, old_decoded, rw (← is) k, rw (← same) made))

      by_test :
          (b : Bool)
          → Holds (WritesMade IsGranted) Anything [] (
              if b
              then pure tt
              else (read_descriptor lib dnc id >>= λ found.
                  acl_get lib dnc (by_dn found.0.dn) >>= λ existing.
                  add_missing lib dnc canonical_ace_key id found.0.dn found.1 (
                    missing lib dnc canonical_ace_key
                      (explicit_keys lib dnc canonical_ace_key existing)
                      list)))
      by_test true = tt
      by_test false =
          Holds-bind (WritesMade IsGranted) IsRead Anything [] _ _
            (read_descriptor-IsRead lib dnc IsGranted [] id)
            (λ h' found k.
              Holds-bind (WritesMade IsGranted) (λ h'' o. Seen found.0 h'' × Got h'' o) Anything h'
                _ _
                (Holds-frame (WritesMade IsGranted) Got (Seen found.0) (λ h'' r x seen. inr seen) h'
                  _ k.0 (acl_get-Got h' (by_dn found.0.dn)))
                (λ h'' existing got. add_holds h'' found.0 found.1 existing _ refl got.0 k.1 got.1)
                (λ h'' e got. tt))
            (λ h' e k. tt)

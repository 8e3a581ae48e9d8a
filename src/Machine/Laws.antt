-- ===== src/Machine/Laws.antt =====
-- The Get of a machine, with its principals.
use go_adldap.Base.{
  ◌≡◌, refl, sym, subst, Bool, true, false, List, Option, none, some, [], ◌∷◌, inr, is_empty,
  if◌then◌else◌, Outcome, ok, err,
}
use go_adldap.Base.Bytes.{Bytes}
use go_adldap.LdapErr.{not_found}
use go_adldap.Directory.{Entry, first, Control, Identity, OpError, pure, fail, ◌>>=◌}
use go_adldap.Directory.Logic.{History, Holds, Holds-bind, Holds-attempt, Holds-frame, Holds-both}
use go_adldap.Adcore.{Adcore}
use go_adldap.Sid.{sid_to_string}
use go_adldap.SecDesc.{SdError}
use go_adldap.SecDesc.Principals.{principal_sids}
use go_adldap.Search.Found.{FoundIn, IsLast-FoundIn}
use go_adldap.Search.Laws.{
  IsSearch, IsOnly, FindsNone, last_reply, get_one-IsOnly, get_one-FindsNone,
}
use go_adldap.Operation.{modelled}
use go_adldap.Operation.Laws.{Inspects, Anything}
use go_adldap.Operation.Removal.{FoundOrNone, dn_or}
use go_adldap.Principals.{guid_entry, guid_of_sid, guids_of_sids, read_sids, principal_guids}
use go_adldap.Machine.{fill_principals, get_machine}

module _ (lib : Adcore) (dnc : Bytes) where
  -- An error of the read is no not-found.
  abbrev NoNone : {A : Type 0} → History → Outcome OpError A → Type 0
  NoNone h (ok a) = Unit
  NoNone h (err e) = e.kind ≡ not_found → ⊥

  module _ (exact : (e : OpError) → e.kind ≡ not_found → lib.is_not_found e ≡ true) where
    guid_entry-NoNone :
        (h : History) (o : Outcome OpError Entry) → Holds IsSearch NoNone h (guid_entry lib dnc o)
    guid_entry-NoNone h (ok e) = tt
    guid_entry-NoNone h (err e) = by_test (lib.is_not_found e) refl
      where
        by_test :
            (b : Bool)
            → lib.is_not_found e ≡ b
            → Holds {A = Option Bytes} IsSearch NoNone h (if b then pure none else fail e)
        by_test true is = tt
        by_test false is = λ bad. cc (exact e bad)

    guid_of_sid-NoNone :
        (h : History) (s : Option Bytes) → Holds IsSearch NoNone h (guid_of_sid lib dnc s)
    guid_of_sid-NoNone h none = tt
    guid_of_sid-NoNone h (some s) =
        Holds-bind IsSearch (Inspects Anything) NoNone h _ _
          (Holds-attempt IsSearch IsOnly (Inspects Anything) h _ (get_one-IsOnly lib dnc h _ _ _ _)
            (λ h' o k. tt))
          (λ h' o k. guid_entry-NoNone h' o) (λ h' e k. absurd k)

    guids_of_sids-NoNone :
        (h : History) (sids : List Bytes) → Holds IsSearch NoNone h (guids_of_sids lib dnc sids)
    unfolding guids_of_sids
    guids_of_sids-NoNone h [] = tt
    guids_of_sids-NoNone h (raw ∷ sids) =
        Holds-bind IsSearch NoNone NoNone h _ _ (guid_of_sid-NoNone h (sid_to_string raw))
          (λ h' g k.
            Holds-bind IsSearch NoNone NoNone h' _ _ (guids_of_sids-NoNone h' sids)
              (λ h'' out k'. tt) (λ h'' e k'. k'))
          (λ h' e k. k)

    pub principal_guids-NoNone :
        (h : History) (sd : Bytes) → Holds IsSearch NoNone h (principal_guids lib dnc sd)
    unfolding principal_guids
    principal_guids-NoNone h sd = by_sids (principal_sids sd)
      where
        by_sids : (o : Outcome SdError (List Bytes)) → Holds IsSearch NoNone h (read_sids lib dnc o)
        by_sids (ok sids) = guids_of_sids-NoNone h sids
        by_sids (err e) = λ bad. cc

    module _ {A : Type 0} (names : A → Bytes × Bytes) (model : Entry → Option A)
        (with_principals : A → List Bytes → A) (sd_attr : Bytes)
        (model_dn : (e : Entry) → dn_or names e.dn (model e) ≡ e.dn)
        (keeps : (m : A) (guids : List Bytes) → (names (with_principals m guids)).0 ≡ (names m).0)
        (kept : (e : OpError) (id : Identity) → (lib.with_identity e id).kind ≡ e.kind) where
      fill_principals-FoundOrNone :
          (h : History) (m : A) (raw : Bytes)
          → FoundIn (names m).0 h
          → Holds IsSearch
              (FoundOrNone names)
              h
              (fill_principals lib dnc model with_principals sd_attr m raw)
      unfolding fill_principals
      fill_principals-FoundOrNone h m raw found = by_test (is_empty raw)
        where
          by_test :
              (b : Bool)
              → Holds IsSearch (FoundOrNone names) h (
                  if b
                  then pure m
                  else principal_guids lib dnc raw >>= λ guids. pure (with_principals m guids))
          by_test true = (tt, found)
          by_test false =
              Holds-bind IsSearch (λ h' o. FoundIn (names m).0 h' × NoNone h' o) (FoundOrNone names)
                h _ _
                (Holds-frame IsSearch NoNone (FoundIn (names m).0) (λ h' r x k. inr k) h _ found
                  (principal_guids-NoNone h raw))
                (λ h' guids k. (tt, subst (λ dn. FoundIn dn h') (sym (keeps m guids)) k.0))
                (λ h' e k. ((λ bad. absurd (k.1 bad)), tt))

      -- The model of the one entry that the search found.
      pub get_machine-FoundOrNone :
          (h : History) (id : Identity) (object_class : Bytes) (want : List Bytes)
          (controls : List Control)
          → Holds IsSearch
              (FoundOrNone names)
              h
              (get_machine lib dnc model with_principals sd_attr object_class want controls id)
      unfolding get_machine
      get_machine-FoundOrNone h id object_class want controls =
          Holds-bind IsSearch (λ h' o. IsOnly h' o × FindsNone h' o) (FoundOrNone names) h _ _
            (Holds-both IsSearch IsSearch IsOnly FindsNone h _
              (get_one-IsOnly lib dnc h id object_class want controls)
              (get_one-FindsNone lib dnc kept h id object_class want controls))
            (λ h' e k. by_model h' e k.0 (model e) (model_dn e)) (λ h' e k. (k.1, tt))
        where
          by_model :
              (h' : History) (e : Entry)
              → last_reply h' ≡ some (ok (e ∷ []))
              → (o : Option A) → dn_or names e.dn o ≡ e.dn
              → Holds IsSearch (FoundOrNone names) h' (
                  modelled o >>= λ m.
                  fill_principals lib dnc model with_principals sd_attr m (first e sd_attr))
          by_model h' e l none same = (λ bad. cc, tt)
          by_model h' e l (some m) same =
              fill_principals-FoundOrNone h' m (first e sd_attr)
                (IsLast-FoundIn (names m).0 h' (e, l, same))

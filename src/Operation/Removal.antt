-- ===== src/Operation/Removal.antt =====
-- The Delete of a directory, for any Get that answers with an object that was found.
use go_adldap.Base.{◌≡◌, true, List, Option, none, some, [], ◌∷◌, Outcome, ok, err}
use go_adldap.Base.Bytes.{Bytes}
use go_adldap.LdapErr.{not_found}
use go_adldap.Directory.{
  Entry, Control, Identity, by_guid, OpError, Request, search, add, modify, modify_dn, delete, Proc,
  ◌>>=◌,
}
use go_adldap.Directory.Logic.{History, Holds, Holds-bind, Holds-weaken, Holds-both}
use go_adldap.Adcore.{Adcore}
use go_adldap.Search.{get_one}
use go_adldap.Search.Found.{FoundIn, IsLast-FoundIn}
use go_adldap.Search.Laws.{
  IsSearch, IsOnly, FindsNone, last_reply, get_one-IsOnly, get_one-FindsNone,
}
use go_adldap.Operation.{modelled, removed, remove_object}
use go_adldap.Operation.Laws.{
  IsGone, modelled-FindsNone, none-IsGone, delete_and_confirm-IsGone, found-IsGone,
}

-- What a delete may request: searches, and the delete of an object that a search found alone.
abbrev pub DeletesFound : History → Request → Type 0
DeletesFound h (search r) = Unit
DeletesFound h (delete dn) = FoundIn dn h
DeletesFound h r = ⊥

search-DeletesFound : (h : History) (r : Request) → IsSearch h r → DeletesFound h r
search-DeletesFound h (search s) q = tt
search-DeletesFound h (modify d mods controls) q = q
search-DeletesFound h (add d attrs) q = q
search-DeletesFound h (modify_dn d rdn old superior) q = q
search-DeletesFound h (delete d) q = absurd q

module _ {A : Type 0} (names : A → Bytes × Bytes) where
  -- A read gives an object that a search found alone, by its DN.
  abbrev pub IsRead : History → Outcome OpError A → Type 0
  IsRead h (ok m) = FoundIn (names m).0 h
  IsRead h (err e) = Unit

  abbrev pub FoundOrNone : History → Outcome OpError A → Type 0
  FoundOrNone h o = FindsNone h o × IsRead h o

  -- The DN of a model, or another where there is no model.
  abbrev pub dn_or : Bytes → Option A → Bytes
  dn_or dn none = dn
  dn_or dn (some m) = (names m).0

  modelled-IsRead :
      (h : History) (e : Entry) (o : Option A)
      → last_reply h ≡ some (ok (e ∷ []))
      → dn_or e.dn o ≡ e.dn
      → Holds IsSearch IsRead h (modelled o)
  modelled-IsRead h e none l same = tt
  modelled-IsRead h e (some m) l same = IsLast-FoundIn (names m).0 h (e, l, same)

  module _ (lib : Adcore) (dnc : Bytes) where
    -- A Get that models the one entry that it finds, under the entry's DN.
    pub get_model-IsRead :
        (h : History) (id : Identity) (object_class : Bytes) (want : List Bytes)
        (controls : List Control) (model : Entry → Option A)
        → ((e : Entry) → dn_or e.dn (model e) ≡ e.dn)
        → Holds IsSearch IsRead h
            (get_one lib dnc id object_class want controls >>= λ e. modelled (model e))
    get_model-IsRead h id object_class want controls model keeps =
        Holds-bind IsSearch IsOnly IsRead h _ _
          (get_one-IsOnly lib dnc h id object_class want controls)
          (λ h' e l. modelled-IsRead h' e (model e) l (keeps e)) (λ h' e k. tt)

    pub get_model-FoundOrNone :
        (kept : (e : OpError) (id : Identity) → (lib.with_identity e id).kind ≡ e.kind)
        (h : History) (id : Identity) (object_class : Bytes) (want : List Bytes)
        (controls : List Control) (model : Entry → Option A)
        → ((e : Entry) → dn_or e.dn (model e) ≡ e.dn)
        → Holds IsSearch FoundOrNone h
            (get_one lib dnc id object_class want controls >>= λ e. modelled (model e))
    get_model-FoundOrNone kept h id object_class want controls model keeps =
        Holds-both IsSearch IsSearch FindsNone IsRead h _
          (Holds-bind IsSearch FindsNone FindsNone h _ _
            (get_one-FindsNone lib dnc kept h id object_class want controls)
            (λ h' e found. modelled-FindsNone IsSearch h' (model e))
            (λ h' e none_found. none_found))
          (get_model-IsRead h id object_class want controls model keeps)

  module _ (lib : Adcore) (means : (e : OpError) → lib.is_not_found e ≡ true → e.kind ≡ not_found)
      (get : Identity → Proc A)
      (reads : (h : History) (id : Identity) → Holds IsSearch FoundOrNone h (get id)) where
    removed-IsGone :
        (h : History) (id : Identity) (o : Outcome OpError A)
        → FoundOrNone h o
        → Holds DeletesFound IsGone h (removed lib get names id o)
    removed-IsGone h id (err e) (finds, read) = none-IsGone DeletesFound lib means h e finds
    removed-IsGone h id (ok m) (finds, read) =
        delete_and_confirm-IsGone DeletesFound lib means h id (names m).0
          (get (by_guid (names m).1)) read
          (λ h'.
            Holds-weaken IsSearch FoundOrNone DeletesFound FindsNone h' (get (by_guid (names m).1))
              (reads h' (by_guid (names m).1)) search-DeletesFound (λ h'' o k. k.0))

    pub remove_object-DeletesFound :
        (id : Identity) → Holds DeletesFound IsGone [] (remove_object lib get names id)
    unfolding remove_object
    remove_object-DeletesFound id =
        found-IsGone DeletesFound FoundOrNone [] (get id) (removed lib get names id)
          (Holds-weaken IsSearch FoundOrNone DeletesFound FoundOrNone [] (get id) (reads [] id)
            search-DeletesFound (λ h o k. k))
          (λ h o k. removed-IsGone h id o k)

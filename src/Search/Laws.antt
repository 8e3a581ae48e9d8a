-- ===== src/Search/Laws.antt =====
-- What a search answers with.
use go_adldap.Base.{
  ℕ, ◌+◌, ◌≤◌, ◌≡◌, ◌⊎◌, refl, sym, ap, ◌∙◌, arith, Bool, true, false, Option, none, some, List, [],
  ◌∷◌, inl, inr, ltb, length, if◌then◌else◌, Outcome, ok, err,
}
use go_adldap.Base.Bytes.{Bytes}
use go_adldap.LdapErr.{
  Kind, unknown, too_many_results, denied, referral, constraint, invalid_attribute, not_found,
  transient, already_exists, transport, other,
}
use go_adldap.Directory.{
  Entry, Control, Identity, OpError, op_error, Request, search, Reply, call, pure, fail,
}
use go_adldap.Directory.Logic.{History, Holds}
use go_adldap.Adcore.{Adcore, Query, is_kind_not_found, is_kind_too_many}
use go_adldap.Search.{
  identity_filter, the_only, found_one, one_request, get_one, found_many, search_entries,
}

-- A request that writes nothing.
abbrev pub IsSearch : History → Request → Type 0
IsSearch h (search r) = Unit
IsSearch h r = ⊥

abbrev pub last_reply : History → Option Reply
last_reply [] = none
last_reply ((r, x) ∷ h) = some x

-- A result is the only entry that the last search found.
abbrev pub IsOnly : History → Outcome OpError Entry → Type 0
IsOnly h (ok e) = last_reply h ≡ some (ok (e ∷ []))
IsOnly h (err e) = Unit

module _ (lib : Adcore) (dnc : Bytes) where
  the_only-IsOnly :
      (h : History) (r : Request) (entries : List Entry)
      → Holds IsSearch IsOnly ((r, ok entries) ∷ h) (the_only lib entries)
  the_only-IsOnly h r [] = tt
  the_only-IsOnly h r (e ∷ []) = refl
  the_only-IsOnly h r (e ∷ other_one ∷ entries) = tt

  found_one-IsOnly :
      (h : History) (r : Request) (id : Identity) (x : Reply)
      → Holds IsSearch IsOnly ((r, x) ∷ h) (found_one lib id x)
  found_one-IsOnly h r id (ok entries) = the_only-IsOnly h r entries
  found_one-IsOnly h r id (err e) = by_kind (is_kind_not_found e.kind)
    where
      by_kind :
          (b : Bool)
          → Holds IsSearch IsOnly
              ((r, err e) ∷ h)
              (if b then fail (op_error not_found) else fail (lib.with_identity e id))
      by_kind true = tt
      by_kind false = tt

  -- The search for one object writes nothing, and answers with an entry only where it is the only
  -- one that the domain controller found: never with the first of several.
  pub get_one-IsOnly :
      (h : History) (id : Identity) (object_class : Bytes) (want : List Bytes)
      (controls : List Control)
      → Holds IsSearch IsOnly h (get_one lib dnc id object_class want controls)
  unfolding get_one
  get_one-IsOnly h id object_class want controls = by_filter (identity_filter lib id)
    where
      by_filter :
          (f : Option Bytes)
          → Holds IsSearch IsOnly h (elim f [
            | none ↦ fail (op_error constraint)
            | some f ↦
                call (search (one_request lib dnc object_class f want controls)) (found_one lib id)
          ])
      by_filter none = tt
      by_filter (some f) = (tt, λ x. found_one-IsOnly h _ id x)

-- The domain controller said that there is no such object: it found none, or refused the name.
abbrev pub SaysGone : History → Type 0
SaysGone h =
    (last_reply h ≡ some (ok []))
    ⊎ ((e : OpError) × (last_reply h ≡ some (err e)) × (e.kind ≡ not_found))

-- An error of that kind is what the domain controller said last.
abbrev pub FindsNone : {A : Type 0} → History → Outcome OpError A → Type 0
FindsNone h (ok a) = Unit
FindsNone h (err e) = e.kind ≡ not_found → SaysGone h

pub is_kind_not_found_eq : (k : Kind) → is_kind_not_found k ≡ true → k ≡ not_found
is_kind_not_found_eq not_found h = refl
is_kind_not_found_eq unknown h = cc
is_kind_not_found_eq too_many_results h = cc
is_kind_not_found_eq denied h = cc
is_kind_not_found_eq referral h = cc
is_kind_not_found_eq constraint h = cc
is_kind_not_found_eq invalid_attribute h = cc
is_kind_not_found_eq transient h = cc
is_kind_not_found_eq already_exists h = cc
is_kind_not_found_eq transport h = cc
is_kind_not_found_eq (other n) h = cc

module _ (lib : Adcore) (dnc : Bytes)
    (kept : (e : OpError) (id : Identity) → (lib.with_identity e id).kind ≡ e.kind) where
  the_only-FindsNone :
      (h : History) (r : Request) (entries : List Entry)
      → Holds {A = Entry} IsSearch FindsNone ((r, ok entries) ∷ h) (the_only lib entries)
  the_only-FindsNone h r [] = λ k. inl refl
  the_only-FindsNone h r (e ∷ []) = tt
  the_only-FindsNone h r (e ∷ other_one ∷ entries) = λ k. cc

  found_one-FindsNone :
      (h : History) (r : Request) (id : Identity) (x : Reply)
      → Holds {A = Entry} IsSearch FindsNone ((r, x) ∷ h) (found_one lib id x)
  found_one-FindsNone h r id (ok entries) = the_only-FindsNone h r entries
  found_one-FindsNone h r id (err e) = by_kind (is_kind_not_found e.kind) refl
    where
      by_kind :
          (b : Bool)
          → is_kind_not_found e.kind ≡ b
          → Holds {A = Entry} IsSearch FindsNone
              ((r, err e) ∷ h)
              (if b then fail (op_error not_found) else fail (lib.with_identity e id))
      by_kind true is = λ k. inr (e, refl, is_kind_not_found_eq e.kind is)
      by_kind false is = λ k. cc (is, ap is_kind_not_found (sym (kept e id) ∙ k))

  pub get_one-FindsNone :
      (h : History) (id : Identity) (object_class : Bytes) (want : List Bytes)
      (controls : List Control)
      → Holds {A = Entry} IsSearch FindsNone h (get_one lib dnc id object_class want controls)
  unfolding get_one
  get_one-FindsNone h id object_class want controls = by_filter (identity_filter lib id)
    where
      by_filter :
          (f : Option Bytes)
          → Holds {A = Entry} IsSearch FindsNone h (elim f [
            | none ↦ fail (op_error constraint)
            | some f ↦
                call (search (one_request lib dnc object_class f want controls)) (found_one lib id)
          ])
      by_filter none = λ k. cc
      by_filter (some f) = (tt, λ x. found_one-FindsNone h _ id x)

-- A result is all that the last search found, and no more than the limit.
abbrev pub IsComplete : ℕ → History → Outcome OpError (List Entry) → Type 0
IsComplete limit h (ok entries) = (last_reply h ≡ some (ok entries)) × (length entries ≤ limit)
IsComplete limit h (err e) = Unit

module _ (lib : Adcore) (dnc : Bytes) where
  found_many-IsComplete :
      (Q : History → Request → Type 0) (limit : ℕ) (h : History) (r : Request) (x : Reply)
      → Holds Q (IsComplete limit) ((r, x) ∷ h) (found_many lib dnc limit x)
  found_many-IsComplete Q limit h r (ok entries) = by_test (ltb limit (length entries)) refl
    where
      by_test :
          (b : Bool)
          → ltb limit (length entries) ≡ b
          → Holds {A = List Entry} Q
              (IsComplete limit)
              ((r, ok entries) ∷ h)
              (if b then fail (op_error too_many_results) else pure entries)
      by_test true e = tt
      by_test false e = (refl, ground arith)
  found_many-IsComplete Q limit h r (err e) = by_kind (is_kind_too_many e.kind)
    where
      by_kind :
          (b : Bool)
          → Holds {A = List Entry} Q
              (IsComplete limit)
              ((r, err e) ∷ h)
              (if b then fail (op_error too_many_results) else fail e)
      by_kind true = tt
      by_kind false = tt

  -- A search that asks for one entry more than the limit.
  abbrev pub AsksFor : ℕ → History → Request → Type 0
  AsksFor limit h (search s) = s.size_limit ≡ limit + 1
  AsksFor limit h r = ⊥

  -- A search for many asks for one entry more than the limit and writes nothing, and its result is
  -- everything that the domain controller found, within the limit: it is never cut off silently.
  search_entries-IsComplete :
      (h : History) (q : Query) (object_class : Bytes) (want : List Bytes) (controls : List Control)
      → let limit = (lib.with_defaults q dnc).size_limit in
        Holds
          (AsksFor limit)
          (IsComplete limit)
          h
          (search_entries lib dnc q object_class want controls)
  unfolding search_entries
  search_entries-IsComplete h q object_class want controls =
      (refl, λ x. found_many-IsComplete _ _ h _ x)

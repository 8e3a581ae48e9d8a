-- ===== src/Group/Edits.antt =====
-- The edit of the members of a group.
use go_adldap.Base.{
  ℕ, ◌≡◌, refl, ◌⊎◌, inl, inr, Bool, true, false, ◌||◌, ◌&&◌, ◌==◌, ==_iff, List, [], ◌∷◌,
  if◌then◌else◌, is_empty, Outcome, ok, err,
}
use go_adldap.Base.Bytes.{Bytes}
use go_adldap.Base.Text.{codes}
use go_adldap.LdapErr.{
  Kind, unknown, too_many_results, denied, referral, constraint, invalid_attribute, not_found,
  transient, already_exists, transport, other, contains,
}
use go_adldap.Directory.{
  ModOp, mod_add, mod_delete, mod_replace, Identity, OpError, Request, search, add, modify,
  modify_dn, delete, Reply, ◌>>=◌, pure, fail,
}
use go_adldap.Directory.Logic.{History, Holds, Holds-bind, Holds-weaken, Holds-frame}
use go_adldap.Adcore.{Adcore, is_kind_constraint, is_kind_already_exists}
use go_adldap.Search.Found.{FoundIn, Names, IsNamed, Names-more, resolve_dn-IsNamed}
use go_adldap.Search.Laws.{IsSearch}
use go_adldap.Group.Data.{Group}
use go_adldap.Group.{group_get}
use go_adldap.Operation.Removal.{IsRead}
use go_adldap.Group.Laws.{group_names, group_get-IsRead}
use go_adldap.Group.Membership.{
  edit_members, edit_resolved, edit_request, edited, tolerated, already_satisfied, resolve_all,
}

-- Each value names its member, and there is one for each.
abbrev pub Resolved : List Identity → List Bytes → History → Type 0
Resolved [] [] h = Unit
Resolved (m ∷ members) (dn ∷ vals) h = Names m dn h × Resolved members vals h
Resolved [] (dn ∷ vals) h = ⊥
Resolved (m ∷ members) [] h = ⊥

-- An edit writes nothing but the whole list of the members, by their names, into an object that was
-- found.
abbrev pub Edits : List Identity → ModOp → History → Request → Type 0
Edits members op h (search r) = Unit
Edits members op h (modify d mods controls) =
    (vals : List Bytes) × (modify d mods controls ≡ edit_request d op vals)
    × FoundIn d h
    × Resolved members vals h
Edits members op h r = ⊥

-- The marks of a refusal that says that a value is there already, or that it is not there.
abbrev pub SaysHeld : ModOp → OpError → Type 0
SaysHeld mod_add e =
    (contains e.server_message (codes "ENTRY_EXISTS") ≡ true)
    ⊎ (contains e.server_message (codes "ATT_OR_VALUE_EXISTS") ≡ true)
    ⊎ (e.code ≡ 0x207E)
SaysHeld op e =
    (contains e.server_message (codes "NO_ATTRIBUTE_OR_VAL") ≡ true)
    ⊎ (contains e.server_message (codes "NO_ATT_OR_VAL") ≡ true)
    ⊎ (e.code ≡ 0x2076)

-- The domain controller took the edit, or refused it with such a mark, as a constraint or as what
-- exists already.
abbrev pub Accepts : ModOp → Reply → Type 0
Accepts op (ok entries) = Unit
Accepts op (err e) = ((e.kind ≡ constraint) ⊎ (e.kind ≡ already_exists)) × SaysHeld op e

abbrev pub IsAccepted : List Identity → ModOp → History → Type 0
IsAccepted members op [] = ⊥
IsAccepted members op ((r, x) ∷ h) =
    (dn : Bytes) × (vals : List Bytes) × (r ≡ edit_request dn op vals)
    × Resolved members vals h
    × Accepts op x

-- A success means that there was nothing to do, or that the last request was the edit, accepted.
abbrev pub IsEdited : List Identity → ModOp → History → Outcome OpError (Unit {0}) → Type 0
IsEdited members op h (ok u) = (members ≡ []) ⊎ IsAccepted members op h
IsEdited members op h (err e) = Unit

abbrev ResolvesAll : List Identity → History → Outcome OpError (List Bytes) → Type 0
ResolvesAll members h (ok vals) = Resolved members vals h
ResolvesAll members h (err e) = Unit

either : (a b c : Bool) → (a || b || c) ≡ true → (a ≡ true) ⊎ (b ≡ true) ⊎ (c ≡ true)
either true b c h = inl refl
either false true c h = inr (inl refl)
either false false c h = inr (inr h)

module _ (e : OpError) where
  by_code : {P Q : Type 0} (n : ℕ) → P ⊎ Q ⊎ ((e.code == n) ≡ true) → P ⊎ Q ⊎ (e.code ≡ n)
  by_code n (inl p) = inl p
  by_code n (inr (inl q)) = inr (inl q)
  by_code n (inr (inr h)) = inr (inr ((==_iff e.code n).0 h))

  already_satisfied-SaysHeld : (op : ModOp) → already_satisfied e op ≡ true → SaysHeld op e
  unfolding already_satisfied
  already_satisfied-SaysHeld mod_add h = by_code 0x207E (either _ _ _ h)
  already_satisfied-SaysHeld mod_delete h = by_code 0x2076 (either _ _ _ h)
  already_satisfied-SaysHeld mod_replace h = by_code 0x2076 (either _ _ _ h)

is_held_kind :
    (k : Kind)
    → (is_kind_constraint k || is_kind_already_exists k) ≡ true
    → (k ≡ constraint) ⊎ (k ≡ already_exists)
is_held_kind constraint h = inl refl
is_held_kind already_exists h = inr refl
is_held_kind unknown h = cc
is_held_kind too_many_results h = cc
is_held_kind denied h = cc
is_held_kind referral h = cc
is_held_kind invalid_attribute h = cc
is_held_kind not_found h = cc
is_held_kind transient h = cc
is_held_kind transport h = cc
is_held_kind (other n) h = cc

both_true : (a b : Bool) → (a && b) ≡ true → (a ≡ true) × (b ≡ true)
both_true true b h = (refl, h)
both_true false b h = cc

tolerated-Accepts :
    (lib : Adcore) (e : OpError) (op : ModOp) → tolerated lib e op ≡ true → Accepts op (err e)
tolerated-Accepts lib e op h =
    let (kind, mark) = both_true _ (already_satisfied e op) h in
    (is_held_kind e.kind kind, already_satisfied-SaysHeld e op mark)

is_empty_eq : (members : List Identity) → is_empty members ≡ true → members ≡ []
is_empty_eq [] h = refl
is_empty_eq (m ∷ members) h = cc

search-Edits :
    (members : List Identity) (op : ModOp) (h : History) (r : Request)
    → IsSearch h r
    → Edits members op h r
search-Edits members op h (search s) q = tt
search-Edits members op h (modify d mods controls) q = absurd q
search-Edits members op h (add d attrs) q = q
search-Edits members op h (modify_dn d rdn old superior) q = q
search-Edits members op h (delete d) q = q

module _ (lib : Adcore) (dnc : Bytes) where
  resolve_all-ResolvesAll :
      (h : History) (members : List Identity)
      → Holds IsSearch (ResolvesAll members) h (resolve_all lib dnc members)
  unfolding resolve_all
  resolve_all-ResolvesAll h [] = tt
  resolve_all-ResolvesAll h (m ∷ members) =
      Holds-bind IsSearch (IsNamed m) (ResolvesAll (m ∷ members)) h _ _
        (resolve_dn-IsNamed lib dnc h m)
        (λ h' dn n. resolved h' dn (
          Holds-frame IsSearch (ResolvesAll members) (Names m dn) (Names-more m dn) h'
            (resolve_all lib dnc members) n (resolve_all-ResolvesAll h' members)))
        (λ h' e k. tt)
    where
      resolved :
          (h' : History) (dn : Bytes)
          → Holds IsSearch
              (λ h'' o. Names m dn h'' × ResolvesAll members h'' o)
              h'
              (resolve_all lib dnc members)
          → Holds IsSearch
              (ResolvesAll (m ∷ members))
              h'
              (resolve_all lib dnc members >>= λ vals. pure (dn ∷ vals))
      resolved h' dn k =
          Holds-bind IsSearch (λ h'' o. Names m dn h'' × ResolvesAll members h'' o)
            (ResolvesAll (m ∷ members)) h' _ _ k (λ h'' vals both. both) (λ h'' e none_named. tt)

  module _ (id : Identity) (members : List Identity) (op : ModOp) where
    edited-IsEdited :
        (h : History) (dn : Bytes) (vals : List Bytes) (x : Reply)
        → Resolved members vals h
        → Holds
            (Edits members op)
            (IsEdited members op)
            ((edit_request dn op vals, x) ∷ h)
            (edited lib id op x)
    edited-IsEdited h dn vals (ok entries) named = inr (dn, vals, refl, named, tt)
    edited-IsEdited h dn vals (err e) named = by_reason (tolerated lib e op) refl
      where
        by_reason :
            (b : Bool)
            → tolerated lib e op ≡ b
            → Holds
                (Edits members op)
                (IsEdited members op)
                ((edit_request dn op vals, err e) ∷ h)
                (if b then pure tt else fail (lib.with_identity e id))
        by_reason true is = inr (dn, vals, refl, named, tolerated-Accepts lib e op is)
        by_reason false is = tt

    edit_resolved-IsEdited :
        (h : History) (target : Group)
        → FoundIn target.dn h
        → Holds
            (Edits members op)
            (IsEdited members op)
            h
            (edit_resolved lib dnc id members op target)
    edit_resolved-IsEdited h target found =
        Holds-bind (Edits members op) NamesAll (IsEdited members op) h _ _
          (Holds-weaken IsSearch NamesAll (Edits members op) NamesAll h _
            (Holds-frame IsSearch (ResolvesAll members) (FoundIn target.dn) (λ h' r x f. inr f) h
              (resolve_all lib dnc members) found (resolve_all-ResolvesAll h members))
            (search-Edits members op) (λ h' o k. k))
          (λ h' vals (still, named).
            ((vals, refl, still, named), λ x. edited-IsEdited h' target.dn vals x named))
          (λ h' e k. tt)
      where
        NamesAll : History → Outcome OpError (List Bytes) → Type 0
        NamesAll h' o = FoundIn target.dn h' × ResolvesAll members h' o

    -- Whatever the domain controller replies, an edit of the members of a group writes nothing but one
    -- list of names into an object that a search found, one for each member, where a name is the one
    -- that the identity states or that of the one object that a search found; and it reports success
    -- only where there was no member to edit, or where the last request was that write and the domain
    -- controller took it or refused it, as a constraint or as what exists already, with a mark that it
    -- gives a value that is there already (of an add) or is not there (of another edit). The mark says
    -- nothing of the other values of the list.
    pub edit_members-IsEdited :
        Holds (Edits members op) (IsEdited members op) [] (edit_members lib dnc id members op)
    unfolding edit_members
    edit_members-IsEdited = by_test (is_empty members) (is_empty_eq members)
      where
        by_test :
            (b : Bool)
            → (b ≡ true → members ≡ [])
            → Holds (Edits members op) (IsEdited members op) [] (
                if b then pure tt else group_get lib dnc id >>= edit_resolved lib dnc id members op)
        by_test true none_given = inl (none_given refl)
        by_test false some_given =
            Holds-bind (Edits members op) (IsRead group_names) (IsEdited members op) [] _ _
              (Holds-weaken IsSearch (IsRead group_names) (Edits members op) (IsRead group_names) []
                _ (group_get-IsRead lib dnc [] id) (search-Edits members op) (λ h' o k. k))
              (λ h' target l. edit_resolved-IsEdited h' target l) (λ h' e k. tt)

-- ===== src/Memory/Move/Laws.antt =====
-- internal/adtest/memory.go: after ModifyDN the new name is there.
use go_adldap.Base.{
  ℕ, ◌-◌, ◌≡◌, refl, sym, ap, ◌∙◌, subst, Bool, true, false, not, ◌||◌, List, [], ◌∷◌, ◌++◌,
  if◌then◌else◌, length, take, any, is_empty, Outcome, ok, err, Option,
}
use go_adldap.Base.Bytes.{Bytes}
use go_adldap.Base.Text.{codes, same_text, same_text_eq, same_text_refl}
use go_adldap.Directory.{OpError}
use go_adldap.Memory.{Attrs, MemServer, equal_fold_dn, is_under, set_attr}
use go_adldap.Memory.Store.{put_entry, delete_entry, key_locked, rdn_value, Changed}
use go_adldap.Memory.Store.Unique.{has_name, name_refl}
use go_adldap.Memory.Move.{entry_at, move_children, below, memory_modify_dn}

-- Some entry stands under the very key.
abbrev has_key : Bytes → List (Bytes × Attrs) → Bool
has_key k entries = any (λ (have, attrs). same_text have k) entries

or_true : (b : Bool) → (b || true) ≡ true
or_true true = refl
or_true false = refl

has_key-put_entry :
    (k : Bytes) (attrs : Attrs) (entries : List (Bytes × Attrs))
    → has_key k (put_entry k attrs entries) ≡ true
unfolding put_entry
has_key-put_entry k attrs [] = rw (same_text_refl k) refl
has_key-put_entry k attrs ((have, old) ∷ entries) =
    by_key (has_key-put_entry k attrs entries) (same_text have k) refl
  where
    by_key :
        has_key k (put_entry k attrs entries) ≡ true
        → (b : Bool) → same_text have k ≡ b
        → has_key k (if b then (have, attrs) ∷ entries else (have, old) ∷ put_entry k attrs entries)
          ≡ true
    by_key ih true e = rw (e) refl
    by_key ih false e = rw (e) ih

put_entry-keeps :
    (k d : Bytes) (attrs : Attrs) (entries : List (Bytes × Attrs))
    → has_key k entries ≡ true
    → has_key k (put_entry d attrs entries) ≡ true
unfolding put_entry
put_entry-keeps k d attrs [] h = cc
put_entry-keeps k d attrs ((have, old) ∷ entries) h =
    by_keys (put_entry-keeps k d attrs entries) (same_text have k) refl (same_text have d)
  where
    rest : same_text have k ≡ false → has_key k entries ≡ true
    rest e = subst (λ b. (b || has_key k entries) ≡ true) e h

    by_keys :
        (has_key k entries ≡ true → has_key k (put_entry d attrs entries) ≡ true)
        → (b : Bool) → same_text have k ≡ b
        → (c : Bool)
        → has_key k (if c then (have, attrs) ∷ entries else (have, old) ∷ put_entry d attrs entries)
          ≡ true
    by_keys ih true e true = rw (e) refl
    by_keys ih true e false = rw (e) refl
    by_keys ih false e true = rw (e) (rest e)
    by_keys ih false e false = rw (e) (ih (rest e))

delete_entry-keeps :
    (k d : Bytes) (entries : List (Bytes × Attrs))
    → same_text d k ≡ false
    → has_key k entries ≡ true
    → has_key k (delete_entry d entries) ≡ true
delete_entry-keeps k d [] differs h = h
delete_entry-keeps k d ((have, attrs) ∷ entries) differs h =
    by_keys (delete_entry-keeps k d entries differs) (same_text have k) refl (same_text have d) refl
  where
    rest : same_text have k ≡ false → has_key k entries ≡ true
    rest e = subst (λ b. (b || has_key k entries) ≡ true) e h

    both : same_text have k ≡ true → same_text have d ≡ true → true ≡ false
    both e f =
        sym (same_text_refl d)
        ∙ ap (same_text d) (sym (same_text_eq have d f) ∙ same_text_eq have k e)
        ∙ differs

    by_keys :
        (has_key k entries ≡ true → has_key k (delete_entry d entries) ≡ true)
        → (b : Bool) → same_text have k ≡ b
        → (c : Bool) → same_text have d ≡ c
        → has_key k
            (if not c then (have, attrs) ∷ delete_entry d entries else delete_entry d entries)
          ≡ true
    by_keys ih true e true f = absurd (impossible (both e f))
      where
        impossible : true ≡ false → ⊥
        impossible bad = cc
    by_keys ih true e false f = rw (e) refl
    by_keys ih false e true f = ih (rest e)
    by_keys ih false e false f = rw (e) (ih (rest e))

move_children-keeps :
    (target key : Bytes) (children entries : List (Bytes × Attrs))
    → has_key target entries ≡ true
    → has_key target (move_children target key children entries) ≡ true
unfolding move_children
move_children-keeps target key [] entries h = h
move_children-keeps target key ((child, attrs) ∷ children) entries h =
    move_children-keeps target key children _
      (by_test (same_text child target) refl (is_under child key))
  where
    moved : Bytes
    moved = take (length child - length key) child ++ target

    by_test :
        (b : Bool)
        → same_text child target ≡ b
        → (u : Bool)
        → has_key target (
            if b || not u
            then entries
            else put_entry moved
                (set_attr (codes "distinguishedName") (moved ∷ []) attrs)
                (delete_entry child entries))
          ≡ true
    by_test true e u = h
    by_test false e false = h
    by_test false e true =
        put_entry-keeps target moved _ _ (delete_entry-keeps target child entries e h)

has_key-name :
    (k : Bytes) (entries : List (Bytes × Attrs))
    → has_key k entries ≡ true
    → has_name k entries ≡ true
has_key-name k [] h = h
has_key-name k ((have, attrs) ∷ entries) h = by_key (has_key-name k entries) (same_text have k) refl
  where
    by_key :
        (has_key k entries ≡ true → has_name k entries ≡ true)
        → (b : Bool) → same_text have k ≡ b
        → (equal_fold_dn have k || has_name k entries) ≡ true
    by_key ih true e =
        ap (λ d. equal_fold_dn have d || has_name k entries) (sym (same_text_eq have k e))
        ∙ rw (name_refl have) refl
    by_key ih false e =
        ap (λ b. equal_fold_dn have k || b) (ih (subst (λ b. (b || has_key k entries) ≡ true) e h))
        ∙ or_true (equal_fold_dn have k)

-- After a move some entry has the new name, below the container of the old one or the new superior.
abbrev pub AfterMove :
    (Bytes → Outcome OpError Bytes)
    → MemServer
    → Bytes
    → Bytes
    → Bytes
    → Outcome ℕ (Unit {0})
    → MemServer
    → Type 0
AfterMove container_of m dn new_rdn new_superior (ok done_so) m' =
    (parent : Bytes) × ((if is_empty new_superior
        then container_of (key_locked m.entries dn)
        else ok new_superior)
      ≡ ok parent)
    × (has_name (new_rdn ++ (44 ∷ parent)) m'.entries ≡ true)
AfterMove container_of m dn new_rdn new_superior (err code) m' = m' ≡ m

module _ (split_dn : Bytes → Option (List Bytes)) (container_of : Bytes → Outcome OpError Bytes)
    (m : MemServer) (dn new_rdn new_superior : Bytes) where
  abbrev Moved : Changed → Type 0
  Moved (o, m') = AfterMove container_of m dn new_rdn new_superior o m'

  pub memory_modify_dn-AfterMove :
      Moved (memory_modify_dn split_dn container_of m dn new_rdn new_superior)
  unfolding memory_modify_dn
  memory_modify_dn-AfterMove =
      by_key (is_empty (key_locked m.entries dn))
        (if is_empty new_superior then container_of (key_locked m.entries dn) else ok new_superior)
        refl
    where
      key : Bytes
      key = key_locked m.entries dn

      by_target :
          (taken : Bool) (parent : Bytes)
          → (if is_empty new_superior then container_of key else ok new_superior) ≡ ok parent
          → Moved (
              if taken
              then (err 68, m)
              else let target = new_rdn ++ (44 ∷ parent) in
                let attrs =
                  set_attr
                    (codes "name")
                    (rdn_value split_dn target ∷ [])
                    (set_attr (codes "distinguishedName") (target ∷ []) (entry_at key m.entries)) in
                let entries = put_entry target attrs (delete_entry key m.entries) in
                (ok tt, record m { entries = move_children target key entries entries }))
      by_target true parent e = refl
      by_target false parent e = (
        parent,
        e,
        has_key-name (new_rdn ++ (44 ∷ parent)) _ (
            move_children-keeps (new_rdn ++ (44 ∷ parent)) key _ _
              (has_key-put_entry (new_rdn ++ (44 ∷ parent)) _ _)),
      )

      by_key :
          (none_such : Bool) (parent : Outcome OpError Bytes)
          → (if is_empty new_superior then container_of key else ok new_superior) ≡ parent
          → Moved
              (if none_such then (err 32, m) else below split_dn container_of m key new_rdn parent)
      by_key true parent e = refl
      by_key false (err bad) e = refl
      by_key false (ok parent) e = by_target _ parent e

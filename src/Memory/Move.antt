-- ===== src/Memory/Move.antt =====
-- internal/adtest/memory.go: ModifyDN. The entries are taken up in the order of the list that stands
-- for the map when the loop starts; a name below the entry that is shorter than the entry's, for its
-- spaces, is not told apart.
pub mod Laws
use go_adldap.Base.{
  ℕ, ◌-◌, ◌≡◌, refl, sym, ap, ◌∙◌, subst, Bool, true, false, not, ◌&&◌, ◌||◌, List, [], ◌∷◌, ◌++◌,
  if◌then◌else◌, length, take, any, is_empty, Outcome, ok, err, Option,
}
use go_adldap.Base.Bytes.{Bytes}
use go_adldap.Base.Text.{codes, same_text, same_text_eq, same_text_refl}
use go_adldap.Directory.{OpError}
use go_adldap.Memory.{Attrs, MemServer, equal_fold_dn, is_under, set_attr, exists_locked}
use go_adldap.Memory.Store.{put_entry, delete_entry, key_locked, rdn_value, Changed}
use go_adldap.Memory.Store.Unique.{has_name, name_refl}

-- `c.m.entries[key]`
unfoldable pub entry_at : Bytes → List (Bytes × Attrs) → Attrs
entry_at key [] = []
entry_at key ((have, attrs) ∷ entries) =
    let rest = entry_at key entries in if same_text have key then attrs else rest

-- One turn of the loop over the descendants.
abbrev pub move_child : Bytes → Bytes → Bytes × Attrs → List (Bytes × Attrs) → List (Bytes × Attrs)
move_child target key (child, attrs) entries =
    if same_text child target || not (is_under child key)
    then entries
    else let moved = take (length child - length key) child ++ target in
      put_entry moved (set_attr (codes "distinguishedName") (moved ∷ []) attrs)
        (delete_entry child entries)

unfoldable pub move_children :
    Bytes → Bytes → List (Bytes × Attrs) → List (Bytes × Attrs) → List (Bytes × Attrs)
move_children target key [] entries = entries
move_children target key (child ∷ children) entries =
    move_children target key children (move_child target key child entries)

module _ (split_dn : Bytes → Option (List Bytes))
    (container_of : Bytes → Outcome OpError Bytes) where
  abbrev pub moved_to : MemServer → Bytes → Bytes → Changed
  moved_to m key target =
      if not (equal_fold_dn target key) && exists_locked m target
      then (err 68, m)
      else let attrs =
          set_attr (codes "name") (rdn_value split_dn target ∷ [])
            (set_attr (codes "distinguishedName") (target ∷ []) (entry_at key m.entries)) in
        let entries = put_entry target attrs (delete_entry key m.entries) in
        (ok tt, record m { entries = move_children target key entries entries })

  abbrev pub below : MemServer → Bytes → Bytes → Outcome OpError Bytes → Changed
  below m key new_rdn (err e) = (err 34, m)
  below m key new_rdn (ok parent) = moved_to m key (new_rdn ++ (44 ∷ parent))

  unfoldable pub memory_modify_dn : MemServer → Bytes → Bytes → Bytes → Changed
  memory_modify_dn m dn new_rdn new_superior =
      let key = key_locked m.entries dn in
      if is_empty key
      then (err 32, m)
      else below m key new_rdn (if is_empty new_superior then container_of key else ok new_superior)

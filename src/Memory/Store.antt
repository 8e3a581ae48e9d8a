-- ===== src/Memory/Store.antt =====
-- internal/adtest/memory.go and sid.go: the operations that change the directory in memory. An error
-- is its result code. ModifyDN is in Memory/Move.
pub mod Unique
use go_adldap.Base.{
  ℕ, ◌+◌, ◌-◌, ◌%◌, ◌^◌, Bool, true, false, not, ◌&&◌, Option, none, some, List, [], ◌∷◌, ◌++◌,
  ◌==◌, if◌then◌else◌, length, take, drop, map, any, filter, is_empty, Outcome, ok, err,
}
use go_adldap.Base.Bytes.{Bytes, u32_bytes}
use go_adldap.Base.Text.{codes, same_text, equal_fold}
use go_adldap.Directory.{mod_add, mod_delete, mod_replace, Attribute, Modification, lookup}
use go_adldap.Memory.{
  Attrs, MemServer, equal_fold_dn, is_under, set_attr, delete_key, exists_locked,
}

abbrev values_or_nil : Option (List Bytes) → List Bytes
values_or_nil none = []
values_or_nil (some v) = v

-- Seed, and the assignment of an entry: the map has every DN once.
unfoldable pub put_entry : Bytes → Attrs → List (Bytes × Attrs) → List (Bytes × Attrs)
put_entry dn attrs [] = (dn, attrs) ∷ []
put_entry dn attrs ((have, old) ∷ entries) =
    let rest = put_entry dn attrs entries in
    if same_text have dn then (have, attrs) ∷ entries else (have, old) ∷ rest

abbrev sid_of_domain : Bytes
sid_of_domain =
    1 ∷ 4 ∷ 0 ∷ 0 ∷ 0 ∷ 0 ∷ 0 ∷ 5 ∷ 21 ∷ 0 ∷ 0 ∷ 0 ∷ 1 ∷ 0 ∷ 0 ∷ 0 ∷ 2 ∷ 0 ∷ 0 ∷ 0 ∷ 3 ∷ 0 ∷ 0 ∷ 0
    ∷ []

-- One sub-authority more.
abbrev principal_sid : ℕ → Bytes
principal_sid rid = 1 ∷ 5 ∷ (drop 2 sid_of_domain ++ u32_bytes rid)

abbrev is_principal_class : Bytes → Bool
is_principal_class c =
    any (λ name. equal_fold c name)
      (codes "user"
        ∷ codes "computer"
        ∷ codes "group"
        ∷ codes "msds-groupmanagedserviceaccount"
        ∷ [])

pub stamp_sid : Attrs → ℕ → Attrs
stamp_sid attrs rid =
    if any is_principal_class (values_or_nil (lookup (codes "objectClass") attrs))
    then set_attr (codes "objectSid") (principal_sid rid ∷ []) attrs
    else attrs

-- nextGUID, by the sequence number that it has made.
abbrev guid_of_seq : ℕ → Bytes
guid_of_seq seq = u32_bytes seq ++ (0 ∷ 0 ∷ 0 ∷ 0 ∷ 0 ∷ 0 ∷ 0 ∷ 0 ∷ 0 ∷ 0 ∷ 0 ∷ 0 ∷ [])

unfoldable pub added_attrs : Attrs → List Attribute → Attrs
added_attrs attrs [] = attrs
added_attrs attrs (a ∷ add) = added_attrs (set_attr a.type a.vals attrs) add

-- The descriptor with an empty DACL.
abbrev empty_descriptor : Bytes
empty_descriptor =
    1 ∷ 0 ∷ 4 ∷ 128 ∷ 0 ∷ 0 ∷ 0 ∷ 0 ∷ 0 ∷ 0 ∷ 0 ∷ 0 ∷ 0 ∷ 0 ∷ 0 ∷ 0 ∷ 20 ∷ 0 ∷ 0 ∷ 0 ∷ 2 ∷ 0 ∷ 8 ∷ 0
    ∷ 0 ∷ 0 ∷ 0 ∷ 0 ∷ []

-- keyLocked: the key of an entry, empty where there is none.
unfoldable pub key_locked : List (Bytes × Attrs) → Bytes → Bytes
key_locked [] dn = []
key_locked ((have, attrs) ∷ entries) dn =
    let rest = key_locked entries dn in if equal_fold_dn have dn then have else rest

-- attrKey
unfoldable pub attr_key : Attrs → Bytes → Bytes
attr_key [] name = name
attr_key ((k, v) ∷ attrs) name =
    let rest = attr_key attrs name in if equal_fold k name then k else rest

pub without : List Bytes → List Bytes → List Bytes
without have gone = filter (λ h. not (any (λ d. equal_fold h d) gone)) have

-- One modification, under the spelling that the entry has.
abbrev pub modify_attr : Attrs → Bytes → Modification → Attrs
modify_attr attrs name c = elim c.op [
  | mod_add ↦ set_attr name (values_or_nil (lookup name attrs) ++ c.vals) attrs
  | mod_delete ↦
      if is_empty c.vals
      then delete_key name attrs
      else set_attr name (without (values_or_nil (lookup name attrs)) c.vals) attrs
  | mod_replace ↦ if is_empty c.vals then delete_key name attrs else set_attr name c.vals attrs
]

unfoldable pub modify_attrs : Attrs → List Modification → Attrs
modify_attrs attrs [] = attrs
modify_attrs attrs (c ∷ mods) = modify_attrs (modify_attr attrs (attr_key attrs c.type) c) mods

-- The entry under a key, changed in place.
unfoldable pub change_entry : Bytes → (Attrs → Attrs) → List (Bytes × Attrs) → List (Bytes × Attrs)
change_entry key f [] = []
change_entry key f ((have, attrs) ∷ entries) =
    let rest = change_entry key f entries in
    if same_text have key then (have, f attrs) ∷ entries else (have, attrs) ∷ rest

-- `delete(c.m.entries, key)`
abbrev pub delete_entry : Bytes → List (Bytes × Attrs) → List (Bytes × Attrs)
delete_entry key entries = filter (λ (have, attrs). not (same_text have key)) entries

abbrev pub has_descendant : Bytes → List (Bytes × Attrs) → Bool
has_descendant key entries =
    any (λ (have, attrs). not (same_text have key) && is_under have key) entries

abbrev pub Changed : Type 0
Changed = Outcome ℕ (Unit {0}) × MemServer

-- What follows the first equals sign, none where there is none.
unfoldable pub after_equals : Bytes → Option Bytes
after_equals [] = none
after_equals (c ∷ s) = let rest = after_equals s in if c == 61 then some s else rest

abbrev pub unescaped : Option Bytes → Bytes
unescaped none = []
unescaped (some s) = filter (λ c. not (c == 92)) s

abbrev pub first_value : Option (List Bytes) → Bytes
first_value none = []
first_value (some []) = []
first_value (some (part ∷ parts)) = unescaped (after_equals part)

-- By SplitDN of adcore.
module _ (split_dn : Bytes → Option (List Bytes)) where
  abbrev pub rdn_value : Bytes → Bytes
  rdn_value dn = first_value (split_dn dn)

  -- What a domain controller stamps on a new entry.
  abbrev pub stamped : Bytes → ℕ → Attrs → Attrs
  stamped dn seq attrs =
      stamp_sid
        (set_attr (codes "name") (rdn_value dn ∷ []) (
          set_attr (codes "distinguishedName") (dn ∷ []) (
            set_attr (codes "nTSecurityDescriptor") (empty_descriptor ∷ [])
              (set_attr (codes "objectGUID") (guid_of_seq seq ∷ []) attrs))))
        ((1000 + seq) % 2 ^ 32)

  unfoldable pub memory_add : MemServer → Bytes → List Attribute → Changed
  memory_add m dn add =
      if exists_locked m dn
      then (err 68, m)
      else let seq = (m.seq + 1) % 2 ^ 32 in
        (
          ok tt,
          record m {
            entries = put_entry dn (stamped dn seq (added_attrs [] add)) m.entries;
            seq = seq;
          },
        )

unfoldable pub memory_modify : MemServer → Bytes → List Modification → Changed
memory_modify m dn mods =
    let key = key_locked m.entries dn in
    if is_empty key then (err 32, m) else (
      ok tt,
      record m { entries = change_entry key (λ attrs. modify_attrs attrs mods) m.entries },
    )

unfoldable pub memory_delete : MemServer → Bytes → Changed
memory_delete m dn =
    let key = key_locked m.entries dn in
    if is_empty key
    then (err 32, m)
    else if has_descendant key m.entries
    then (err 66, m)
    else (ok tt, record m { entries = delete_entry key m.entries })

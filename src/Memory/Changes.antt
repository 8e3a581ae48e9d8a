-- ===== src/Memory/Changes.antt =====
-- internal/adtest/memory.go: what each change of the directory in memory leaves behind.
mod Tests
use go_adldap.Base.{
  ℕ, ◌+◌, ◌%◌, ◌^◌, ◌≡◌, refl, ◌∙◌, Bool, true, false, List, [], if◌then◌else◌, is_empty, Outcome,
  ok, err, Option,
}
use go_adldap.Base.Bytes.{Bytes}
use go_adldap.Directory.{OpError, Attribute, Modification}
use go_adldap.Memory.{Attrs, MemServer, exists_locked}
use go_adldap.Memory.Store.{
  put_entry, change_entry, delete_entry, key_locked, has_descendant, memory_add, memory_modify,
  memory_delete, Changed, stamped, added_attrs, modify_attrs,
}
use go_adldap.Memory.Store.Unique.{
  has_name, IsUnique, name_refl, put_entry-IsUnique, has_name-put_entry, change_entry-IsUnique,
  has_name-change_entry, delete_entry-IsUnique, deleted_name,
}
use go_adldap.Memory.Move.{memory_modify_dn}
use go_adldap.Memory.Move.Laws.{AfterMove, memory_modify_dn-AfterMove}

-- After an add the name is there, after a delete it is not; an error changes nothing.
abbrev pub AfterAdd : MemServer → Bytes → Outcome ℕ (Unit {0}) → MemServer → Type 0
AfterAdd m dn (ok done_so) m' = has_name dn m'.entries ≡ true
AfterAdd m dn (err code) m' = m' ≡ m

abbrev pub AfterModify : MemServer → Outcome ℕ (Unit {0}) → MemServer → Type 0
AfterModify m (ok done_so) m' = (n : Bytes) → has_name n m'.entries ≡ has_name n m.entries
AfterModify m (err code) m' = m' ≡ m

abbrev pub AfterDelete : MemServer → Bytes → Outcome ℕ (Unit {0}) → MemServer → Type 0
AfterDelete m dn (ok done_so) m' = has_name dn m'.entries ≡ false
AfterDelete m dn (err code) m' = m' ≡ m

module _ (split_dn : Bytes → Option (List Bytes)) (m : MemServer) (unique : IsUnique m.entries)
    (dn : Bytes) where
  add-IsUnique :
      (add : List Attribute)
      → let (o, m') = memory_add split_dn m dn add in IsUnique m'.entries × AfterAdd m dn o m'
  unfolding memory_add exists_locked
  add-IsUnique add = by_test (has_name dn m.entries) refl
    where
      seq : ℕ
      seq = (m.seq + 1) % 2 ^ 32

      by_test :
          (b : Bool)
          → has_name dn m.entries ≡ b
          → let (o, m') =
              if◌then◌else◌ {A = Changed} b
                (err 68, m)
                (
                  ok tt,
                  record m {
                    entries = put_entry dn (stamped split_dn dn seq (added_attrs [] add)) m.entries;
                    seq = seq;
                  },
                ) in
            IsUnique m'.entries × AfterAdd m dn o m'
      by_test true e = (unique, refl)
      by_test false e = (
        put_entry-IsUnique dn _ m.entries unique e,
        has_name-put_entry dn dn _ m.entries e ∙ rw (e) (name_refl dn),
      )

  modify-IsUnique :
      (mods : List Modification)
      → let (o, m') = memory_modify m dn mods in IsUnique m'.entries × AfterModify m o m'
  unfolding memory_modify
  modify-IsUnique mods = by_key (is_empty (key_locked m.entries dn))
    where
      by_key :
          (b : Bool)
          → let (o, m') =
              if◌then◌else◌ {A = Changed} b
                (err 32, m)
                (
                  ok tt,
                  record m {
                    entries =
                        change_entry
                          (key_locked m.entries dn)
                          (λ attrs. modify_attrs attrs mods)
                          m.entries;
                  },
                ) in
            IsUnique m'.entries × AfterModify m o m'
      by_key true = (unique, refl)
      by_key false =
          (change_entry-IsUnique _ _ m.entries unique, λ n. has_name-change_entry n _ _ m.entries)

  delete-IsUnique : let (o, m') = memory_delete m dn in IsUnique m'.entries × AfterDelete m dn o m'
  unfolding memory_delete
  delete-IsUnique =
      by_tests (is_empty (key_locked m.entries dn))
        (has_descendant (key_locked m.entries dn) m.entries)
    where
      by_tests :
          (none_such below : Bool)
          → let (o, m') =
              if◌then◌else◌ {A = Changed} none_such
                (err 32, m)
                (if◌then◌else◌ {A = Changed} below
                  (err 66, m)
                  (
                    ok tt,
                    record m { entries = delete_entry (key_locked m.entries dn) m.entries },
                  )) in
            IsUnique m'.entries × AfterDelete m dn o m'
      by_tests true below = (unique, refl)
      by_tests false true = (unique, refl)
      by_tests false false =
          (delete_entry-IsUnique _ m.entries unique, deleted_name dn m.entries unique)

-- Where the directory in memory has every name once, in any spelling, it still has after an Add, a
-- Modify and a Delete. An Add or a Delete that succeeds leaves the name there or not there, a Modify
-- keeps all the names, a ModifyDN that succeeds leaves the new name there, under the new superior or
-- else the container of the entry, and an operation that fails changes nothing.
pub memory-IsUnique :
    (split_dn : Bytes → Option (List Bytes)) (container_of : Bytes → Outcome OpError Bytes)
    (m : MemServer) (unique : IsUnique m.entries) (dn : Bytes) (add : List Attribute)
    (mods : List Modification) (new_rdn new_superior : Bytes)
    → (let (o, m') = memory_add split_dn m dn add in IsUnique m'.entries × AfterAdd m dn o m')
      × (let (o, m') = memory_modify m dn mods in IsUnique m'.entries × AfterModify m o m')
      × (let (o, m') = memory_delete m dn in IsUnique m'.entries × AfterDelete m dn o m')
      × (let (o, m') = memory_modify_dn split_dn container_of m dn new_rdn new_superior in
          AfterMove container_of m dn new_rdn new_superior o m')
memory-IsUnique split_dn container_of m unique dn add mods new_rdn new_superior = (
  add-IsUnique split_dn m unique dn add,
  modify-IsUnique split_dn m unique dn mods,
  delete-IsUnique split_dn m unique dn,
  memory_modify_dn-AfterMove split_dn container_of m dn new_rdn new_superior,
)

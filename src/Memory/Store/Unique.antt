-- ===== src/Memory/Store/Unique.antt =====
-- The directory in memory has every name once, in any spelling.
use go_adldap.Base.{
  ◌≡◌, refl, sym, ap, ◌∙◌, subst, Bool, true, false, not, ◌||◌, List, [], ◌∷◌, if◌then◌else◌, any,
}
use go_adldap.Base.Bytes.{Bytes}
use go_adldap.Base.Text.{same_text, same_text_eq, same_text_refl, to_lower}
use go_adldap.Memory.{Attrs, normalize_dn, equal_fold_dn}
use go_adldap.Memory.Store.{put_entry, change_entry, delete_entry, key_locked}

-- Some entry has the name.
abbrev pub has_name : Bytes → List (Bytes × Attrs) → Bool
has_name dn entries = any (λ (have, attrs). equal_fold_dn have dn) entries

abbrev pub IsUnique : List (Bytes × Attrs) → Type 0
IsUnique [] = Unit
IsUnique ((dn, attrs) ∷ entries) = (has_name dn entries ≡ false) × IsUnique entries

same_name :
    (a b : Bytes) → equal_fold_dn a b ≡ true → to_lower (normalize_dn a) ≡ to_lower (normalize_dn b)
unfolding equal_fold_dn
same_name a b h = same_text_eq (to_lower (normalize_dn a)) (to_lower (normalize_dn b)) h

-- Names that have one spelling in common with a third are one.
joined : (a b c : Bytes) → equal_fold_dn a b ≡ true → equal_fold_dn b c ≡ equal_fold_dn a c
unfolding equal_fold_dn
joined a b c h = ap (λ n. same_text n (to_lower (normalize_dn c))) (sym (same_name a b h))

pub name_refl : (a : Bytes) → equal_fold_dn a a ≡ true
unfolding equal_fold_dn
name_refl a = same_text_refl (to_lower (normalize_dn a))

name_swap : (a b : Bytes) → equal_fold_dn a b ≡ false → equal_fold_dn b a ≡ false
name_swap a b h = by_test (equal_fold_dn b a) refl
  where
    by_test : (t : Bool) → equal_fold_dn b a ≡ t → equal_fold_dn b a ≡ false
    by_test false e = e
    by_test true e = absurd (differs (sym h ∙ joined b a b e ∙ name_refl b))
      where
        differs : false ≡ true → ⊥
        differs bad = cc

or_parts : (a b : Bool) → (a || b) ≡ false → (a ≡ false) × (b ≡ false)
or_parts true b h = cc
or_parts false b h = (refl, h)

or_false : (b : Bool) → (b || false) ≡ b
or_false true = refl
or_false false = refl

or_assoc : (a b c : Bool) → (a || (b || c)) ≡ ((a || b) || c)
or_assoc true b c = refl
or_assoc false b c = refl

other_key : (have dn : Bytes) → equal_fold_dn have dn ≡ false → same_text have dn ≡ false
other_key have dn h = by_test (same_text have dn) refl
  where
    by_test : (t : Bool) → same_text have dn ≡ t → same_text have dn ≡ false
    by_test false e = e
    by_test true e =
        absurd (
          differs (sym h ∙ ap (equal_fold_dn have) (sym (same_text_eq have dn e)) ∙ name_refl have))
      where
        differs : false ≡ true → ⊥
        differs bad = cc

pub has_name-put_entry :
    (n dn : Bytes) (attrs : Attrs) (entries : List (Bytes × Attrs))
    → has_name dn entries ≡ false
    → has_name n (put_entry dn attrs entries) ≡ (has_name n entries || equal_fold_dn dn n)
unfolding put_entry
has_name-put_entry n dn attrs [] h = or_false (equal_fold_dn dn n)
has_name-put_entry n dn attrs ((have, old) ∷ entries) h =
    let (differs, absent) = or_parts (equal_fold_dn have dn) (has_name dn entries) h in
    rw (other_key have dn differs) (
      ap (λ b. equal_fold_dn have n || b) (has_name-put_entry n dn attrs entries absent)
      ∙ or_assoc (equal_fold_dn have n) (has_name n entries) (equal_fold_dn dn n))

pub put_entry-IsUnique :
    (dn : Bytes) (attrs : Attrs) (entries : List (Bytes × Attrs))
    → IsUnique entries
    → has_name dn entries ≡ false
    → IsUnique (put_entry dn attrs entries)
unfolding put_entry
put_entry-IsUnique dn attrs [] u h = (refl, tt)
put_entry-IsUnique dn attrs ((have, old) ∷ entries) (first, u) h =
    let (differs, absent) = or_parts (equal_fold_dn have dn) (has_name dn entries) h in
    subst IsUnique
      (sym (
        ap (λ b. if b then (have, attrs) ∷ entries else (have, old) ∷ put_entry dn attrs entries)
          (other_key have dn differs)))
      (
        has_name-put_entry have dn attrs entries absent
            ∙ rw (first, name_swap have dn differs) refl,
        put_entry-IsUnique dn attrs entries u absent,
      )

-- A change in place keeps the names.
pub has_name-change_entry :
    (n key : Bytes) (f : Attrs → Attrs) (entries : List (Bytes × Attrs))
    → has_name n (change_entry key f entries) ≡ has_name n entries
unfolding change_entry
has_name-change_entry n key f [] = refl
has_name-change_entry n key f ((have, attrs) ∷ entries) =
    by_key (same_text have key)
      (ap (λ b. equal_fold_dn have n || b) (has_name-change_entry n key f entries))
  where
    by_key :
        (b : Bool)
        → (equal_fold_dn have n || has_name n (change_entry key f entries))
          ≡ (equal_fold_dn have n || has_name n entries)
        → has_name n
            (if b then (have, f attrs) ∷ entries else (have, attrs) ∷ change_entry key f entries)
          ≡ (equal_fold_dn have n || has_name n entries)
    by_key true ih = refl
    by_key false ih = ih

pub change_entry-IsUnique :
    (key : Bytes) (f : Attrs → Attrs) (entries : List (Bytes × Attrs))
    → IsUnique entries
    → IsUnique (change_entry key f entries)
unfolding change_entry
change_entry-IsUnique key f [] u = tt
change_entry-IsUnique key f ((have, attrs) ∷ entries) (first, u) =
    by_key (same_text have key) (change_entry-IsUnique key f entries u)
  where
    by_key :
        (b : Bool)
        → IsUnique (change_entry key f entries)
        → IsUnique
            (if b then (have, f attrs) ∷ entries else (have, attrs) ∷ change_entry key f entries)
    by_key true rest = (first, u)
    by_key false rest = (has_name-change_entry have key f entries ∙ first, rest)

has_name-delete_entry :
    (n key : Bytes) (entries : List (Bytes × Attrs))
    → has_name n entries ≡ false
    → has_name n (delete_entry key entries) ≡ false
has_name-delete_entry n key [] h = refl
has_name-delete_entry n key ((have, attrs) ∷ entries) h =
    let (differs, absent) = or_parts (equal_fold_dn have n) (has_name n entries) h in
    by_key (same_text have key) differs (has_name-delete_entry n key entries absent)
  where
    by_key :
        (b : Bool)
        → equal_fold_dn have n ≡ false
        → has_name n (delete_entry key entries) ≡ false
        → has_name n
            (if not b then (have, attrs) ∷ delete_entry key entries else delete_entry key entries)
          ≡ false
    by_key true differs rest = rest
    by_key false differs rest = rw (differs) rest

pub delete_entry-IsUnique :
    (key : Bytes) (entries : List (Bytes × Attrs))
    → IsUnique entries
    → IsUnique (delete_entry key entries)
delete_entry-IsUnique key [] u = tt
delete_entry-IsUnique key ((have, attrs) ∷ entries) (first, u) =
    by_key (same_text have key) (delete_entry-IsUnique key entries u)
  where
    by_key :
        (b : Bool)
        → IsUnique (delete_entry key entries)
        → IsUnique
            (if not b then (have, attrs) ∷ delete_entry key entries else delete_entry key entries)
    by_key true rest = rest
    by_key false rest = (has_name-delete_entry have key entries first, rest)

-- Two spellings of a name find the same.
has_name_same :
    (a b : Bytes) (entries : List (Bytes × Attrs))
    → equal_fold_dn a b ≡ true
    → has_name b entries ≡ has_name a entries
unfolding equal_fold_dn
has_name_same a b entries h =
    ap (λ n. any (λ (have, attrs). same_text (to_lower (normalize_dn have)) n) entries)
      (sym (same_name a b h))

-- The entry that a name finds is the only one of that name.
pub deleted_name :
    (dn : Bytes) (entries : List (Bytes × Attrs))
    → IsUnique entries
    → has_name dn (delete_entry (key_locked entries dn) entries) ≡ false
unfolding key_locked
deleted_name dn [] u = refl
deleted_name dn ((have, attrs) ∷ entries) (first, u) =
    by_name (equal_fold_dn have dn) refl (deleted_name dn entries u)
  where
    by_key :
        (b : Bool) (k : Bytes)
        → equal_fold_dn have dn ≡ false
        → has_name dn (delete_entry k entries) ≡ false
        → has_name dn
            (if not b then (have, attrs) ∷ delete_entry k entries else delete_entry k entries)
          ≡ false
    by_key true k differs rest = rest
    by_key false k differs rest = rw (differs) rest

    by_name :
        (b : Bool)
        → equal_fold_dn have dn ≡ b
        → has_name dn (delete_entry (key_locked entries dn) entries) ≡ false
        → has_name dn
            (delete_entry (if b then have else key_locked entries dn) ((have, attrs) ∷ entries))
          ≡ false
    by_name true e rest =
        rw (same_text_refl have)
          (has_name-delete_entry dn have entries (has_name_same have dn entries e ∙ first))
    by_name false e rest =
        by_key (same_text have (key_locked entries dn)) (key_locked entries dn) e rest

-- ===== src/SecDesc/Protection/Laws.antt =====
-- What SetProtected does to the entries of a descriptor, and that IsProtected reads it back.
use go_adldap.Base.{
  length-concat-filter, subst₂, ok_out, ok_flag, ℕ, ◌+◌, ◌^◌, ◌<◌, ◌≤◌, ◌≡◌, refl, Bool, true,
  false, not, List, [], ◌∷◌, arith, length, length-append, concat, filter, any, is_empty, All,
  All-filter, if◌then◌else◌, Outcome, ok, ◌∙◌, ap, sym,
}
use go_adldap.Base.Bytes.{Bytes, IsByte, byte_at}
use go_adldap.SecDesc.{SdError, Parsed, parse, serialize, aces, build_acl, IsAce, IsWellFormed}
use go_adldap.SecDesc.Edit.{
  with_entries, entries, IsEntries, IsEdited, Keeps, IsEdited-Keeps, unedited-IsEdited,
  with_entries-IsEdited, read-IsEntries, parse-with_entries, aces-with_entries,
}
use go_adldap.SecDesc.Protection.{
  has_prefix, is_protection_ace, protection_ace, is_protected, set_protected, same_bool,
}

-- The entries that SetProtected keeps: those that are not protection ACEs.
abbrev pub other_entries : List Bytes → List Bytes
other_entries list = filter (λ a. not (is_protection_ace a)) list

-- The entries after SetProtected: the Deny leads when protection is turned on.
abbrev pub protected_entries : Bool → List Bytes → List Bytes
protected_entries on list = if on then protection_ace ∷ other_entries list else other_entries list

pub protection_ace-is_protection_ace : is_protection_ace protection_ace ≡ true
unfolding is_protection_ace protection_ace has_prefix
protection_ace-is_protection_ace = refl

protection_ace-IsAce : IsAce protection_ace
unfolding protection_ace
protection_ace-IsAce = omega arith

length-protection_ace : length protection_ace ≡ 20
unfolding protection_ace
length-protection_ace = refl

any-other_entries : (list : List Bytes) → any is_protection_ace (other_entries list) ≡ false
any-other_entries [] = refl
any-other_entries (a ∷ list) = ground (arith, any-other_entries list)

-- Filtering again changes nothing.
other_entries_idem : (list : List Bytes) → other_entries (other_entries list) ≡ other_entries list
other_entries_idem [] = refl
other_entries_idem (a ∷ list) = ground (arith, other_entries_idem list)

any-protected_entries :
    (on : Bool) (list : List Bytes) → any is_protection_ace (protected_entries on list) ≡ on
any-protected_entries true list = rw protection_ace-is_protection_ace
any-protected_entries false list = any-other_entries list

protected_entries-IsAce :
    (on : Bool) (list : List Bytes) → All IsAce list → All IsAce (protected_entries on list)
protected_entries-IsAce true list h = (protection_ace-IsAce, All-filter IsAce _ list h)
protected_entries-IsAce false list h = All-filter IsAce _ list h

length-protected_entries :
    (on : Bool) (list : List Bytes)
    → length (concat (protected_entries on list)) ≤ length (concat list) + 20
length-protected_entries true list = omega (
  arith,
  length-append protection_ace (concat (other_entries list)),
  length-protection_ace,
  length-concat-filter (λ a. not (is_protection_ace a)) list,
)
length-protected_entries false list =
    omega (arith, length-concat-filter (λ a. not (is_protection_ace a)) list)

-- The revision of the ACL that is written.
abbrev revision_of : Bytes → ℕ
revision_of dacl = if is_empty dacl then 2 else byte_at dacl 0

module _ (sd : Bytes) (p : Parsed) (list : List Bytes) (parsed : parse sd ≡ ok p)
    (split : aces p.dacl ≡ ok list) where
  set_protected_lem :
      (on : Bool)
      → set_protected sd on ≡ (
          if same_bool on (any is_protection_ace list)
          then ok (sd, false)
          else ok
              (serialize (with_entries p (revision_of p.dacl) (protected_entries on list)), true))
  unfolding set_protected
  set_protected_lem on = rw (parsed, split)

  is_protected_lem : is_protected sd ≡ ok (any is_protection_ace list)
  unfolding is_protected
  is_protected_lem = rw (parsed, split)

  entries_lem : entries sd ≡ ok list
  unfolding entries
  entries_lem = rw (parsed, split)

same_bool→eq : (a b : Bool) → same_bool a b ≡ true → a ≡ b
same_bool→eq a b h = ground arith

same_bool_refl : (a : Bool) → same_bool a a ≡ true
same_bool_refl a = ground arith

-- What a run of SetProtected on a descriptor leaves.
record IsSetProtected (p : Parsed) (list : List Bytes) (on : Bool) (sd out : Bytes) (changed : Bool)
    : Type 0 where
  edited : IsEdited p (if changed then protected_entries on list else list) out
  unchanged : changed ≡ false → out ≡ sd
  skips_when : changed ≡ not (same_bool on (any is_protection_ace list))

module _ (sd : Bytes) (bytes : All IsByte sd) (p : Parsed) (list : List Bytes)
    (parsed : parse sd ≡ ok p) (split : aces p.dacl ≡ ok list)
    (room : length p.dacl + 28 < 2 ^ 16) where
  left_alone :
      (on : Bool)
      → same_bool on (any is_protection_ace list) ≡ true
      → IsSetProtected p list on sd sd false
  left_alone on same = record {
    edited = unedited-IsEdited sd p list parsed split;
    unchanged = λ e. refl;
    skips_when = rw same;
  }

  abbrev rewritten : Bool → Bytes
  rewritten on = serialize (with_entries p (revision_of p.dacl) (protected_entries on list))

  written :
      (on : Bool)
      → same_bool on (any is_protection_ace list) ≡ false
      → IsSetProtected p list on sd (rewritten on) true
  written on diff =
      let known : IsEntries p list = read-IsEntries sd p list bytes parsed split in
      record {
        edited =
            with_entries-IsEdited p _ _ known.well_formed
              (protected_entries-IsAce on list known.headers)
              (omega (arith, length-protected_entries on list, known.small, room));
        unchanged = λ e. cc;
        skips_when = rw diff;
      }

  set_protected_run :
      (on : Bool) (out : Bytes) (changed : Bool)
      → set_protected sd on ≡ ok (out, changed)
      → IsSetProtected p list on sd out changed
  set_protected_run on out changed h =
      split_on (same_bool on (any is_protection_ace list)) refl
        (sym (set_protected_lem sd p list parsed split on) ∙ h)
    where
      split_on :
          (same : Bool)
          → same_bool on (any is_protection_ace list) ≡ same
          → ◌≡◌ {A = Outcome SdError (Bytes × Bool)}
              (if same then ok (sd, false) else ok (rewritten on, true))
              (ok (out, changed))
          → IsSetProtected p list on sd out changed
      split_on true e k =
          subst₂ (IsSetProtected p list on sd) (ok_out k) (ok_flag k) (left_alone on e)
      split_on false e k =
          subst₂ (IsSetProtected p list on sd) (ok_out k) (ok_flag k) (written on e)

-- What follows is the contract of the package, on any descriptor whose entries can be read.
module _ (sd : Bytes) (bytes : All IsByte sd) (p : Parsed) (list : List Bytes)
    (parsed : parse sd ≡ ok p) (split : aces p.dacl ≡ ok list) (room : length p.dacl + 28 < 2 ^ 16)
    (on : Bool) (out : Bytes) (changed : Bool) (run : set_protected sd on ≡ ok (out, changed)) where
  abbrev result : IsSetProtected p list on sd out changed
  result = set_protected_run sd bytes p list parsed split room on out changed run

  any-after :
      (c : Bool)
      → c ≡ not (same_bool on (any is_protection_ace list))
      → any is_protection_ace (if c then protected_entries on list else list) ≡ on
  any-after true e = any-protected_entries on list
  any-after false e = sym (same_bool→eq on (any is_protection_ace list) (ground arith))

  -- On a descriptor of bytes whose entries can be read, with 28 bytes of room in the DACL,
  -- IsProtected answers on the result of SetProtected what was asked for.
  pub is_protected-set_protected : is_protected out ≡ ok on
  is_protected-set_protected =
      is_protected_lem out result.edited.after _ result.edited.parse_after result.edited.split_after
      ∙ ap ok (any-after changed result.skips_when)

  -- On a descriptor of bytes whose entries can be read, with 28 bytes of room in the DACL,
  -- SetProtected is idempotent: on its own result it reports that nothing changed.
  set_protected_idem : set_protected out on ≡ ok (out, false)
  set_protected_idem =
      set_protected_lem out result.edited.after _ result.edited.parse_after
        result.edited.split_after on
      ∙ rw (any-after changed result.skips_when, same_bool_refl on) refl

  -- On a descriptor of bytes whose entries can be read, with 28 bytes of room in the DACL,
  -- version, owner, group and SACL are kept, and the other entries stay in order behind the
  -- Deny where it is turned on; where nothing changed the very bytes are returned.
  pub set_protected-Keeps :
      (q : Parsed)
      → parse out ≡ ok q
      → Keeps p (if changed then protected_entries on list else list) q
        × (changed ≡ false → out ≡ sd)
  set_protected-Keeps q e = (IsEdited-Keeps p _ out q result.edited e, result.unchanged)

choose_ok :
    (b : Bool) (x y : Bytes × Bool)
    → (out : Bytes) × (changed : Bool) × ◌≡◌ {A = Outcome SdError (Bytes × Bool)}
        (if b then ok x else ok y)
        (ok (out, changed))
choose_ok true (out, changed) y = (out, changed, refl)
choose_ok false x (out, changed) = (out, changed, refl)

-- On the bytes of a well-formed descriptor whose DACL is any list of entries, with 28 bytes of room,
-- SetProtected succeeds, IsProtected answers on its result what was asked for, and a second
-- SetProtected reports that nothing changed and returns the same bytes.
pub set_protected_total :
    (p : Parsed) (revision : ℕ) (list : List Bytes)
    → IsWellFormed p
    → All IsAce list
    → All IsByte (serialize (with_entries p revision list))
    → length (concat list) + 36 < 2 ^ 16
    → (on : Bool)
    → (out : Bytes) × (changed : Bool) × (set_protected
          (serialize (with_entries p revision list))
          on
        ≡ ok (out, changed))
      × (is_protected out ≡ ok on)
      × (set_protected out on ≡ ok (out, false))
set_protected_total p revision list v a bytes fits on =
    let sd = serialize (with_entries p revision list) in
    let parsed : parse sd ≡ ok (with_entries p revision list) =
      parse-with_entries p revision list v a (omega arith) in
    let split : aces (with_entries p revision list).dacl ≡ ok list =
      aces-with_entries p revision list v a (omega arith) in
    let room : length (with_entries p revision list).dacl + 28 < 2 ^ 16 =
      unfold with_entries build_acl in omega (arith) in
    let (out, changed, chosen) = choose_ok (same_bool on (any is_protection_ace list)) _ _ in
    let run = set_protected_lem sd (with_entries p revision list) list parsed split on ∙ chosen in
    (
      out,
      changed,
      run,
      is_protected-set_protected sd bytes (with_entries p revision list) list parsed split room on
          out changed run,
      set_protected_idem sd bytes (with_entries p revision list) list parsed split room on out
          changed run,
    )

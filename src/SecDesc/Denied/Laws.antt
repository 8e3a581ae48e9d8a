-- ===== src/SecDesc/Denied/Laws.antt =====
-- What SetDeniedObjectRight does to the entries of a descriptor, and what HasDeniedObjectRight reads.
use go_adldap.Base.{
  ℕ, ◌+◌, ◌^◌, ◌<◌, ◌≤◌, ◌≡◌, ◌≢◌, refl, sym, ap, ◌∙◌, subst₂, length-concat-append, Bool, true,
  false, not, List, [], ◌∷◌, ◌++◌, arith, map, ltb, ltb-false, leb-true, ==_refl, ne→==-false,
  if◌then◌else◌, length, length-append, take, take-append, concat, filter, any, All, All-append,
  All-filter, length-concat-filter, Outcome, ok, ok_out, ok_flag,
}
use go_adldap.Base.Bits.{bit_and_self}
use go_adldap.Base.Bytes.{
  Bytes, IsByte, byte_at, slice, slice_last, get_u32, get_u32-u32_bytes, get_u16-u16_bytes,
  u16_bytes, u32_bytes,
}
use go_adldap.SecDesc.{SdError, Parsed, parse, serialize, aces, IsAce}
use go_adldap.SecDesc.Edit.{
  with_entries, IsEntries, read-IsEntries, IsEdited, Keeps, IsEdited-Keeps, unedited-IsEdited,
  with_entries-IsEdited,
}
use go_adldap.SecDesc.Denied.{
  same_bytes, denied_object, denied_object_ace, denies, has_denied_object_right, skip_write,
  set_denied_object_right,
}

same_bytes_refl : (b : Bytes) → same_bytes b b ≡ true
unfolding same_bytes
same_bytes_refl [] = refl
same_bytes_refl (x ∷ b) = rw (==_refl x, same_bytes_refl b)

module _ (mask : ℕ) (small : mask < 2 ^ 32) (set : mask ≢ 0) (object_type : Bytes)
    (guid : length object_type ≡ 16) where
  abbrev front : Bytes → Bytes
  front trustee =
      6
      ∷ 0
      ∷ (u16_bytes (12 + length object_type + length trustee) ++ (u32_bytes mask ++ u32_bytes 1))

  -- The ACE that is written denies the right to its trustee.
  denied_object-denied_object_ace :
      (trustee : Bytes)
      → denied_object (denied_object_ace mask object_type trustee) mask object_type trustee ≡ true
  unfolding denied_object
  denied_object-denied_object_ace trustee =
      rw
        (
          ltb-false (length ace) 12 (unfold denied_object_ace in omega arith),
          kind,
          mask_read,
          bit_and_self mask,
          ne→==-false mask 0 set,
          flags_read,
          ltb-false (length ace) 28 (omega (arith, len)),
          type_read,
          same_bytes_refl object_type,
          leb-true (28 + length trustee) (length ace) (omega (arith, len)),
          trustee_read,
          same_bytes_refl trustee,
        )
        refl
    where
      ace : Bytes
      ace = denied_object_ace mask object_type trustee

      kind : byte_at ace 0 ≡ 6
      kind = unfold denied_object_ace in refl

      mask_read : get_u32 (slice ace 4 8) ≡ mask
      mask_read = unfold denied_object_ace in get_u32-u32_bytes mask small

      flags_read : get_u32 (slice ace 8 12) ≡ 1
      flags_read = unfold denied_object_ace in refl

      len : length ace ≡ 28 + length trustee
      len = unfold denied_object_ace in omega (arith, length-append object_type trustee, guid)

      type_read : slice ace 12 28 ≡ object_type
      type_read =
          unfold denied_object_ace in
          (ap (λ n. take n (object_type ++ trustee)) (sym guid) ∙ take-append object_type trustee)

      trustee_read : slice ace 28 (28 + length trustee) ≡ trustee
      trustee_read =
          unfold denied_object_ace in
          slice_last _ (front trustee ++ object_type) trustee 28 refl
            (omega (arith, length-append (front trustee) object_type, guid))

-- A byte slice of the length that its header states.
denied_object_ace-IsAce :
    (mask : ℕ) (object_type trustee : Bytes)
    → length (denied_object_ace mask object_type trustee) < 2 ^ 16
    → IsAce (denied_object_ace mask object_type trustee)
unfolding denied_object_ace
denied_object_ace-IsAce mask object_type trustee small = record {
  long_enough = omega arith;
  sized =
      get_u16-u16_bytes _ (omega (arith, length-append object_type trustee))
      ∙ omega (arith, length-append object_type trustee);
}

module _ (mask : ℕ) (object_type : Bytes) where
  abbrev new_aces : List Bytes → List Bytes
  new_aces trustees = map (denied_object_ace mask object_type) trustees

  new_aces-IsAce :
      (trustees : List Bytes)
      → length (concat (new_aces trustees)) < 2 ^ 16
      → All IsAce (new_aces trustees)
  new_aces-IsAce [] small = tt
  new_aces-IsAce (t ∷ trustees) small =
      let sum = length-append (denied_object_ace mask object_type t) (concat (new_aces trustees)) in
      (
        denied_object_ace-IsAce mask object_type t (omega (arith, sum, small)),
        new_aces-IsAce trustees (omega (arith, sum, small)),
      )

-- Counting what passes a test, and asking whether anything does.
any-length-filter :
    (q : Bytes → Bool) (list : List Bytes) → any q list ≡ ltb 0 (length (filter q list))
any-length-filter q [] = refl
any-length-filter q (a ∷ list) = ground (arith, any-length-filter q list)

any-filter-not :
    (q : Bytes → Bool) (list : List Bytes) → any q (filter (λ a. not (q a)) list) ≡ false
any-filter-not q [] = refl
any-filter-not q (a ∷ list) = ground (arith, any-filter-not q list)

any-append_left :
    (q : Bytes → Bool) (xs ys : List Bytes) → any q xs ≡ true → any q (xs ++ ys) ≡ true
any-append_left q [] ys h = cc
any-append_left q (x ∷ xs) ys h = ground (arith, any-append_left q xs ys)

-- The entries after SetDeniedObjectRight wrote.
abbrev pub denied_entries : Bool → ℕ → Bytes → List Bytes → List Bytes → List Bytes
denied_entries on mask object_type trustees list =
    let kept = filter (λ a. not (denies mask object_type trustees a)) list in
    if on then new_aces mask object_type trustees ++ kept else kept

denied_entries-fit :
    (on : Bool) (mask : ℕ) (object_type : Bytes) (trustees list : List Bytes)
    → All IsAce list
    → length (concat list) + length (concat (new_aces mask object_type trustees)) < 2 ^ 16
    → All IsAce (denied_entries on mask object_type trustees list)
      × (length (concat (denied_entries on mask object_type trustees list))
          ≤ length (concat list) + length (concat (new_aces mask object_type trustees)))
denied_entries-fit true mask object_type trustees list h fits = (
  All-append IsAce (new_aces mask object_type trustees) _
      (new_aces-IsAce mask object_type trustees (omega arith)) (All-filter IsAce _ list h),
  omega (
    arith,
    length-concat-append (new_aces mask object_type trustees)
        (filter (λ a. not (denies mask object_type trustees a)) list),
    length-concat-filter (λ a. not (denies mask object_type trustees a)) list,
  ),
)
denied_entries-fit false mask object_type trustees list h fits = (
  All-filter IsAce _ list h,
  omega (arith, length-concat-filter (λ a. not (denies mask object_type trustees a)) list),
)

-- What one run leaves: the entries, and that it wrote unless the test told it not to.
record IsDenied (p : Parsed) (list after : List Bytes) (skip : Bool) (out : Bytes) (changed : Bool)
    : Type 0 where
  edited : IsEdited p (if changed then after else list) out
  wrote : changed ≡ not skip

module _ (sd : Bytes) (bytes : All IsByte sd) (p : Parsed) (list : List Bytes)
    (parsed : parse sd ≡ ok p) (split : aces p.dacl ≡ ok list) (mask : ℕ) (object_type : Bytes)
    (trustees : List Bytes)
    (room : length p.dacl + length (concat (new_aces mask object_type trustees)) + 8 < 2 ^ 16)
    (on : Bool) where
  abbrev skipped : Bool
  skipped =
      skip_write on (length (filter (denies mask object_type trustees) list)) (length trustees)

  abbrev after : List Bytes
  after = denied_entries on mask object_type trustees list

  written : (r : ℕ) → IsEdited p after (serialize (with_entries p r after))
  written r =
      let known : IsEntries p list = read-IsEntries sd p list bytes parsed split in
      let (headers, len) =
        denied_entries-fit on mask object_type trustees list known.headers
          (omega (arith, known.small, room)) in
      with_entries-IsEdited p r after known.well_formed headers
        (omega (arith, len, known.small, room))

  set_denied_object_right-IsDenied :
      (out : Bytes) (changed : Bool)
      → set_denied_object_right sd on mask object_type trustees ≡ ok (out, changed)
      → IsDenied p list after skipped out changed
  unfolding set_denied_object_right
  set_denied_object_right-IsDenied out changed run = by_skip skipped _ (rw (parsed, split) at run)
    where
      by_skip :
          (skip : Bool) (r : ℕ)
          → ◌≡◌ {A = Outcome SdError (Bytes × Bool)}
              (if skip then ok (sd, false) else ok (serialize (with_entries p r after), true))
              (ok (out, changed))
          → IsDenied p list after skip out changed
      by_skip true r e =
          subst₂ (IsDenied p list after true) (ok_out e) (ok_flag e)
            (record { edited = unedited-IsEdited sd p list parsed split; wrote = refl })
      by_skip false r e =
          subst₂ (IsDenied p list after false) (ok_out e) (ok_flag e)
            (record { edited = written r; wrote = refl })

-- Whether the right is denied after a run, from whether the run wrote.
module _ (mask : ℕ) (small : mask < 2 ^ 32) (set : mask ≢ 0) (object_type : Bytes)
    (guid : length object_type ≡ 16) (t : Bytes) (trustees : List Bytes) (list : List Bytes) where
  abbrev test : Bytes → Bool
  test = denies mask object_type (t ∷ trustees)

  new_ace_denies : any test (new_aces mask object_type (t ∷ trustees)) ≡ true
  unfolding denies
  new_ace_denies = rw (denied_object-denied_object_ace mask small set object_type guid t)

  any-after :
      (on changed : Bool)
      → changed ≡ not (skip_write on (length (filter test list)) (length (t ∷ trustees)))
      → any test (if changed then denied_entries on mask object_type (t ∷ trustees) list else list)
        ≡ on
  unfolding skip_write
  any-after true true e =
      any-append_left test (new_aces mask object_type (t ∷ trustees))
        (filter (λ a. not (test a)) list) new_ace_denies
  any-after false true e = any-filter-not test list
  any-after true false e = ground (arith, any-length-filter test list)
  any-after false false e = ground (arith, any-length-filter test list)

-- SetDeniedObjectRight on a descriptor whose entries can be read, with room for the new ones, for a
-- GUID of 16 bytes, a mask of 32 bits that is not 0 and at least one trustee.
module _ (sd : Bytes) (bytes : All IsByte sd) (p : Parsed) (list : List Bytes)
    (parsed : parse sd ≡ ok p) (split : aces p.dacl ≡ ok list) (mask : ℕ) (small : mask < 2 ^ 32)
    (set : mask ≢ 0) (object_type : Bytes) (guid : length object_type ≡ 16) (t : Bytes)
    (trustees : List Bytes)
    (room : length p.dacl
        + length (concat (map (denied_object_ace mask object_type) (t ∷ trustees)))
        + 8
      < 2 ^ 16)
    (on : Bool) (out : Bytes) (changed : Bool)
    (run : set_denied_object_right sd on mask object_type (t ∷ trustees) ≡ ok (out, changed)) where
  -- On a descriptor of bytes whose entries can be read, with room for the new ones, for a GUID of 16
  -- bytes, a mask of 32 bits that is not 0 and at least one trustee: HasDeniedObjectRight answers on
  -- the result of SetDeniedObjectRight what was asked for.
  pub has_denied-set_denied : has_denied_object_right out mask object_type (t ∷ trustees) ≡ ok on
  unfolding has_denied_object_right
  has_denied-set_denied =
      let r =
        set_denied_object_right-IsDenied sd bytes p list parsed split mask object_type
          (t ∷ trustees) room on out changed run in
      rw (r.edited.parse_after, r.edited.split_after)
        (ap ok (any-after mask small set object_type guid t trustees list on changed r.wrote))

  -- On a descriptor of bytes whose entries can be read, with room for the new ones, for a
  -- GUID of 16 bytes, a mask of 32 bits that is not 0 and at least one trustee, version,
  -- owner, group and SACL are kept, and the entries that deny the right to none of the
  -- trustees stay in order, behind one new Deny for each trustee where the right is denied;
  -- where nothing was written all entries stay.
  set_denied-Keeps :
      (q : Parsed)
      → parse out ≡ ok q
      → Keeps p (if changed then denied_entries on mask object_type (t ∷ trustees) list else list) q
  set_denied-Keeps q e =
      IsEdited-Keeps p _ out q
        (set_denied_object_right-IsDenied sd bytes p list parsed split mask object_type
          (t ∷ trustees) room on out changed run).edited
        e

-- ===== src/SecDesc/Ace/Remove.antt =====
-- What RemoveACEs does to a descriptor: it drops the explicit entries that match, and no other.
use go_adldap.Base.{
  both_ok, ◌+◌, ◌^◌, ◌<◌, ◌≡◌, refl, sym, ap, ◌∙◌, Bool, true, false, not, ◌&&◌, Option, none, some,
  List, [], ◌∷◌, arith, if◌then◌else◌, length, length-concat-filter, filter, All, Outcome, ok, err,
  subst, ok_out, ok_flag, any, All-filter,
}
use go_adldap.Base.Bytes.{Bytes, IsByte}
use go_adldap.SecDesc.{SdError, Parsed, parse, serialize, aces, IsAce}
use go_adldap.SecDesc.Edit.{
  with_entries, IsEntries, read-IsEntries, IsEdited, Keeps, IsEdited-Keeps, unedited-IsEdited,
  with_entries-IsEdited,
}
use go_adldap.SecDesc.Ace.{
  DecodedAce, decode_ace, cons_known, decode_all, decode_aces, remove_aces, drops, keep_loop,
  acl_revision_for,
}
use go_adldap.SecDesc.Ace.Add.{decode_aces_lem, decode_all_parts}

-- The entries that go: explicit ones that match.
abbrev pub candidate : (DecodedAce → Bool) → DecodedAce → Bool
candidate match d = not d.inherited && match d

-- An entry that stays: it does not decode to a candidate.
abbrev pub stays : (DecodedAce → Bool) → Bytes → Bool
stays match ace = elim (decode_ace ace) [ ok d ↦ not (drops match d) | err e ↦ true ]

module _ (match : DecodedAce → Bool) where
  -- The loop is a filter on the entries, and on what they decode to.
  keep_loop-filter :
      (list : List Bytes) (old : List DecodedAce)
      → decode_all list ≡ ok old
      → (keep_loop match list ≡ ok (filter (stays match) list, any (candidate match) old))
        × (decode_all (filter (stays match) list) ≡ ok (filter (λ d. not (candidate match d)) old))
        × (keep_loop match (filter (stays match) list) ≡ ok (filter (stays match) list, false))
  unfolding keep_loop drops
  keep_loop-filter [] old h =
      let e : [] ≡ old = unfold decode_all in ground arith in
      rw (← e) (refl, unfold decode_all in refl, refl)
  keep_loop-filter (x ∷ list) old h =
      let (d, e, out, r, same) = decode_all_parts x list old h in
      let (ih, kept, again) = keep_loop-filter list out r in step d e out same ih kept again
    where
      step :
          (d : Option DecodedAce)
          → decode_ace x ≡ ok d
          → (out : List DecodedAce) → cons_known d out ≡ old
          → keep_loop match list ≡ ok (filter (stays match) list, any (candidate match) out)
          → decode_all (filter (stays match) list) ≡ ok (filter (λ d. not (candidate match d)) out)
          → keep_loop match (filter (stays match) list) ≡ ok (filter (stays match) list, false)
          → (keep_loop match (x ∷ list)
              ≡ ok (filter (stays match) (x ∷ list), any (candidate match) old))
            × (decode_all (filter (stays match) (x ∷ list))
                ≡ ok (filter (λ d. not (candidate match d)) old))
            × (keep_loop match (filter (stays match) (x ∷ list))
                ≡ ok (filter (stays match) (x ∷ list), false))
      step none e out same ih kept again = unfold decode_all in ground arith
      step (some d) e out same ih kept again = unfold decode_all in ground arith

  keep_loop_unchanged :
      (list kept : List Bytes) → keep_loop match list ≡ ok (kept, false) → kept ≡ list
  unfolding keep_loop
  keep_loop_unchanged [] kept h = sym (ok_out h)
  keep_loop_unchanged (x ∷ list) kept h =
      let (d, e, h') = both_ok (decode_ace x) _ h in
      let ((rest, flag), r, h'') = both_ok (keep_loop match list) _ h' in
      by_test (drops match d) rest flag
        (λ f. keep_loop_unchanged list rest (r ∙ ap (λ (b : Bool). ok (rest, b)) f)) h''
    where
      by_test :
          (b : Bool) (rest : List Bytes) (flag : Bool)
          → (flag ≡ false → rest ≡ list)
          → ◌≡◌ {A = Outcome SdError (List Bytes × Bool)}
              (ok (if b then (rest, true) else (x ∷ rest, flag)))
              (ok (kept, false))
          → kept ≡ x ∷ list
      by_test true rest flag ih h = cc (ok_flag h)
      by_test false rest flag ih h = sym (ok_out h) ∙ ap (λ l. x ∷ l) (ih (ok_flag h))

module _ (sd : Bytes) (bytes : All IsByte sd) (p : Parsed) (list : List Bytes)
    (parsed : parse sd ≡ ok p) (split : aces p.dacl ≡ ok list) (room : length p.dacl + 8 < 2 ^ 16)
    (match : DecodedAce → Bool) where
  remove_aces_lem :
      (old : List DecodedAce)
      → decode_all list ≡ ok old
      → remove_aces sd match ≡ (
          if not (any (candidate match) old)
          then ok (sd, false)
          else ok (
            serialize (
                with_entries p
                  (acl_revision_for (filter (stays match) list))
                  (filter (stays match) list)),
            true,
          ))
  unfolding remove_aces
  remove_aces_lem old h = rw (parsed, split, (keep_loop-filter match list old h).0) refl

  remove_aces_run :
      (old : List DecodedAce)
      → decode_all list ≡ ok old
      → (out : Bytes) (changed : Bool) → remove_aces sd match ≡ ok (out, changed)
      → IsEdited p (filter (stays match) list) out
  remove_aces_run old h out changed run =
      split_on (any (candidate match) old) refl (sym (remove_aces_lem old h) ∙ run)
    where
      written : IsEdited p (filter (stays match) list) (
          serialize (
            with_entries p
              (acl_revision_for (filter (stays match) list))
              (filter (stays match) list)))
      written =
          let known : IsEntries p list = read-IsEntries sd p list bytes parsed split in
          with_entries-IsEdited p _ _ known.well_formed
            (All-filter IsAce (stays match) list known.headers)
            (omega (arith, length-concat-filter (stays match) list, known.small, room))

      split_on :
          (b : Bool)
          → any (candidate match) old ≡ b
          → ◌≡◌ {A = Outcome SdError (Bytes × Bool)}
              (if not b
                then ok (sd, false)
                else ok (
                  serialize (
                      with_entries p
                        (acl_revision_for (filter (stays match) list))
                        (filter (stays match) list)),
                  true,
                ))
              (ok (out, changed))
          → IsEdited p (filter (stays match) list) out
      split_on true e k = subst (IsEdited p (filter (stays match) list)) (ok_out k) written
      split_on false e k =
          let none_gone : filter (stays match) list ≡ list = keep_loop_unchanged match list _ (
            (keep_loop-filter match list old h).0
            ∙ ap (λ (b : Bool). ok (filter (stays match) list, b)) e) in
          rw (← ok_out k, none_gone) (unedited-IsEdited sd p list parsed split)

-- RemoveACEs on a descriptor whose entries can be read and decoded.
module _ (sd : Bytes) (bytes : All IsByte sd) (p : Parsed) (list : List Bytes)
    (parsed : parse sd ≡ ok p) (split : aces p.dacl ≡ ok list) (room : length p.dacl + 8 < 2 ^ 16)
    (match : DecodedAce → Bool) (old : List DecodedAce) (decoded : decode_aces sd ≡ ok old)
    (out : Bytes) (changed : Bool) (run : remove_aces sd match ≡ ok (out, changed)) where
  entries_decoded : decode_all list ≡ ok old
  entries_decoded = sym (decode_aces_lem sd p list parsed split) ∙ decoded

  abbrev result : IsEdited p (filter (stays match) list) out
  result =
      remove_aces_run sd bytes p list parsed split room match old entries_decoded out changed run

  -- On a descriptor of bytes whose entries can be read and decoded, with 8 bytes of room in the
  -- DACL: the result decodes to the old entries without the explicit ones that match, in order: an
  -- inherited entry is never removed.
  pub decode_aces-remove_aces : decode_aces out ≡ ok (filter (λ d. not (candidate match d)) old)
  decode_aces-remove_aces =
      decode_aces_lem out result.after _ result.parse_after result.split_after
      ∙ (keep_loop-filter match list old entries_decoded).1

  -- On a descriptor of bytes whose entries can be read and decoded, with 8 bytes of room in
  -- the DACL, RemoveACEs on its own result finds nothing more to remove.
  remove_aces_idem : remove_aces out match ≡ ok (out, false)
  unfolding remove_aces
  remove_aces_idem =
      rw
        (
          result.parse_after,
          result.split_after,
          (keep_loop-filter match list old entries_decoded).2,
        )
        refl

  -- On a descriptor of bytes whose entries can be read and decoded, with 8 bytes of room in
  -- the DACL, version, owner, group and SACL are kept, and so is, byte for byte and in order,
  -- every entry that does not decode to an explicit one that matches.
  remove_aces-Keeps : (q : Parsed) → parse out ≡ ok q → Keeps p (filter (stays match) list) q
  remove_aces-Keeps q e = IsEdited-Keeps p _ out q result e

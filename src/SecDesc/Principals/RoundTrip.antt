-- ===== src/SecDesc/Principals/RoundTrip.antt =====
-- `principal_sids` reads back the principals that `build_principal_sd` was given.
use go_adldap.Base.{
  both_ok, ◌+◌, ◌^◌, ◌<◌, ◌≡◌, refl, sym, ap, subst, ◌∙◌, inl, inr, false, List, [], ◌∷◌, ◌++◌,
  append-nil, arith, map, ltb-false, length, length-append, concat, All, ok, is_empty,
}
use go_adldap.Base.Bytes.{
  Bytes, IsByte, byte_at, byte_at-IsByte, slice, slice_rest, slice_all, get_u16-u16_bytes,
  u16_bytes, u32_bytes,
}
use go_adldap.SecDesc.{parse, serialize, aces, sid_len, build_acl, IsSid, IsAce, IsWellFormed}
use go_adldap.SecDesc.Codec.{sid_len-append, parse-serialize}
use go_adldap.SecDesc.AceList.{aces-build_acl, build_acl-IsAcl}
use go_adldap.SecDesc.Principals.{
  domain_admins_sid, allow_full_ace, principal_aces, principal_parsed, build_principal_sd,
  ace_trustee, trustees, principal_sids, grow_count,
}

-- A SID whose length is right.
sid_len-IsSid : (b : Bytes) → All IsByte b → sid_len b ≡ ok (length b) → IsSid b
unfolding sid_len
sid_len-IsSid b bytes h = record { counted = ground arith; count_byte = byte_at-IsByte b 1 bytes }

IsSid-sid_len : (b : Bytes) → IsSid b → sid_len b ≡ ok (length b)
IsSid-sid_len b v = rw (append-nil b) at (sid_len-append b [] v)

grown-IsSid :
    (b tail : Bytes) → IsSid b → byte_at b 1 < 15 → length tail ≡ 4 → IsSid (grow_count b ++ tail)
grown-IsSid [] tail v h t = absurd (omega (arith, v.counted))
grown-IsSid (x ∷ []) tail v h t = absurd (omega (arith, v.counted))
grown-IsSid (x ∷ y ∷ b) tail v h t = record {
  counted = omega (arith, length-append b tail, v.counted, t);
  count_byte = omega (arith, h);
}

-- Domain Admins is a well-formed SID with one more sub-authority.
domain_admins_sid-IsSid :
    (d admins : Bytes) → All IsByte d → domain_admins_sid d ≡ ok admins → IsSid admins
unfolding domain_admins_sid
domain_admins_sid-IsSid d admins bytes h =
    let facts : (sid_len d ≡ ok (length d))
        × (byte_at d 1 < 15)
        × (grow_count d ++ u32_bytes 512 ≡ admins) =
      ground arith in
    rw (← facts.2) (grown-IsSid d (u32_bytes 512) (sid_len-IsSid d bytes facts.0) facts.1 refl)

-- The ACEs of the principals, and what is read from them.
principal_aces-map :
    (sids list : List Bytes)
    → All (All IsByte) sids
    → principal_aces sids ≡ ok list
    → (list ≡ map allow_full_ace sids) × All IsSid sids
unfolding principal_aces
principal_aces-map [] list bytes h = ground arith
principal_aces-map (sid ∷ sids) list (b, bytes) h =
    let facts : (rest : List Bytes) × (sid_len sid ≡ ok (length sid))
        × (principal_aces sids ≡ ok rest)
        × (list ≡ allow_full_ace sid ∷ rest) =
      ground arith in
    let (same, sids_ok) = principal_aces-map sids facts.0 bytes facts.2 in
    (facts.3 ∙ ap (λ l. allow_full_ace sid ∷ l) same, (sid_len-IsSid sid b facts.1, sids_ok))

trustee_bytes : (sid : Bytes) → slice (allow_full_ace sid) 8 (length (allow_full_ace sid)) ≡ sid
unfolding allow_full_ace
trustee_bytes sid = slice_rest (0 ∷ 0 ∷ (u16_bytes (8 + length sid) ++ u32_bytes 0x000F01FF)) sid

ace_trustee-allow_full_ace : (sid : Bytes) → IsSid sid → ace_trustee (allow_full_ace sid) ≡ ok sid
unfolding ace_trustee
ace_trustee-allow_full_ace sid v =
    rw
      (
        ace_trustee,
        trustee_bytes sid,
        IsSid-sid_len sid v,
        trustee_bytes sid,
        ltb-false (length sid) (length sid) (omega arith),
        slice_all sid,
      )
      refl

trustees-map : (sids : List Bytes) → All IsSid sids → trustees (map allow_full_ace sids) ≡ ok sids
unfolding trustees
trustees-map [] h = refl
trustees-map (sid ∷ sids) (v, h) =
    rw
      (
        ltb-false (length (allow_full_ace sid)) 8 (unfold allow_full_ace in omega arith),
        allow_type sid,
        ace_trustee-allow_full_ace sid v,
        trustees-map sids h,
      )
      refl
  where
    allow_type : (b : Bytes) → byte_at (allow_full_ace b) 0 ≡ 0
    allow_type b = unfold allow_full_ace in refl

allow_full_ace-IsAce :
    (sid : Bytes) → length (allow_full_ace sid) < 2 ^ 16 → IsAce (allow_full_ace sid)
unfolding allow_full_ace
allow_full_ace-IsAce sid small = record {
  long_enough = omega arith;
  sized = get_u16-u16_bytes _ (omega arith) ∙ omega arith;
}

map-allow_full_ace-IsAce :
    (sids : List Bytes)
    → length (concat (map allow_full_ace sids)) < 2 ^ 16
    → All IsAce (map allow_full_ace sids)
map-allow_full_ace-IsAce [] small = tt
map-allow_full_ace-IsAce (sid ∷ sids) small =
    let sum = length-append (allow_full_ace sid) (concat (map allow_full_ace sids)) in
    (
      allow_full_ace-IsAce sid (omega (arith, sum, small)),
      map-allow_full_ace-IsAce sids (omega (arith, sum, small)),
    )

principal_parsed-IsWellFormed :
    (admins : Bytes) (list : List Bytes)
    → IsSid admins
    → 8 + length (concat list) < 2 ^ 16
    → IsWellFormed (principal_parsed admins list)
unfolding principal_parsed
principal_parsed-IsWellFormed admins list v fits = record {
  control_u16 = omega arith;
  self_relative = omega arith;
  owner_sid = inr v;
  group_sid = inr v;
  sacl_acl = inl refl;
  dacl_acl = inr (build_acl-IsAcl 2 list fits);
}

module _ (domain sd : Bytes) (sids : List Bytes) (domain_bytes : All IsByte domain)
    (sid_bytes : All (All IsByte) sids)
    (fits : 8 + length (concat (map allow_full_ace sids)) < 2 ^ 16)
    (built : build_principal_sd domain sids ≡ ok sd) where
  -- For SIDs of bytes whose ACEs fit into one ACL, what BuildPrincipalSD writes reads back as Domain Admins for owner and group, no SACL, a DACL that is
  -- present even where it is empty, and one ACE of full control for each principal.
  parse-build_principal_sd :
      (admins : Bytes) × (domain_admins_sid domain ≡ ok admins)
      × (parse sd ≡ ok (principal_parsed admins (map allow_full_ace sids)))
  unfolding build_principal_sd
  parse-build_principal_sd =
      let (admins, found, built') = both_ok (domain_admins_sid domain) _ built in
      let (list, listed, written) = both_ok (principal_aces sids) _ built' in
      let (same, sids_ok) = principal_aces-map sids list sid_bytes listed in
      let e : serialize (principal_parsed admins (map allow_full_ace sids)) ≡ sd =
        ap (λ l. serialize (principal_parsed admins l)) (sym same) ∙ cc (written) in
      (
        admins,
        found,
        subst (λ b. parse b ≡ ok (principal_parsed admins (map allow_full_ace sids))) e
            (parse-serialize _ (
              principal_parsed-IsWellFormed admins (map allow_full_ace sids)
                (domain_admins_sid-IsSid domain admins domain_bytes found) fits)),
      )

  -- For SIDs of bytes whose ACEs fit into one ACL, PrincipalSIDs reads back the principals,
  -- each once and in order.
  pub principal_sids-build_principal_sd : principal_sids sd ≡ ok sids
  unfolding build_principal_sd
  principal_sids-build_principal_sd =
      let (admins, found, parsed) = parse-build_principal_sd in
      let (list, listed, written) =
        both_ok (principal_aces sids) _ (both_ok (domain_admins_sid domain) _ built).2 in
      let sids_ok = (principal_aces-map sids list sid_bytes listed).1 in
      let small = map-allow_full_ace-IsAce sids (omega (arith, fits)) in
      read_back sd admins parsed (aces-build_acl 2 (map allow_full_ace sids) small fits)
        (trustees-map sids sids_ok)
    where
      nonempty : is_empty (build_acl 2 (map allow_full_ace sids)) ≡ false
      nonempty = unfold build_acl in refl

      read_back :
          (b admins : Bytes)
          → parse b ≡ ok (principal_parsed admins (map allow_full_ace sids))
          → aces (build_acl 2 (map allow_full_ace sids)) ≡ ok (map allow_full_ace sids)
          → trustees (map allow_full_ace sids) ≡ ok sids
          → principal_sids b ≡ ok sids
      read_back [] admins h k l = unfold parse in cc
      read_back (x ∷ b) admins h k l =
          unfold principal_sids principal_parsed in rw (h, k, nonempty, l) refl

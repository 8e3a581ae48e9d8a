-- ===== src/Binding/Layout.antt =====
-- Where the fields of the checksum are.
use go_adldap.Base.{
  ℕ, ◌-◌, ◌≡◌, sym, ap, ◌∙◌, Bool, true, false, some, List, [], ◌∷◌, ◌++◌, ◌==◌, if◌then◌else◌,
  length, take, drop, take-append, drop-append, drop_add, append-nil, append_assoc, ap₂,
}
use go_adldap.Base.Bytes.{Bytes, put_u32, u32_bytes}
use go_adldap.Binding.{zeros, or_flags, grow, checksum_bytes, authenticator_checksum}

module _ (context_flag_deleg : ℕ) where
  -- What is there stays in front.
  grow_front :
      (b : Bytes) (flags : List ℕ) → (tail : Bytes) × (grow context_flag_deleg b flags ≡ b ++ tail)
  unfolding grow
  grow_front b [] = ([], sym (append-nil b))
  grow_front b (flag ∷ flags) =
      by_flag (flag == context_flag_deleg) (grow_front (b ++ zeros (28 - length b)) flags)
        (grow_front b flags)
    where
      by_flag :
          (deleg : Bool)
          → (tail : Bytes) × (grow context_flag_deleg (b ++ zeros (28 - length b)) flags
              ≡ (b ++ zeros (28 - length b)) ++ tail)
          → (tail : Bytes) × (grow context_flag_deleg b flags ≡ b ++ tail)
          → (tail : Bytes) × (grow context_flag_deleg
                (if deleg then b ++ zeros (28 - length b) else b)
                flags
              ≡ b ++ tail)
      by_flag true (tail, more) same =
          (zeros (28 - length b) ++ tail, more ∙ append_assoc b (zeros (28 - length b)) tail)
      by_flag false more same = same

  -- The flags are put behind the token.
  flags_put :
      (f : ℕ) (bnd t : Bytes)
      → length bnd ≡ 16
      → put_u32 (u32_bytes 16 ++ ((bnd ++ zeros 4) ++ t)) 20 f
        ≡ u32_bytes 16 ++ (bnd ++ (u32_bytes f ++ t))
  flags_put f bnd t h =
      ap₂ (λ front back. u32_bytes 16 ++ ((front ++ u32_bytes f) ++ back)) front_is back_is
      ∙ ap (λ l. u32_bytes 16 ++ l) (append_assoc bnd (u32_bytes f) t)
    where
      front_is : take 16 ((bnd ++ zeros 4) ++ t) ≡ bnd
      front_is =
          ap (λ k. take k ((bnd ++ zeros 4) ++ t)) (sym h)
          ∙ ap (λ l. take (length bnd) l) (append_assoc bnd (zeros 4) t)
          ∙ take-append bnd (zeros 4 ++ t)

      back_is : drop 20 ((bnd ++ zeros 4) ++ t) ≡ t
      back_is =
          drop_add 16 4 ((bnd ++ zeros 4) ++ t)
          ∙ ap (λ k. drop 4 (drop k ((bnd ++ zeros 4) ++ t))) (sym h)
          ∙ ap (λ l. drop 4 (drop (length bnd) l)) (append_assoc bnd (zeros 4) t)
          ∙ ap (λ l. drop 4 l) (drop-append bnd (zeros 4 ++ t))

  -- The checksum is the width of the token, the token, the flags, and what delegation adds: the token
  -- stays where the field of its width is, and the flags that are read there are those given, OR-ed.
  authenticator_checksum_lem :
      (context_flags : List ℕ) (bnd : Bytes)
      → length bnd ≡ 16
      → (tail : Bytes) × (authenticator_checksum context_flag_deleg context_flags (some bnd)
          ≡ some (u32_bytes 16 ++ (bnd ++ (u32_bytes (or_flags 0 context_flags) ++ tail))))
  unfolding authenticator_checksum checksum_bytes
  authenticator_checksum_lem context_flags bnd h =
      let (t, grown) = grow_front (u32_bytes 16 ++ (bnd ++ zeros 4)) context_flags in
      (
        t,
        rw h (
            ap (λ b. some (put_u32 b 20 (or_flags 0 context_flags))) grown
            ∙ ap some (flags_put (or_flags 0 context_flags) bnd t h)),
      )

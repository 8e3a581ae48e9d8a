-- ===== src/SecDesc/WellFormed.antt =====
-- What `parse` accepts is well formed.
use go_adldap.Base.{
  ℕ, zero, suc, ◌+◌, ◌-◌, ◌*◌, ◌^◌, ◌<◌, ◌≤◌, ◌≡◌, refl, ◌⊎◌, inl, inr, ◌∙◌, ap, sym, [], ◌∷◌,
  arith, length, length-take, length-drop, take, drop, take_all, All, All-take, All-drop, Bool,
  true, false, Outcome, ok, err, ltb, ◌==◌, if◌then◌else◌, ◌>>=◌, both_ok, bit_and, ◌≢◌,
}
use go_adldap.Base.Bytes.{Bytes, IsByte, byte_at, byte_at-IsByte, slice, get_u16, get_u32}
use go_adldap.SecDesc.{
  SdError, Parsed, parse, part_at, sid_len, acl_len, IsSid, IsAcl, IsWellFormed, control_self_rel,
  offset_past_end,
}

byte_at-take : (b : Bytes) (n i : ℕ) → i < n → byte_at (take n b) i ≡ byte_at b i
byte_at-take b zero i h = absurd (omega arith)
byte_at-take [] (suc n) i h = refl
byte_at-take (x ∷ b) (suc n) zero h = refl
byte_at-take (x ∷ b) (suc n) (suc i) h = byte_at-take b n i (omega arith)

pub get_u16-take :
    (b : Bytes) (n : ℕ) → 4 ≤ n → get_u16 (slice (take n b) 2 4) ≡ get_u16 (slice b 2 4)
get_u16-take b zero h = absurd (omega arith)
get_u16-take b (suc zero) h = absurd (omega arith)
get_u16-take b (suc (suc zero)) h = absurd (omega arith)
get_u16-take b (suc (suc (suc zero))) h = absurd (omega arith)
get_u16-take [] (suc (suc (suc (suc n)))) h = refl
get_u16-take (w ∷ []) (suc (suc (suc (suc n)))) h = refl
get_u16-take (w ∷ x ∷ []) (suc (suc (suc (suc n)))) h = refl
get_u16-take (w ∷ x ∷ y ∷ []) (suc (suc (suc (suc n)))) h = refl
get_u16-take (w ∷ x ∷ y ∷ z ∷ b) (suc (suc (suc (suc n)))) h = refl

pub get_u16-lt : (b : Bytes) → All IsByte b → get_u16 b < 2 ^ 16
get_u16-lt b h = omega (arith, byte_at-IsByte b 0 h, byte_at-IsByte b 1 h)

-- The first `n` bytes, where a length function gives `n`.
take-IsSid : (b : Bytes) (n : ℕ) → All IsByte b → sid_len b ≡ ok n → IsSid (take n b)
unfolding sid_len
take-IsSid b n bytes h =
    let facts : (n ≡ 8 + 4 * byte_at b 1) × (n ≤ length b) = ground arith in
    record {
      counted = omega (arith, length-take n b, facts, byte_at-take b n 1 (omega arith));
      count_byte = omega (arith, facts, byte_at-take b n 1 (omega arith), byte_at-IsByte b 1 bytes);
    }

take-IsAcl : (b : Bytes) (n : ℕ) → All IsByte b → acl_len b ≡ ok n → IsAcl (take n b)
unfolding acl_len
take-IsAcl b n bytes h =
    let facts : (n ≡ get_u16 (slice b 2 4)) × (8 ≤ n) × (n ≤ length b) = ground arith in
    record {
      long_enough = omega (arith, length-take n b, facts);
      sized = get_u16-take b n (omega arith) ∙ omega (arith, length-take n b, facts);
      size_u16 = omega (
        arith,
        length-take n b,
        facts,
        get_u16-lt (slice b 2 4) (All-take IsByte 2 (drop 2 b) (All-drop IsByte 2 b bytes)),
      );
    }

slice_to_end : (sd : Bytes) (off : ℕ) → slice sd off (length sd) ≡ drop off sd
slice_to_end sd off =
    ap (λ k. take k (drop off sd)) (sym (length-drop off sd)) ∙ take_all (drop off sd)

length_of_slice : (off n : ℕ) → off + n - off ≡ n
length_of_slice off n = omega arith

-- A part is absent, or as long as its own length field says.
module _ (P : Bytes → Type 0) (len : Bytes → Outcome SdError ℕ)
    (whole : (b : Bytes) (n : ℕ) → All IsByte b → len b ≡ ok n → P (take n b)) where
  part_found :
      (sd : Bytes) (off n : ℕ)
      → All IsByte sd
      → len (slice sd off (length sd)) ≡ ok n
      → P (slice sd off (off + n)) × All IsByte (slice sd off (off + n))
  part_found sd off n bytes e =
      let tail : All IsByte (drop off sd) = All-drop IsByte off sd bytes in
      rw (length_of_slice off n) (
        whole (drop off sd) n tail (rw (slice_to_end sd off) at e),
        All-take IsByte n (drop off sd) tail,
      )

  part_at_found :
      (sd : Bytes) (off : ℕ) (part : Bytes)
      → All IsByte sd
      → part_at sd off len ≡ ok part
      → ((part ≡ []) ⊎ P part) × All IsByte part
  unfolding part_at
  part_at_found sd off part bytes = split (off == 0) (ltb off (length sd))
    where
      chosen :
          (n : ℕ)
          → P (slice sd off (off + n)) × All IsByte (slice sd off (off + n))
          → slice sd off (off + n) ≡ part
          → ((part ≡ []) ⊎ P part) × All IsByte part
      chosen n f e = rw (← e) (inr f.0, f.1)

      split :
          (a b : Bool)
          → (if a
              then ok []
              else if b
              then (len (slice sd off (length sd)) >>= λ n. ok (slice sd off (off + n)))
              else err offset_past_end)
            ≡ ok part
          → ((part ≡ []) ⊎ P part) × All IsByte part
      split true b h = let e : [] ≡ part = cc in rw (← e) (inl refl, tt)
      split false true h =
          let (n, e, k) = both_ok (len (slice sd off (length sd))) _ h in
          chosen n (part_found sd off n bytes e) (cc)
      split false false h = cc

-- Where the parts of a descriptor that `parse` accepts come from.
pub record IsRead (sd : Bytes) (p : Parsed) : Type 0 where
  pub control : p.control ≡ get_u16 (slice sd 2 4)
  pub self_relative : bit_and (get_u16 (slice sd 2 4)) control_self_rel ≢ 0
  pub owner : part_at sd (get_u32 (slice sd 4 8)) sid_len ≡ ok p.owner
  pub group : part_at sd (get_u32 (slice sd 8 12)) sid_len ≡ ok p.group
  pub sacl : part_at sd (get_u32 (slice sd 12 16)) acl_len ≡ ok p.sacl
  pub dacl : part_at sd (get_u32 (slice sd 16 20)) acl_len ≡ ok p.dacl

pub parse-IsRead : (sd : Bytes) (p : Parsed) → parse sd ≡ ok p → IsRead sd p
unfolding parse
parse-IsRead sd p h = ground arith

-- Every byte slice that `parse` accepts has well-formed parts.
pub parse-IsWellFormed :
    (sd : Bytes) (p : Parsed) → All IsByte sd → parse sd ≡ ok p → IsWellFormed p
parse-IsWellFormed sd p bytes h =
    let r : IsRead sd p = parse-IsRead sd p h in
    record {
      control_u16 =
          rw r.control
            (get_u16-lt (slice sd 2 4) (All-take IsByte 2 _ (All-drop IsByte 2 sd bytes)));
      self_relative = rw r.control r.self_relative;
      owner_sid = (part_at_found IsSid sid_len take-IsSid sd _ p.owner bytes r.owner).0;
      group_sid = (part_at_found IsSid sid_len take-IsSid sd _ p.group bytes r.group).0;
      sacl_acl = (part_at_found IsAcl acl_len take-IsAcl sd _ p.sacl bytes r.sacl).0;
      dacl_acl = (part_at_found IsAcl acl_len take-IsAcl sd _ p.dacl bytes r.dacl).0;
    }

pub dacl-IsByte : (sd : Bytes) (p : Parsed) → All IsByte sd → parse sd ≡ ok p → All IsByte p.dacl
dacl-IsByte sd p bytes h =
    (part_at_found IsAcl acl_len take-IsAcl sd _ p.dacl bytes (parse-IsRead sd p h).dacl).1

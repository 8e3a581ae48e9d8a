-- ===== src/Gss/Wire.antt =====
-- A wrap token on the wire is read back, and no bytes make the reader panic.
mod Tests
use go_adldap.Base.{
  ℕ, zero, suc, ◌+◌, ◌-◌, ◌*◌, ◌/◌, ◌%◌, ◌^◌, ◌<◌, ◌≤◌, ◌≡◌, ◌⊎◌, refl, sym, ap, ◌∙◌, arith, Bool,
  true, false, not, ◌&&◌, Option, none, some, List, [], ◌∷◌, ◌++◌, bit_and, ◌==◌, leb,
  if◌then◌else◌, length, take, drop, length-append, length-drop, length-take, drop_add,
  take-append-drop, take-append, drop-append, take_past, ltb, inl, inr, subst, ==_refl, Outcome, ok,
  err,
}
use go_adldap.Base.Bytes.{Bytes, byte_at, slice}
use go_adldap.Base.Text.{same_text}
use go_adldap.Gss.{
  WrapToken, WrapError, wrap_token_id, be_value, checked_slice, read_token, read_sized,
  bad_checksum_length, short_header, wrong_id, unexpected_acceptor, expected_acceptor, bad_filler,
  unmarshal_wrap_token,
}

-- The last bytes of a number, the high one first.
abbrev pub be_bytes : ℕ → ℕ → Bytes
be_bytes zero n = []
be_bytes (suc k) n = be_bytes k (n / 256) ++ (n % 256 ∷ [])

be_value-append : (n : ℕ) (b : Bytes) (x : ℕ) → be_value n (b ++ (x ∷ [])) ≡ 256 * be_value n b + x
unfolding be_value
be_value-append n [] x = refl
be_value-append n (c ∷ b) x = be_value-append (256 * n + c) b x

abbrev pub bytes_bound : ℕ → ℕ
bytes_bound zero = 1
bytes_bound (suc k) = 256 * bytes_bound k

pub be_value-be_bytes : (k n : ℕ) → n < bytes_bound k → be_value 0 (be_bytes k n) ≡ n
unfolding be_value
be_value-be_bytes zero n h = omega arith
be_value-be_bytes (suc k) n h =
    be_value-append 0 (be_bytes k (n / 256)) (n % 256)
    ∙ ap (λ q. 256 * q + n % 256) (be_value-be_bytes k (n / 256) (omega arith))
    ∙ omega arith

-- RFC 4121, 4.2.6.2: the header, the checksum and the payload.
abbrev pub wire : ℕ → WrapToken → Bytes
wire filler_byte t =
    0x05
    ∷ 0x04
    ∷ t.flags
    ∷ filler_byte
    ∷ (be_bytes 2 t.ec
        ++ (be_bytes 2 t.rrc ++ (be_bytes 8 t.snd_seq_num ++ (t.check_sum ++ t.payload))))

-- What the writer of a token keeps to.
abbrev pub IsWritten : WrapToken → Type 0
IsWritten t =
    (t.ec < 2 ^ 16) × (t.rrc < 2 ^ 16) × (t.snd_seq_num < 2 ^ 64) × (length t.check_sum ≡ t.ec)

module _ (filler_byte : ℕ) where
  -- What is read where the stated checksum fits.
  abbrev sized : Bytes → ℕ → WrapToken
  sized b ec = record {
    flags = byte_at b 2;
    ec = ec;
    rrc = be_value 0 (slice b 6 8);
    snd_seq_num = be_value 0 (slice b 8 16);
    check_sum = take ec (drop 16 b);
    payload = drop (16 + ec) b;
  }

  read_sized_lem :
      (b : Bytes) (ec : ℕ)
      → 16 + ec ≤ length b
      → read_sized filler_byte 16 b ec ≡ some (ok (sized b ec))
  read_sized_lem b ec fits =
      let inside : ltb (length b) (ec + 16) ≡ false = ground arith in
      let after : leb 16 (16 + ec) ≡ true = ground arith in
      let before : leb (16 + ec) (length b) ≡ true = ground arith in
      let whole : leb (length b) (length b) ≡ true = ground arith in
      let counted : 16 + ec - 16 ≡ ec = omega arith in
      let rest : take (length b - (16 + ec)) (drop (16 + ec) b) ≡ drop (16 + ec) b =
        take_past (length b - (16 + ec)) (drop (16 + ec) b)
          (omega (arith, length-drop (16 + ec) b)) in
      rw (inside, after, before, whole, counted, rest) refl

  unmarshal_wrap_token-wire :
      (t : WrapToken) (from_acceptor : Bool)
      → IsWritten t
      → (bit_and t.flags 1 == 1) ≡ from_acceptor
      → unmarshal_wrap_token filler_byte 16 (wire filler_byte t) from_acceptor ≡ some (ok t)
  unfolding unmarshal_wrap_token same_text
  unmarshal_wrap_token-wire t from_acceptor (ec, rrc, seq, counted) side =
      let long : ltb (length (wire filler_byte t)) 16 ≡ false = ground arith in
      let same : (filler_byte == filler_byte) ≡ true = ==_refl filler_byte in
      rw
        (
          long,
          side,
          opposite from_acceptor,
          opposite_too from_acceptor,
          same,
          be_value-be_bytes 2 t.ec ec,
        )
        (read_sized_lem (wire filler_byte t) t.ec
            (omega (arith, counted, length-append t.check_sum t.payload))
          ∙ rw (be_value-be_bytes 2 t.rrc rrc, be_value-be_bytes 8 t.snd_seq_num seq, front, back)
              refl)
    where
      front : take t.ec (t.check_sum ++ t.payload) ≡ t.check_sum
      front =
          subst (λ n. take n (t.check_sum ++ t.payload) ≡ t.check_sum) counted
            (take-append t.check_sum t.payload)

      back : drop (16 + t.ec) (wire filler_byte t) ≡ t.payload
      back =
          drop_add 16 t.ec (wire filler_byte t)
          ∙ subst (λ n. drop n (t.check_sum ++ t.payload) ≡ t.payload) counted
              (drop-append t.check_sum t.payload)

      opposite : (b : Bool) → (b && not b) ≡ false
      opposite true = refl
      opposite false = refl

      opposite_too : (b : Bool) → (not b && b) ≡ false
      opposite_too true = refl
      opposite_too false = refl

-- What is read as the checksum and the payload is all that follows the header, the checksum as long as
-- is stated; a panic reads nothing.
abbrev pub IsRead : Bytes → Option (Outcome WrapError WrapToken) → Type 0
IsRead b none = ⊥
IsRead b (some (err e)) = Unit
IsRead b (some (ok t)) =
    (drop 16 b ≡ t.check_sum ++ t.payload) × (length t.check_sum ≡ t.ec) × (16 + t.ec ≤ length b)

sized-IsRead : (filler_byte : ℕ) (b : Bytes) (ec : ℕ) → IsRead b (read_sized filler_byte 16 b ec)
sized-IsRead filler_byte b ec = by_size (fits_or_not (length b))
  where
    fits_or_not : (n : ℕ) → (16 + ec ≤ n) ⊎ (n < ec + 16)
    fits_or_not n = ground arith

    by_size :
        (16 + ec ≤ length b) ⊎ (length b < ec + 16) → IsRead b (read_sized filler_byte 16 b ec)
    by_size (inl fits) = subst (IsRead b) (sym (read_sized_lem filler_byte b ec fits)) (
      sym (ap (λ l. take ec (drop 16 b) ++ l) (drop_add 16 ec b) ∙ take-append-drop ec (drop 16 b)),
      omega (arith, length-take ec (drop 16 b), length-drop 16 b),
      fits,
    )
    by_size (inr short) =
        let cut : ltb (length b) (ec + 16) ≡ true = ground arith in
        subst (IsRead b)
          (sym (
            ap
              (λ t.
                if t
                then some (err bad_checksum_length)
                else read_token b ec (checked_slice b 16 (16 + ec))
                    (checked_slice b (16 + ec) (length b)))
              cut))
          tt

pub unmarshal_wrap_token-IsRead :
    (filler_byte : ℕ) (b : Bytes) (from_acceptor : Bool)
    → IsRead b (unmarshal_wrap_token filler_byte 16 b from_acceptor)
unfolding unmarshal_wrap_token
unmarshal_wrap_token-IsRead filler_byte b from_acceptor =
    by_tests (ltb (length b) 16) (not (same_text wrap_token_id (slice b 0 2)))
      (bit_and (byte_at b 2) 1 == 1 && not from_acceptor)
      (not (bit_and (byte_at b 2) 1 == 1) && from_acceptor) (not (byte_at b 3 == filler_byte))
  where
    sized_token : Option (Outcome WrapError WrapToken)
    sized_token = read_sized filler_byte 16 b (be_value 0 (slice b 4 6))

    by_tests :
        (short wrong unexpected expected bad : Bool)
        → IsRead b (
            if short
            then some (err short_header)
            else if wrong
            then some (err wrong_id)
            else if unexpected
            then some (err unexpected_acceptor)
            else if expected
            then some (err expected_acceptor)
            else if bad
            then some (err bad_filler)
            else sized_token)
    by_tests true wrong unexpected expected bad = tt
    by_tests false true unexpected expected bad = tt
    by_tests false false true expected bad = tt
    by_tests false false false true bad = tt
    by_tests false false false false true = tt
    by_tests false false false false false = sized-IsRead filler_byte b (be_value 0 (slice b 4 6))

-- No bytes make the reader panic, whatever length of the checksum they state; where a token is read, its
-- checksum and its payload are all that follows the header, the checksum as long as is stated. And a
-- token that is written as RFC 4121 says, with 16-bit counts, a 64-bit sequence number and a checksum of
-- the length that it states, from the side that is expected, is read back.
pub unmarshal_wrap_token_lem :
    (filler_byte : ℕ) (b : Bytes) (t : WrapToken) (from_acceptor : Bool)
    → IsWritten t
    → (bit_and t.flags 1 == 1) ≡ from_acceptor
    → IsRead b (unmarshal_wrap_token filler_byte 16 b from_acceptor)
      × (unmarshal_wrap_token filler_byte 16 (wire filler_byte t) from_acceptor ≡ some (ok t))
unmarshal_wrap_token_lem filler_byte b t from_acceptor written side = (
  unmarshal_wrap_token-IsRead filler_byte b from_acceptor,
  unmarshal_wrap_token-wire filler_byte t from_acceptor written side,
)

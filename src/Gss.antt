-- ===== src/Gss.antt =====
-- internal/conn/gssclient.go: the reader of a wrap token. Of the library, the filler byte and the length
-- of a header are parameters.
pub mod Wire
pub mod Client
use go_adldap.Base.{
  ℕ, zero, suc, ◌+◌, ◌-◌, ◌*◌, ◌/◌, ◌%◌, Bool, true, false, not, ◌&&◌, Option, none, some, List, [],
  ◌∷◌, ◌++◌, bit_and, ◌==◌, ltb, leb, if◌then◌else◌, length, take, drop, Outcome, ok, err,
}
use go_adldap.Base.Bytes.{Bytes, byte_at, slice}
use go_adldap.Base.Text.{same_text}

pub record WrapToken : Type 0 where
  pub flags : ℕ
  pub ec : ℕ
  pub rrc : ℕ
  pub snd_seq_num : ℕ
  pub check_sum : Bytes
  pub payload : Bytes

pub data WrapError : Type 0 where
  short_header wrong_id unexpected_acceptor expected_acceptor bad_filler bad_checksum_length :
      WrapError

abbrev pub wrap_token_id : Bytes
wrap_token_id = 0x05 ∷ 0x04 ∷ []

-- binary.BigEndian
unfoldable pub be_value : ℕ → Bytes → ℕ
be_value n [] = n
be_value n (x ∷ b) = be_value (256 * n + x) b

-- A slice out of range panics.
abbrev pub checked_slice : Bytes → ℕ → ℕ → Option Bytes
checked_slice b lo hi = if leb lo hi && leb hi (length b) then some (slice b lo hi) else none

abbrev pub read_token :
    Bytes → ℕ → Option Bytes → Option Bytes → Option (Outcome WrapError WrapToken)
read_token b ec (some check_sum) (some payload) = some (
    ok (record {
      flags = byte_at b 2;
      ec = ec;
      rrc = be_value 0 (slice b 6 8);
      snd_seq_num = be_value 0 (slice b 8 16);
      check_sum = check_sum;
      payload = payload;
    }))
read_token b ec check_sum payload = none

module _ (filler_byte hdr_len : ℕ) where
  -- The check of the checksum's length, and the slices behind it.
  abbrev pub read_sized : Bytes → ℕ → Option (Outcome WrapError WrapToken)
  read_sized b ec =
      if ltb (length b) (ec + hdr_len)
      then some (err bad_checksum_length)
      else read_token b ec (checked_slice b 16 (hdr_len + ec))
          (checked_slice b (hdr_len + ec) (length b))

  -- none is a panic.
  unfoldable pub unmarshal_wrap_token : Bytes → Bool → Option (Outcome WrapError WrapToken)
  unmarshal_wrap_token b expect_from_acceptor =
      let is_from_acceptor = bit_and (byte_at b 2) 1 == 1 in
      if ltb (length b) 16
      then some (err short_header)
      else if not (same_text wrap_token_id (slice b 0 2))
      then some (err wrong_id)
      else if is_from_acceptor && not expect_from_acceptor
      then some (err unexpected_acceptor)
      else if not is_from_acceptor && expect_from_acceptor
      then some (err expected_acceptor)
      else if not (byte_at b 3 == filler_byte)
      then some (err bad_filler)
      else read_sized b (be_value 0 (slice b 4 6))

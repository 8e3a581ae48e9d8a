-- ===== src/Binding.antt =====
-- internal/conn/authchksum.go and cbt.go: the checksum of the authenticator and the channel-binding
-- token. The hashes are parameters; so is the flag of the GSS library that asks for delegation.
pub mod Layout
use go_adldap.Base.{
  ℕ, zero, suc, ◌+◌, ◌-◌, ◌%◌, ◌^◌, not, Option, none, some, List, [], ◌∷◌, ◌++◌, bit_or, ◌==◌,
  if◌then◌else◌, length, take, drop,
}
use go_adldap.Base.Bytes.{Bytes, u32_bytes, put_u32}
use go_adldap.Base.Text.{codes}

abbrev pub channel_binding_len : ℕ
channel_binding_len = 16

-- `make([]byte, n)`
abbrev pub zeros : ℕ → Bytes
zeros zero = []
zeros (suc n) = 0 ∷ zeros n

-- The flags, OR-ed.
unfoldable pub or_flags : ℕ → List ℕ → ℕ
or_flags f [] = f
or_flags f (flag ∷ flags) = or_flags (bit_or f (flag % 2 ^ 32)) flags

module _ (context_flag_deleg : ℕ) where
  -- The bytes grow by those of the delegation where its flag is met.
  unfoldable pub grow : Bytes → List ℕ → Bytes
  grow b [] = b
  grow b (flag ∷ flags) =
      grow (if flag == context_flag_deleg then b ++ zeros (28 - length b) else b) flags

  -- `copy(b[4:20], bnd)` and the fields around it, on a token of the right width or none.
  unfoldable pub checksum_bytes : List ℕ → Bytes → Bytes
  checksum_bytes context_flags bnd =
      let b = put_u32 (zeros 24) 0 channel_binding_len in
      let bound = take 4 b ++ (bnd ++ drop (4 + length bnd) b) in
      put_u32 (grow bound context_flags) 20 (or_flags 0 context_flags)

  -- None where the source panics.
  unfoldable pub authenticator_checksum : List ℕ → Option Bytes → Option Bytes
  authenticator_checksum context_flags none = some (checksum_bytes context_flags [])
  authenticator_checksum context_flags (some bnd) =
      if not (length bnd == channel_binding_len)
      then none
      else some (checksum_bytes context_flags bnd)

unfoldable pub channel_binding_struct : Bytes → Bytes
channel_binding_struct app_data =
    u32_bytes 0
    ++ (u32_bytes 0 ++ (u32_bytes 0 ++ (u32_bytes 0 ++ (u32_bytes (length app_data) ++ app_data))))

-- The signature algorithms that the package names, and every other.
pub data SignatureAlgorithm : Type 0 where
  sha384_with_rsa ecdsa_with_sha384 sha384_with_rsapss : SignatureAlgorithm
  sha512_with_rsa ecdsa_with_sha512 sha512_with_rsapss : SignatureAlgorithm
  another_algorithm : SignatureAlgorithm

pub data Hash : Type 0 where
  sha256 sha384 sha512 : Hash

pub certificate_hash : SignatureAlgorithm → Hash
certificate_hash sha384_with_rsa = sha384
certificate_hash ecdsa_with_sha384 = sha384
certificate_hash sha384_with_rsapss = sha384
certificate_hash sha512_with_rsa = sha512
certificate_hash ecdsa_with_sha512 = sha512
certificate_hash sha512_with_rsapss = sha512
certificate_hash another_algorithm = sha256

pub channel_binding_token :
    (Hash → Bytes → Bytes) → (Bytes → Bytes) → SignatureAlgorithm → Bytes → Bytes
channel_binding_token digest md5 alg raw =
    md5
      (channel_binding_struct (codes "tls-server-end-point:" ++ digest (certificate_hash alg) raw))

-- ===== src/EncTypes.antt =====
-- internal/attrs/enctypes.go: the names of the Kerberos encryption types and their bits.
pub mod RoundTrip
mod Tests
use go_adldap.Base.{
  ℕ, zero, suc, ◌-◌, Bool, true, false, not, ◌&&◌, ◌||◌, List, [], ◌∷◌, bit_and, bit_or, ◌==◌, leb,
  if◌then◌else◌,
}
use go_adldap.Base.Bytes.{Bytes}
use go_adldap.Base.Text.{trim_left, trim_right, to_upper, starts_with, same_text}

abbrev pub enc_des_cbc_crc : ℕ
enc_des_cbc_crc = 1

abbrev pub enc_des_cbc_md5 : ℕ
enc_des_cbc_md5 = 2

abbrev pub enc_rc4 : ℕ
enc_rc4 = 4

abbrev pub enc_aes128 : ℕ
enc_aes128 = 8

abbrev pub enc_aes256 : ℕ
enc_aes256 = 16

-- "DES-CBC-CRC", "DES-CBC-MD5", "RC4", "RC4-HMAC", "AES128" and "AES256".
abbrev pub des_cbc_crc : Bytes
des_cbc_crc = 68 ∷ 69 ∷ 83 ∷ 45 ∷ 67 ∷ 66 ∷ 67 ∷ 45 ∷ 67 ∷ 82 ∷ 67 ∷ []

abbrev pub des_cbc_md5 : Bytes
des_cbc_md5 = 68 ∷ 69 ∷ 83 ∷ 45 ∷ 67 ∷ 66 ∷ 67 ∷ 45 ∷ 77 ∷ 68 ∷ 53 ∷ []

abbrev pub rc4 : Bytes
rc4 = 82 ∷ 67 ∷ 52 ∷ []

abbrev rc4_hmac : Bytes
rc4_hmac = 82 ∷ 67 ∷ 52 ∷ 45 ∷ 72 ∷ 77 ∷ 65 ∷ 67 ∷ []

abbrev pub aes128 : Bytes
aes128 = 65 ∷ 69 ∷ 83 ∷ 49 ∷ 50 ∷ 56 ∷ []

abbrev pub aes256 : Bytes
aes256 = 65 ∷ 69 ∷ 83 ∷ 50 ∷ 53 ∷ 54 ∷ []

abbrev pub enc_types : List (ℕ × Bytes)
enc_types =
    (enc_des_cbc_crc, des_cbc_crc)
    ∷ (enc_des_cbc_md5, des_cbc_md5)
    ∷ (enc_rc4, rc4)
    ∷ (enc_aes128, aes128)
    ∷ (enc_aes256, aes256)
    ∷ []

-- The switch on one name; a name that matches nothing has no bit.
pub enc_type_bit : Bytes → ℕ
enc_type_bit n =
    let s = to_upper (trim_right (trim_left n)) in
    if same_text s des_cbc_crc
    then enc_des_cbc_crc
    else if same_text s des_cbc_md5
    then enc_des_cbc_md5
    else if same_text s rc4 || starts_with s rc4_hmac
    then enc_rc4
    else if starts_with s aes128
    then enc_aes128
    else if starts_with s aes256
    then enc_aes256
    else 0

-- The loop, from the bits so far.
pub enc_type_bits_from : ℕ → List Bytes → ℕ
enc_type_bits_from v [] = v
enc_type_bits_from v (n ∷ names) = enc_type_bits_from (bit_or v (enc_type_bit n)) names

pub enc_type_bits : List Bytes → ℕ
enc_type_bits names = enc_type_bits_from 0 names

pub named_bits : List (ℕ × Bytes) → ℕ → List Bytes
named_bits [] v = []
named_bits ((bit, name) ∷ table) v =
    let rest = named_bits table v in if not (bit_and v bit == 0) then name ∷ rest else rest

pub enc_type_names : ℕ → List Bytes
enc_type_names v = named_bits enc_types v

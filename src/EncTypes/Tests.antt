-- ===== src/EncTypes/Tests.antt =====
-- RC4 and AES256.
use go_adldap.Base.{◌≡◌, arith}
use go_adldap.EncTypes.{enc_type_bits, enc_type_names}
use go_adldap.EncTypes.RoundTrip.{enc_type_bits-enc_type_names}

enc_type_bits-enc_type_names_example : enc_type_bits (enc_type_names 20) ≡ 20
enc_type_bits-enc_type_names_example = enc_type_bits-enc_type_names 20 (omega arith)

-- ===== src/Gss/Wire/Tests.antt =====
-- An acceptor's token with a checksum of two bytes.
use go_adldap.Base.{◌≡◌, refl, arith, true, some, [], ◌∷◌, ok}
use go_adldap.Gss.{WrapToken, unmarshal_wrap_token}
use go_adldap.Gss.Wire.{wire, IsRead, unmarshal_wrap_token_lem}

abbrev offered : WrapToken
offered = record {
  flags = 1;
  ec = 2;
  rrc = 0;
  snd_seq_num = 258;
  check_sum = 7 ∷ 8 ∷ [];
  payload = 1 ∷ 0 ∷ 0 ∷ 0 ∷ [];
}

unmarshal_wrap_token_lem_example :
    IsRead (5 ∷ 4 ∷ []) (unmarshal_wrap_token 255 16 (5 ∷ 4 ∷ []) true)
    × (unmarshal_wrap_token 255 16 (wire 255 offered) true ≡ some (ok offered))
unmarshal_wrap_token_lem_example =
    unmarshal_wrap_token_lem 255 (5 ∷ 4 ∷ []) offered true
      (omega arith, omega arith, omega arith, refl) refl

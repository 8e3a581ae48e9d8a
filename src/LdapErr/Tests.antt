-- ===== src/LdapErr/Tests.antt =====
-- One code and one busy domain controller.
use go_adldap.Base.{ℕ, ◌≡◌, refl, arith, true, false, Option, none, some, [], ◌∷◌, ◌==◌}
use go_adldap.Base.Bytes.{Bytes}
use go_adldap.LdapErr.{
  Kind, Failure, extract_win32_code, classify, kind_of, by_result_code, look_up, explain,
}
use go_adldap.LdapErr.Code.{extract_win32_code-hex_digits, hex_digits}
use go_adldap.LdapErr.Kinds.{is_transient, IsBusy, classify-transient}

-- "000020aD: NameErr" without its end.
abbrev message : Bytes
message = 48 ∷ 48 ∷ 48 ∷ 48 ∷ 50 ∷ 48 ∷ 97 ∷ 68 ∷ 58 ∷ 32 ∷ []

extract_win32_code-hex_digits_example : extract_win32_code message ≡ some 0x20AD
unfolding hex_digits
extract_win32_code-hex_digits_example =
    extract_win32_code-hex_digits (λ i. i == 1) 0x20AD (32 ∷ []) (omega arith)

abbrev pub no_code : ℕ → Option Kind
no_code code = none

abbrev pub busy : Failure
busy = record {
  context_error = false;
  raw = some (record { result_code = 51; diagnostic_message = [] });
  credential_rejected = false;
}

classify-transient_example : IsBusy no_code busy
unfolding classify kind_of extract_win32_code by_result_code look_up explain
classify-transient_example = classify-transient no_code busy refl

pub busy_retried : is_transient (classify no_code busy).kind ≡ true
unfolding classify kind_of extract_win32_code by_result_code look_up explain
busy_retried = refl

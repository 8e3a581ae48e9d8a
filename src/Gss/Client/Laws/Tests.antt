-- ===== src/Gss/Client/Laws/Tests.antt =====
-- A library whose keys are numbers, and an acceptor's token without a checksum.
use go_adldap.Base.{ℕ, none, some, [], ◌∷◌, ok}
use go_adldap.Base.Bytes.{Bytes}
use go_adldap.Base.Text.{codes}
use go_adldap.Gss.Client.{GssLib, GssClient, init_sec_context_with_options, negotiate_sasl_auth}
use go_adldap.Gss.Client.Laws.{IsKeyed, IsVerified, handshake-IsVerified}

abbrev plain_gss : GssLib
plain_gss = record {
  Key = ℕ;
  Ticket = Bytes;
  Token = Bytes;
  Authenticator = Bytes;
  ApReq = Bytes;
  EncPart = Bytes;
  Error = ℕ;
  zero_key = 0;
  flag_integ = 32;
  flag_conf = 16;
  flag_mutual = 2;
  flag_deleg = 1;
  option_mutual = 2;
  filler_byte = 255;
  own_error = 1;
  wrap_error = λ e. 2;
  service_ticket = λ target. ok (target, 5);
  krb5_token = λ ticket key context options. ok ticket;
  authenticator = ok [];
  with_checksum = λ auth sum. sum;
  new_ap_req = λ ticket key auth. ok auth;
  set_option = λ req option. req;
  with_ap_req = λ token req. req;
  marshal = λ token. ok token;
  unmarshal = λ input. ok input;
  krb_error = λ token. none;
  ap_rep = λ token. some token;
  decrypt = λ part key. ok part;
  sub_key = λ plain. ok 6;
  verify = λ token key. ok tt;
  hmac_bits = λ key. ok 96;
  sign = λ token key. ok token;
  marshal_wrap = λ token. ok token.payload;
}

abbrev client : GssClient plain_gss
client = record { cbt = none; ekey = 5; subkey = 0 }

abbrev final : Bytes
final = 5 ∷ 4 ∷ 1 ∷ 255 ∷ 0 ∷ 0 ∷ 0 ∷ 0 ∷ 0 ∷ 0 ∷ 0 ∷ 0 ∷ 0 ∷ 0 ∷ 0 ∷ 1 ∷ 1 ∷ 0 ∷ 0 ∷ 0 ∷ []

handshake-IsVerified_example :
    IsKeyed plain_gss client final
      (init_sec_context_with_options plain_gss client (codes "ldap/dc") (some final) (2 ∷ []))
    × IsVerified plain_gss client final
        (codes "ann")
        (negotiate_sasl_auth plain_gss client final (codes "ann"))
handshake-IsVerified_example =
    handshake-IsVerified plain_gss client (codes "ldap/dc") final (codes "ann") (2 ∷ [])

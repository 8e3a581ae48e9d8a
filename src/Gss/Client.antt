-- ===== src/Gss/Client.antt =====
-- internal/conn/gssclient.go: the client of a SASL GSSAPI bind. The Kerberos library and the source of
-- the tickets are a record; a panic is none.
pub mod Laws
use go_adldap.Base.{
  ℕ, Bool, true, false, not, Option, none, some, List, [], ◌∷◌, ◌++◌, ◌/◌, ◌%◌, ◌^◌, bit_and, ◌==◌,
  if◌then◌else◌, length, Outcome, ok, err,
}
use go_adldap.Base.Bytes.{Bytes}
use go_adldap.Binding.{authenticator_checksum}
use go_adldap.Gss.{WrapToken, WrapError, unmarshal_wrap_token}

pub record GssLib : Type 1 where
  pub Key : Type 0
  pub Ticket : Type 0
  pub Token : Type 0
  pub Authenticator : Type 0
  pub ApReq : Type 0
  pub EncPart : Type 0
  pub Error : Type 0
  pub zero_key : Key
  -- The flags of a context, and the option of an AP-REQ.
  pub flag_integ : ℕ
  pub flag_conf : ℕ
  pub flag_mutual : ℕ
  pub flag_deleg : ℕ
  pub option_mutual : ℕ
  pub filler_byte : ℕ
  -- An error of the package's own, and one of the reader of wrap tokens.
  pub own_error : Error
  pub wrap_error : WrapError → Error
  pub service_ticket : Bytes → Outcome Error (Ticket × Key)
  pub krb5_token : Ticket → Key → List ℕ → List ℕ → Outcome Error Token
  pub authenticator : Outcome Error Authenticator
  pub with_checksum : Authenticator → Bytes → Authenticator
  pub new_ap_req : Ticket → Key → Authenticator → Outcome Error ApReq
  pub set_option : ApReq → ℕ → ApReq
  pub with_ap_req : Token → ApReq → Token
  pub marshal : Token → Outcome Error Bytes
  pub unmarshal : Bytes → Outcome Error Token
  pub krb_error : Token → Option Error
  pub ap_rep : Token → Option EncPart
  pub decrypt : EncPart → Key → Outcome Error Bytes
  pub sub_key : Bytes → Outcome Error Key
  pub verify : WrapToken → Key → Outcome Error (Unit {0})
  pub hmac_bits : Key → Outcome Error ℕ
  pub sign : WrapToken → Key → Outcome Error WrapToken
  pub marshal_wrap : WrapToken → Outcome Error Bytes

module _ {A B E : Type 0} where
  abbrev pub go_on : Outcome E A → (A → Option (Outcome E B)) → Option (Outcome E B)
  go_on (err e) f = some (err e)
  go_on (ok a) f = f a

module _ (lib : GssLib) where
  pub record GssClient : Type 0 where
    pub cbt : Option Bytes
    pub ekey : lib.Key
    pub subkey : lib.Key

  abbrev pub new_gss_client : Option Bytes → GssClient
  new_gss_client cbt = record { cbt = cbt; ekey = lib.zero_key; subkey = lib.zero_key }

  abbrev pub context_flags : List ℕ
  context_flags = lib.flag_integ ∷ lib.flag_conf ∷ lib.flag_mutual ∷ []

  abbrev pub checksum : GssClient → Option Bytes
  checksum c = authenticator_checksum lib.flag_deleg context_flags c.cbt

  unfoldable pub delete_sec_context : GssClient → GssClient
  delete_sec_context c = record c { ekey = lib.zero_key; subkey = lib.zero_key }

  abbrev set_options : lib.ApReq → List ℕ → lib.ApReq
  set_options req [] = req
  set_options req (o ∷ options) = set_options (lib.set_option req o) options

  abbrev pub sealed :
      lib.Ticket
      → lib.Key
      → List ℕ
      → lib.Token
      → lib.Authenticator
      → Option Bytes
      → Option (Outcome lib.Error lib.Token)
  sealed tkt ekey options token auth none = none
  sealed tkt ekey options token auth (some sum) =
      go_on (lib.new_ap_req tkt ekey (lib.with_checksum auth sum))
        λ req. some (ok (lib.with_ap_req token (set_options req options)))

  unfoldable pub new_ap_req_token :
      GssClient → lib.Ticket → lib.Key → List ℕ → Option (Outcome lib.Error lib.Token)
  new_ap_req_token c tkt ekey options =
      go_on (lib.krb5_token tkt ekey context_flags options)
        λ token. go_on lib.authenticator λ auth. sealed tkt ekey options token auth (checksum c)

  -- The reply with whether a further message is wanted, and the client as it then is.
  abbrev pub GssStep : Type 0
  GssStep = Option (Outcome lib.Error (Bytes × Bool)) × GssClient

  abbrev pub marshalled :
      Option (Outcome lib.Error lib.Token) → Option (Outcome lib.Error (Bytes × Bool))
  marshalled none = none
  marshalled (some (err e)) = some (err e)
  marshalled (some (ok token)) = go_on (lib.marshal token) λ out. some (ok (out, true))

  abbrev pub first_half : GssClient → List ℕ → Outcome lib.Error (lib.Ticket × lib.Key) → GssStep
  first_half c options (err e) = (some (err e), c)
  first_half c options (ok (tkt, ekey)) =
      let c' = record c { ekey = ekey } in (marshalled (new_ap_req_token c' tkt ekey options), c')

  abbrev pub with_subkey : GssClient → Outcome lib.Error lib.Key → GssStep
  with_subkey c (err e) = (some (err e), c)
  with_subkey c (ok subkey) = (some (ok ([], false)), record c { subkey = subkey })

  abbrev pub read_part : Outcome lib.Error Bytes → Outcome lib.Error lib.Key
  read_part (err e) = err e
  read_part (ok part) = lib.sub_key part

  abbrev pub second_half : GssClient → Option lib.Error → Option lib.EncPart → GssStep
  second_half c (some e) part = (some (err e), c)
  second_half c none none = (some (ok ([], true)), c)
  second_half c none (some part) = with_subkey c (read_part (lib.decrypt part c.ekey))

  abbrev pub read_reply : GssClient → Outcome lib.Error lib.Token → GssStep
  read_reply c (err e) = (some (err e), c)
  read_reply c (ok token) = second_half c (lib.krb_error token) (lib.ap_rep token)

  unfoldable pub init_sec_context_with_options : GssClient → Bytes → Option Bytes → List ℕ → GssStep
  init_sec_context_with_options c target none options =
      first_half c options (lib.service_ticket target)
  init_sec_context_with_options c target (some input) options = read_reply c (lib.unmarshal input)

  abbrev pub init_sec_context : GssClient → Bytes → Option Bytes → GssStep
  init_sec_context c target input =
      init_sec_context_with_options c target input (lib.option_mutual ∷ [])

  -- The key that a token's flags name.
  abbrev pub key_for : GssClient → WrapToken → lib.Key
  key_for c token = if bit_and token.flags 4 == 0 then c.ekey else c.subkey

  abbrev pub reply_token : ℕ → Bytes → WrapToken
  reply_token bits authzid = record {
    flags = 4;
    ec = bits / 8 % 2 ^ 16;
    rrc = 0;
    snd_seq_num = 1;
    check_sum = [];
    payload = 0 ∷ 0 ∷ 0 ∷ 0 ∷ authzid;
  }

  abbrev pub answer_token : GssClient → Bytes → WrapToken → Option (Outcome lib.Error Bytes)
  answer_token c authzid token =
      if bit_and token.flags 1 == 0
      then some (err lib.own_error)
      else go_on (lib.verify token (key_for c token)) λ verified.
        if not (length token.payload == 4)
        then some (err lib.own_error)
        else go_on (lib.hmac_bits (key_for c token)) λ bits.
          go_on (lib.sign (reply_token bits authzid) (key_for c token))
            λ signed. some (lib.marshal_wrap signed)

  abbrev pub negotiated :
      GssClient → Bytes → Option (Outcome WrapError WrapToken) → Option (Outcome lib.Error Bytes)
  negotiated c authzid none = none
  negotiated c authzid (some (err e)) = some (err (lib.wrap_error e))
  negotiated c authzid (some (ok token)) = answer_token c authzid token

  unfoldable pub negotiate_sasl_auth : GssClient → Bytes → Bytes → Option (Outcome lib.Error Bytes)
  negotiate_sasl_auth c input authzid =
      negotiated c authzid (unmarshal_wrap_token lib.filler_byte 16 input true)

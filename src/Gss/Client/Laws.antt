-- ===== src/Gss/Client/Laws.antt =====
-- What the client of a bind answers, and from where it has its keys.
mod Tests
use go_adldap.Base.{
  ℕ, ◌≡◌, refl, ap, subst, Bool, true, false, not, Option, none, some, List, [], ◌∷◌, bit_and, ◌==◌,
  ==_iff, if◌then◌else◌, length, Outcome, ok, err, ◌≢◌, ◌⊎◌, inl, inr, ◌/◌, ◌%◌, ◌^◌, Bool-cases,
  ==-false→ne,
}
use go_adldap.Base.Bytes.{Bytes}
use go_adldap.Gss.{WrapToken, WrapError, unmarshal_wrap_token}
use go_adldap.Gss.Wire.{IsRead, unmarshal_wrap_token-IsRead}
use go_adldap.Gss.Client.{
  GssLib, GssClient, GssStep, key_for, reply_token, answer_token, negotiated, negotiate_sasl_auth,
  go_on, with_subkey, read_part, second_half, read_reply, init_sec_context_with_options,
}

module _ (lib : GssLib) where
  -- The key that the flags of a token name: the acceptor's subkey where their third bit is set, and the
  -- session key where it is not.
  abbrev pub Named : GssClient lib → WrapToken → lib.Key → Type 0
  Named c token key =
      ((bit_and token.flags 4 ≢ 0) × (key ≡ c.subkey))
      ⊎ ((bit_and token.flags 4 ≡ 0) × (key ≡ c.ekey))

  -- A reply that the initiator sends, under the acceptor's subkey, with room for the checksum, the
  -- first of its sequence, and with a choice of no security layer and of no buffer before the name.
  abbrev pub IsReply : ℕ → Bytes → WrapToken → Type 0
  IsReply bits authzid reply =
      (reply.flags ≡ 4)
      × (reply.ec ≡ bits / 8 % 2 ^ 16)
      × (reply.rrc ≡ 0)
      × (reply.snd_seq_num ≡ 1)
      × (reply.check_sum ≡ [])
      × (reply.payload ≡ 0 ∷ 0 ∷ 0 ∷ 0 ∷ authzid)

  -- An answer is the library's writing of such a reply, signed with the key that verified the token.
  abbrev pub Answers : GssClient lib → Bytes → WrapToken → Bytes → Type 0
  Answers c authzid token out =
      (key : lib.Key) × (bits : ℕ) × (reply : WrapToken) × (signed : WrapToken) × Named c token key
      × (bit_and token.flags 1 ≢ 0)
      × (lib.verify token key ≡ ok tt)
      × (length token.payload ≡ 4)
      × (lib.hmac_bits key ≡ ok bits)
      × IsReply bits authzid reply
      × (lib.sign reply key ≡ ok signed)
      × (lib.marshal_wrap signed ≡ ok out)

  key_for-Named : (c : GssClient lib) (token : WrapToken) → Named c token (key_for lib c token)
  key_for-Named c token = elim (Bool-cases (bit_and token.flags 4 == 0)) [
    | inl e ↦ inr ((==_iff (bit_and token.flags 4) 0).0 e, rw e refl)
    | inr e ↦ inl (==-false→ne (bit_and token.flags 4) 0 e, rw e refl)
  ]

  abbrev pub IsVerified : GssClient lib → Bytes → Bytes → Option (Outcome lib.Error Bytes) → Type 0
  IsVerified c input authzid none = ⊥
  IsVerified c input authzid (some (err e)) = Unit
  IsVerified c input authzid (some (ok out)) =
      (token : WrapToken) × (unmarshal_wrap_token lib.filler_byte 16 input true ≡ some (ok token))
      × Answers c authzid token out

  module _ (c : GssClient lib) (input authzid : Bytes) (token : WrapToken)
      (read : unmarshal_wrap_token lib.filler_byte 16 input true ≡ some (ok token)) where
    signed_answer :
        (bits : ℕ)
        → bit_and token.flags 1 ≢ 0
        → lib.hmac_bits (key_for lib c token) ≡ ok bits
        → lib.verify token (key_for lib c token) ≡ ok tt
        → length token.payload ≡ 4
        → (o : Outcome lib.Error WrapToken)
        → lib.sign (reply_token lib bits authzid) (key_for lib c token) ≡ o
        → IsVerified c input authzid (go_on o λ signed. some (lib.marshal_wrap signed))
    signed_answer bits sent counted verified four (err e) made = tt
    signed_answer bits sent counted verified four (ok signed) made =
        by_text (lib.marshal_wrap signed) refl
      where
        by_text :
            (o : Outcome lib.Error Bytes)
            → lib.marshal_wrap signed ≡ o
            → IsVerified c input authzid (some o)
        by_text (err e) text = tt
        by_text (ok out) text = (
          token,
          read,
          (
            key_for lib c token,
            bits,
            reply_token lib bits authzid,
            signed,
            key_for-Named c token,
            sent,
            verified,
            four,
            counted,
            (refl, refl, refl, refl, refl, refl),
            made,
            text,
          ),
        )

    bits_answer :
        bit_and token.flags 1 ≢ 0
        → lib.verify token (key_for lib c token) ≡ ok tt
        → length token.payload ≡ 4
        → (o : Outcome lib.Error ℕ) → lib.hmac_bits (key_for lib c token) ≡ o
        → IsVerified c input authzid (
            go_on o λ bits.
              go_on
                (lib.sign (reply_token lib bits authzid) (key_for lib c token))
                λ signed. some (lib.marshal_wrap signed))
    bits_answer sent verified four (err e) counted = tt
    bits_answer sent verified four (ok bits) counted =
        signed_answer bits sent counted verified four _ refl

    sized_answer :
        bit_and token.flags 1 ≢ 0
        → (four : Bool) → (length token.payload == 4) ≡ four
        → (o : Outcome lib.Error (Unit {0})) → lib.verify token (key_for lib c token) ≡ o
        → IsVerified c input authzid (
            go_on o λ verified.
              if not four
              then some (err lib.own_error)
              else go_on (lib.hmac_bits (key_for lib c token)) λ bits.
                go_on
                  (lib.sign (reply_token lib bits authzid) (key_for lib c token))
                  λ signed. some (lib.marshal_wrap signed))
    sized_answer sent four e (err bad) checked = tt
    sized_answer sent false e (ok tt) checked = tt
    sized_answer sent true e (ok tt) checked =
        bits_answer sent checked ((==_iff (length token.payload) 4).0 e)
          (lib.hmac_bits (key_for lib c token)) refl

    answer_token-IsVerified : IsVerified c input authzid (answer_token lib c authzid token)
    answer_token-IsVerified = by_side (bit_and token.flags 1 == 0) refl
      where
        by_side :
            (b : Bool)
            → (bit_and token.flags 1 == 0) ≡ b
            → IsVerified c input authzid (
                if b
                then some (err lib.own_error)
                else go_on (lib.verify token (key_for lib c token)) λ verified.
                  if not (length token.payload == 4)
                  then some (err lib.own_error)
                  else go_on (lib.hmac_bits (key_for lib c token)) λ bits.
                    go_on
                      (lib.sign (reply_token lib bits authzid) (key_for lib c token))
                      λ signed. some (lib.marshal_wrap signed))
        by_side true e = tt
        by_side false e =
            sized_answer (==-false→ne (bit_and token.flags 1) 0 e) (length token.payload == 4) refl
              (lib.verify token (key_for lib c token)) refl

  negotiate-IsVerified :
      (c : GssClient lib) (input authzid : Bytes)
      → IsVerified c input authzid (negotiate_sasl_auth lib c input authzid)
  unfolding negotiate_sasl_auth
  negotiate-IsVerified c input authzid =
      by_token (unmarshal_wrap_token lib.filler_byte 16 input true) refl
        (unmarshal_wrap_token-IsRead lib.filler_byte input true)
    where
      by_token :
          (o : Option (Outcome WrapError WrapToken))
          → unmarshal_wrap_token lib.filler_byte 16 input true ≡ o
          → IsRead input o
          → IsVerified c input authzid (negotiated lib c authzid o)
      by_token none e r = r
      by_token (some (err bad)) e r = tt
      by_token (some (ok token)) e r = answer_token-IsVerified c input authzid token e

  -- The second half of the handshake keeps the client, or gives it the key that the acceptor's AP-REP
  -- holds, decrypted with the session key; it is complete only then.
  abbrev pub IsKeyed : GssClient lib → Bytes → GssStep lib → Type 0
  IsKeyed c input (some (ok (out, false)), c') =
      (token : lib.Token) × (part : lib.EncPart) × (plain : Bytes) × (lib.unmarshal input
        ≡ ok token)
      × (lib.krb_error token ≡ none)
      × (lib.ap_rep token ≡ some part)
      × (lib.decrypt part c.ekey ≡ ok plain)
      × (lib.sub_key plain ≡ ok c'.subkey)
      × (c'.ekey ≡ c.ekey)
  IsKeyed c input (o, c') = c' ≡ c

  second_half-IsKeyed :
      (c : GssClient lib) (target input : Bytes) (options : List ℕ)
      → IsKeyed c input (init_sec_context_with_options lib c target (some input) options)
  unfolding init_sec_context_with_options
  second_half-IsKeyed c target input options = by_token (lib.unmarshal input) refl
    where
      by_key :
          (token : lib.Token) (part : lib.EncPart) (plain : Bytes)
          → lib.unmarshal input ≡ ok token
          → lib.krb_error token ≡ none
          → lib.ap_rep token ≡ some part
          → lib.decrypt part c.ekey ≡ ok plain
          → (o : Outcome lib.Error lib.Key) → lib.sub_key plain ≡ o
          → IsKeyed c input (with_subkey lib c o)
      by_key token part plain t n p d (err e) k = refl
      by_key token part plain t n p d (ok subkey) k = (token, part, plain, t, n, p, d, k, refl)

      by_plain :
          (token : lib.Token) (part : lib.EncPart)
          → lib.unmarshal input ≡ ok token
          → lib.krb_error token ≡ none
          → lib.ap_rep token ≡ some part
          → (o : Outcome lib.Error Bytes) → lib.decrypt part c.ekey ≡ o
          → IsKeyed c input (with_subkey lib c (read_part lib o))
      by_plain token part t n p (err e) d = refl
      by_plain token part t n p (ok plain) d =
          by_key token part plain t n p d (lib.sub_key plain) refl

      by_part :
          (token : lib.Token)
          → lib.unmarshal input ≡ ok token
          → (e : Option lib.Error) → lib.krb_error token ≡ e
          → (o : Option lib.EncPart) → lib.ap_rep token ≡ o
          → IsKeyed c input (second_half lib c e o)
      by_part token t (some e) n o p = refl
      by_part token t none n none p = refl
      by_part token t none n (some part) p =
          by_plain token part t n p (lib.decrypt part c.ekey) refl

      by_token :
          (o : Outcome lib.Error lib.Token)
          → lib.unmarshal input ≡ o
          → IsKeyed c input (read_reply lib c o)
      by_token (err e) t = refl
      by_token (ok token) t = by_part token t (lib.krb_error token) refl (lib.ap_rep token) refl

-- Whatever the acceptor sends: the second half of the handshake is complete only where the token
-- was an AP-REP and no KRB-ERROR, and the key that it holds was decrypted with the session key, and
-- otherwise it leaves the client as it was; and NegotiateSaslAuth never panics, and answers only a
-- token that can be read, that is marked as sent by the acceptor, that has a payload of four bytes
-- and that verifies, under the subkey where its flags say so and under the session key where they
-- do not; the answer is the reply whose payload is four bytes 0, for no security layer, and the
-- name, signed with the same key.
pub handshake-IsVerified :
    (lib : GssLib) (c : GssClient lib) (target input authzid : Bytes) (options : List ℕ)
    → IsKeyed lib c input (init_sec_context_with_options lib c target (some input) options)
      × IsVerified lib c input authzid (negotiate_sasl_auth lib c input authzid)
handshake-IsVerified lib c target input authzid options =
    (second_half-IsKeyed lib c target input options, negotiate-IsVerified lib c input authzid)

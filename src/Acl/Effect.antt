-- ===== src/Acl/Effect.antt =====
-- Grant converges: run again on what it wrote, it finds nothing missing.
use go_adldap.Base.{
  ℕ, ◌+◌, ◌^◌, ◌<◌, ◌≡◌, refl, sym, ap, ◌∙◌, subst, arith, Bool, true, false, ◌||◌, Option, none,
  some, List, [], ◌∷◌, ◌++◌, map, any, All, length, concat, if◌then◌else◌, ok,
}
use go_adldap.Base.Bytes.{Bytes, IsByte}
use go_adldap.Base.Text.{same_text, same_text_refl}
use go_adldap.SecDesc.{Parsed, parse, aces}
use go_adldap.SecDesc.Ace.{DecodedAce, decode_aces, encode_ace, add_aces, IsEncodable}
use go_adldap.SecDesc.Ace.Add.{decode_aces-add_aces}
use go_adldap.Adcore.{Adcore}
use go_adldap.Acl.{
  Ace, ace_of, ace_with, aces_of, cons_ace, decode, decoded_with, has_key, explicit_keys, missing,
  cons_decoded,
}

any-append : (q : Bytes → Bool) (xs ys : List Bytes) → any q (xs ++ ys) ≡ (any q xs || any q ys)
any-append q [] ys = refl
any-append q (x ∷ xs) ys = ground (arith, any-append q xs ys)

aces_of-append : (xs ys : List DecodedAce) → aces_of (xs ++ ys) ≡ aces_of xs ++ aces_of ys
unfolding aces_of
aces_of-append [] ys = refl
aces_of-append (x ∷ xs) ys = by_ace (ace_of x) (aces_of-append xs ys)
  where
    by_ace :
        (a : Option Ace)
        → aces_of (xs ++ ys) ≡ aces_of xs ++ aces_of ys
        → cons_ace a (aces_of (xs ++ ys)) ≡ cons_ace a (aces_of xs) ++ aces_of ys
    by_ace none ih = ih
    by_ace (some a) ih = ap (λ l. a ∷ l) ih

decode_explicit : (ace : Ace) (d : DecodedAce) → decode ace ≡ some d → d.inherited ≡ false
unfolding decode
decode_explicit ace d h = explicit _ _ _ _ h
  where
    explicit :
        (sid : Option Bytes) (mask : Option ℕ) (ot iot : Option Bytes)
        → decoded_with ace sid mask ot iot ≡ some d
        → d.inherited ≡ false
    explicit (some sid) (some mask) (some ot) (some iot) e = cc
    explicit none mask ot iot e = cc
    explicit (some sid) none ot iot e = cc
    explicit (some sid) (some mask) none iot e = cc
    explicit (some sid) (some mask) (some ot) none e = cc

ace_of_inherited : (d : DecodedAce) (a : Ace) → ace_of d ≡ some a → a.inherited ≡ d.inherited
unfolding ace_of
ace_of_inherited d a h = by_sid _ h
  where
    by_sid : (sid : Option Bytes) → ace_with d sid ≡ some a → a.inherited ≡ d.inherited
    by_sid none e = cc
    by_sid (some sid) e = cc

module _ (lib : Adcore) (dnc : Bytes) (canonical_ace_key : Ace → Bytes) where
  abbrev keys : List Ace → List Bytes
  keys = explicit_keys lib dnc canonical_ace_key

  abbrev has : List Bytes → Bytes → Bool
  has = has_key lib dnc canonical_ace_key

  abbrev lacks : List Bytes → List Ace → Option (List DecodedAce)
  lacks = missing lib dnc canonical_ace_key

  explicit_keys-append : (xs ys : List Ace) → keys (xs ++ ys) ≡ keys xs ++ keys ys
  unfolding explicit_keys
  explicit_keys-append [] ys = refl
  explicit_keys-append (x ∷ xs) ys = by_flag x.inherited (explicit_keys-append xs ys)
    where
      by_flag :
          (b : Bool)
          → keys (xs ++ ys) ≡ keys xs ++ keys ys
          → (if b then keys (xs ++ ys) else canonical_ace_key x ∷ keys (xs ++ ys))
            ≡ (if b then keys xs else canonical_ace_key x ∷ keys xs) ++ keys ys
      by_flag true ih = ih
      by_flag false ih = ap (λ l. canonical_ace_key x ∷ l) ih

  -- An entry is written and read back with the key that it was asked for under.
  abbrev pub IsStable : Ace → Type 0
  IsStable ace =
      (d : DecodedAce)
      → decode ace ≡ some d
      → (a : Ace) × (ace_of d ≡ some a) × (canonical_ace_key a ≡ canonical_ace_key ace)

  abbrev Covered : List Bytes → List DecodedAce → Ace → Type 0
  Covered have new ace = has (have ++ keys (aces_of new)) (canonical_ace_key ace) ≡ true

  covered_more :
      (have : List Bytes) (key : Bytes) (new : List Bytes) (k : Bytes)
      → has (have ++ new) k ≡ true
      → has (have ++ (key ∷ new)) k ≡ true
  covered_more have key new k h =
      any-append _ have (key ∷ new)
      ∙ grow (any (λ j. same_text j k) have) (same_text key k) (any (λ j. same_text j k) new)
          (sym (any-append _ have new) ∙ h)
    where
      grow : (a b c : Bool) → (a || c) ≡ true → (a || (b || c)) ≡ true
      grow a b c e = ground arith

  All-covered_more :
      (have : List Bytes) (key : Bytes) (new : List Bytes) (list : List Ace)
      → All (λ ace. has (have ++ new) (canonical_ace_key ace) ≡ true) list
      → All (λ ace. has (have ++ (key ∷ new)) (canonical_ace_key ace) ≡ true) list
  All-covered_more have key new [] h = tt
  All-covered_more have key new (ace ∷ list) (h, rest) =
      (covered_more have key new (canonical_ace_key ace) h, All-covered_more have key new list rest)

  keys_explicit :
      (a : Ace) (l : List Ace) → a.inherited ≡ false → keys (a ∷ l) ≡ canonical_ace_key a ∷ keys l
  unfolding explicit_keys
  keys_explicit a l e = by_flag a.inherited e
    where
      by_flag :
          (b : Bool)
          → b ≡ false
          → (if b then keys l else canonical_ace_key a ∷ keys l) ≡ canonical_ace_key a ∷ keys l
      by_flag false k = refl
      by_flag true k = cc

  -- The keys of the entries behind one that was decoded for an ACE.
  keys_behind :
      (ace : Ace)
      → IsStable ace
      → (d : DecodedAce) (new : List DecodedAce) → decode ace ≡ some d
      → keys (aces_of (d ∷ new)) ≡ canonical_ace_key ace ∷ keys (aces_of new)
  unfolding aces_of
  keys_behind ace stable d new made =
      let (a, e, key) = stable d made in
      let plain : a.inherited ≡ false = ace_of_inherited d a e ∙ decode_explicit ace d made in
      let read : aces_of (d ∷ new) ≡ a ∷ aces_of new = rw e refl in
      ap keys read ∙ keys_explicit a (aces_of new) plain ∙ ap (λ k. k ∷ keys (aces_of new)) key

  key_found : (have new : List Bytes) (key : Bytes) → has (have ++ (key ∷ new)) key ≡ true
  key_found have new key =
      any-append _ have (key ∷ new)
      ∙ rw (same_text_refl key) (or_true (any (λ j. same_text j key) have))
    where
      or_true : (a : Bool) → (a || true) ≡ true
      or_true a = ground arith

  key_kept :
      (have new : List Bytes) (key : Bytes) → has have key ≡ true → has (have ++ new) key ≡ true
  key_kept have new key h = any-append _ have new ∙ rw h refl

  missing-Covered :
      (have : List Bytes) (list : List Ace) (new : List DecodedAce)
      → All IsStable list
      → lacks have list ≡ some new
      → All (Covered have new) list
  unfolding missing
  missing-Covered have [] new stable h = tt
  missing-Covered have (ace ∷ list) new (stable, all_stable) h =
      by_has (has have (canonical_ace_key ace)) refl (decode ace) refl (lacks have list) refl h
        (λ later. missing-Covered have list later all_stable)
    where
      by_has :
          (b : Bool)
          → has have (canonical_ace_key ace) ≡ b
          → (d : Option DecodedAce) → decode ace ≡ d
          → (rest : Option (List DecodedAce)) → lacks have list ≡ rest
          → (if b then rest else cons_decoded lib dnc canonical_ace_key d rest) ≡ some new
          → ((later : List DecodedAce)
              → lacks have list ≡ some later
              → All (Covered have later) list)
          → All (Covered have new) (ace ∷ list)
      by_has true found d made rest k e ih =
          (key_kept have (keys (aces_of new)) (canonical_ace_key ace) found, ih new (k ∙ e))
      by_has false found (some d) made (some later) k e ih =
          let same : new ≡ d ∷ later = cc in
          let all_keys : keys (aces_of new) ≡ canonical_ace_key ace ∷ keys (aces_of later) =
            ap (λ l. keys (aces_of l)) same ∙ keys_behind ace stable d later made in
          subst
            (λ (k : List Bytes).
              All (λ x. has (have ++ k) (canonical_ace_key x) ≡ true) (ace ∷ list))
            (sym all_keys)
            (
              key_found have (keys (aces_of later)) (canonical_ace_key ace),
              All-covered_more have (canonical_ace_key ace) (keys (aces_of later)) list
                  (ih later k),
            )
      by_has false found none made rest k e ih = cc
      by_has false found (some d) made none k e ih = cc

  Covered-missing :
      (have : List Bytes) (list : List Ace)
      → All (λ ace. has have (canonical_ace_key ace) ≡ true) list
      → lacks have list ≡ some []
  unfolding missing
  Covered-missing have [] h = refl
  Covered-missing have (ace ∷ list) (h, rest) = rw h (Covered-missing have list rest)

  -- Where the key under which each entry is asked for is the one that it is read back with: what Grant
  -- adds to a descriptor of bytes, with room and entries that EncodeACE can write faithfully, makes
  -- a second Grant of the same entries find nothing missing.
  pub missing-add_aces :
      (sd : Bytes) (bytes : All IsByte sd) (p : Parsed) (entries : List Bytes)
      → parse sd ≡ ok p
      → aces p.dacl ≡ ok entries
      → (old new : List DecodedAce) → decode_aces sd ≡ ok old
      → (list : List Ace) → All IsStable list
      → lacks (keys (aces_of old)) list ≡ some new
      → All IsEncodable new
      → length p.dacl + length (concat (map encode_ace new)) + 8 < 2 ^ 16
      → (updated : Bytes) (changed : Bool) → add_aces sd new ≡ ok (updated, changed)
      → (after : List DecodedAce) × (decode_aces updated ≡ ok after)
        × (lacks (keys (aces_of after)) list ≡ some [])
  missing-add_aces sd bytes p entries parsed split old new decoded list stable wanted encodable room
        updated changed run =
      (
        old ++ new,
        decode_aces-add_aces sd bytes p entries parsed split new room updated changed run encodable
            old decoded,
        Covered-missing (keys (aces_of (old ++ new))) list (
            subst (λ (k : List Bytes). All (λ ace. has k (canonical_ace_key ace) ≡ true) list)
              (sym (
                ap keys (aces_of-append old new)
                ∙ explicit_keys-append (aces_of old) (aces_of new)))
              (missing-Covered (keys (aces_of old)) list new stable wanted)),
      )

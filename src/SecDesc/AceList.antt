-- ===== src/SecDesc/AceList.antt =====
-- `build_acl` and `aces` are inverse: an ACL built from entries is split into the same entries.
use go_adldap.Base.{
  drop_add, ℕ, zero, suc, ◌+◌, ◌-◌, ◌*◌, ◌^◌, ◌<◌, ◌≤◌, ◌≡◌, refl, ◌∙◌, ap, sym, [], ◌∷◌, ◌++◌,
  List, arith, length, length-append, take, drop, concat, All, All-take, All-drop, ok, ltb-false,
  append_assoc, length-take, length-drop,
}
use go_adldap.Base.Bytes.{
  Bytes, IsByte, slice, get_u16, slice_part, slice_shift, slice-eq-take, take_add, u16_bytes,
  get_u16-u16_bytes,
}
use go_adldap.SecDesc.{aces, aces_from, build_acl, IsAce, IsAcl}
use go_adldap.SecDesc.Codec.{get_u16-append}
use go_adldap.SecDesc.WellFormed.{get_u16-take}

-- The entry at the front of what is left.
size_at :
    (pre a post : Bytes)
    → IsAce a
    → get_u16 (slice (pre ++ (a ++ post)) (length pre + 2) (length pre + 4)) ≡ length a
size_at pre a post v =
    ap get_u16 (slice_shift pre (a ++ post) 2 4) ∙ get_u16-append a post v.long_enough ∙ v.sized

length-three :
    (pre a rest : Bytes) → length (pre ++ (a ++ rest)) ≡ length pre + length a + length rest
length-three pre a rest = omega (arith, length-append pre (a ++ rest), length-append a rest)

aces_from-concat :
    (l : List Bytes) (pre : Bytes)
    → All IsAce l
    → aces_from (length l) (pre ++ concat l) (length pre) ≡ ok l
unfolding aces_from
aces_from-concat [] pre h = refl
aces_from-concat (a ∷ l) pre (v, h) =
    let room = length-three pre a (concat l) in
    let rest : aces_from (length l) (pre ++ (a ++ concat l)) (length pre + length a) ≡ ok l =
      rw (← append_assoc pre a (concat l), ← length-append pre a)
        (aces_from-concat l (pre ++ a) h) in
    rw
      (
        size_at pre a (concat l) v,
        ltb-false (length (pre ++ (a ++ concat l))) (length pre + 4)
            (omega (arith, room, v.long_enough)),
        ltb-false (length a) 4 v.long_enough,
        ltb-false (length (pre ++ (a ++ concat l))) (length pre + length a) (omega (arith, room)),
        slice_part pre a (concat l),
        rest,
      )
      refl

pub length-le-concat : (l : List Bytes) → All IsAce l → 4 * length l ≤ length (concat l)
length-le-concat [] h = omega arith
length-le-concat (a ∷ l) (v, h) =
    omega (arith, length-append a (concat l), v.long_enough, length-le-concat l h)

-- An ACL built from entries is split into exactly these entries, if its size fits 16 bits.
pub aces-build_acl :
    (r : ℕ) (l : List Bytes)
    → All IsAce l
    → 8 + length (concat l) < 2 ^ 16
    → aces (build_acl r l) ≡ ok l
unfolding aces build_acl
aces-build_acl r l h fits =
    rw (get_u16-u16_bytes (length l) (omega (arith, length-le-concat l h))) (
      aces_from-concat l
        (r ∷ 0 ∷ (u16_bytes (8 + length (concat l)) ++ (u16_bytes (length l) ++ (0 ∷ 0 ∷ [])))) h)

pub build_acl-IsAcl :
    (r : ℕ) (l : List Bytes) → 8 + length (concat l) < 2 ^ 16 → IsAcl (build_acl r l)
unfolding build_acl
build_acl-IsAcl r l fits = record {
  long_enough = omega arith;
  sized = omega arith;
  size_u16 = omega arith;
}

-- What `aces` reads: entries with a right header, side by side from the first offset on.
pub record IsSplit (i : ℕ) (acl : Bytes) (off : ℕ) (l : List Bytes) : Type 0 where
  pub entries : All IsAce l
  pub bytes : All (All IsByte) l
  pub counted : length l ≡ i
  pub prefix : take (length (concat l)) (drop off acl) ≡ concat l
  pub inside : off + length (concat l) ≤ length acl

-- One round of the loop that did not fail.
aces_from-suc :
    (acl : Bytes) (i off : ℕ) (l : List Bytes)
    → aces_from (suc i) acl off ≡ ok l
    → (rest : List Bytes) × (aces_from i acl (off + get_u16 (slice acl (off + 2) (off + 4)))
        ≡ ok rest)
      × (l ≡ slice acl off (off + get_u16 (slice acl (off + 2) (off + 4))) ∷ rest)
      × ((4 ≤ get_u16 (slice acl (off + 2) (off + 4)))
          × (off + get_u16 (slice acl (off + 2) (off + 4)) ≤ length acl))
unfolding aces_from
aces_from-suc acl i off l e = ground arith

prefix_step :
    (acl : Bytes) (off n : ℕ) (rest : Bytes)
    → off + n ≤ length acl
    → take (length rest) (drop (off + n) acl) ≡ rest
    → take (length (slice acl off (off + n) ++ rest)) (drop off acl)
      ≡ slice acl off (off + n) ++ rest
prefix_step acl off n rest fits h =
    rw (slice-eq-take acl off n, length-append (take n (drop off acl)) rest, len)
      (take_add n (length rest) (drop off acl)
        ∙ ap (λ l. take n (drop off acl) ++ l)
            (ap (take (length rest)) (sym (drop_add off n acl)) ∙ h))
  where
    len : length (take n (drop off acl)) ≡ n
    len = omega (arith, length-take n (drop off acl), length-drop off acl)

module _ (acl : Bytes) (bytes : All IsByte acl) where
  size_of_entry :
      (off : ℕ) → get_u16 (slice acl (off + 2) (off + 4)) ≡ get_u16 (slice (drop off acl) 2 4)
  size_of_entry off =
      let two : off + 4 - (off + 2) ≡ 2 = omega arith in
      ap get_u16 (ap (λ k. take k (drop (off + 2) acl)) two ∙ ap (take 2) (drop_add off 2 acl))

  entry-IsAce :
      (off n : ℕ)
      → n ≡ get_u16 (slice acl (off + 2) (off + 4))
      → 4 ≤ n
      → off + n ≤ length acl
      → IsAce (slice acl off (off + n))
  entry-IsAce off n e h fits =
      let len : length (take n (drop off acl)) ≡ n =
        omega (arith, length-take n (drop off acl), length-drop off acl) in
      rw (slice-eq-take acl off n) (record {
        long_enough = omega (arith, len);
        sized = get_u16-take (drop off acl) n h ∙ sym (size_of_entry off) ∙ sym e ∙ sym len;
      })

  aces_from-IsSplit :
      (i off : ℕ) (l : List Bytes)
      → off ≤ length acl
      → aces_from i acl off ≡ ok l
      → IsSplit i acl off l
  unfolding aces_from
  aces_from-IsSplit zero off [] h e = record {
    entries = tt;
    bytes = tt;
    counted = refl;
    prefix = refl;
    inside = omega arith;
  }
  aces_from-IsSplit zero off (a ∷ l) h e = cc
  aces_from-IsSplit (suc i) off l h e =
      let n = get_u16 (slice acl (off + 2) (off + 4)) in
      let (rest, tail, cons, (long, fits)) = aces_from-suc acl i off l e in
      let s : IsSplit i acl (off + n) rest = aces_from-IsSplit i (off + n) rest fits tail in
      let len : length (slice acl off (off + n)) ≡ n = omega (
        arith,
        ap length (slice-eq-take acl off n),
        length-take n (drop off acl),
        length-drop off acl,
      ) in
      rw cons (record {
        entries = (entry-IsAce off n refl long fits, s.entries);
        bytes = (
          rw (slice-eq-take acl off n)
              (All-take IsByte n (drop off acl) (All-drop IsByte off acl bytes)),
          s.bytes,
        );
        counted = omega (arith, s.counted);
        prefix = prefix_step acl off n (concat rest) fits s.prefix;
        inside =
            omega (arith, s.inside, len, length-append (slice acl off (off + n)) (concat rest));
      })

-- What `aces` reads from an ACL: entries with a right header that fill a prefix of its body.
pub aces-IsSplit :
    (acl : Bytes) (l : List Bytes)
    → All IsByte acl
    → IsAcl acl
    → aces acl ≡ ok l
    → IsSplit (get_u16 (slice acl 4 6)) acl 8 l
unfolding aces
aces-IsSplit [] l bytes v e = absurd (omega (arith, v.long_enough))
aces-IsSplit (x ∷ acl) l bytes v e = aces_from-IsSplit (x ∷ acl) bytes _ 8 l v.long_enough e

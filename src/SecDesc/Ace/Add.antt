-- ===== src/SecDesc/Ace/Add.antt =====
-- What AddACEs does to a descriptor: the entries that are there stay, byte for byte, and those that
-- are added are read back behind them.
use go_adldap.Base.{
  length-concat-append, both_ok, ◌+◌, ◌^◌, ◌<◌, ◌≡◌, refl, sym, ap, ◌∙◌, Bool, Option, none, some,
  List, [], ◌∷◌, ◌++◌, append-nil, arith, map, if◌then◌else◌, length, length-append, concat,
  is_empty, All, All-append, ok, ◌>>=◌, subst, ok_out,
}
use go_adldap.Base.Bytes.{Bytes, IsByte, get_u16-u16_bytes}
use go_adldap.SecDesc.{Parsed, parse, serialize, aces, IsAce}
use go_adldap.SecDesc.Edit.{
  with_entries, IsEntries, read-IsEntries, IsEdited, Keeps, IsEdited-Keeps, unedited-IsEdited,
  with_entries-IsEdited,
}
use go_adldap.SecDesc.Ace.{
  DecodedAce, decode_ace, cons_known, decode_all, decode_aces, encode_ace, add_aces,
  acl_revision_for, IsEncodable,
}
use go_adldap.SecDesc.Ace.RoundTrip.{decode_ace-encode_ace}

-- A list is decoded entry by entry.
pub decode_all_parts :
    (x : Bytes) (xs : List Bytes) (a : List DecodedAce)
    → decode_all (x ∷ xs) ≡ ok a
    → (d : Option DecodedAce) × (decode_ace x ≡ ok d)
      × (out : List DecodedAce) × (decode_all xs ≡ ok out)
      × (cons_known d out ≡ a)
unfolding decode_all
decode_all_parts x xs a h =
    let (d, e, h') = both_ok (decode_ace x) _ h in
    let (out, k, same) = both_ok (decode_all xs) _ h' in (d, e, out, k, cc)

cons_known-append :
    (d : Option DecodedAce) (xs ys : List DecodedAce)
    → cons_known d (xs ++ ys) ≡ cons_known d xs ++ ys
cons_known-append none xs ys = refl
cons_known-append (some x) xs ys = refl

decode_all-append :
    (xs ys : List Bytes) (a b : List DecodedAce)
    → decode_all xs ≡ ok a
    → decode_all ys ≡ ok b
    → decode_all (xs ++ ys) ≡ ok (a ++ b)
unfolding decode_all
decode_all-append [] ys a b h k = ground arith
decode_all-append (x ∷ xs) ys a b h k =
    let (d, e, out, r, same) = decode_all_parts x xs a h in
    rw (← same, e, decode_all-append xs ys out b r k) (ap ok (cons_known-append d out b))

decode_all-map-encode_ace :
    (add : List DecodedAce) → All IsEncodable add → decode_all (map encode_ace add) ≡ ok add
unfolding decode_all
decode_all-map-encode_ace [] h = refl
decode_all-map-encode_ace (a ∷ add) (v, h) =
    rw (decode_ace-encode_ace a v, decode_all-map-encode_ace add h) refl

-- DecodeACEs decodes the entries of the DACL.
pub decode_aces_lem :
    (sd : Bytes) (p : Parsed) (list : List Bytes)
    → parse sd ≡ ok p
    → aces p.dacl ≡ ok list
    → decode_aces sd ≡ decode_all list
unfolding decode_aces
decode_aces_lem [] p list parsed split = unfold parse in cc
decode_aces_lem (x ∷ sd) p list parsed split = rw parsed (by_dacl p.dacl split)
  where
    by_dacl :
        (dacl : Bytes)
        → aces dacl ≡ ok list
        → (if is_empty dacl then ok [] else aces dacl >>= decode_all) ≡ decode_all list
    by_dacl [] e = unfold aces decode_all in ground arith
    by_dacl (y ∷ dacl) e = rw e refl

encode_ace-IsAce : (a : DecodedAce) → length (encode_ace a) < 2 ^ 16 → IsAce (encode_ace a)
unfolding encode_ace
encode_ace-IsAce a small = record {
  long_enough = omega arith;
  sized = get_u16-u16_bytes _ (omega arith) ∙ omega arith;
}

map-encode_ace-IsAce :
    (add : List DecodedAce)
    → length (concat (map encode_ace add)) < 2 ^ 16
    → All IsAce (map encode_ace add)
map-encode_ace-IsAce [] small = tt
map-encode_ace-IsAce (a ∷ add) small =
    let sum = length-append (encode_ace a) (concat (map encode_ace add)) in
    (
      encode_ace-IsAce a (omega (arith, sum, small)),
      map-encode_ace-IsAce add (omega (arith, sum, small)),
    )

-- The entries after an add: those that were there, and the new ones behind them.
abbrev pub added : List Bytes → List DecodedAce → List Bytes
added list add = list ++ map encode_ace add

module _ (sd : Bytes) (bytes : All IsByte sd) (p : Parsed) (list : List Bytes)
    (parsed : parse sd ≡ ok p) (split : aces p.dacl ≡ ok list) where
  written :
      (add : List DecodedAce)
      → length p.dacl + length (concat (map encode_ace add)) + 8 < 2 ^ 16
      → IsEdited p
          (added list add)
          (serialize (with_entries p (acl_revision_for (added list add)) (added list add)))
  written add room =
      let known : IsEntries p list = read-IsEntries sd p list bytes parsed split in
      with_entries-IsEdited p _ _ known.well_formed
        (All-append IsAce list (map encode_ace add) known.headers
          (map-encode_ace-IsAce add (omega (arith, room))))
        (omega (arith, length-concat-append list (map encode_ace add), known.small, room))

  add_aces_run :
      (add : List DecodedAce) (out : Bytes) (changed : Bool)
      → length p.dacl + length (concat (map encode_ace add)) + 8 < 2 ^ 16
      → add_aces sd add ≡ ok (out, changed)
      → IsEdited p (added list add) out
  unfolding add_aces
  add_aces_run [] out changed room run =
      let same : sd ≡ out = ok_out run in
      rw (← same, append-nil list) (unedited-IsEdited sd p list parsed split)
  add_aces_run (a ∷ add) out changed room run =
      let same : serialize
            (with_entries p (acl_revision_for (added list (a ∷ add))) (added list (a ∷ add)))
          ≡ out =
        ok_out (rw (parsed, split) at run) in
      subst (IsEdited p (added list (a ∷ add))) same (written (a ∷ add) room)

-- AddACEs on a descriptor of bytes whose entries can be read, with room for the new ones.
module _ (sd : Bytes) (bytes : All IsByte sd) (p : Parsed) (list : List Bytes)
    (parsed : parse sd ≡ ok p) (split : aces p.dacl ≡ ok list) (add : List DecodedAce)
    (room : length p.dacl + length (concat (map encode_ace add)) + 8 < 2 ^ 16) (out : Bytes)
    (changed : Bool) (run : add_aces sd add ≡ ok (out, changed)) where
  abbrev result : IsEdited p (added list add) out
  result = add_aces_run sd bytes p list parsed split add out changed room run

  -- On a descriptor of bytes whose entries can be read and decoded, with room for the new ones,
  -- which EncodeACE can write faithfully: the result decodes to the entries that were there,
  -- followed by those that were added.
  pub decode_aces-add_aces :
      All IsEncodable add
      → (old : List DecodedAce) → decode_aces sd ≡ ok old
      → decode_aces out ≡ ok (old ++ add)
  decode_aces-add_aces v old h =
      decode_aces_lem out result.after _ result.parse_after result.split_after
      ∙ decode_all-append list (map encode_ace add) old add
          (sym (decode_aces_lem sd p list parsed split) ∙ h) (decode_all-map-encode_ace add v)

  -- On a descriptor of bytes whose entries can be read, with room for the new ones: version, owner,
  -- group and SACL are kept, and every entry that was there, of a modelled type or not, stays as it
  -- is in front of the new ones.
  add_aces-Keeps : (q : Parsed) → parse out ≡ ok q → Keeps p (added list add) q
  add_aces-Keeps q e = IsEdited-Keeps p _ out q result e

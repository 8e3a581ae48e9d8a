-- ===== src/SecDesc/Protection/Tests.antt =====
-- The protection ACE on a concrete descriptor: one with an empty DACL, as a new object has.
use go_adldap.Base.{◌≡◌, refl, true, false, [], ◌∷◌, arith, Bool, ok, inl, inr, All}
use go_adldap.Base.Bytes.{Bytes, IsByte}
use go_adldap.SecDesc.{Parsed, parse, serialize, aces, part_at, acl_len, build_acl, put, header}
use go_adldap.SecDesc.Codec.{parse-serialize}
use go_adldap.SecDesc.Edit.{with_entries, Keeps}
use go_adldap.SecDesc.Protection.{
  is_protected, set_protected, is_protection_ace, protection_ace, has_prefix,
}
use go_adldap.SecDesc.Protection.Laws.{
  is_protected-set_protected, set_protected-Keeps, set_protected_total,
}

abbrev pub dacl_bytes : Bytes
dacl_bytes = 2 ∷ 0 ∷ 8 ∷ 0 ∷ 0 ∷ 0 ∷ 0 ∷ 0 ∷ []

abbrev pub bare : Parsed
bare = record {
  revision = 1;
  sbz1 = 0;
  control = 0x8004;
  owner = [];
  group = [];
  sacl = [];
  dacl = dacl_bytes;
}

abbrev pub bare_bytes : Bytes
bare_bytes =
    1 ∷ 0 ∷ 4 ∷ 0x80 ∷ 0 ∷ 0 ∷ 0 ∷ 0 ∷ 0 ∷ 0 ∷ 0 ∷ 0 ∷ 0 ∷ 0 ∷ 0 ∷ 0 ∷ 20 ∷ 0 ∷ 0 ∷ 0 ∷ dacl_bytes

abbrev pub guarded : Parsed
guarded = record bare {
  dacl =
      2 ∷ 0 ∷ 28 ∷ 0 ∷ 1 ∷ 0 ∷ 0 ∷ 0 ∷ 1 ∷ 0 ∷ 20 ∷ 0 ∷ 0x40 ∷ 0 ∷ 1 ∷ 0 ∷ 1 ∷ 1 ∷ 0 ∷ 0 ∷ 0 ∷ 0 ∷ 0
      ∷ 1 ∷ 0 ∷ 0 ∷ 0 ∷ 0 ∷ [];
}

abbrev pub guarded_bytes : Bytes
guarded_bytes =
    1 ∷ 0 ∷ 4 ∷ 0x80 ∷ 0 ∷ 0 ∷ 0 ∷ 0 ∷ 0 ∷ 0 ∷ 0 ∷ 0 ∷ 0 ∷ 0 ∷ 0 ∷ 0 ∷ 20 ∷ 0 ∷ 0 ∷ 0 ∷ 2 ∷ 0 ∷ 28
    ∷ 0 ∷ 1 ∷ 0 ∷ 0 ∷ 0 ∷ 1 ∷ 0 ∷ 20 ∷ 0 ∷ 0x40 ∷ 0 ∷ 1 ∷ 0 ∷ 1 ∷ 1 ∷ 0 ∷ 0 ∷ 0 ∷ 0 ∷ 0 ∷ 1 ∷ 0 ∷ 0
    ∷ 0 ∷ 0 ∷ []

pub bare_parsed : parse bare_bytes ≡ ok bare
unfolding parse part_at acl_len
bare_parsed = refl

pub bare_entries : aces dacl_bytes ≡ ok []
unfolding aces
bare_entries = refl

guarded_parsed : parse guarded_bytes ≡ ok guarded
unfolding parse part_at acl_len
guarded_parsed = refl

protect_bare : set_protected bare_bytes true ≡ ok (guarded_bytes, true)
unfolding set_protected parse part_at acl_len aces is_protection_ace protection_ace with_entries
    build_acl serialize put header
protect_bare = refl

unprotect_guarded : set_protected guarded_bytes false ≡ ok (bare_bytes, true)
unfolding set_protected parse part_at acl_len aces is_protection_ace protection_ace with_entries
    build_acl serialize put header has_prefix
unprotect_guarded = refl

parse-serialize_example : parse (serialize guarded) ≡ ok guarded
parse-serialize_example = parse-serialize guarded (record {
  control_u16 = omega arith;
  self_relative = omega arith;
  owner_sid = inl refl;
  group_sid = inl refl;
  sacl_acl = inl refl;
  dacl_acl = inr (omega arith);
})

is_protected-set_protected_example : is_protected guarded_bytes ≡ ok true
is_protected-set_protected_example =
    is_protected-set_protected bare_bytes (omega arith) bare [] bare_parsed bare_entries
      (omega arith) true guarded_bytes true protect_bare

set_protected-Keeps_example :
    Keeps bare (protection_ace ∷ []) guarded × (true ≡ false → guarded_bytes ≡ bare_bytes)
set_protected-Keeps_example =
    set_protected-Keeps bare_bytes (omega arith) bare [] bare_parsed bare_entries (omega arith) true
      guarded_bytes true protect_bare guarded guarded_parsed

bare_written-IsByte : All IsByte (serialize (with_entries bare 2 []))
unfolding with_entries build_acl serialize put header
bare_written-IsByte = omega arith

set_protected_total_example :
    (out : Bytes) × (changed : Bool) × (set_protected (serialize (with_entries bare 2 [])) true
      ≡ ok (out, changed))
    × (is_protected out ≡ ok true)
    × (set_protected out true ≡ ok (out, false))
set_protected_total_example =
    set_protected_total bare 2 []
      (record {
        control_u16 = omega arith;
        self_relative = omega arith;
        owner_sid = inl refl;
        group_sid = inl refl;
        sacl_acl = inl refl;
        dacl_acl = inr (omega arith);
      })
      tt bare_written-IsByte (omega arith) true

-- ===== src/SecDesc/Edit.antt =====
-- What every operation that changes a descriptor does at its end: it puts an ACL around a new list of
-- entries, marks the DACL present, and writes the descriptor.
use go_adldap.Base.{
  ℕ, ◌+◌, ◌^◌, ◌<◌, ◌≤◌, ◌≡◌, refl, ◌⊎◌, inl, inr, [], List, arith, length, concat, All, Outcome,
  ok, ◌>>=◌, bit_or,
}
use go_adldap.Base.Bytes.{Bytes, IsByte}
use go_adldap.Base.Bits.{bit_or-lt, flag_set}
use go_adldap.SecDesc.{
  SdError, Parsed, parse, serialize, aces, build_acl, IsAce, IsAcl, IsWellFormed,
  control_dacl_present,
}
use go_adldap.SecDesc.Codec.{parse-serialize}
use go_adldap.SecDesc.WellFormed.{parse-IsWellFormed, dacl-IsByte}
use go_adldap.SecDesc.AceList.{aces-build_acl, build_acl-IsAcl, aces-IsSplit, IsSplit}

-- `p.dacl = buildACL(revision, list); p.control |= controlDACLPresent`
unfoldable pub with_entries : Parsed → ℕ → List Bytes → Parsed
with_entries p revision list = record p {
  control = bit_or p.control control_dacl_present;
  dacl = build_acl revision list;
}

-- The entries of a descriptor's DACL, as the readers of the package take them.
unfoldable pub entries : Bytes → Outcome SdError (List Bytes)
entries sd = do p ← parse sd; aces p.dacl

module _ (p : Parsed) (r : ℕ) (list : List Bytes) (v : IsWellFormed p) (a : All IsAce list)
    (fits : 8 + length (concat list) < 2 ^ 16) where
  with_entries-IsWellFormed : IsWellFormed (with_entries p r list)
  unfolding with_entries
  with_entries-IsWellFormed = record {
    control_u16 = bit_or-lt 16 p.control 4 v.control_u16 (omega arith);
    self_relative = flag_set 15 p.control 4 v.self_relative;
    owner_sid = v.owner_sid;
    group_sid = v.group_sid;
    sacl_acl = v.sacl_acl;
    dacl_acl = inr (build_acl-IsAcl r list fits);
  }

  pub parse-with_entries : parse (serialize (with_entries p r list)) ≡ ok (with_entries p r list)
  parse-with_entries = parse-serialize (with_entries p r list) with_entries-IsWellFormed

  pub aces-with_entries : aces (with_entries p r list).dacl ≡ ok list
  unfolding with_entries
  aces-with_entries = aces-build_acl r list a fits

  -- The new entries are the entries of what is written.
  pub entries-with_entries : entries (serialize (with_entries p r list)) ≡ ok list
  unfolding entries
  entries-with_entries = rw parse-with_entries (unfold with_entries in aces-build_acl r list a fits)

-- What is known of the entries that were read.
pub record IsEntries (p : Parsed) (list : List Bytes) : Type 0 where
  pub well_formed : IsWellFormed p
  pub headers : All IsAce list
  pub bytes : All (All IsByte) list
  pub small : length (concat list) ≤ length p.dacl

pub read-IsEntries :
    (sd : Bytes) (p : Parsed) (list : List Bytes)
    → All IsByte sd
    → parse sd ≡ ok p
    → aces p.dacl ≡ ok list
    → IsEntries p list
read-IsEntries sd p list bytes h e =
    let v : IsWellFormed p = parse-IsWellFormed sd p bytes h in split v v.dacl_acl
  where
    split : IsWellFormed p → (p.dacl ≡ []) ⊎ IsAcl p.dacl → IsEntries p list
    split v (inl none_there) =
        let l : [] ≡ list = unfold aces in ground arith in
        record {
          well_formed = v;
          headers = rw (← l) tt;
          bytes = rw (← l) tt;
          small = rw (← l) (omega arith);
        }
    split v (inr acl) =
        let s : IsSplit _ p.dacl 8 list =
          aces-IsSplit p.dacl list (dacl-IsByte sd p bytes h) acl e in
        record {
          well_formed = v;
          headers = s.entries;
          bytes = s.bytes;
          small = omega (arith, s.inside);
        }

-- What a descriptor reads back as after an edit of `p`: everything but the DACL and its flag is that
-- of `p`, and the entries are `list`.
pub record IsEdited (p : Parsed) (list : List Bytes) (out : Bytes) : Type 0 where
  pub after : Parsed
  pub parse_after : parse out ≡ ok after
  pub revision : after.revision ≡ p.revision
  pub sbz1 : after.sbz1 ≡ p.sbz1
  pub owner : after.owner ≡ p.owner
  pub group : after.group ≡ p.group
  pub sacl : after.sacl ≡ p.sacl
  pub split_after : aces after.dacl ≡ ok list

pub unedited-IsEdited :
    (sd : Bytes) (p : Parsed) (list : List Bytes)
    → parse sd ≡ ok p
    → aces p.dacl ≡ ok list
    → IsEdited p list sd
unedited-IsEdited sd p list parsed split = record {
  after = p;
  parse_after = parsed;
  revision = refl;
  sbz1 = refl;
  owner = refl;
  group = refl;
  sacl = refl;
  split_after = split;
}

pub with_entries-IsEdited :
    (p : Parsed) (r : ℕ) (list : List Bytes)
    → IsWellFormed p
    → All IsAce list
    → 8 + length (concat list) < 2 ^ 16
    → IsEdited p list (serialize (with_entries p r list))
with_entries-IsEdited p r list v a fits = record {
  after = with_entries p r list;
  parse_after = parse-with_entries p r list v a fits;
  revision = unfold with_entries in refl;
  sbz1 = unfold with_entries in refl;
  owner = unfold with_entries in refl;
  group = unfold with_entries in refl;
  sacl = unfold with_entries in refl;
  split_after = aces-with_entries p r list v a fits;
}

-- The parts that an edit must not touch, and the entries that it leaves.
abbrev pub Keeps : Parsed → List Bytes → Parsed → Type 0
Keeps p list q =
    (q.revision ≡ p.revision)
    × (q.sbz1 ≡ p.sbz1)
    × (q.owner ≡ p.owner)
    × (q.group ≡ p.group)
    × (q.sacl ≡ p.sacl)
    × (aces q.dacl ≡ ok list)

pub IsEdited-Keeps :
    (p : Parsed) (list : List Bytes) (out : Bytes) (q : Parsed)
    → IsEdited p list out
    → parse out ≡ ok q
    → Keeps p list q
IsEdited-Keeps p list out q e h =
    let same : e.after ≡ q = cc (e.parse_after) in
    rw (← same) (e.revision, e.sbz1, e.owner, e.group, e.sacl, e.split_after)

-- ===== src/Tombstone.antt =====
-- tombstone.go: the search for deleted objects, and what an already-exists error is annotated with.
pub mod Laws
use go_adldap.Base.{true, not, List, [], ◌∷◌, ◌++◌, map, is_empty, if◌then◌else◌, Outcome, ok, err}
use go_adldap.Base.Bytes.{Bytes}
use go_adldap.Base.Text.{codes}
use go_adldap.Directory.{
  scope_subtree, Entry, first, Control, SearchRequest, OpError, search, Reply, Proc, call, pure,
  fail, attempt, ◌>>=◌,
}
use go_adldap.Adcore.{Adcore, is_kind_already_exists}

pub record DeletedMatch : Type 0 where
  pub dn : Bytes
  pub last_known_parent : Bytes

abbrev pub control_show_deleted : Control
control_show_deleted = record { oid = codes "1.2.840.113556.1.4.417"; critical = true; value = [] }

abbrev pub deleted_request : Bytes → Bytes → SearchRequest
deleted_request dnc filter = record {
  base_dn = dnc;
  scope = scope_subtree;
  filter = filter;
  attributes = codes "distinguishedName" ∷ codes "lastKnownParent" ∷ [];
  size_limit = 16;
  controls = control_show_deleted ∷ [];
}

abbrev deleted_match : Entry → DeletedMatch
deleted_match e = record { dn = e.dn; last_known_parent = first e (codes "lastKnownParent") }

abbrev pub deleted_matches : Reply → Proc (List DeletedMatch)
deleted_matches (err e) = fail e
deleted_matches (ok entries) = pure (map deleted_match entries)

unfoldable pub probe_deleted : Bytes → Bytes → Proc (List DeletedMatch)
probe_deleted dnc filter = call (search (deleted_request dnc filter)) deleted_matches

-- The error with what the probe found: its failure is swallowed.
abbrev pub tombstone : OpError → Outcome OpError (List DeletedMatch) → OpError
tombstone e (err probe_err) = e
tombstone e (ok []) = e
tombstone e (ok (m ∷ matches)) = record e { tombstoned = true; target = m.dn }

-- The error that the create returns.
unfoldable pub annotate_already_exists : Bytes → OpError → Bytes → Bytes → Proc OpError
annotate_already_exists dnc e dn filter =
    if not (is_kind_already_exists e.kind)
    then pure e
    else let e' = record e { target = if is_empty e.target then dn else e.target } in
      attempt (probe_deleted dnc filter) >>= λ found. pure (tombstone e' found)

pub deleted_filter : Adcore → Bytes → Bytes → Bytes → Bytes
deleted_filter lib object_class name container =
    codes "(&(isDeleted=TRUE)"
    ++ (lib.equal (codes "objectClass") object_class
        ++ (lib.equal (codes "lastKnownParent") container
            ++ (codes "(name=" ++ (lib.escape_filter name ++ codes "*))"))))

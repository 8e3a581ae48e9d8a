-- ===== src/Search.antt =====
-- search.go: filters, the search for one object by its identity, and the search for many.
pub mod Laws
pub mod Found
pub mod Tests
use go_adldap.Base.{
  ℕ, ◌+◌, ◌/◌, ◌%◌, Bool, true, false, Option, none, some, List, [], ◌∷◌, ◌++◌, ltb, if◌then◌else◌,
  length, is_empty, Outcome, ok, err,
}
use go_adldap.Base.Bytes.{Bytes}
use go_adldap.Base.Text.{codes, same_text}
use go_adldap.LdapErr.{constraint, not_found, too_many_results}
use go_adldap.Guid.{hex_digit, guid_to_bytes}
use go_adldap.Directory.{
  Scope, scope_base, scope_one_level, scope_subtree, Entry, Control, SearchRequest, Identity,
  by_guid, by_sid, by_sam, by_dn, OpError, op_error, Request, search, Reply, Proc, done, call, pure,
  fail, ◌>>=◌,
}
use go_adldap.Adcore.{
  Adcore, Query, SearchScope, search_scope_base, search_scope_one_level, search_scope_subtree,
  is_kind_not_found, is_kind_too_many,
}

pub scope_of : SearchScope → Scope
scope_of search_scope_base = scope_base
scope_of search_scope_one_level = scope_one_level
scope_of search_scope_subtree = scope_subtree

unfoldable pub escape_binary : Bytes → Bytes
escape_binary [] = []
escape_binary (x ∷ b) = 92 ∷ hex_digit (x / 16) ∷ hex_digit (x % 16) ∷ escape_binary b

module _ (lib : Adcore) where
  unfoldable pub class_term : Bytes → Bytes
  class_term object_class =
      if same_text object_class (codes "*")
      then codes "(objectClass=*)"
      else lib.equal (codes "objectClass") object_class

  abbrev guid_filter : Option Bytes → Option Bytes
  guid_filter none = none
  guid_filter (some b) = some (codes "(objectGUID=" ++ (escape_binary b ++ codes ")"))

  unfoldable pub identity_filter : Identity → Option Bytes
  identity_filter (by_guid arg) = guid_filter (guid_to_bytes arg)
  identity_filter (by_sid arg) = some (lib.equal (codes "objectSid") arg)
  identity_filter (by_sam arg) = some (lib.equal (codes "sAMAccountName") arg)
  identity_filter (by_dn arg) = some (lib.equal (codes "distinguishedName") arg)

  -- The switch on the number of entries.
  abbrev pub the_only : List Entry → Proc Entry
  the_only [] = fail (op_error not_found)
  the_only (e ∷ []) = pure e
  the_only (e ∷ other ∷ entries) = fail (op_error constraint)

  abbrev pub found_one : Identity → Reply → Proc Entry
  found_one id (ok entries) = the_only entries
  found_one id (err e) =
      if is_kind_not_found e.kind then fail (op_error not_found) else fail (lib.with_identity e id)

  module _ (dnc : Bytes) where
    abbrev pub one_request : Bytes → Bytes → List Bytes → List Control → SearchRequest
    one_request object_class filter want controls = record {
      base_dn = dnc;
      scope = scope_subtree;
      filter = lib.and_filter (class_term object_class) filter;
      attributes = want;
      size_limit = 2;
      controls = controls;
    }

    unfoldable pub get_one : Identity → Bytes → List Bytes → List Control → Proc Entry
    get_one id object_class want controls = elim (identity_filter id) [
      | none ↦ fail (op_error constraint)
      | some f ↦ call (search (one_request object_class f want controls)) (found_one id)
    ]

    unfoldable pub resolve_dn : Identity → Proc Bytes
    resolve_dn (by_dn arg) = pure arg
    resolve_dn id = do e ← get_one id (codes "*") (codes "distinguishedName" ∷ []) []; pure e.dn

    abbrev pub found_many : ℕ → Reply → Proc (List Entry)
    found_many limit (ok entries) =
        if ltb limit (length entries) then fail (op_error too_many_results) else pure entries
    found_many limit (err e) =
        if is_kind_too_many e.kind then fail (op_error too_many_results) else fail e

    abbrev pub many_request : Query → Bytes → List Bytes → List Control → SearchRequest
    many_request q object_class want controls = record {
      base_dn = q.search_base;
      scope = scope_of q.scope;
      filter =
          if is_empty q.filter
          then class_term object_class
          else lib.and_filter (class_term object_class) q.filter;
      attributes = want;
      size_limit = q.size_limit + 1;
      controls = controls;
    }

    unfoldable pub search_entries : Query → Bytes → List Bytes → List Control → Proc (List Entry)
    search_entries query object_class want controls =
        let q = lib.with_defaults query dnc in
        call (search (many_request q object_class want controls)) (found_many q.size_limit)

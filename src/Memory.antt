-- ===== src/Memory.antt =====
-- internal/adtest/memory.go: the directory in memory that the repository's tests run against, with the
-- names of internal/adtest/server.go. A map is a list of its keys, in some order. The lock is left out.
pub mod Pages
pub mod Retrieval
pub mod Store
pub mod Move
pub mod Changes
use go_adldap.Base.{
  ℕ, zero, suc, ◌+◌, ◌-◌, ◌^◌, Bool, true, false, not, ◌&&◌, ◌||◌, Option, none, some, List, [],
  ◌∷◌, ◌++◌, ◌==◌, leb, if◌then◌else◌, length, take, drop, min, map, any, filter, is_empty, Outcome,
  ok, err,
}
use go_adldap.Base.Bytes.{Bytes}
use go_adldap.Base.Text.{
  codes, same_text, equal_fold, to_lower, starts_with, trim_left, trim_right, decimal,
}
use go_adldap.FileTime.{parse_int64}
use go_adldap.Ranged.{range_option, split_once}
use go_adldap.Tombstone.{control_show_deleted}
use go_adldap.Directory.{
  Scope, scope_base, scope_one_level, scope_subtree, Entry, SearchRequest, lookup, Control,
}

abbrev pub Attrs : Type 0
Attrs = List (Bytes × List Bytes)

pub record MemServer : Type 0 where
  pub entries : List (Bytes × Attrs)
  pub seq : ℕ
  pub range_limit : ℕ

-- strings.Split at commas, with every part trimmed and put together again.
abbrev trimmed : Bytes → Bytes
trimmed s = trim_right (trim_left s)

unfoldable pub normalize_from : Bytes → Bytes → Bytes
normalize_from part [] = trimmed part
normalize_from part (c ∷ s) =
    let comma = trimmed part ++ (44 ∷ normalize_from [] s) in
    let rest = normalize_from (part ++ (c ∷ [])) s in if c == 44 then comma else rest

unfoldable pub normalize_dn : Bytes → Bytes
normalize_dn dn = normalize_from [] dn

unfoldable pub equal_fold_dn : Bytes → Bytes → Bool
equal_fold_dn a b = equal_fold (normalize_dn a) (normalize_dn b)

-- strings.HasSuffix.
abbrev has_suffix : Bytes → Bytes → Bool
has_suffix s suffix =
    leb (length suffix) (length s) && same_text (drop (length s - length suffix) s) suffix

pub is_under : Bytes → Bytes → Bool
is_under dn base =
    equal_fold_dn dn base
    || has_suffix (to_lower (normalize_dn dn)) (44 ∷ to_lower (normalize_dn base))

pub is_child_of : Bytes → Bytes → Bool
is_child_of dn base =
    if not (is_under dn base) || equal_fold_dn dn base
    then false
    else not (
        any (λ c. c == 44)
          (take (length (normalize_dn dn) - length (normalize_dn base) - 1) (normalize_dn dn)))

abbrev pub in_scope : Scope → Bytes → Bytes → Bool
in_scope scope_base dn base = equal_fold_dn dn base
in_scope scope_one_level dn base = is_child_of dn base
in_scope scope_subtree dn base = is_under dn base

-- What comes before the first semicolon of an attribute's description.
unfoldable pub base_attr : Bytes → Bytes
base_attr [] = []
base_attr (c ∷ s) = let rest = base_attr s in if c == 59 then [] else c ∷ rest

abbrev pub is_wanted_key : List Bytes → Bytes → Bool
is_wanted_key want k = any (λ w. same_text w (codes "*") || equal_fold (base_attr w) k) want

unfoldable pub project : Attrs → List Bytes → Attrs
project attrs want = if is_empty want then attrs else filter (λ (k, v). is_wanted_key want k) attrs

-- What follows the first ";range=", in any case.
unfoldable pub after_range : Bytes → Option Bytes
after_range [] = none
after_range (c ∷ s) =
    let rest = after_range s in
    if starts_with (to_lower (c ∷ s)) range_option
    then some (drop (length range_option) (c ∷ s))
    else rest

-- A number that does not parse leaves the position 0; none is a negative one.
abbrev pub position : Option ℕ → Option ℕ
position none = some 0
position (some w) = if leb (2 ^ 63) w then none else some w

abbrev pub from_spec : Option (Bytes × Bytes) → Option ℕ
from_spec none = some 0
from_spec (some (lo, hi)) = position (parse_int64 lo)

abbrev pub from_range : Option Bytes → Option ℕ
from_range none = some 0
from_range (some spec) = from_spec (split_once spec)

-- The position that a description asks for, 0 where it asks for none.
unfoldable pub range_start : Bytes → Option ℕ
range_start w = from_range (after_range w)

-- `out[k] = v`
unfoldable pub set_attr : Bytes → List Bytes → Attrs → Attrs
set_attr k v [] = (k, v) ∷ []
set_attr k v ((have, old) ∷ attrs) =
    let rest = set_attr k v attrs in
    if same_text have k then (have, v) ∷ attrs else (have, old) ∷ rest

-- `delete(out, k)`
abbrev pub delete_key : Bytes → Attrs → Attrs
delete_key k attrs = filter (λ (have, v). not (same_text have k)) attrs

-- The key and the values of one page.
abbrev pub page_for : Bytes → List Bytes → ℕ → ℕ → Bytes × List Bytes
page_for base vals limit lo =
    if leb (length vals) (lo + limit)
    then (base ++ (range_option ++ (decimal 20 lo ++ codes "-*")), drop lo vals)
    else (
      base ++ (range_option ++ (decimal 20 lo ++ (45 ∷ decimal 20 (lo + limit - 1)))),
      take limit (drop lo vals),
    )

abbrev pub put_page : Bytes → Attrs → Bytes × List Bytes → Attrs
put_page base out (k, v) = set_attr k v (delete_key base out)

-- A slice from a negative position on panics.
abbrev pub paged : Bytes → List Bytes → ℕ → Attrs → Option ℕ → Option Attrs
paged base vals limit out none = none
paged base vals limit out (some lo) =
    some (put_page base out (page_for base vals limit (min lo (length vals))))

-- One turn of the loop over what is wanted.
abbrev pub page_wanted : Bytes → ℕ → Attrs → Option (List Bytes) → Option Attrs
page_wanted w limit out none = some out
page_wanted w limit out (some vals) =
    if leb (length vals) limit then some out else paged (base_attr w) vals limit out (range_start w)

abbrev pub next_turn : (Attrs → Option Attrs) → Option Attrs → Option Attrs
next_turn f none = none
next_turn f (some out) = f out

unfoldable pub page_all : Attrs → ℕ → List Bytes → Attrs → Option Attrs
page_all attrs limit [] out = some out
page_all attrs limit (w ∷ want) out =
    next_turn (page_all attrs limit want) (page_wanted w limit out (lookup (base_attr w) attrs))

-- rangePages; none is the panic of a negative position.
unfoldable pub range_pages : Attrs → List Bytes → ℕ → Option Attrs
range_pages attrs want limit = if limit == 0 then some attrs else page_all attrs limit want attrs

-- lookupFold, with the values of a key that is found.
unfoldable pub lookup_fold : Attrs → Bytes → Option (List Bytes)
lookup_fold [] name = none
lookup_fold ((k, v) ∷ attrs) name =
    let rest = lookup_fold attrs name in if equal_fold k name then some v else rest

abbrev says_true : Option (List Bytes) → Bool
says_true (some (x ∷ v)) = equal_fold x (codes "TRUE")
says_true o = false

unfoldable pub is_tombstone : Attrs → Bool
is_tombstone attrs = says_true (lookup_fold attrs (codes "isDeleted"))

pub has_control : List Control → Bytes → Bool
has_control controls oid = any (λ c. same_text c.oid oid) controls

unfoldable pub exists_locked : MemServer → Bytes → Bool
exists_locked m dn = any (λ (have, attrs). equal_fold_dn have dn) m.entries

abbrev dnc : Bytes
dnc = codes "DC=corp,DC=local"

abbrev pub root_dse : Entry
root_dse = record {
  dn = [];
  attrs =
      (codes "defaultNamingContext", dnc ∷ [])
      ∷ (codes "dnsHostName", codes "dc01.corp.local" ∷ [])
      ∷ (codes "schemaNamingContext", (codes "CN=Schema,CN=Configuration," ++ dnc) ∷ [])
      ∷ (codes "configurationNamingContext", (codes "CN=Configuration," ++ dnc) ∷ [])
      ∷ [];
}

abbrev is_base : Scope → Bool
is_base scope_base = true
is_base scope = false

-- Search, by the test of a filter. An error is its result code; none is a panic.
module _ (match_filter : Bytes → Attrs → Bool) where
  abbrev pub is_found : SearchRequest → Bytes × Attrs → Bool
  is_found r (dn, attrs) =
      in_scope r.scope dn r.base_dn
      && (not (is_tombstone attrs && not (has_control r.controls control_show_deleted.oid))
          && match_filter r.filter attrs)

  abbrev pub entry_with : Bytes → Option Attrs → Option Entry
  entry_with dn none = none
  entry_with dn (some attrs) = some (record { dn = dn; attrs = attrs })

  abbrev pub cons_entry : Option Entry → Option (List Entry) → Option (List Entry)
  cons_entry (some e) (some entries) = some (e ∷ entries)
  cons_entry e entries = none

  -- The loop over the entries that are found.
  unfoldable pub answers : SearchRequest → ℕ → List (Bytes × Attrs) → Option (List Entry)
  answers r limit [] = some []
  answers r limit ((dn, attrs) ∷ entries) =
      cons_entry (entry_with dn (range_pages (project attrs r.attributes) r.attributes limit))
        (answers r limit entries)

  abbrev pub search_result :
      MemServer → SearchRequest → Option (List Entry) → Option (Outcome ℕ (List Entry))
  search_result m r none = none
  search_result m r (some out) =
      if is_empty out && (is_base r.scope && not (exists_locked m r.base_dn))
      then some (err 32)
      else if leb 1 r.size_limit && not (leb (length out) r.size_limit)
      then some (err 4)
      else some (ok out)

  unfoldable pub memory_search : MemServer → SearchRequest → Option (Outcome ℕ (List Entry))
  memory_search m r =
      if is_empty r.base_dn && is_base r.scope
      then some (ok (root_dse ∷ []))
      else search_result m r (answers r m.range_limit (filter (is_found r) m.entries))

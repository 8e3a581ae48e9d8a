-- ===== src/Ranged.antt =====
-- ranged.go: the values of an attribute that the domain controller hands out in pages.
pub mod Keys
pub mod Paging
mod Tests
use go_adldap.Base.{
  ℕ, zero, suc, ◌+◌, Bool, true, false, not, ◌||◌, Option, none, some, List, [], ◌∷◌, ◌++◌, ◌==◌,
  if◌then◌else◌, length, drop, is_empty, Outcome, ok, err,
}
use go_adldap.Base.Bytes.{Bytes}
use go_adldap.Base.Text.{codes, same_text, to_lower, starts_with, decimal}
use go_adldap.LdapErr.{constraint, transport}
use go_adldap.GroupType.{parse_int}
use go_adldap.Directory.{
  scope_base, Entry, SearchRequest, OpError, op_error, op_error_at, Request, search, Reply, Proc,
  done, call, pure, fail, lookup,
}

abbrev pub range_option : Bytes
range_option = codes ";range="

abbrev pub cut_after : ℕ → Option (Bytes × Bytes) → Option (Bytes × Bytes)
cut_after c none = none
cut_after c (some (a, b)) = some (c ∷ a, b)

-- strings.SplitN(spec, "-", 2), where it gives two parts.
unfoldable pub split_once : Bytes → Option (Bytes × Bytes)
split_once [] = none
split_once (c ∷ s) = let rest = split_once s in if c == 45 then some ([], s) else cut_after c rest

-- strconv.Atoi gives no error.
abbrev pub is_int : Option ℕ → Bool
is_int none = false
is_int (some n) = true

abbrev pub last_page : Bytes → Option (Bytes × Bytes) → Option (Bytes × Bool)
last_page k none = none
last_page k (some (lo, hi)) =
    if same_text hi (codes "*")
    then some (k, true)
    else if is_int (parse_int hi)
    then some (k, false)
    else none

-- The loop over the keys; an option that is malformed is an error.
unfoldable pub scan_keys : Bytes → Bytes → List (Bytes × List Bytes) → Option (Bytes × Bool)
scan_keys attr prefix [] = some (attr, true)
scan_keys attr prefix ((k, v) ∷ attrs) =
    let rest = scan_keys attr prefix attrs in
    if starts_with (to_lower k) prefix
    then last_page k (split_once (drop (length prefix) (to_lower k)))
    else rest

abbrev pub in_attrs :
    Bytes → Bytes → List (Bytes × List Bytes) → Option (List Bytes) → Option (Bytes × Bool)
in_attrs attr prefix attrs (some v) = some (attr, true)
in_attrs attr prefix attrs none = scan_keys attr prefix attrs

unfoldable pub find_ranged_attr : Entry → Bytes → Option (Bytes × Bool)
find_ranged_attr e attr =
    in_attrs attr (to_lower attr ++ range_option) e.attrs (lookup attr e.attrs)

abbrev pub ranged_request : Bytes → Bytes → ℕ → SearchRequest
ranged_request dn attr lo = record {
  base_dn = dn;
  scope = scope_base;
  filter = codes "(objectClass=*)";
  attributes = (attr ++ (range_option ++ (decimal 20 lo ++ codes "-*"))) ∷ [];
  size_limit = 1;
  controls = [];
}

-- `e.Attrs[key]`
abbrev pub values_at : Option (List Bytes) → List Bytes
values_at none = []
values_at (some v) = v

-- What one page says: an error, the end of the loop, or the page with the next one to read.
abbrev pub after_page :
    Bytes
    → List Bytes
    → Entry
    → Option (Bytes × Bool)
    → (ℕ → Proc (Option (List Bytes)))
    → Proc (Option (List Bytes))
after_page dn out e none next = fail (op_error_at constraint dn)
after_page dn out e (some (key, last)) next =
    let vals = values_at (lookup key e.attrs) in
    if last || is_empty vals then pure (some (out ++ vals)) else next (length vals)

-- An object that is gone is an error of the operation's own, which withConn classifies as one of
-- transport.
abbrev pub page_of :
    Bytes
    → Bytes
    → List Bytes
    → (Entry → ℕ → Proc (Option (List Bytes)))
    → Reply
    → Proc (Option (List Bytes))
page_of dn attr out next (err e) = fail e
page_of dn attr out next (ok []) = fail (op_error transport)
page_of dn attr out next (ok (e ∷ entries)) = after_page dn out e (find_ranged_attr e attr) (next e)

abbrev pub page_values : Bytes → Entry → List Bytes
page_values attr e = elim (find_ranged_attr e attr) [
  | none ↦ []
  | some (key, last) ↦ values_at (lookup key e.attrs)
]

-- The loop, from `lo` on with what was read; none where the fuel for its pages does not suffice.
unfoldable pub ranged_from : ℕ → Bytes → Bytes → ℕ → List Bytes → Proc (Option (List Bytes))
ranged_from zero dn attr lo out = pure none
ranged_from (suc fuel) dn attr lo out =
    call (search (ranged_request dn attr lo))
      (page_of dn attr out (λ e n. ranged_from fuel dn attr (lo + n) (out ++ page_values attr e)))

unfoldable pub ranged_values : ℕ → Bytes → Bytes → Proc (Option (List Bytes))
ranged_values fuel dn attr = ranged_from fuel dn attr 0 []

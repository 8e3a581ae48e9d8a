-- ===== src/Directory.antt =====
-- internal/conn/conn.go and the errors of the operations: the requests of one operation to the
-- pinned domain controller, and the operation as a tree of them.
pub mod Logic
use go_adldap.Base.{
  ℕ, Bool, true, false, Option, none, some, List, [], ◌∷◌, ◌&&◌, not, if◌then◌else◌, is_empty,
  Outcome, ok, err,
}
use go_adldap.Base.Bytes.{Bytes}
use go_adldap.Base.Text.{same_text, equal_fold, codes}
use go_adldap.LdapErr.{Kind, constraint, denied, not_found, transport, too_many_results}

pub data Scope : Type 0 where
  scope_base scope_one_level scope_subtree : Scope

pub data ModOp : Type 0 where
  mod_add mod_delete mod_replace : ModOp

pub record Attribute : Type 0 where
  pub type : Bytes
  pub vals : List Bytes

pub record Modification : Type 0 where
  pub op : ModOp
  pub type : Bytes
  pub vals : List Bytes

-- The map of the attributes, by a list of its keys with their values.
pub record Entry : Type 0 where
  pub dn : Bytes
  pub attrs : List (Bytes × List Bytes)

pub record Control : Type 0 where
  pub oid : Bytes
  pub critical : Bool
  pub value : Bytes

pub record SearchRequest : Type 0 where
  pub base_dn : Bytes
  pub scope : Scope
  pub filter : Bytes
  pub attributes : List Bytes
  pub size_limit : ℕ
  pub controls : List Control

-- `e.Attrs[attr]`
unfoldable pub lookup : Bytes → List (Bytes × List Bytes) → Option (List Bytes)
lookup attr [] = none
lookup attr ((have, v) ∷ attrs) = if same_text have attr then some v else lookup attr attrs

abbrev values : Option (List Bytes) → List Bytes
values none = []
values (some v) = v

-- The scan of First.
first_fold : Bytes → List (Bytes × List Bytes) → Bytes
first_fold attr [] = []
first_fold attr ((have, []) ∷ attrs) = first_fold attr attrs
first_fold attr ((have, x ∷ v) ∷ attrs) = if equal_fold have attr then x else first_fold attr attrs

pub first : Entry → Bytes → Bytes
first e attr = elim (values (lookup attr e.attrs)) [ x ∷ v ↦ x | [] ↦ first_fold attr e.attrs ]

-- SDFlagsControl with SDFlagDACL, as sdDACL of ou.go makes it.
abbrev pub sd_flag_dacl : ℕ
sd_flag_dacl = 0x04

abbrev pub sd_flags_control : ℕ → Control
sd_flags_control flags = record {
  oid = codes "1.2.840.113556.1.4.801";
  critical = true;
  value = 0x30 ∷ 0x03 ∷ 0x02 ∷ 0x01 ∷ flags ∷ [];
}

abbrev pub sd_dacl : Control
sd_dacl = sd_flags_control sd_flag_dacl

-- adcore.Identity, by the forms that the library distinguishes.
pub data Identity : Type 0 where
  by_guid by_sid by_sam by_dn : Bytes → Identity

-- adcore.Error, with what the operations read and write of it.
pub record OpError : Type 0 where
  pub kind : Kind
  pub code : ℕ
  pub server_message : Bytes
  pub target : Bytes
  pub tombstoned : Bool

abbrev pub op_error : Kind → OpError
op_error kind = record {
  kind = kind;
  code = 0;
  server_message = [];
  target = [];
  tombstoned = false;
}

abbrev pub op_error_at : Kind → Bytes → OpError
op_error_at kind target = record (op_error kind) { target = target }

-- The methods of Conn. A request stands for one withConn around one of them.
pub data Request : Type 0 where
  search : SearchRequest → Request
  add : Bytes → List Attribute → Request
  modify : Bytes → List Modification → List Control → Request
  modify_dn : Bytes → Bytes → Bool → Bytes → Request
  delete : Bytes → Request

-- What withConn answers: the entries of a search (none for the other requests), or its error.
abbrev pub Reply : Type 0
Reply = Outcome OpError (List Entry)

-- An operation: it is done, or makes a request and goes on with the reply.
pub data Proc (A : Type 0) : Type 0 where
  done : Outcome OpError A → Proc A
  call : Request → (Reply → Proc A) → Proc A

module _ {A B : Type 0} where
  infixl 5 ◌>>=◌
  abbrev pub ◌>>=◌ : Proc A → (A → Proc B) → Proc B
  done (err e) >>= f = done (err e)
  done (ok a) >>= f = f a
  call r k >>= f = call r (λ x. k x >>= f)

module _ {B : Type 0} where
  infixl 5 ◌>>◌
  abbrev pub ◌>>◌ : Proc (Unit {0}) → Proc B → Proc B
  m >> k = m >>= λ _. k

module _ {A : Type 0} where
  abbrev pub pure : A → Proc A
  pure a = done (ok a)

  abbrev pub fail : OpError → Proc A
  fail e = done (err e)

  -- An error that the code inspects instead of returning it at once.
  abbrev pub attempt : Proc A → Proc (Outcome OpError A)
  attempt (done o) = done (ok o)
  attempt (call r k) = call r (λ x. attempt (k x))

  -- `return x, WithIdentity(err, …)` and other rewritings of an error on its way out.
  abbrev pub map_error : (OpError → OpError) → Proc A → Proc A
  map_error f (done (ok a)) = done (ok a)
  map_error f (done (err e)) = done (err (f e))
  map_error f (call r k) = call r (λ x. map_error f (k x))

abbrev pub request : Request → Proc (List Entry)
request r = call r done

-- The outcome where each request is answered by a function of it.
module _ {A : Type 0} where
  unfoldable pub answered_by : (Request → Reply) → Proc A → Outcome OpError A
  answered_by server (done o) = o
  answered_by server (call r k) = answered_by server (k (server r))

-- ===== src/Operation.antt =====
-- The steps that the operations of the directory files (ou.go, group.go and the others) share. The
-- lock that an operation holds on its object, and its name in an error, are left out.
pub mod Laws
pub mod Removal
use go_adldap.Base.{
  Bool, true, false, not, ◌||◌, Option, none, some, List, [], ◌∷◌, if◌then◌else◌, is_empty, Outcome,
  ok, err,
}
use go_adldap.Base.Bytes.{Bytes}
use go_adldap.Base.Text.{same_text}
use go_adldap.LdapErr.{constraint, transport}
use go_adldap.Directory.{
  mod_delete, mod_replace, Modification, Identity, by_guid, OpError, op_error, op_error_at, modify,
  modify_dn, delete, Reply, Proc, call, pure, fail, attempt, map_error, ◌>>=◌, ◌>>◌,
}
use go_adldap.Adcore.{Adcore}

-- The error of a step that may have none.
abbrev pub check : Option OpError → Proc (Unit {0})
check none = pure tt
check (some e) = fail e

abbrev pub when : Bool → Proc (Unit {0}) → Proc (Unit {0})
when true m = m
when false m = pure tt

abbrev pub finished : Reply → Proc (Unit {0})
finished (ok entries) = pure tt
finished (err e) = fail e

abbrev pub same_container : Outcome OpError Bool → Proc Bool
same_container (ok b) = pure b
same_container (err e) = fail (op_error constraint)

-- What is written for a text attribute that differs.
abbrev pub string_mods : Bytes → Option Bytes → Bytes → List Modification
string_mods attr none current = []
string_mods attr (some want) current =
    if same_text want current
    then []
    else if is_empty want
    then record { op = mod_delete; type = attr; vals = [] } ∷ []
    else record { op = mod_replace; type = attr; vals = want ∷ [] } ∷ []

module _ {A : Type 0} where
  -- An error of a model is one of transport, whatever it was.
  abbrev pub modelled : Option A → Proc A
  modelled none = fail (op_error transport)
  modelled (some m) = pure m

module _ {A : Type 0} (lib : Adcore) where
  -- The read that confirms a delete.
  abbrev pub confirm_gone : Bytes → Outcome OpError A → Proc (Unit {0})
  confirm_gone dn (ok still) = fail (op_error_at constraint dn)
  confirm_gone dn (err e) = if lib.is_not_found e then pure tt else fail e

  abbrev pub delete_and_confirm : Identity → Bytes → Proc A → Proc (Unit {0})
  delete_and_confirm id dn again = do
    map_error (λ e. lib.with_identity e id) (call (delete dn) finished)
    gone ← attempt again
    confirm_gone dn gone

  abbrev pub removed :
      (Identity → Proc A) → (A → Bytes × Bytes) → Identity → Outcome OpError A → Proc (Unit {0})
  removed get names id (err e) = if lib.is_not_found e then pure tt else fail e
  removed get names id (ok m) =
      let (dn, guid) = names m in delete_and_confirm id dn (get (by_guid guid))

  -- The Delete of a directory, by its Get and by the DN and the GUID of what that gives.
  unfoldable pub remove_object :
      (Identity → Proc A) → (A → Bytes × Bytes) → Identity → Proc (Unit {0})
  remove_object get names id = attempt (get id) >>= removed get names id

module _ (lib : Adcore) (id : Identity) where
  -- The modifications of an update, if there are any.
  abbrev pub write_mods : Bytes → List Modification → Proc (Unit {0})
  write_mods dn mods =
      when (not (is_empty mods))
        (map_error (λ e. lib.with_identity e id) (call (modify dn mods []) finished))

  -- One ModifyDN renames and moves, where either is wanted.
  abbrev pub rename : Bytes → Bytes → Bool → Bool → Bytes → Proc (Unit {0})
  rename dn rdn same_name same container = when (not same_name || not same) (
      map_error (λ e. lib.with_identity e id)
        (call (modify_dn dn rdn true (if same then [] else container)) finished))

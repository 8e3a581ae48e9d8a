-- ===== src/User.antt =====
-- user.go: the operations on users. The lock is left out; UserSpec.Validate of adcore and replicate are
-- parameters.
pub mod Data
pub mod Descriptor
pub mod Password
pub mod Control
pub mod Laws
pub mod Creation
pub mod Tests
use go_adldap.Base.{
  ℕ, Bool, true, false, not, ◌||◌, Option, none, some, List, [], ◌∷◌, ◌++◌, bit_and, ◌==◌,
  if◌then◌else◌, is_empty, Outcome, ok, err,
}
use go_adldap.Base.Bytes.{Bytes}
use go_adldap.Base.Text.{codes, same_text}
use go_adldap.Guid.{guid_to_string}
use go_adldap.SecDesc.{SdError}
use go_adldap.FileTime.{file_time_to_time}
use go_adldap.Directory.{
  Entry, first, sd_dacl, Identity, by_guid, by_dn, OpError, add, modify, Reply, Proc, call, pure,
  fail, map_error, ◌>>=◌, ◌>>◌,
}
use go_adldap.Adcore.{Adcore, Query}
use go_adldap.Search.{get_one, search_entries}
use go_adldap.Tombstone.{annotate_already_exists, deleted_filter}
use go_adldap.Operation.{
  check, when, finished, same_container, modelled, write_mods, rename, remove_object,
}
use go_adldap.Ou.Protection.{security_descriptor}
use go_adldap.Account.{
  uac_account_disable, uac_dont_expire_password, control_of, must_sid, is_refused,
}
use go_adldap.Group.{cn_rdn}
use go_adldap.User.Data.{
  User, UserSpec, user_attrs, can_change, is_zero_text, user_mods, user_add, post_mods, name_or,
  same_flag,
}
use go_adldap.User.Descriptor.{set_can_change_password}
use go_adldap.User.Password.{set_password}

module _ (lib : Adcore) where
  -- A control or a time that cannot be parsed, or a descriptor that cannot be read, is an error of
  -- the whole model.
  abbrev pub user_of :
      Entry
      → Option Bytes
      → Outcome OpError Bytes
      → Option ℕ
      → Option (Option ℕ)
      → Outcome SdError Bool
      → Option User
  user_of e (some guid) (ok container) (some uac) (some expires) (ok denied_change) = some (record {
    guid = guid;
    dn = e.dn;
    name = first e (codes "name");
    sam_account_name = first e (codes "sAMAccountName");
    user_principal_name = first e (codes "userPrincipalName");
    display_name = first e (codes "displayName");
    given_name = first e (codes "givenName");
    surname = first e (codes "sn");
    description = first e (codes "description");
    container = container;
    enabled = bit_and uac uac_account_disable == 0;
    password_expires = bit_and uac uac_dont_expire_password == 0;
    change_password_at_logon = is_zero_text (first e (codes "pwdLastSet"));
    can_change_password = not denied_change;
    account_expiration = expires;
    sid = must_sid e;
  })
  user_of e guid container uac expires denied_change = none

  unfoldable pub user_model : Entry → Option User
  user_model e =
      user_of e (guid_to_string (first e (codes "objectGUID"))) (lib.container_of e.dn)
        (control_of (first e (codes "userAccountControl")))
        (file_time_to_time (first e (codes "accountExpires")))
        (can_change (first e security_descriptor))

  module _ (dnc : Bytes) where
    unfoldable pub user_get : Identity → Proc User
    user_get id =
        get_one lib dnc id (codes "user") user_attrs (sd_dacl ∷ []) >>= λ e. modelled (user_model e)

    -- The loop over the entries of a search.
    model_users : List Entry → Proc (List User)
    model_users [] = pure []
    model_users (e ∷ entries) = do
      m ← modelled (user_model e)
      out ← model_users entries
      pure (m ∷ out)

    pub user_search : Query → Proc (List User)
    user_search q =
        search_entries lib dnc q (codes "user") user_attrs (sd_dacl ∷ []) >>= model_users

    unfoldable pub user_delete : Identity → Proc (Unit {0})
    user_delete id = remove_object lib user_get (λ m. (m.dn, m.guid)) id

    abbrev pub user_added : Bytes → Bytes → Bytes → Reply → Proc (Unit {0})
    user_added name container dn (ok entries) = pure tt
    user_added name container dn (err e) =
        annotate_already_exists dnc e dn (deleted_filter lib (codes "user") name container) >>= fail

    -- A password that is given and not zero.
    abbrev pub with_password : Option (List ℕ) → (List ℕ → Proc (Unit {0})) → Proc (Unit {0})
    with_password none set = pure tt
    with_password (some password) set = if is_empty password then pure tt else set password

    -- What follows the Add, up to the wait for replication.
    unfoldable pub finish_create : UserSpec → Bytes → Proc User
    finish_create spec dn =
        with_password spec.password (set_password lib dnc (by_dn dn))
        >> (when (not (is_empty (post_mods spec))) (call (modify dn (post_mods spec) []) finished)
            >> (when (is_refused spec.can_change_password) (set_can_change_password dn false)
                >> user_get (by_dn dn)))

    abbrev pub user_dn : UserSpec → Bytes
    user_dn spec =
        cn_rdn lib (name_or spec.name spec.sam_account_name) ++ (codes "," ++ spec.container)

    unfoldable pub create_user : UserSpec → Proc User
    create_user spec =
        call (add (user_dn spec) (user_add spec))
          (user_added (name_or spec.name spec.sam_account_name) spec.container (user_dn spec))
        >> finish_create spec (user_dn spec)

    module _ (validate : UserSpec → Option OpError)
        (replicate : Bytes → Proc (Option OpError)) where
      abbrev user_replicated : User → Proc (User × Option OpError)
      user_replicated m = replicate m.guid >>= λ e. pure (m, e)

      pub user_create : UserSpec → Proc (User × Option OpError)
      user_create spec = check (validate spec) >> (create_user spec >>= user_replicated)

      -- CanChangePassword is written last, where it differs.
      abbrev change_again : Identity → Bytes → Option Bool → User → Proc (User × Option OpError)
      change_again id guid none updated = user_replicated updated
      change_again id guid (some want) updated =
          if same_flag want updated.can_change_password
          then user_replicated updated
          else (map_error (λ e. lib.with_identity e id) (set_can_change_password updated.dn want)
              >> (user_get (by_guid guid) >>= user_replicated))

      pub user_update : Identity → UserSpec → Proc (User × Option OpError)
      user_update id spec = do
        check (validate spec)
        current ← user_get id
        write_mods lib id current.dn (user_mods spec current)
        let name = name_or spec.name current.name
        same ← same_container (lib.equal_fold_dn spec.container current.container)
        rename lib id current.dn (cn_rdn lib name) (same_text name current.name) same spec.container
        with_password spec.password
            (λ password. set_password lib dnc (by_guid current.guid) password)
        updated ← user_get (by_guid current.guid)
        change_again id current.guid spec.can_change_password updated

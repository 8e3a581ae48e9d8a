-- ===== src/Computer.antt =====
-- computer.go: the operations on computers. The lock is left out; ComputerSpec.Validate of adcore and
-- replicate are parameters, and the client's cache of the domain SID is passed through what uses it.
pub mod Data
pub mod Laws
use go_adldap.Base.{
  ℕ, ◌==◌, not, Option, none, some, List, [], ◌∷◌, ◌++◌, bit_and, Outcome, ok, err,
}
use go_adldap.Base.Bytes.{Bytes}
use go_adldap.Base.Text.{codes, same_text}
use go_adldap.Guid.{guid_to_string}
use go_adldap.FileTime.{file_time_to_time}
use go_adldap.EncTypes.{enc_type_names}
use go_adldap.Directory.{
  Entry, first, sd_dacl, Identity, by_guid, by_dn, OpError, add, Reply, Proc, call, pure, fail,
  attempt, ◌>>=◌, ◌>>◌,
}
use go_adldap.Adcore.{Adcore, Query}
use go_adldap.Tombstone.{annotate_already_exists, deleted_filter}
use go_adldap.Operation.{same_container, write_mods, rename, remove_object}
use go_adldap.Principals.{DomainSidCache, keep_cache}
use go_adldap.Account.{uac_account_disable, uac_trusted_for_delegation, control_of, must_sid}
use go_adldap.Group.{cn_rdn}
use go_adldap.Machine.{
  sam_without_dollar, str_values, principals_value, get_machine, search_machines,
}
use go_adldap.Computer.Data.{
  Computer, ComputerSpec, computer_attrs, rbcd, computer_mods, computer_add, with_principals,
}

module _ (lib : Adcore) where
  -- A control, a time or a set of encryption types that cannot be parsed is an error of the whole model.
  abbrev pub computer_of :
      Entry
      → Option Bytes
      → Outcome OpError Bytes
      → Option ℕ
      → Option (Option ℕ)
      → Option ℕ
      → Option Computer
  computer_of e (some guid) (ok container) (some uac) (some expires) (some enc) = some (record {
    guid = guid;
    dn = e.dn;
    name = first e (codes "name");
    sam_account_name = sam_without_dollar (first e (codes "sAMAccountName"));
    container = container;
    sid = must_sid e;
    enabled = bit_and uac uac_account_disable == 0;
    dns_host_name = first e (codes "dNSHostName");
    description = first e (codes "description");
    display_name = first e (codes "displayName");
    location = first e (codes "location");
    managed_by = first e (codes "managedBy");
    trusted_for_delegation = not (bit_and uac uac_trusted_for_delegation == 0);
    service_principal_names = str_values e (codes "servicePrincipalName");
    allowed_to_delegate_to = str_values e (codes "msDS-AllowedToDelegateTo");
    principals_allowed = [];
    kerberos_encryption_type = enc_type_names enc;
    account_expiration = expires;
    operating_system = first e (codes "operatingSystem");
    operating_system_version = first e (codes "operatingSystemVersion");
  })
  computer_of e guid container uac expires enc = none

  unfoldable pub computer_model : Entry → Option Computer
  computer_model e =
      computer_of e (guid_to_string (first e (codes "objectGUID"))) (lib.container_of e.dn)
        (control_of (first e (codes "userAccountControl")))
        (file_time_to_time (first e (codes "accountExpires")))
        (control_of (first e (codes "msDS-SupportedEncryptionTypes")))

  module _ (dnc : Bytes) where
    unfoldable pub computer_get : Identity → Proc Computer
    computer_get id =
        get_machine lib dnc computer_model with_principals rbcd (codes "computer") computer_attrs
          (sd_dacl ∷ []) id

    pub computer_search : Query → Proc (List Computer)
    computer_search q =
        search_machines lib dnc computer_model with_principals rbcd (codes "computer")
          computer_attrs (sd_dacl ∷ []) q

    unfoldable pub computer_delete : Identity → Proc (Unit {0})
    computer_delete id = remove_object lib computer_get (λ m. (m.dn, m.guid)) id

    abbrev computer_added : ComputerSpec → Bytes → Reply → Proc (Unit {0})
    computer_added spec dn (ok entries) = pure tt
    computer_added spec dn (err e) =
        annotate_already_exists dnc e dn
          (deleted_filter lib (codes "computer") spec.name spec.container)
        >>= fail

    module _ (validate : ComputerSpec → Option OpError)
        (replicate : Bytes → Proc (Option OpError)) where
      abbrev computer_replicated : Computer → Proc (Computer × Option OpError)
      computer_replicated m = replicate m.guid >>= λ e. pure (m, e)

      -- The create behind the descriptor of the principals.
      abbrev create_computer :
          ComputerSpec → Outcome OpError (Option Bytes) → Proc (Computer × Option OpError)
      create_computer spec (err e) = fail e
      create_computer spec (ok sd) = do
        let dn = cn_rdn lib spec.name ++ (codes "," ++ spec.container)
        call (add dn (computer_add spec sd)) (computer_added spec dn)
        created ← computer_get (by_dn dn)
        computer_replicated created

      pub computer_create :
          ComputerSpec
          → DomainSidCache
          → Proc (Outcome OpError (Computer × Option OpError) × DomainSidCache)
      computer_create spec cache = elim (validate spec) [
        | some e ↦ pure (err e, cache)
        | none ↦ principals_value lib dnc spec.principals_allowed cache >>= λ (o, cache').
            keep_cache cache' (create_computer spec o)
      ]

      -- The update behind the descriptor of the principals.
      abbrev update_computer :
          Identity
          → ComputerSpec
          → Computer
          → Outcome OpError (Option Bytes)
          → Proc (Computer × Option OpError)
      update_computer id spec current (err e) = fail (lib.with_identity e id)
      update_computer id spec current (ok sd) = do
        write_mods lib id current.dn (computer_mods spec current sd)
        same ← same_container (lib.equal_fold_dn spec.container current.container)
        rename lib id current.dn (cn_rdn lib spec.name) (same_text spec.name current.name) same
            spec.container
        updated ← computer_get (by_guid current.guid)
        computer_replicated updated

      abbrev update_found_computer :
          Identity
          → ComputerSpec
          → DomainSidCache
          → Outcome OpError Computer
          → Proc (Outcome OpError (Computer × Option OpError) × DomainSidCache)
      update_found_computer id spec cache (err e) = pure (err e, cache)
      update_found_computer id spec cache (ok current) =
          principals_value lib dnc spec.principals_allowed cache >>= λ (o, cache').
          keep_cache cache' (update_computer id spec current o)

      pub computer_update :
          Identity
          → ComputerSpec
          → DomainSidCache
          → Proc (Outcome OpError (Computer × Option OpError) × DomainSidCache)
      computer_update id spec cache = elim (validate spec) [
        | some e ↦ pure (err e, cache)
        | none ↦ attempt (computer_get id) >>= update_found_computer id spec cache
      ]

-- ===== src/Gmsa.antt =====
-- gmsa.go: the operations on group managed service accounts. The lock is left out; GmsaSpec.Validate of adcore and
-- replicate are parameters, and the client's cache of the domain SID is passed through what uses it.
pub mod Data
pub mod Laws
use go_adldap.Base.{
  ℕ, ◌==◌, not, Option, none, some, List, [], ◌∷◌, ◌++◌, bit_and, Outcome, ok, err,
}
use go_adldap.Base.Bytes.{Bytes}
use go_adldap.Base.Text.{codes, same_text}
use go_adldap.Guid.{guid_to_string}
use go_adldap.FileTime.{file_time_to_time}
use go_adldap.EncTypes.{enc_type_names}
use go_adldap.Directory.{
  Entry, first, Identity, by_guid, by_dn, OpError, add, Reply, Proc, call, pure, fail, attempt,
  ◌>>=◌, ◌>>◌,
}
use go_adldap.Adcore.{Adcore, Query}
use go_adldap.Tombstone.{annotate_already_exists, deleted_filter}
use go_adldap.Operation.{same_container, write_mods, rename, remove_object}
use go_adldap.Principals.{DomainSidCache, keep_cache, principal_sd_value}
use go_adldap.Account.{uac_account_disable, uac_trusted_for_delegation, control_of, must_sid}
use go_adldap.Group.{cn_rdn}
use go_adldap.Machine.{
  sam_without_dollar, str_values, principals_value, get_machine, search_machines,
}
use go_adldap.Gmsa.Data.{
  Gmsa, GmsaSpec, gmsa_class, gmsa_attrs, membership, gmsa_mods, gmsa_add, with_principals,
  or_nobody,
}

module _ (lib : Adcore) where
  -- An attribute that cannot be parsed is an error of the whole model.
  abbrev pub gmsa_of :
      Entry
      → Option Bytes
      → Outcome OpError Bytes
      → Option ℕ
      → Option (Option ℕ)
      → Option ℕ
      → Option ℕ
      → Option Gmsa
  gmsa_of e (some guid) (ok container) (some uac) (some expires) (some enc) (some days) =
      some (record {
        guid = guid;
        dn = e.dn;
        name = first e (codes "name");
        sam_account_name = sam_without_dollar (first e (codes "sAMAccountName"));
        container = container;
        sid = must_sid e;
        dns_host_name = first e (codes "dNSHostName");
        description = first e (codes "description");
        display_name = first e (codes "displayName");
        enabled = bit_and uac uac_account_disable == 0;
        trusted_for_delegation = not (bit_and uac uac_trusted_for_delegation == 0);
        service_principal_names = str_values e (codes "servicePrincipalName");
        principals_allowed = [];
        kerberos_encryption_type = enc_type_names enc;
        managed_password_interval_in_days = days;
        account_expiration = expires;
      })
  gmsa_of e guid container uac expires enc days = none

  unfoldable pub gmsa_model : Entry → Option Gmsa
  gmsa_model e =
      gmsa_of e (guid_to_string (first e (codes "objectGUID"))) (lib.container_of e.dn)
        (control_of (first e (codes "userAccountControl")))
        (file_time_to_time (first e (codes "accountExpires")))
        (control_of (first e (codes "msDS-SupportedEncryptionTypes")))
        (control_of (first e (codes "msDS-ManagedPasswordInterval")))

  module _ (dnc : Bytes) where
    unfoldable pub gmsa_get : Identity → Proc Gmsa
    gmsa_get id =
        get_machine lib dnc gmsa_model with_principals membership gmsa_class gmsa_attrs [] id

    pub gmsa_search : Query → Proc (List Gmsa)
    gmsa_search q =
        search_machines lib dnc gmsa_model with_principals membership gmsa_class gmsa_attrs [] q

    unfoldable pub gmsa_delete : Identity → Proc (Unit {0})
    gmsa_delete id = remove_object lib gmsa_get (λ m. (m.dn, m.guid)) id

    abbrev gmsa_added : GmsaSpec → Bytes → Reply → Proc (Unit {0})
    gmsa_added spec dn (ok entries) = pure tt
    gmsa_added spec dn (err e) =
        annotate_already_exists dnc e dn (deleted_filter lib gmsa_class spec.name spec.container)
        >>= fail

    module _ (validate : GmsaSpec → Option OpError)
        (replicate : Bytes → Proc (Option OpError)) where
      abbrev gmsa_replicated : Gmsa → Proc (Gmsa × Option OpError)
      gmsa_replicated m = replicate m.guid >>= λ e. pure (m, e)

      -- The create behind the descriptor of the principals, with the host name.
      abbrev pub create_hosted : GmsaSpec → Bytes → Bytes → Proc (Gmsa × Option OpError)
      create_hosted spec sd host = do
        let dn = cn_rdn lib spec.name ++ (codes "," ++ spec.container)
        call (add dn (gmsa_add spec host sd)) (gmsa_added spec dn)
        created ← gmsa_get (by_dn dn)
        gmsa_replicated created

      -- `*spec.DNSHostName` of a nil pointer panics, which none stands for.
      abbrev create_gmsa : GmsaSpec → Outcome OpError Bytes → Proc (Option (Gmsa × Option OpError))
      create_gmsa spec (err e) = fail e
      create_gmsa spec (ok sd) = elim spec.dns_host_name [
        | none ↦ pure none
        | some host ↦ create_hosted spec sd host >>= λ m. pure (some m)
      ]

      pub gmsa_create :
          GmsaSpec
          → DomainSidCache
          → Proc (Outcome OpError (Option (Gmsa × Option OpError)) × DomainSidCache)
      gmsa_create spec cache = elim (validate spec) [
        | some e ↦ pure (err e, cache)
        | none ↦
            principal_sd_value lib dnc (or_nobody spec.principals_allowed) cache >>= λ (o, cache').
            keep_cache cache' (create_gmsa spec o)
      ]

      -- The update behind the descriptor of the principals.
      abbrev update_gmsa :
          Identity → GmsaSpec → Gmsa → Outcome OpError (Option Bytes) → Proc (Gmsa × Option OpError)
      update_gmsa id spec current (err e) = fail (lib.with_identity e id)
      update_gmsa id spec current (ok sd) = do
        write_mods lib id current.dn (gmsa_mods spec current sd)
        same ← same_container (lib.equal_fold_dn spec.container current.container)
        rename lib id current.dn (cn_rdn lib spec.name) (same_text spec.name current.name) same
            spec.container
        updated ← gmsa_get (by_guid current.guid)
        gmsa_replicated updated

      abbrev update_found_gmsa :
          Identity
          → GmsaSpec
          → DomainSidCache
          → Outcome OpError Gmsa
          → Proc (Outcome OpError (Gmsa × Option OpError) × DomainSidCache)
      update_found_gmsa id spec cache (err e) = pure (err e, cache)
      update_found_gmsa id spec cache (ok current) =
          principals_value lib dnc spec.principals_allowed cache >>= λ (o, cache').
          keep_cache cache' (update_gmsa id spec current o)

      pub gmsa_update :
          Identity
          → GmsaSpec
          → DomainSidCache
          → Proc (Outcome OpError (Gmsa × Option OpError) × DomainSidCache)
      gmsa_update id spec cache = elim (validate spec) [
        | some e ↦ pure (err e, cache)
        | none ↦ attempt (gmsa_get id) >>= update_found_gmsa id spec cache
      ]

-- ===== src/Replication.antt =====
-- replication.go: the wait until the other domain controllers have an object. What they answer in
-- each round, whether a round ends after the deadline and whether the context is done are parameters.
pub mod Laws
mod Tests
use go_adldap.Base.{
  ℕ, zero, suc, ◌+◌, Bool, true, false, not, ◌||◌, ◌&&◌, Option, none, some, List, [], ◌∷◌, ◌++◌,
  ◌==◌, filter, if◌then◌else◌, length, is_empty, Outcome, ok, err,
}
use go_adldap.Base.Bytes.{Bytes}
use go_adldap.Base.Text.{codes, same_text}
use go_adldap.LdapErr.{transport}
use go_adldap.Guid.{guid_to_bytes}
use go_adldap.Directory.{
  scope_subtree, mod_replace, Entry, first, SearchRequest, OpError, op_error, Request, search,
  modify, Reply, Proc, call, pure, fail, attempt, ◌>>=◌,
}
use go_adldap.Search.{escape_binary}
use go_adldap.Operation.{finished}

-- adcore.ReplicationConfig, without the times, which `late` stands for.
pub record ReplicationConfig : Type 0 where
  pub wait : Bool
  pub targets : List Bytes
  pub force_sync : Bool

-- How a wait ends that is no error of a request: the error of a deadline names what is missing.
pub data Waited : Type 0 where
  arrived : Waited
  late_on : List Bytes → Waited
  interrupted : Waited

-- dNSHostName of the entries, without the pinned domain controller.
unfoldable pub hosts_of : Bytes → List Entry → List Bytes
hosts_of server [] = []
hosts_of server (e ∷ entries) =
    let rest = hosts_of server entries in
    let h = first e (codes "dNSHostName") in
    if not (is_empty h) && not (same_text h server) then h ∷ rest else rest

abbrev dc_list_request : Bytes → SearchRequest
dc_list_request dnc = record {
  base_dn = codes "CN=Configuration," ++ dnc;
  scope = scope_subtree;
  filter = codes "(objectClass=nTDSDSA)";
  attributes = codes "dNSHostName" ∷ codes "distinguishedName" ∷ [];
  size_limit = 128;
  controls = [];
}

abbrev dc_hosts : Bytes → Reply → Proc (List Bytes)
dc_hosts server (err e) = fail e
dc_hosts server (ok entries) = pure (hosts_of server entries)

-- `targets[0] == "all"`, where there is one.
abbrev is_all : List Bytes → Bool
is_all [] = false
is_all (t ∷ []) = same_text t (codes "all")
is_all (t ∷ more ∷ targets) = false

module _ (dnc server : Bytes) (config : ReplicationConfig) where
  unfoldable pub replication_targets : Proc (List Bytes)
  replication_targets =
      if is_all config.targets
      then call (search (dc_list_request dnc)) (dc_hosts server)
      else pure (filter (λ t. not (same_text t server)) config.targets)

  abbrev pub sync_request : Bytes → Bytes → Request
  sync_request guid target =
      modify []
        (record {
          op = mod_replace;
          type = codes "replicateSingleObject";
          vals = (target ++ (codes ":" ++ guid)) ∷ [];
        }
          ∷ [])
        []

  -- Its error is dropped.
  unfoldable pub force_sync : Bytes → Bytes → Proc (Outcome OpError (Unit {0}))
  force_sync guid target =
      if config.force_sync then attempt (call (sync_request guid target) finished) else pure (ok tt)

  abbrev pub present_request : Bytes → SearchRequest
  present_request object_filter = record {
    base_dn = dnc;
    scope = scope_subtree;
    filter = object_filter;
    attributes = codes "distinguishedName" ∷ [];
    size_limit = 1;
    controls = [];
  }

  -- The answer of a connection to another domain controller; one that cannot be reached is an error.
  abbrev pub is_present : Reply → Bool
  is_present (err e) = false
  is_present (ok entries) = not (is_empty entries)

  module _ (answer : ℕ → Bytes → SearchRequest → Reply) (late cancelled : ℕ → Bool)
      (guid object_filter : Bytes) where
    abbrev pub object_present_on : ℕ → Bytes → Bool
    object_present_on round target =
        is_present (answer round target (present_request object_filter))

    -- One pass over the targets that are pending: those that still are.
    unfoldable pub poll : ℕ → List Bytes → Proc (List Bytes)
    poll round [] = pure []
    poll round (target ∷ pending) = force_sync guid target >>= λ dropped.
        poll round pending >>= λ still.
        pure (if object_present_on round target then still else target ∷ still)

    -- What a pass leads to, where the wait goes on by `next`.
    abbrev pub after_poll :
        ℕ → (List Bytes → Proc (Option Waited)) → List Bytes → Proc (Option Waited)
    after_poll round next still =
        if is_empty still
        then pure (some arrived)
        else if late round
        then pure (some (late_on still))
        else if cancelled round
        then pure (some interrupted)
        else next still

    -- None where the fuel for the passes does not suffice.
    unfoldable pub await : ℕ → ℕ → List Bytes → Proc (Option Waited)
    await zero round pending = pure none
    await (suc fuel) round pending =
        poll round pending >>= after_poll round (await fuel (round + 1))

  module _ (answer : ℕ → Bytes → SearchRequest → Reply) (late cancelled : ℕ → Bool) where
    abbrev await_object : ℕ → Bytes → List Bytes → Option Bytes → Proc (Option Waited)
    await_object fuel guid targets none = fail (op_error transport)
    await_object fuel guid targets (some b) =
        await answer late cancelled guid (codes "(objectGUID=" ++ (escape_binary b ++ codes ")"))
          fuel 0 targets

    pub replicate : ℕ → Bytes → Proc (Option Waited)
    replicate fuel guid =
        if not config.wait
        then pure (some arrived)
        else replication_targets >>= λ targets.
            if is_empty targets
            then pure (some arrived)
            else await_object fuel guid targets (guid_to_bytes guid)

-- ===== src/Machine.antt =====
-- What computer.go and gmsa.go share: the names of accounts that end in a dollar sign, attributes of
-- several values, the account control of a machine, and the principals of a delegation.
pub mod Uac
pub mod Laws
use go_adldap.Base.{
  ℕ, Bool, true, false, ◌==◌, Option, none, some, List, [], ◌∷◌, ◌++◌, bit_and, bit_or,
  if◌then◌else◌, is_empty, Outcome, ok, err,
}
use go_adldap.Base.Bytes.{Bytes}
use go_adldap.Base.Text.{codes}
use go_adldap.EncTypes.{enc_type_bits}
use go_adldap.Directory.{
  mod_replace, Attribute, Modification, Entry, lookup, first, Control, Identity, OpError, Proc,
  pure, ◌>>=◌,
}
use go_adldap.Adcore.{Adcore, Query}
use go_adldap.Search.{get_one, search_entries}
use go_adldap.Operation.{modelled}
use go_adldap.Principals.{DomainSidCache, keep_cache, principal_guids, principal_sd_value}
use go_adldap.Account.{
  uac_account_disable, uac_workstation_trust_account, uac_trusted_for_delegation, uint32_string,
  and_not, apply_flag, replace_mod, control_mods, is_wanted, is_refused, attribute,
}

-- strings.HasSuffix with "$".
unfoldable pub ends_in_dollar : Bytes → Bool
ends_in_dollar [] = false
ends_in_dollar (c ∷ []) = c == 36
ends_in_dollar (c ∷ d ∷ s) = ends_in_dollar (d ∷ s)

unfoldable pub sam_with_dollar : Bytes → Bytes
sam_with_dollar s = if ends_in_dollar s then s else s ++ (36 ∷ [])

-- strings.TrimSuffix with "$".
unfoldable pub sam_without_dollar : Bytes → Bytes
sam_without_dollar [] = []
sam_without_dollar (c ∷ []) = if c == 36 then [] else c ∷ []
sam_without_dollar (c ∷ d ∷ s) = c ∷ sam_without_dollar (d ∷ s)

-- The values under an attribute's name; nil and empty are one here.
abbrev values_or_none : Option (List Bytes) → List Bytes
values_or_none none = []
values_or_none (some v) = v

abbrev pub str_values : Entry → Bytes → List Bytes
str_values e attr = values_or_none (lookup attr e.attrs)

abbrev pub replace_multi : Bytes → Option (List Bytes) → List Modification
replace_multi attr none = []
replace_multi attr (some vals) = record { op = mod_replace; type = attr; vals = vals } ∷ []

abbrev pub added_multi : Bytes → Option (List Bytes) → List Attribute
added_multi attr none = []
added_multi attr (some vals) =
    if is_empty vals then [] else record { type = attr; vals = vals } ∷ []

abbrev enc_types_attr : Bytes
enc_types_attr = codes "msDS-SupportedEncryptionTypes"

abbrev pub enc_mods : Option (List Bytes) → List Modification
enc_mods none = []
enc_mods (some names) = replace_mod enc_types_attr (uint32_string (enc_type_bits names)) ∷ []

abbrev pub enc_add : Option (List Bytes) → List Attribute
enc_add none = []
enc_add (some names) = attribute enc_types_attr (uint32_string (enc_type_bits names)) ∷ []

-- A flag that is stated by its own bit.
abbrev pub apply_bit : Option Bool → ℕ → ℕ → ℕ
apply_bit none bit out = out
apply_bit (some true) bit out = bit_or out bit
apply_bit (some false) bit out = and_not out bit

-- The control of a new machine, by the specification's Enabled and TrustedForDelegation.
unfoldable pub created_machine_uac : Option Bool → Option Bool → ℕ
created_machine_uac enabled trusted =
    let out =
      if is_refused enabled
      then bit_or uac_workstation_trust_account uac_account_disable
      else uac_workstation_trust_account in
    if is_wanted trusted then bit_or out uac_trusted_for_delegation else out

-- The control that an update takes for the current one.
unfoldable pub current_machine_uac : Bool → Bool → ℕ
current_machine_uac enabled trusted =
    let out =
      if enabled
      then uac_workstation_trust_account
      else bit_or uac_workstation_trust_account uac_account_disable in
    if trusted then bit_or out uac_trusted_for_delegation else out

unfoldable pub wanted_machine_uac : Option Bool → Option Bool → ℕ → ℕ
wanted_machine_uac enabled trusted current =
    apply_bit trusted uac_trusted_for_delegation (apply_flag enabled uac_account_disable current)

unfoldable pub machine_uac_mods : Option Bool → Option Bool → Bool → Bool → List Modification
machine_uac_mods want_enabled want_trusted enabled trusted =
    let current = current_machine_uac enabled trusted in
    control_mods current (wanted_machine_uac want_enabled want_trusted current)

abbrev pub sd_mods : Bytes → Option Bytes → List Modification
sd_mods attr none = []
sd_mods attr (some sd) = replace_mod attr sd ∷ []

abbrev pub sd_add : Bytes → Option Bytes → List Attribute
sd_add attr none = []
sd_add attr (some sd) = attribute attr sd ∷ []

abbrev some_descriptor : Outcome OpError Bytes → Outcome OpError (Option Bytes)
some_descriptor (ok sd) = ok (some sd)
some_descriptor (err e) = err e

module _ (lib : Adcore) (dnc : Bytes) where
  -- The descriptor of the principals of a specification that names any, empty lists included.
  unfoldable pub principals_value :
      Option (List Identity)
      → DomainSidCache
      → Proc (Outcome OpError (Option Bytes) × DomainSidCache)
  principals_value none cache = pure (ok none, cache)
  principals_value (some ids) cache =
      principal_sd_value lib dnc ids cache >>= λ (o, cache'). pure (some_descriptor o, cache')

  -- A model by an entry, and how the principals are put into it.
  module _ {A : Type 0} (model : Entry → Option A) (with_principals : A → List Bytes → A)
      (sd_attr : Bytes) where
    unfoldable pub fill_principals : A → Bytes → Proc A
    fill_principals m raw =
        if is_empty raw
        then pure m
        else principal_guids lib dnc raw >>= λ guids. pure (with_principals m guids)

    abbrev pub read_machine : Entry → Proc A
    read_machine e = modelled (model e) >>= λ m. fill_principals m (first e sd_attr)

    -- The Get of both directories.
    unfoldable pub get_machine : Bytes → List Bytes → List Control → Identity → Proc A
    get_machine object_class want controls id =
        get_one lib dnc id object_class want controls >>= read_machine

    -- The loop over the entries of a search.
    model_machines : List Entry → Proc (List A)
    model_machines [] = pure []
    model_machines (e ∷ entries) =
        read_machine e >>= λ m. model_machines entries >>= λ out. pure (m ∷ out)

    pub search_machines : Bytes → List Bytes → List Control → Query → Proc (List A)
    search_machines object_class want controls q =
        search_entries lib dnc q object_class want controls >>= model_machines

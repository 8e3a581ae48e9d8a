-- ===== src/Machine/Uac.antt =====
-- The account control that the updates of computer.go and gmsa.go write.
mod Tests
use go_adldap.Base.{
  ℕ, ◌≡◌, refl, sym, ap, ap₂, subst, ◌∙◌, arith, Bool, true, false, not, Option, none, some, [],
  ◌∷◌, bit_and, bit_or, ◌==◌, if◌then◌else◌,
}
use go_adldap.Base.Text.{codes}
use go_adldap.GroupType.Wire.{parse_group_type-group_type_string}
use go_adldap.Account.{
  replace_mod, uint32_string, parse_uint32, apply_flag, uac_workstation_trust_account,
  uac_account_disable, uac_trusted_for_delegation,
}
use go_adldap.User.Control.{or_now}
use go_adldap.Machine.{
  apply_bit, created_machine_uac, current_machine_uac, wanted_machine_uac, machine_uac_mods,
}

-- A control by its two flags.
abbrev pub machine_control : Bool → Bool → ℕ
machine_control true false = 0x1000
machine_control false false = 0x1002
machine_control true true = 0x81000
machine_control false true = 0x81002

pub current_lem :
    (enabled trusted : Bool) → current_machine_uac enabled trusted ≡ machine_control enabled trusted
unfolding current_machine_uac
current_lem true true = refl
current_lem true false = refl
current_lem false true = refl
current_lem false false = refl

pub wanted_lem :
    (e t : Option Bool) (enabled trusted : Bool)
    → wanted_machine_uac e t (current_machine_uac enabled trusted)
      ≡ machine_control (or_now e enabled) (or_now t trusted)
unfolding wanted_machine_uac
wanted_lem e t enabled trusted =
    ap (wanted_machine_uac e t) (current_lem enabled trusted) ∙ by_flags e t enabled trusted
  where
    by_enabled :
        (e' : Option Bool) (now held : Bool)
        → apply_flag e' uac_account_disable (machine_control now held)
          ≡ machine_control (or_now e' now) held
    by_enabled none now held = refl
    by_enabled (some true) true true = refl
    by_enabled (some true) true false = refl
    by_enabled (some true) false true = refl
    by_enabled (some true) false false = refl
    by_enabled (some false) true true = refl
    by_enabled (some false) true false = refl
    by_enabled (some false) false true = refl
    by_enabled (some false) false false = refl

    by_trust :
        (t' : Option Bool) (now held : Bool)
        → apply_bit t' uac_trusted_for_delegation (machine_control now held)
          ≡ machine_control now (or_now t' held)
    by_trust none now held = refl
    by_trust (some true) true true = refl
    by_trust (some true) true false = refl
    by_trust (some true) false true = refl
    by_trust (some true) false false = refl
    by_trust (some false) true true = refl
    by_trust (some false) true false = refl
    by_trust (some false) false true = refl
    by_trust (some false) false false = refl

    by_flags :
        (e' t' : Option Bool) (now held : Bool)
        → wanted_machine_uac e' t' (machine_control now held)
          ≡ machine_control (or_now e' now) (or_now t' held)
    by_flags e' t' now held =
        ap (apply_bit t' uac_trusted_for_delegation) (by_enabled e' now held)
        ∙ by_trust t' (or_now e' now) held

created_lem :
    (e t : Option Bool) → created_machine_uac e t ≡ machine_control (or_now e true) (or_now t false)
unfolding created_machine_uac
created_lem none none = refl
created_lem none (some true) = refl
created_lem none (some false) = refl
created_lem (some true) none = refl
created_lem (some true) (some true) = refl
created_lem (some true) (some false) = refl
created_lem (some false) none = refl
created_lem (some false) (some true) = refl
created_lem (some false) (some false) = refl

-- What a control says when it is read back: a machine's trust account, with the two flags.
abbrev pub MachineReads : ℕ → Bool → Bool → Type 0
MachineReads c enabled trusted =
    (parse_uint32 (uint32_string c) ≡ some c)
    × (bit_and c uac_workstation_trust_account ≡ uac_workstation_trust_account)
    × ((bit_and c uac_account_disable == 0) ≡ enabled)
    × (not (bit_and c uac_trusted_for_delegation == 0) ≡ trusted)

pub machine_control-Reads :
    (enabled trusted : Bool) → MachineReads (machine_control enabled trusted) enabled trusted
unfolding parse_uint32 uint32_string
machine_control-Reads true true =
    (parse_group_type-group_type_string 0x81000 (omega arith), refl, refl, refl)
machine_control-Reads true false =
    (parse_group_type-group_type_string 0x1000 (omega arith), refl, refl, refl)
machine_control-Reads false true =
    (parse_group_type-group_type_string 0x81002 (omega arith), refl, refl, refl)
machine_control-Reads false false =
    (parse_group_type-group_type_string 0x1002 (omega arith), refl, refl, refl)

-- The control that the create of a computer or of a service account writes reads back as a machine's,
-- enabled and not trusted for delegation where the specification leaves these open; and so does the one
-- that an update wants, with the flags that the specification leaves open as the model had them. The
-- update writes this one exactly where it differs from the one it takes for the current, whatever else
-- the account's control held.
pub machine_uac_mods_lem :
    (e t : Option Bool) (enabled trusted : Bool)
    → let want = wanted_machine_uac e t (current_machine_uac enabled trusted) in
      MachineReads (created_machine_uac e t) (or_now e true) (or_now t false)
      × MachineReads want (or_now e enabled) (or_now t trusted)
      × (machine_uac_mods e t enabled trusted ≡ (
          if machine_control (or_now e enabled) (or_now t trusted)
            == machine_control enabled trusted
          then []
          else replace_mod (codes "userAccountControl") (uint32_string want) ∷ []))
unfolding machine_uac_mods
machine_uac_mods_lem e t enabled trusted = (
  subst (λ c. MachineReads c (or_now e true) (or_now t false)) (sym (created_lem e t))
      (machine_control-Reads (or_now e true) (or_now t false)),
  subst (λ c. MachineReads c (or_now e enabled) (or_now t trusted))
      (sym (wanted_lem e t enabled trusted))
      (machine_control-Reads (or_now e enabled) (or_now t trusted)),
  ap₂
      (λ want current.
        if want == current
        then []
        else replace_mod (codes "userAccountControl")
            (uint32_string (wanted_machine_uac e t (current_machine_uac enabled trusted)))
          ∷ [])
      (wanted_lem e t enabled trusted) (current_lem enabled trusted),
)

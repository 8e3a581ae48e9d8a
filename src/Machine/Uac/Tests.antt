-- ===== src/Machine/Uac/Tests.antt =====
-- An enabled machine that is to be disabled.
use go_adldap.Base.{◌≡◌, ◌==◌, true, false, none, some, [], ◌∷◌, if◌then◌else◌}
use go_adldap.Base.Text.{codes}
use go_adldap.Account.{replace_mod, uint32_string}
use go_adldap.Machine.{
  created_machine_uac, current_machine_uac, wanted_machine_uac, machine_uac_mods,
}
use go_adldap.Machine.Uac.{MachineReads, machine_control, machine_uac_mods_lem}

machine_uac_mods_lem_example :
    let want = wanted_machine_uac (some false) none (current_machine_uac true true) in
    MachineReads (created_machine_uac (some false) none) false false
    × MachineReads want false true
    × (machine_uac_mods (some false) none true true ≡ (
        if machine_control false true == machine_control true true
        then []
        else replace_mod (codes "userAccountControl") (uint32_string want) ∷ []))
machine_uac_mods_lem_example = machine_uac_mods_lem (some false) none true true

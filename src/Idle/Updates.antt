-- ===== src/Idle/Updates.antt =====
-- The updates of users, computers and service accounts that write no attribute.
use go_adldap.Base.{
  ◌≡◌, ◌↔◌, refl, sym, ap, ap₂, ◌∙◌, Bool, true, false, not, Option, none, some, List, [], ◌==◌,
  bit_and,
}
use go_adldap.Base.Bytes.{Bytes}
use go_adldap.Account.{
  expires_unset, uac_account_disable, uac_dont_expire_password, uac_trusted_for_delegation,
}
use go_adldap.User.Data.{
  User, UserSpec, user_mods, uac_mods, logon_mods, same_flag, current_uac, apply_uac,
}
use go_adldap.User.Control.{
  or_now, plain_control, current_uac_lem, apply_uac_lem, plain_control-ReadsAs,
}
use go_adldap.Machine.{replace_multi, enc_mods, sd_mods, machine_uac_mods}
use go_adldap.Machine.Uac.{machine_control, current_lem, wanted_lem, machine_control-Reads}
use go_adldap.Computer.Data.{Computer, ComputerSpec, computer_mods}
use go_adldap.Gmsa.Data.{Gmsa, GmsaSpec, gmsa_mods}
use go_adldap.Idle.{
  Agrees, SameSam, append_idle, if_idle, none_idle, iff_trans, eq_iff, string_mods-Agrees,
  sam_mods-SameSam, control_mods_idle, expiration_mods_idle,
}

same_flag_iff : (a b : Bool) → (same_flag a b ≡ true) ↔ (a ≡ b)
same_flag_iff true true = (λ e. refl, λ e. refl)
same_flag_iff true false = (λ e. cc, λ e. cc)
same_flag_iff false true = (λ e. cc, λ e. cc)
same_flag_iff false false = (λ e. refl, λ e. refl)

logon_mods_idle :
    (want : Option Bool) (current : Bool) → (logon_mods want current ≡ []) ↔ Agrees want current
logon_mods_idle none current = (λ e. tt, λ u. refl)
logon_mods_idle (some want) current =
    iff_trans (if_idle (same_flag want current) _ (λ e. cc)) (same_flag_iff want current)

plain_control_iff : (a b c d : Bool) → (plain_control a b ≡ plain_control c d) ↔ ((a ≡ c) × (b ≡ d))
plain_control_iff a b c d = (
  λ e.
      let left = plain_control-ReadsAs a b in
      let right = plain_control-ReadsAs c d in
      (
        sym left.1 ∙ ap (λ n. bit_and n uac_account_disable == 0) e ∙ right.1,
        sym left.2 ∙ ap (λ n. bit_and n uac_dont_expire_password == 0) e ∙ right.2,
      ),
  λ (p, q). ap₂ plain_control p q,
)

uac_mods_idle :
    (u : User) (spec : UserSpec)
    → (uac_mods u spec ≡ []) ↔ (
        (or_now spec.enabled u.enabled ≡ u.enabled)
        × (or_now spec.password_expires u.password_expires ≡ u.password_expires))
unfolding uac_mods
uac_mods_idle u spec =
    iff_trans (control_mods_idle (current_uac u) (apply_uac (current_uac u) spec))
      (iff_trans (eq_iff (apply_uac_lem u spec) (current_uac_lem u)) (plain_control_iff _ _ _ _))

machine_control_iff :
    (a b c d : Bool) → (machine_control a b ≡ machine_control c d) ↔ ((a ≡ c) × (b ≡ d))
machine_control_iff a b c d = (
  λ e.
      let left = machine_control-Reads a b in
      let right = machine_control-Reads c d in
      (
        sym left.2 ∙ ap (λ n. bit_and n uac_account_disable == 0) e ∙ right.2,
        sym left.3 ∙ ap (λ n. not (bit_and n uac_trusted_for_delegation == 0)) e ∙ right.3,
      ),
  λ (p, q). ap₂ machine_control p q,
)

machine_mods_idle :
    (e t : Option Bool) (enabled trusted : Bool)
    → (machine_uac_mods e t enabled trusted ≡ [])
      ↔ ((or_now e enabled ≡ enabled) × (or_now t trusted ≡ trusted))
unfolding machine_uac_mods
machine_mods_idle e t enabled trusted = iff_trans (control_mods_idle _ _) (
    iff_trans (eq_iff (wanted_lem e t enabled trusted) (current_lem enabled trusted))
      (machine_control_iff _ _ _ _))

-- What a specification of a user asks for is what the model says; a time of expiry that is set or
-- cleared is always new.
abbrev pub UserAgrees : UserSpec → User → Type 0
UserAgrees spec u =
    SameSam spec.sam_account_name u.sam_account_name
    × (Agrees spec.user_principal_name u.user_principal_name
        × (Agrees spec.display_name u.display_name
            × (Agrees spec.given_name u.given_name
                × (Agrees spec.surname u.surname
                    × (Agrees spec.description u.description
                        × (((or_now spec.enabled u.enabled ≡ u.enabled)
                              × (or_now spec.password_expires u.password_expires
                                  ≡ u.password_expires))
                            × ((spec.account_expiration ≡ expires_unset)
                                × (Agrees spec.change_password_at_logon
                                    u.change_password_at_logon))))))))

user_mods-Agrees : (spec : UserSpec) (u : User) → (user_mods spec u ≡ []) ↔ UserAgrees spec u
unfolding user_mods
user_mods-Agrees spec u = append_idle _ _ (sam_mods-SameSam _ _ _) (
    append_idle _ _ (string_mods-Agrees _ _ _) (
      append_idle _ _ (string_mods-Agrees _ _ _) (
        append_idle _ _ (string_mods-Agrees _ _ _) (
          append_idle _ _ (string_mods-Agrees _ _ _) (
            append_idle _ _ (string_mods-Agrees _ _ _) (
              append_idle _ _ (uac_mods_idle u spec)
                (append_idle _ _ (expiration_mods_idle _) (logon_mods_idle _ _))))))))

-- Of a computer, by the descriptor of its principals: what has several values, the encryption types
-- and the descriptor are always new.
abbrev pub ComputerAgrees : ComputerSpec → Computer → Option Bytes → Type 0
ComputerAgrees spec c sd =
    SameSam spec.sam_account_name c.sam_account_name
    × (Agrees spec.dns_host_name c.dns_host_name
        × (Agrees spec.description c.description
            × (Agrees spec.display_name c.display_name
                × (Agrees spec.location c.location
                    × (Agrees spec.managed_by c.managed_by
                        × ((spec.service_principal_names ≡ none)
                            × ((spec.allowed_to_delegate_to ≡ none)
                                × ((spec.kerberos_encryption_type ≡ none)
                                    × ((sd ≡ none)
                                        × (((or_now spec.enabled c.enabled ≡ c.enabled)
                                              × (or_now spec.trusted_for_delegation
                                                    c.trusted_for_delegation
                                                  ≡ c.trusted_for_delegation))
                                            × ((spec.account_expiration ≡ expires_unset))))))))))))

multi_idle :
    (attr : Bytes) (want : Option (List Bytes)) → (replace_multi attr want ≡ []) ↔ (want ≡ none)
multi_idle attr want = none_idle (replace_multi attr) refl (λ vals e. cc) want

enc_idle : (want : Option (List Bytes)) → (enc_mods want ≡ []) ↔ (want ≡ none)
enc_idle want = none_idle enc_mods refl (λ names e. cc) want

sd_idle : (attr : Bytes) (sd : Option Bytes) → (sd_mods attr sd ≡ []) ↔ (sd ≡ none)
sd_idle attr sd = none_idle (sd_mods attr) refl (λ value e. cc) sd

computer_mods-Agrees :
    (spec : ComputerSpec) (c : Computer) (sd : Option Bytes)
    → (computer_mods spec c sd ≡ []) ↔ ComputerAgrees spec c sd
unfolding computer_mods
computer_mods-Agrees spec c sd = append_idle _ _ (sam_mods-SameSam _ _ _) (
    append_idle _ _ (string_mods-Agrees _ _ _) (
      append_idle _ _ (string_mods-Agrees _ _ _) (
        append_idle _ _ (string_mods-Agrees _ _ _) (
          append_idle _ _ (string_mods-Agrees _ _ _) (
            append_idle _ _ (string_mods-Agrees _ _ _) (
              append_idle _ _ (multi_idle _ _) (
                append_idle _ _ (multi_idle _ _) (
                  append_idle _ _ (enc_idle _) (
                    append_idle _ _ (sd_idle _ _) (
                      append_idle _ _ (machine_mods_idle _ _ _ _) (expiration_mods_idle _)))))))))))

-- The same of a service account. The days of its managed password are only written by the create: an
-- update ignores them, whatever is asked.
abbrev pub GmsaAgrees : GmsaSpec → Gmsa → Option Bytes → Type 0
GmsaAgrees spec g sd =
    SameSam spec.sam_account_name g.sam_account_name
    × (Agrees spec.dns_host_name g.dns_host_name
        × (Agrees spec.description g.description
            × (Agrees spec.display_name g.display_name
                × ((spec.service_principal_names ≡ none)
                    × ((spec.kerberos_encryption_type ≡ none)
                        × ((sd ≡ none)
                            × (((or_now spec.enabled g.enabled ≡ g.enabled)
                                  × (or_now spec.trusted_for_delegation g.trusted_for_delegation
                                      ≡ g.trusted_for_delegation))
                                × ((spec.account_expiration ≡ expires_unset)))))))))

gmsa_mods-Agrees :
    (spec : GmsaSpec) (g : Gmsa) (sd : Option Bytes)
    → (gmsa_mods spec g sd ≡ []) ↔ GmsaAgrees spec g sd
unfolding gmsa_mods
gmsa_mods-Agrees spec g sd = append_idle _ _ (sam_mods-SameSam _ _ _) (
    append_idle _ _ (string_mods-Agrees _ _ _) (
      append_idle _ _ (string_mods-Agrees _ _ _) (
        append_idle _ _ (string_mods-Agrees _ _ _) (
          append_idle _ _ (multi_idle _ _) (
            append_idle _ _ (enc_idle _) (
              append_idle _ _ (sd_idle _ _)
                (append_idle _ _ (machine_mods_idle _ _ _ _) (expiration_mods_idle _))))))))

-- The modifications of an update of a user, of a computer or of a service account are none exactly
-- where the account name is empty or that of the model, each text and each flag that the update writes
-- is left alone or is that of the model, and nothing is asked for that it always writes: a time of
-- expiry, a list of several values, encryption types, or a descriptor of principals. The name, the
-- container and the password are not part of these modifications; neither are whether a user can
-- change the password and, as AD takes it only at the create, the days of a service account's managed
-- password: what is asked of these makes no difference.
pub updates-Agree :
    (us : UserSpec) (u : User) (cs : ComputerSpec) (c : Computer) (gs : GmsaSpec) (g : Gmsa)
    (sd : Option Bytes)
    → ((user_mods us u ≡ []) ↔ UserAgrees us u)
      × ((computer_mods cs c sd ≡ []) ↔ ComputerAgrees cs c sd)
      × ((gmsa_mods gs g sd ≡ []) ↔ GmsaAgrees gs g sd)
updates-Agree us u cs c gs g sd =
    (user_mods-Agrees us u, computer_mods-Agrees cs c sd, gmsa_mods-Agrees gs g sd)

-- ===== src/User/Control.antt =====
-- What an update writes as userAccountControl.
use go_adldap.Base.{
  ℕ, ◌≡◌, refl, ap, ◌∙◌, arith, Bool, true, false, Option, none, some, [], ◌∷◌, bit_and, bit_or,
  ◌==◌, if◌then◌else◌,
}
use go_adldap.Base.Text.{codes}
use go_adldap.GroupType.Wire.{parse_group_type-group_type_string}
use go_adldap.Account.{
  replace_mod, uint32_string, parse_uint32, apply_flag, uac_normal_account, uac_account_disable,
  uac_dont_expire_password,
}
use go_adldap.User.Data.{UserSpec, User, apply_uac, current_uac, uac_mods}

-- The flags that the user has after the update.
abbrev pub or_now : Option Bool → Bool → Bool
or_now none now = now
or_now (some want) now = want

-- A control by its two flags.
abbrev pub plain_control : Bool → Bool → ℕ
plain_control true true = 0x200
plain_control false true = 0x202
plain_control true false = 0x10200
plain_control false false = 0x10202

abbrev pub wanted_control : User → UserSpec → ℕ
wanted_control u spec =
    plain_control (or_now spec.enabled u.enabled) (or_now spec.password_expires u.password_expires)

pub current_uac_lem : (u : User) → current_uac u ≡ plain_control u.enabled u.password_expires
unfolding current_uac
current_uac_lem u = by_flags u.enabled u.password_expires
  where
    control : Bool → Bool → ℕ
    control enabled expires =
        let out =
          if enabled then uac_normal_account else bit_or uac_normal_account uac_account_disable in
        if expires then out else bit_or out uac_dont_expire_password

    by_flags : (a b : Bool) → control a b ≡ plain_control a b
    by_flags true true = refl
    by_flags true false = refl
    by_flags false true = refl
    by_flags false false = refl

apply_enabled :
    (want : Option Bool) (now expires : Bool)
    → apply_flag want uac_account_disable (plain_control now expires)
      ≡ plain_control (or_now want now) expires
apply_enabled none now expires = refl
apply_enabled (some true) true true = refl
apply_enabled (some true) true false = refl
apply_enabled (some true) false true = refl
apply_enabled (some true) false false = refl
apply_enabled (some false) true true = refl
apply_enabled (some false) true false = refl
apply_enabled (some false) false true = refl
apply_enabled (some false) false false = refl

apply_expires :
    (want : Option Bool) (enabled now : Bool)
    → apply_flag want uac_dont_expire_password (plain_control enabled now)
      ≡ plain_control enabled (or_now want now)
apply_expires none enabled now = refl
apply_expires (some true) true true = refl
apply_expires (some true) true false = refl
apply_expires (some true) false true = refl
apply_expires (some true) false false = refl
apply_expires (some false) true true = refl
apply_expires (some false) true false = refl
apply_expires (some false) false true = refl
apply_expires (some false) false false = refl

pub apply_uac_lem :
    (u : User) (spec : UserSpec) → apply_uac (current_uac u) spec ≡ wanted_control u spec
unfolding apply_uac
apply_uac_lem u spec =
    ap
      (λ c.
        apply_flag spec.password_expires uac_dont_expire_password
          (apply_flag spec.enabled uac_account_disable c))
      (current_uac_lem u)
    ∙ ap (apply_flag spec.password_expires uac_dont_expire_password)
        (apply_enabled spec.enabled u.enabled u.password_expires)
    ∙ apply_expires spec.password_expires (or_now spec.enabled u.enabled) u.password_expires

-- What a control says when it is read back.
abbrev pub ReadsAs : ℕ → Bool → Bool → Type 0
ReadsAs c enabled expires =
    (parse_uint32 (uint32_string c) ≡ some c)
    × ((bit_and c uac_account_disable == 0) ≡ enabled)
    × ((bit_and c uac_dont_expire_password == 0) ≡ expires)

pub plain_control-ReadsAs :
    (enabled expires : Bool) → ReadsAs (plain_control enabled expires) enabled expires
unfolding parse_uint32 uint32_string
plain_control-ReadsAs true true =
    (parse_group_type-group_type_string 0x200 (omega arith), refl, refl)
plain_control-ReadsAs false true =
    (parse_group_type-group_type_string 0x202 (omega arith), refl, refl)
plain_control-ReadsAs true false =
    (parse_group_type-group_type_string 0x10200 (omega arith), refl, refl)
plain_control-ReadsAs false false =
    (parse_group_type-group_type_string 0x10202 (omega arith), refl, refl)

-- The control that an update writes, if it differs from the one it takes for the current, is that of a
-- normal account with the two flags and no other bit, whatever else the account's control held; read
-- back, it says of each flag what the specification wants, or what the model said before.
pub uac_mods_lem :
    (u : User) (spec : UserSpec)
    → (uac_mods u spec ≡ (
        if wanted_control u spec == current_uac u
        then []
        else replace_mod (codes "userAccountControl") (uint32_string (wanted_control u spec)) ∷ []))
      × ReadsAs
          (wanted_control u spec)
          (or_now spec.enabled u.enabled)
          (or_now spec.password_expires u.password_expires)
unfolding uac_mods
uac_mods_lem u spec = (
  ap
      (λ want.
        if want == current_uac u
        then []
        else replace_mod (codes "userAccountControl") (uint32_string want) ∷ [])
      (apply_uac_lem u spec),
  plain_control-ReadsAs (or_now spec.enabled u.enabled)
      (or_now spec.password_expires u.password_expires),
)

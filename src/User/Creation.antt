-- ===== src/User/Creation.antt =====
-- The create of a user: the account is enabled only once it has its password.
use go_adldap.Base.{
  ℕ, ◌≡◌, ◌⊎◌, Option, none, some, List, [], ◌∷◌, bit_and, if◌then◌else◌, Outcome, ok, err,
}
use go_adldap.Base.Bytes.{Bytes}
use go_adldap.Base.Text.{codes, same_text}
use go_adldap.Directory.{Attribute, Entry, OpError, Request, search, add, modify, modify_dn, delete}
use go_adldap.Directory.Logic.{History}
use go_adldap.Adcore.{Adcore}
use go_adldap.Ou.Protection.{replace_descriptor}
use go_adldap.Account.{parse_uint32}
use go_adldap.User.Data.{UserSpec, User, user_add, post_mods}
use go_adldap.User.Password.{password_request, utf16_le_quoted}

-- A password that was asked for is in place: its write was the last request, and was accepted.
abbrev pub HasPassword : Option (List ℕ) → Bytes → History → Type 0
HasPassword none dn h = Unit
HasPassword (some []) dn h = Unit
HasPassword (some (r ∷ password)) dn [] = ⊥
HasPassword (some (r ∷ password)) dn ((q, x) ∷ h) =
    (q ≡ password_request dn (utf16_le_quoted (r ∷ password)))
    × ((entries : List Entry) × (x ≡ ok entries))

-- The values of the attributes that carry the control of an account.
abbrev pub controls : List Attribute → List (List Bytes)
controls [] = []
controls (a ∷ attrs) =
    let rest = controls attrs in
    if same_text a.type (codes "userAccountControl") then a.vals ∷ rest else rest

-- Exactly one attribute carries the control, with one value: a number that is read back, in which the
-- bit that disables the account is set.
abbrev pub AddsDisabled : List Attribute → Type 0
AddsDisabled attrs =
    (value : Bytes) × (control : ℕ) × (controls attrs ≡ (value ∷ []) ∷ [])
    × (parse_uint32 value ≡ some control)
    × (bit_and control 0x0002 ≡ 0x0002)

-- What a create writes: the account with the attributes of its specification, first of all and in a
-- control that disables it; its password; behind the password what enables it; and its descriptor.
abbrev pub CreatesSafely : UserSpec → Bytes → History → Request → Type 0
CreatesSafely spec dn h (search r) = Unit
CreatesSafely spec dn h (add d attrs) =
    (h ≡ []) × (add d attrs ≡ add dn (user_add spec)) × AddsDisabled attrs
CreatesSafely spec dn h (modify d mods controls) =
    ((encoded : Bytes) × (modify d mods controls ≡ password_request dn encoded))
    ⊎ ((modify d mods controls ≡ modify dn (post_mods spec) []) × HasPassword spec.password dn h)
    ⊎ ((sd : Bytes) × (modify d mods controls ≡ replace_descriptor dn sd))
CreatesSafely spec dn h (modify_dn d rdn old superior) = ⊥
CreatesSafely spec dn h (delete d) = ⊥

-- The write of the password that was asked for is among the accepted requests.
abbrev pub Accepted : Request → History → Type 0
Accepted q [] = ⊥
Accepted q ((r, x) ∷ h) = ((r ≡ q) × ((entries : List Entry) × (x ≡ ok entries))) ⊎ Accepted q h

abbrev pub PasswordAccepted : Option (List ℕ) → Bytes → History → Type 0
PasswordAccepted none dn h = Unit
PasswordAccepted (some []) dn h = Unit
PasswordAccepted (some (r ∷ password)) dn h =
    Accepted (password_request dn (utf16_le_quoted (r ∷ password))) h

abbrev pub IsCreated : UserSpec → Bytes → History → Outcome OpError User → Type 0
IsCreated spec dn h (ok m) = PasswordAccepted spec.password dn h
IsCreated spec dn h (err e) = Unit

module _ (lib : Adcore) (dnc : Bytes) (spec : UserSpec) (dn : Bytes) where
  -- The end of the password's write.
  abbrev PasswordSet : History → Outcome OpError (Unit {0}) → Type 0
  PasswordSet h (ok done_so) = HasPassword spec.password dn h
  PasswordSet h (err e) = Unit

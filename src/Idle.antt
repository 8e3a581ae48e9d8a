-- ===== src/Idle.antt =====
-- When the parts of an update (appendStringMod and the others) write nothing.
pub mod Updates
mod Tests
use go_adldap.Base.{
  ℕ, ◌≡◌, ◌≢◌, ◌⊎◌, ◌↔◌, inl, inr, refl, sym, subst, ◌∙◌, arith, Bool, true, false, not, ◌&&◌,
  Option, none, some, List, [], ◌∷◌, ◌++◌, ◌==◌, if◌then◌else◌, is_empty, ==_iff, Bool-cases,
}
use go_adldap.Base.Bytes.{Bytes}
use go_adldap.Base.Text.{codes, same_text, same_text_eq, same_text_refl}
use go_adldap.Directory.{Modification, mod_delete, mod_replace}
use go_adldap.Operation.{string_mods}
use go_adldap.Account.{
  replace_mod, control_mods, sam_mods, Expiration, expires_unset, expires_cleared, expires_at,
  expiration_mods,
}
use go_adldap.Machine.{replace_multi, enc_mods, sd_mods}

-- What a specification asks for, if anything, is what there is.
abbrev pub Agrees {ℓ} : {A : Type ℓ} → Option A → A → Type ℓ
Agrees none current = Unit
Agrees (some want) current = want ≡ current

-- An account name that is empty is left alone.
abbrev pub SameSam : Bytes → Bytes → Type 0
SameSam want current = (want ≡ []) ⊎ (want ≡ current)

module _ {A : Type 0} where
  pub append_idle :
      (a b : List A) {P Q : Type 0} → (a ≡ []) ↔ P → (b ≡ []) ↔ Q → (a ++ b ≡ []) ↔ (P × Q)
  append_idle [] b p q = (λ e. (p.0 refl, q.0 e), λ (x, y). q.1 y)
  append_idle (x ∷ a) b p q = (λ e. cc, λ (y, z). absurd (nonempty (p.1 y)))
    where
      nonempty : x ∷ a ≡ [] → ⊥
      nonempty e = cc

  -- What is written where a test fails.
  pub if_idle : (b : Bool) (x : List A) → (x ≡ [] → ⊥) → ((if b then [] else x) ≡ []) ↔ (b ≡ true)
  if_idle true x written = (λ e. refl, λ e. refl)
  if_idle false x written = (λ e. absurd (written e), λ e. cc)

  pub none_idle :
      {B : Type 0} (f : Option B → List A)
      → f none ≡ []
      → ((b : B) → f (some b) ≡ [] → ⊥)
      → (o : Option B) → (f o ≡ []) ↔ (o ≡ none)
  none_idle f nothing something none = (λ e. refl, λ e. nothing)
  none_idle f nothing something (some b) = (λ e. absurd (something b e), λ e. cc)

pub iff_trans : {P Q R : Type 0} → P ↔ Q → Q ↔ R → P ↔ R
iff_trans p q = (λ x. q.0 (p.0 x), λ z. p.1 (q.1 z))

pub eq_iff : {A : Type 0} {a b a' b' : A} → a ≡ a' → b ≡ b' → (a ≡ b) ↔ (a' ≡ b')
eq_iff p q = (λ e. sym p ∙ e ∙ q, λ e. p ∙ e ∙ sym q)

same_text_iff : (a b : Bytes) → (same_text a b ≡ true) ↔ (a ≡ b)
same_text_iff a b = (same_text_eq a b, λ e. subst (λ c. same_text a c ≡ true) e (same_text_refl a))

pub string_mods-Agrees :
    (attr : Bytes) (want : Option Bytes) (current : Bytes)
    → (string_mods attr want current ≡ []) ↔ Agrees want current
string_mods-Agrees attr none current = (λ e. tt, λ u. refl)
string_mods-Agrees attr (some want) current =
    iff_trans (if_idle (same_text want current) _ (written (is_empty want)))
      (same_text_iff want current)
  where
    written :
        (b : Bool)
        → if◌then◌else◌ {A = List Modification} b
            (record { op = mod_delete; type = attr; vals = [] } ∷ [])
            (record { op = mod_replace; type = attr; vals = want ∷ [] } ∷ [])
          ≡ []
        → ⊥
    written true e = cc
    written false e = cc

pub sam_mods-SameSam :
    (want current written : Bytes) → (sam_mods want current written ≡ []) ↔ SameSam want current
sam_mods-SameSam [] current written = (λ e. inl refl, λ s. refl)
sam_mods-SameSam (c ∷ want) current written = by_test (same_text (c ∷ want) current) refl
  where
    by_test :
        (b : Bool)
        → same_text (c ∷ want) current ≡ b
        → ((if not b then replace_mod (codes "sAMAccountName") written ∷ [] else []) ≡ [])
          ↔ SameSam (c ∷ want) current
    by_test true e = (λ u. inr (same_text_eq (c ∷ want) current e), λ s. refl)
    by_test false e = (λ u. cc, λ s. absurd (differs s))
      where
        differs : SameSam (c ∷ want) current → ⊥
        differs (inl bad) = cc
        differs (inr same) = cc ((same_text_iff (c ∷ want) current).1 same)

pub control_mods_idle : (current want : ℕ) → (control_mods current want ≡ []) ↔ (want ≡ current)
control_mods_idle current want =
    iff_trans (if_idle (want == current) _ (λ e. cc)) (==_iff want current)

pub expiration_mods_idle : (x : Expiration) → (expiration_mods x ≡ []) ↔ (x ≡ expires_unset)
expiration_mods_idle expires_unset = (λ e. refl, λ e. refl)
expiration_mods_idle expires_cleared = (λ e. cc, λ e. cc)
expiration_mods_idle (expires_at t) = (λ e. cc, λ e. cc)

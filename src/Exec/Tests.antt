-- ===== src/Exec/Tests.antt =====
-- An operation that meets a busy domain controller once, and then succeeds.
use go_adldap.Base.{
  ℕ, zero, suc, ◌+◌, ◌<◌, ◌≡◌, refl, arith, true, Option, none, some, ◌==◌, if◌then◌else◌, length,
}
use go_adldap.LdapErr.{
  Kind, unknown, too_many_results, denied, referral, constraint, invalid_attribute, not_found,
  transient, already_exists, transport, other, Failure,
}
use go_adldap.LdapErr.Kinds.{is_transient, IsBusy}
use go_adldap.LdapErr.Tests.{busy, no_code, busy_retried}
use go_adldap.Exec.{Attempt, ran, Run, with_conn}
use go_adldap.Exec.Retry.{with_conn-repeats, with_conn-reaches, Passes, none_below}

abbrev attempts : ℕ → Attempt
attempts n = if n == 1 then ran (some busy) else ran none

abbrev no_wait : ℕ → Option ℕ
no_wait n = none

abbrev run : Run
run = with_conn no_code is_transient 3 attempts no_wait

only_transient : (k : Kind) → is_transient k ≡ true → k ≡ transient
only_transient transient h = refl
only_transient unknown h = cc
only_transient too_many_results h = cc
only_transient denied h = cc
only_transient referral h = cc
only_transient constraint h = cc
only_transient invalid_attribute h = cc
only_transient not_found h = cc
only_transient already_exists h = cc
only_transient transport h = cc
only_transient (other n) h = cc

first-Passes : (i : ℕ) → i < 1 → Passes no_code is_transient 3 attempts no_wait (1 + i)
first-Passes zero h = (busy, refl, busy_retried, refl)
first-Passes (suc i) h = none_below i (omega arith)

with_conn-reaches_example : (run.result ≡ none) × (length run.ends ≡ 2)
with_conn-reaches_example =
    with_conn-reaches no_code is_transient 3 attempts no_wait 1 (omega arith) first-Passes refl

works_second : (run.result ≡ none) × (length run.ends ≡ 2)
works_second =
    with_conn-reaches no_code is_transient 3 attempts no_wait 1 (omega arith) first-Passes refl

with_conn-repeats_example : (e : Failure) × (attempts 1 ≡ ran (some e)) × IsBusy no_code e
with_conn-repeats_example =
    with_conn-repeats no_code is_transient 3 attempts no_wait only_transient 0
      (omega (arith, works_second.1))

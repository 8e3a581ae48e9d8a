-- ===== src/Exec.antt =====
-- exec.go: withConn, which runs one operation on a pooled connection and retries it.
pub mod Retry
mod Tests
use go_adldap.Base.{
  ℕ, zero, suc, ◌+◌, Bool, true, false, not, ◌||◌, Option, none, some, List, [], ◌∷◌, ◌==◌,
  if◌then◌else◌,
}
use go_adldap.LdapErr.{Kind, denied, transport, AdError, Failure, classify, no_result, RawError}

-- What one attempt meets: Acquire fails, or the operation runs on the leased connection and returns
-- nil or an error.
pub data Attempt : Type 0 where
  no_lease : Failure → Attempt
  ran : Option Failure → Attempt

-- How a lease ends.
pub data LeaseEnd : Type 0 where
  released discarded : LeaseEnd

-- What withConn returns: an error of adcore, or the one that Backoff gave.
pub data RunError : Type 0 where
  failed : AdError → RunError
  backoff_stopped : ℕ → RunError

-- One call: what it returns, and the ends of its leases in order. Each lease ends in the attempt
-- that took it.
pub record Run : Type 0 where
  pub result : Option RunError
  pub ends : List LeaseEnd

pub is_transport : Kind → Bool
is_transport transport = true
is_transport k = false

pub end_of : AdError → LeaseEnd
end_of e = if is_transport e.kind then discarded else released

-- adcore's table of Win32 codes, its test Kind.Retryable, MaxAttempts, what the attempts meet and
-- what Backoff returns after each are parameters.
module _ (classify_code : ℕ → Option Kind) (retryable : Kind → Bool) (max_attempts : ℕ)
    (attempts : ℕ → Attempt) (backoff : ℕ → Option ℕ) where
  -- The branches of a failed Acquire.
  pub acquire_error : Failure → AdError
  acquire_error e = elim e.raw [
    | some raw ↦ classify classify_code e
    | none ↦ if e.credential_rejected then record no_result { kind = denied } else no_result
  ]

  -- The end of an iteration whose operation failed, with what the next iterations give.
  abbrev pub after_failure : AdError → ℕ → Run → Run
  after_failure e attempt rest =
      if not (retryable e.kind) || attempt == max_attempts
      then record { result = some (failed e); ends = end_of e ∷ [] }
      else elim (backoff attempt) [
        | some b ↦ record { result = some (backoff_stopped b); ends = end_of e ∷ [] }
        | none ↦ record { result = rest.result; ends = end_of e ∷ rest.ends }
      ]

  abbrev pub one_attempt : Attempt → ℕ → Run → Run
  one_attempt (no_lease e) attempt rest = record {
    result = some (failed (acquire_error e));
    ends = [];
  }
  one_attempt (ran none) attempt rest = record { result = none; ends = released ∷ [] }
  one_attempt (ran (some e)) attempt rest = after_failure (classify classify_code e) attempt rest

  -- `lastErr` after an iteration.
  pub last_error : Attempt → Option RunError
  last_error (ran (some e)) = some (failed (classify classify_code e))
  last_error t = none

  -- The loop, with `left` iterations to go, the first of them number `attempt`.
  pub retry_loop : ℕ → ℕ → Option RunError → Run
  retry_loop zero attempt last = record { result = last; ends = [] }
  retry_loop (suc left) attempt last =
      let t = attempts attempt in
      one_attempt t attempt (retry_loop left (attempt + 1) (last_error t))

  pub with_conn : Run
  with_conn = retry_loop max_attempts 1 none

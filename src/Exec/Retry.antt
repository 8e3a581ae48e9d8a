-- ===== src/Exec/Retry.antt =====
-- When an operation is run again, how its leases end, and when withConn reports success.
use go_adldap.Base.{
  ℕ, zero, suc, ◌+◌, ◌<◌, ◌≤◌, ◌≡◌, ◌⊎◌, refl, sym, ap, subst, ◌∙◌, arith, Bool, true, false, not,
  ◌||◌, Option, none, some, List, [], ◌∷◌, ◌==◌, if◌then◌else◌, length, get_or, ne→==-false, inl,
  inr,
}
use go_adldap.LdapErr.{
  Kind, unknown, too_many_results, denied, referral, constraint, invalid_attribute, not_found,
  transient, already_exists, transport, other, AdError, Failure, classify,
}
use go_adldap.LdapErr.Kinds.{IsBusy, classify-transient}
use go_adldap.Exec.{
  Attempt, no_lease, ran, LeaseEnd, released, discarded, is_transport, RunError, failed,
  backoff_stopped, Run, end_of, after_failure, one_attempt, retry_loop, with_conn, last_error,
}

pub none_below {ℓ} : {P : Type ℓ} (i : ℕ) → i < 0 → P
none_below i h = elim h [ ]

end_of-Kind :
    (e : AdError)
    → ((e.kind ≡ transport) × (end_of e ≡ discarded))
      ⊎ ((e.kind ≡ transport → ⊥) × (end_of e ≡ released))
unfolding end_of is_transport
end_of-Kind e = by_kind e.kind
  where
    by_kind :
        (k : Kind)
        → ((k ≡ transport) × ((if is_transport k then discarded else released) ≡ discarded))
          ⊎ ((k ≡ transport → ⊥) × ((if is_transport k then discarded else released) ≡ released))
    by_kind transport = inl (refl, refl)
    by_kind unknown = inr (λ h. cc, refl)
    by_kind too_many_results = inr (λ h. cc, refl)
    by_kind denied = inr (λ h. cc, refl)
    by_kind referral = inr (λ h. cc, refl)
    by_kind constraint = inr (λ h. cc, refl)
    by_kind invalid_attribute = inr (λ h. cc, refl)
    by_kind not_found = inr (λ h. cc, refl)
    by_kind transient = inr (λ h. cc, refl)
    by_kind already_exists = inr (λ h. cc, refl)
    by_kind (other n) = inr (λ h. cc, refl)

module _ (classify_code : ℕ → Option Kind) (retryable : Kind → Bool) (max_attempts : ℕ)
    (attempts : ℕ → Attempt) (backoff : ℕ → Option ℕ) where
  abbrev kind_at : Failure → Kind
  kind_at e = (classify classify_code e).kind

  abbrev error_after : Attempt → Option RunError
  error_after = last_error classify_code retryable max_attempts attempts backoff

  last_error-ran :
      (e : Failure) → error_after (ran (some e)) ≡ some (failed (classify classify_code e))
  unfolding last_error
  last_error-ran e = refl

  -- The ways an iteration can go, on what the next ones give.
  data Went (t : Attempt) (attempt : ℕ) (rest : Run) : Run → Type 0 where
    not_acquired :
        (e : Failure) (x : RunError)
        → t ≡ no_lease e
        → Went t attempt rest (record { result = some x; ends = [] })
    finished : t ≡ ran none → Went t attempt rest (record { result = none; ends = released ∷ [] })
    gave_up :
        (e : Failure) (x : RunError)
        → t ≡ ran (some e)
        → Went t attempt rest
            (record { result = some x; ends = end_of (classify classify_code e) ∷ [] })
    again :
        (e : Failure)
        → t ≡ ran (some e)
        → retryable (kind_at e) ≡ true
        → Went t attempt rest
            (record { result = rest.result; ends = end_of (classify classify_code e) ∷ rest.ends })

  after_failure-Went :
      (e : Failure) (attempt : ℕ) (rest : Run)
      → Went (ran (some e)) attempt rest (
          after_failure classify_code retryable max_attempts attempts backoff
            (classify classify_code e)
            attempt
            rest)
  after_failure-Went e attempt rest = by_test _ refl (attempt == max_attempts) (backoff attempt)
    where
      by_test :
          (again_ok : Bool)
          → retryable (kind_at e) ≡ again_ok
          → (last : Bool) (b : Option ℕ)
          → Went (ran (some e)) attempt rest (
              if not again_ok || last
              then record {
                result = some (failed (classify classify_code e));
                ends = end_of (classify classify_code e) ∷ [];
              }
              else elim b [
                | some x ↦ record {
                  result = some (backoff_stopped x);
                  ends = end_of (classify classify_code e) ∷ [];
                }
                | none ↦ record {
                  result = rest.result;
                  ends = end_of (classify classify_code e) ∷ rest.ends;
                }
              ])
      by_test false h last b = gave_up e _ refl
      by_test true h true b = gave_up e _ refl
      by_test true h false (some x) = gave_up e _ refl
      by_test true h false none = again e refl h

  one_attempt-Went :
      (t : Attempt) (attempt : ℕ) (rest : Run)
      → Went t attempt rest
          (one_attempt classify_code retryable max_attempts attempts backoff t attempt rest)
  one_attempt-Went (no_lease e) attempt rest = not_acquired e _ refl
  one_attempt-Went (ran none) attempt rest = finished refl
  one_attempt-Went (ran (some e)) attempt rest = after_failure-Went e attempt rest

  abbrev loop : ℕ → ℕ → Option RunError → Run
  loop = retry_loop classify_code retryable max_attempts attempts backoff

  abbrev run : Run
  run = with_conn classify_code retryable max_attempts attempts backoff

  abbrev end_for : Option Failure → LeaseEnd
  end_for none = released
  end_for (some e) = end_of (classify classify_code e)

  -- Attempt `n` ran the operation, which failed with an error that may be retried.
  abbrev MayRepeat : ℕ → Type 0
  MayRepeat n = (e : Failure) × (attempts n ≡ ran (some e)) × (retryable (kind_at e) ≡ true)

  -- A lease is discarded where the operation failed with an error of transport, and is released where
  -- it succeeded or failed otherwise.
  abbrev pub IsEnd : LeaseEnd → Option Failure → Type 0
  IsEnd l none = l ≡ released
  IsEnd l (some e) =
      ((kind_at e ≡ transport) × (l ≡ discarded)) ⊎ ((kind_at e ≡ transport → ⊥) × (l ≡ released))

  end_for-IsEnd : (o : Option Failure) → IsEnd (end_for o) o
  end_for-IsEnd none = refl
  end_for-IsEnd (some e) = end_of-Kind (classify classify_code e)

  -- Attempt `n` ran the operation, and its lease ended as the outcome asks.
  abbrev pub EndsAs : LeaseEnd → ℕ → Type 0
  EndsAs l n = (o : Option Failure) × (attempts n ≡ ran o) × IsEnd l o

  -- What the loop gives with `left` iterations to go from number `a` on.
  record IsRun (left a : ℕ) (last : Option RunError) (r : Run) : Type 0 where
    few : length r.ends ≤ left
    repeats : (i : ℕ) → i + 1 < length r.ends → MayRepeat (a + i)
    leases : (i : ℕ) → i < length r.ends → EndsAs (get_or r.ends i released) (a + i)
    success :
        r.result ≡ none
        → (last ≡ none) × (left ≡ 0)
          ⊎ ((n : ℕ) × (length r.ends ≡ n + 1) × (attempts (a + n) ≡ ran none))

  next_number : (P : ℕ → Type 0) (a i : ℕ) → P (a + 1 + i) → P (a + suc i)
  next_number P a i x = subst P (omega arith) x

  this_number : (P : ℕ → Type 0) (a : ℕ) → P a → P (a + 0)
  this_number P a x = subst P (omega arith) x

  more_leases :
      (a : ℕ) (l : LeaseEnd) (ends : List LeaseEnd)
      → EndsAs l a
      → ((i : ℕ) → i < length ends → EndsAs (get_or ends i released) (a + 1 + i))
      → (i : ℕ) → i < suc (length ends)
      → EndsAs (get_or (l ∷ ends) i released) (a + i)
  more_leases a l ends x ih zero h = this_number (EndsAs l) a x
  more_leases a l ends x ih (suc i) h =
      next_number (EndsAs (get_or ends i released)) a i (ih i (omega arith))

  more_repeats :
      (a n : ℕ)
      → MayRepeat a
      → ((i : ℕ) → i + 1 < n → MayRepeat (a + 1 + i))
      → (i : ℕ) → i + 1 < suc n
      → MayRepeat (a + i)
  more_repeats a n x ih zero h = this_number MayRepeat a x
  more_repeats a n x ih (suc i) h = next_number MayRepeat a i (ih i (omega arith))

  Went-IsRun :
      (left a : ℕ) (last : Option RunError) (rest r : Run)
      → IsRun left (a + 1) (error_after (attempts a)) rest
      → Went (attempts a) a rest r
      → IsRun (suc left) a last r
  Went-IsRun left a last rest r ih (not_acquired e x t) = record {
    few = omega arith;
    repeats = λ i h. none_below i (omega arith);
    leases = λ i h. none_below i h;
    success = λ h. cc;
  }
  Went-IsRun left a last rest r ih (finished t) = record {
    few = omega arith;
    repeats = λ i h. none_below i (omega arith);
    leases = more_leases a released [] (none, t, end_for-IsEnd none) (λ i h. none_below i h);
    success = λ h. inr (0, refl, this_number (λ n. attempts n ≡ ran none) a t);
  }
  Went-IsRun left a last rest r ih (gave_up e x t) = record {
    few = omega arith;
    repeats = λ i h. none_below i (omega arith);
    leases = more_leases a _ [] (some e, t, end_for-IsEnd (some e)) (λ i h. none_below i h);
    success = λ h. cc;
  }
  Went-IsRun left a last rest r ih (again e t may) = record {
    few = omega (arith, ih.few);
    repeats = more_repeats a (length rest.ends) (e, t, may) ih.repeats;
    leases = more_leases a _ rest.ends (some e, t, end_for-IsEnd (some e)) ih.leases;
    success = λ h. still_success (ih.success h);
  }
    where
      still_success :
          (error_after (attempts a) ≡ none) × (left ≡ 0)
            ⊎ ((n : ℕ) × (length rest.ends ≡ n + 1) × (attempts (a + 1 + n) ≡ ran none))
          → (last ≡ none) × (suc left ≡ 0)
            ⊎ ((n : ℕ) × (suc (length rest.ends) ≡ n + 1) × (attempts (a + n) ≡ ran none))
      still_success (inl (l, z)) =
          let k : none ≡ some (failed (classify classify_code e)) =
            sym l ∙ ap error_after t ∙ last_error-ran e in
          cc
      still_success (inr (n, len, done)) =
          inr (suc n, omega (arith, len), next_number (λ k. attempts k ≡ ran none) a n done)

  retry_loop-IsRun : (left a : ℕ) (last : Option RunError) → IsRun left a last (loop left a last)
  unfolding retry_loop
  retry_loop-IsRun zero a last = record {
    few = omega arith;
    repeats = λ i h. none_below i (omega arith);
    leases = λ i h. none_below i h;
    success = λ h. inl (h, refl);
  }
  retry_loop-IsRun (suc left) a last =
      Went-IsRun left a last _ _ (retry_loop-IsRun left (a + 1) _)
        (one_attempt-Went (attempts a) a _)

  run-IsRun : IsRun max_attempts 1 none run
  unfolding with_conn
  run-IsRun = retry_loop-IsRun max_attempts 1 none

  -- Where MaxAttempts is not 0, withConn reports success only if the last run of the operation
  -- succeeded.
  with_conn-success :
      0 < max_attempts
      → run.result ≡ none
      → (n : ℕ) × (length run.ends ≡ n + 1) × (attempts (1 + n) ≡ ran none)
  with_conn-success some_attempts h = elim (run-IsRun.success h) [
    | inl (l, z) ↦ none_below 0 (omega arith)
    | inr found ↦ found
  ]

  -- Where only transient errors may be retried, an operation is run again only after the domain
  -- controller answered that it is busy.
  pub with_conn-repeats :
      ((k : Kind) → retryable k ≡ true → k ≡ transient)
      → (i : ℕ) → i + 1 < length run.ends
      → (e : Failure) × (attempts (1 + i) ≡ ran (some e)) × IsBusy classify_code e
  with_conn-repeats only i h =
      let (e, t, may) = run-IsRun.repeats i h in
      (e, t, classify-transient classify_code e (only (kind_at e) may))

  -- An attempt that fails in a way that is retried, with time left to wait.
  abbrev pub Passes : ℕ → Type 0
  Passes n =
      (e : Failure) × (attempts n ≡ ran (some e))
      × (retryable (classify classify_code e).kind ≡ true)
      × (backoff n ≡ none)

  next_pass : (a i : ℕ) → Passes (a + suc i) → Passes (a + 1 + i)
  next_pass a i x = subst Passes (omega arith) x

  one_attempt-Passes :
      (t : Attempt) (a : ℕ) (rest : Run) (e : Failure)
      → t ≡ ran (some e)
      → retryable (kind_at e) ≡ true
      → (a == max_attempts) ≡ false
      → backoff a ≡ none
      → one_attempt classify_code retryable max_attempts attempts backoff t a rest
        ≡ record { result = rest.result; ends = end_of (classify classify_code e) ∷ rest.ends }
  one_attempt-Passes t a rest e ran_e may more waited = rw (ran_e, may, more, waited) refl

  loop-reaches :
      (n left a : ℕ) (last : Option RunError)
      → a + left ≡ max_attempts + 1
      → n < left
      → ((i : ℕ) → i < n → Passes (a + i))
      → attempts (a + n) ≡ ran none
      → ((loop left a last).result ≡ none) × (length (loop left a last).ends ≡ n + 1)
  unfolding retry_loop
  loop-reaches zero (suc left) a last sum h before done =
      let e : attempts a ≡ ran none = subst (λ k. attempts k ≡ ran none) (omega arith) done in
      rw e (refl, refl)
  loop-reaches n zero a last sum h before done = none_below n h
  loop-reaches (suc n) (suc left) a last sum h before done =
      let first : Passes a = subst Passes {x = a + 0} (omega arith) (before 0 (omega arith)) in
      let (e, t, may, waited) = first in
      let (ok_after, len) =
        loop-reaches n left (a + 1) (error_after (attempts a)) (omega arith) (omega arith)
          (λ i k. next_pass a i (before (suc i) (omega arith)))
          (subst (λ k. attempts k ≡ ran none) (omega arith) done) in
      let more : (a == max_attempts) ≡ false = ne→==-false a max_attempts (omega arith) in
      let step =
        one_attempt-Passes (attempts a) a (loop left (a + 1) (error_after (attempts a))) e t may
          more waited in
      (
        ap (λ r. r.result) step ∙ ok_after,
        ap (λ r. length r.ends) step ∙ (ap suc len ∙ omega arith),
      )

  -- Where the first attempts fail in a way that is retried, with time left to wait, and the next
  -- one succeeds within MaxAttempts, withConn succeeds after exactly these runs.
  pub with_conn-reaches :
      (n : ℕ)
      → n < max_attempts
      → ((i : ℕ) → i < n → Passes (1 + i))
      → attempts (1 + n) ≡ ran none
      → (run.result ≡ none) × (length run.ends ≡ n + 1)
  unfolding with_conn
  with_conn-reaches n h before done = loop-reaches n max_attempts 1 none (omega arith) h before done

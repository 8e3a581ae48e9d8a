-- ===== src/Pool/Sound.antt =====
-- Every state that the pool and its goroutines can reach is sound.
use go_adldap.Base.{
  ℕ, ◌+◌, ◌<◌, ◌≤◌, ◌≡◌, refl, arith, Bool, true, false, Option, none, some, List, [], ◌∷◌, ◌++◌,
  ltb, if◌then◌else◌, length, length-append, ap, subst,
}
use go_adldap.Pool.{
  Pool, new_pool, split_last, Phase, entered, dialing, binding, leased, leaving, Event, looks,
  dial_works, dial_fails, bind_works, bind_fails, releases, discards, gives_back, Effect, look,
  looked, released, release, advance, close, World, start, still, Step, enter, run, shut, Reach,
  here, then_step,
}
use go_adldap.Pool.Count.{
  one_if_same, count, held, busy, sum_by, count-append, sum_by-append, split_last-count,
  split_last-none,
}

-- Whether connection `c` was dialled before `n`.
abbrev pub dialled : ℕ → ℕ → ℕ
dialled c n = if ltb c n then 1 else 0

pub record IsSound (w : World) : Type 0 where
  pub permits : w.pool.sem ≡ length w.threads
  pub bounded : w.pool.sem ≤ w.pool.size
  pub drained : w.pool.done ≡ true → w.pool.idle ≡ []
  pub capacity : length w.pool.idle + sum_by busy w.threads ≤ w.pool.size
  pub accounted :
      (c : ℕ)
      → count c w.pool.idle + sum_by (held c) w.threads + count c w.closed ≡ dialled c w.next

-- What one step of one goroutine keeps, whatever the others hold.
record IsLocal (t : Phase) (p : Pool) (n : ℕ) (f : Effect) : Type 0 where
  size : f.pool.size ≡ p.size
  permit : f.pool.sem + 1 ≡ p.sem + length (still f.phase)
  drained : (p.done ≡ true → p.idle ≡ []) → f.pool.done ≡ true → f.pool.idle ≡ []
  capacity :
      (others : ℕ)
      → others + 1 ≤ p.size
      → length p.idle + busy t + others ≤ p.size
      → length f.pool.idle + sum_by busy (still f.phase) + others ≤ p.size
  accounted :
      (c : ℕ)
      → count c f.pool.idle + sum_by (held c) (still f.phase) + count c f.closed + dialled c n
        ≡ count c p.idle + held c t + dialled c f.next

some_eq : {f g : Effect} → some f ≡ some g → f ≡ g
some_eq h = cc

looked-IsLocal :
    (shut : Bool) (last : Option (List ℕ × ℕ)) (p : Pool) (n : ℕ)
    → p.done ≡ shut
    → split_last p.idle ≡ last
    → IsLocal entered p n (looked shut last p n)
unfolding looked
looked-IsLocal true last p n e h = record {
  size = refl;
  permit = refl;
  drained = λ k d. k d;
  capacity = λ others r k. omega arith;
  accounted = λ c. omega arith;
}
looked-IsLocal false none p n e h = record {
  size = refl;
  permit = refl;
  drained = λ k d. k d;
  capacity = λ others r k. omega (arith, ap length (split_last-none p.idle h));
  accounted = λ c. omega arith;
}
looked-IsLocal false (some (front, c)) p n e h = record {
  size = refl;
  permit = refl;
  drained = λ k d. cc;
  capacity = λ others r k. omega (arith, (split_last-count 0 p.idle front c h).1);
  accounted = λ x. omega (arith, (split_last-count x p.idle front c h).0);
}

released-IsLocal :
    (shut : Bool) (c : ℕ) (p : Pool) (n : ℕ)
    → p.done ≡ shut
    → IsLocal (leased c) p n (released shut c p n)
unfolding released
released-IsLocal true c p n e = record {
  size = refl;
  permit = refl;
  drained = λ k d. k d;
  capacity = λ others r k. omega arith;
  accounted = λ x. omega arith;
}
released-IsLocal false c p n e = record {
  size = refl;
  permit = refl;
  drained = λ k d. cc;
  capacity = λ others r k. omega (arith, length-append p.idle (c ∷ []));
  accounted = λ x. omega (arith, count-append x p.idle (c ∷ []));
}

-- A number given out by a dial is new.
dialled-suc : (c n : ℕ) → dialled c (n + 1) ≡ one_if_same n c + dialled c n
dialled-suc c n = ground arith

-- A goroutine that changes its phase and leaves the pool as it is.
moved-IsLocal :
    (t t' : Phase) (p : Pool) (n n' : ℕ) (gone : List ℕ)
    → busy t' ≤ busy t
    → ((c : ℕ) → held c t' + count c gone + dialled c n ≡ held c t + dialled c n')
    → IsLocal t p n (record { phase = some t'; pool = p; next = n'; closed = gone })
moved-IsLocal t t' p n n' gone less same = record {
  size = refl;
  permit = refl;
  drained = λ k d. k d;
  capacity = λ others r k. omega arith;
  accounted = λ x. omega (arith, same x);
}

advance-IsLocal :
    (e : Event) (t : Phase) (p : Pool) (n : ℕ) (f : Effect)
    → 0 < p.sem
    → advance e t p n ≡ some f
    → IsLocal t p n f
unfolding advance
advance-IsLocal looks entered p n f permit h =
    subst (IsLocal entered p n) (some_eq h) (unfold look in looked-IsLocal p.done _ p n refl refl)
advance-IsLocal releases (leased c) p n f permit h =
    subst (IsLocal (leased c) p n) (some_eq h)
      (unfold release in released-IsLocal p.done c p n refl)
advance-IsLocal dial_works dialing p n f permit h = subst (IsLocal dialing p n) (some_eq h) (
    moved-IsLocal dialing (binding n) p n (n + 1) [] (omega arith)
      (λ x. omega (arith, dialled-suc x n)))
advance-IsLocal dial_fails dialing p n f permit h =
    subst (IsLocal dialing p n) (some_eq h)
      (moved-IsLocal dialing leaving p n n [] (omega arith) (λ x. omega arith))
advance-IsLocal bind_works (binding c) p n f permit h =
    subst (IsLocal (binding c) p n) (some_eq h)
      (moved-IsLocal (binding c) (leased c) p n n [] (omega arith) (λ x. omega arith))
advance-IsLocal bind_fails (binding c) p n f permit h =
    subst (IsLocal (binding c) p n) (some_eq h)
      (moved-IsLocal (binding c) leaving p n n (c ∷ []) (omega arith) (λ x. omega arith))
advance-IsLocal discards (leased c) p n f permit h =
    subst (IsLocal (leased c) p n) (some_eq h)
      (moved-IsLocal (leased c) leaving p n n (c ∷ []) (omega arith) (λ x. omega arith))
advance-IsLocal gives_back leaving p n f permit h =
    subst (IsLocal leaving p n) (some_eq h) (record {
      size = refl;
      permit = omega arith;
      drained = λ k d. k d;
      capacity = λ others r k. omega arith;
      accounted = λ x. omega arith;
    })
advance-IsLocal _ _ p n f permit h = cc

busy-le : (t : Phase) → busy t ≤ 1
busy-le entered = omega arith
busy-le dialing = omega arith
busy-le (binding c) = omega arith
busy-le (leased c) = omega arith
busy-le leaving = omega arith

sum_by-busy-le : (l : List Phase) → sum_by busy l ≤ length l
sum_by-busy-le [] = omega arith
sum_by-busy-le (t ∷ l) = omega (arith, busy-le t, sum_by-busy-le l)

length-still : (o : Option Phase) → length (still o) ≤ 1
length-still none = omega arith
length-still (some t) = omega arith

-- One step of a goroutine between the others.
module _ (w : World) (s : IsSound w) (before after : List Phase) (t : Phase) (f : Effect)
    (there : w.threads ≡ before ++ (t ∷ after)) (l : IsLocal t w.pool w.next f) where
  abbrev moved : List Phase
  moved = before ++ (still f.phase ++ after)

  threads_before : (g : Phase → ℕ) → sum_by g w.threads ≡ sum_by g before + (g t + sum_by g after)
  threads_before g = rw there (sum_by-append g before (t ∷ after))

  threads_after :
      (g : Phase → ℕ)
      → sum_by g moved ≡ sum_by g before + (sum_by g (still f.phase) + sum_by g after)
  threads_after g = omega (
    arith,
    sum_by-append g before (still f.phase ++ after),
    sum_by-append g (still f.phase) after,
  )

  count_before : length w.threads ≡ length before + 1 + length after
  count_before = omega (arith, ap length there, length-append before (t ∷ after))

  count_after : length moved ≡ length before + length (still f.phase) + length after
  count_after =
      omega
        (arith, length-append before (still f.phase ++ after), length-append (still f.phase) after)

  run-IsSound :
      IsSound
        (record { pool = f.pool; threads = moved; next = f.next; closed = f.closed ++ w.closed })
  run-IsSound = record {
    permits = omega (arith, count_before, count_after, s.permits, l.permit);
    bounded = omega (arith, s.bounded, l.permit, l.size, length-still f.phase);
    drained = l.drained s.drained;
    capacity = omega (
      arith,
      l.size,
      threads_after busy,
      l.capacity (sum_by busy before + sum_by busy after)
          (omega (
            arith,
            sum_by-busy-le before,
            sum_by-busy-le after,
            count_before,
            s.permits,
            s.bounded,
          ))
          (omega (arith, threads_before busy, s.capacity)),
    );
    accounted = λ c. omega (
      arith,
      threads_before (held c),
      threads_after (held c),
      count-append c f.closed w.closed,
      s.accounted c,
      l.accounted c,
    );
  }

positive : (before after : List Phase) (t : Phase) → 0 < length (before ++ (t ∷ after))
positive before after t = omega (arith, length-append before (t ∷ after))

Step-IsSound : {w v : World} → IsSound w → Step w v → IsSound v
Step-IsSound {w} s (enter room) = record {
  permits = omega (arith, s.permits);
  bounded = omega arith;
  drained = s.drained;
  capacity = omega (arith, s.capacity);
  accounted = λ c. omega (arith, s.accounted c);
}
Step-IsSound {w} s (run before after t e f there h) = run-IsSound w s before after t f there (
    advance-IsLocal e t w.pool w.next f
      (omega (arith, s.permits, ap length there, positive before after t)) h)
Step-IsSound {w} s shut = closed_pool w s
  where
    closed_pool :
        (w : World)
        → IsSound w
        → IsSound (record w { pool = (close w.pool).0; closed = (close w.pool).1 ++ w.closed })
    closed_pool w s =
        unfold close in
        record {
          permits = s.permits;
          bounded = s.bounded;
          drained = λ d. refl;
          capacity = omega (arith, s.capacity);
          accounted = λ c. omega (arith, count-append c w.pool.idle w.closed, s.accounted c);
        }

start-IsSound : (size : ℕ) → IsSound (start size)
start-IsSound size =
    unfold new_pool in
    record {
      permits = refl;
      bounded = omega arith;
      drained = λ d. refl;
      capacity = omega arith;
      accounted = λ c. ground arith;
    }

-- In every state that a new pool can reach: a permit is taken for each goroutine and no other, at
-- most as many as the size; the connections that are idle, leased or being opened are at most as
-- many as the size; a pool that was closed has no idle one; and each connection that was dialled is
-- in exactly one place: idle, with one goroutine, or closed once.
pub Reach-IsSound : (size : ℕ) (w : World) → Reach (start size) w → IsSound w
Reach-IsSound size w here = start-IsSound size
Reach-IsSound size w (then_step {v} r st) = Step-IsSound (Reach-IsSound size v r) st

dialled-lt : (c n : ℕ) → c < n → dialled c n ≡ 1
dialled-lt c n h = ground arith

dialled-le : (c n : ℕ) → dialled c n ≤ 1
dialled-le c n = ground arith

one_if_same_self : (c : ℕ) → one_if_same c c ≡ 1
one_if_same_self c = ground arith

-- A leased connection belongs to one goroutine: it is not leased a second time, not idle and not
-- closed.
pub lease_exclusive :
    (size : ℕ) (w : World) (before after : List Phase) (c : ℕ)
    → Reach (start size) w
    → w.threads ≡ before ++ (leased c ∷ after)
    → (sum_by (held c) before ≡ 0)
      × (sum_by (held c) after ≡ 0)
      × (count c w.pool.idle ≡ 0)
      × (count c w.closed ≡ 0)
lease_exclusive size w before after c r e =
    let s : IsSound w = Reach-IsSound size w r in
    let total : count c w.pool.idle
          + (sum_by (held c) before + (1 + sum_by (held c) after))
          + count c w.closed
        ≤ 1 =
      omega (
        arith,
        s.accounted c,
        ap (sum_by (held c)) e,
        sum_by-append (held c) before (leased c ∷ after),
        one_if_same_self c,
        dialled-le c w.next,
      ) in
    (omega arith, omega arith, omega arith, omega arith)

-- When the pool is closed and no goroutine is left, all permits are back and every connection that
-- was ever dialled was closed, exactly once.
pub closed_exactly_once :
    (size : ℕ) (w : World)
    → Reach (start size) w
    → w.pool.done ≡ true
    → w.threads ≡ []
    → (w.pool.sem ≡ 0) × ((c : ℕ) → c < w.next → count c w.closed ≡ 1)
closed_exactly_once size w r d e =
    let s : IsSound w = Reach-IsSound size w r in
    (
      omega (arith, s.permits, ap length e),
      λ c h. omega (
        arith,
        s.accounted c,
        ap (count c) (s.drained d),
        ap (sum_by (held c)) e,
        dialled-lt c w.next h,
      ),
    )

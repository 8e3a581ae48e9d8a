-- ===== src/Pool/Tests.antt =====
-- Runs of a pool of one connection: lease and close while it is out, then release.
use go_adldap.Base.{ℕ, ◌<◌, ◌≡◌, refl, true, false, [], ◌∷◌, arith}
use go_adldap.Pool.{
  Pool, new_pool, split_last, entered, dialing, binding, leased, leaving, looks, dial_works,
  bind_works, releases, gives_back, advance, look, looked, release, released, close, World, start,
  enter, run, shut, Reach, here, then_step,
}
use go_adldap.Pool.Count.{count, held, sum_by}
use go_adldap.Pool.Sound.{IsSound, Reach-IsSound, closed_exactly_once, lease_exclusive}

abbrev open_pool : ℕ → Pool
open_pool sem = record { size = 1; sem = sem; idle = []; done = false }

-- One goroutine holds connection 0.
abbrev out : World
out = record { pool = open_pool 1; threads = leased 0 ∷ []; next = 1; closed = [] }

Reach-out : Reach (start 1) out
unfolding new_pool advance look looked split_last
Reach-out =
    then_step
      (then_step
        (then_step (then_step here (enter (omega arith))) (run [] [] entered looks _ refl refl))
        (run [] [] dialing dial_works _ refl refl))
      (run [] [] (binding 0) bind_works _ refl refl)

-- The pool was closed under it, and the release closed the connection.
abbrev down : World
down = record {
  pool = record { size = 1; sem = 0; idle = []; done = true };
  threads = [];
  next = 1;
  closed = 0 ∷ [];
}

Reach-down : Reach (start 1) down
unfolding close advance release released
Reach-down =
    then_step (then_step (then_step Reach-out shut) (run [] [] (leased 0) releases _ refl refl))
      (run [] [] leaving gives_back _ refl refl)

Reach-IsSound_example : IsSound out
Reach-IsSound_example = Reach-IsSound 1 out Reach-out

lease_exclusive_example :
    (sum_by (held 0) [] ≡ 0) × (sum_by (held 0) [] ≡ 0) × (count 0 [] ≡ 0) × (count 0 [] ≡ 0)
lease_exclusive_example = lease_exclusive 1 out [] [] 0 Reach-out refl

closed_exactly_once_example : (down.pool.sem ≡ 0) × ((c : ℕ) → c < 1 → count c (0 ∷ []) ≡ 1)
closed_exactly_once_example = closed_exactly_once 1 down Reach-down refl refl

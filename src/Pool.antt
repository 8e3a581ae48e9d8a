-- ===== src/Pool.antt =====
-- internal/conn/pool.go: the pool of bound connections, its semaphore, and the goroutines that
-- acquire, release and discard. A connection is known by the number under which it was dialled.
pub mod Count
pub mod Sound
mod Tests
use go_adldap.Base.{
  ℕ, ◌+◌, ◌-◌, ◌<◌, ◌≡◌, Bool, true, false, Option, none, some, List, [], ◌∷◌, ◌++◌, ltb, ◌==◌,
  if◌then◌else◌, length,
}

-- `sem` is the number of permits taken from the buffered channel.
pub record Pool : Type 0 where
  pub size : ℕ
  pub sem : ℕ
  pub idle : List ℕ
  pub done : Bool

-- Zero means 4.
pub new_pool : ℕ → Pool
new_pool size = record { size = if size == 0 then 4 else size; sem = 0; idle = []; done = false }

abbrev pub on_front : ℕ → Option (List ℕ × ℕ) → List ℕ × ℕ
on_front c none = ([], c)
on_front c (some (front, d)) = (c ∷ front, d)

-- `p.idle[n-1]` and `p.idle[:n-1]`, if there is one.
pub split_last : List ℕ → Option (List ℕ × ℕ)
split_last [] = none
split_last (c ∷ l) = some (on_front c (split_last l))

-- Where a goroutine stands that took a permit: it has not looked at the pool yet, dials, binds a
-- connection, holds a lease on one, or is about to give the permit back.
pub data Phase : Type 0 where
  entered dialing : Phase
  binding leased : ℕ → Phase
  leaving : Phase

-- What happens next to a goroutine. Dialling and binding may fail; a lease is released or discarded.
pub data Event : Type 0 where
  looks dial_works dial_fails bind_works bind_fails releases discards gives_back : Event

-- The goroutine's new phase (none: it gave its permit back), the pool, the number of the next
-- connection, and the connections closed.
pub record Effect : Type 0 where
  pub phase : Option Phase
  pub pool : Pool
  pub next : ℕ
  pub closed : List ℕ

-- The critical section of Acquire, on `p.done` and on what the idle list ends in.
looked : Bool → Option (List ℕ × ℕ) → Pool → ℕ → Effect
looked true last p n = record { phase = some leaving; pool = p; next = n; closed = [] }
looked false none p n = record { phase = some dialing; pool = p; next = n; closed = [] }
looked false (some (front, c)) p n = record {
  phase = some (leased c);
  pool = record p { idle = front };
  next = n;
  closed = [];
}

look : Pool → ℕ → Effect
unfolding looked
look p n = looked p.done (split_last p.idle) p n

-- The critical section of Release, on `p.done`, with the Close that follows in a pool that is shut.
released : Bool → ℕ → Pool → ℕ → Effect
released true c p n = record { phase = some leaving; pool = p; next = n; closed = c ∷ [] }
released false c p n = record {
  phase = some leaving;
  pool = record p { idle = p.idle ++ (c ∷ []) };
  next = n;
  closed = [];
}

release : ℕ → Pool → ℕ → Effect
unfolding released
release c p n = released p.done c p n

-- One step of one goroutine; none where the event does not fit its phase.
pub advance : Event → Phase → Pool → ℕ → Option Effect
unfolding look release
advance looks entered p n = some (look p n)
advance dial_works dialing p n =
    some (record { phase = some (binding n); pool = p; next = n + 1; closed = [] })
advance dial_fails dialing p n =
    some (record { phase = some leaving; pool = p; next = n; closed = [] })
advance bind_works (binding c) p n =
    some (record { phase = some (leased c); pool = p; next = n; closed = [] })
advance bind_fails (binding c) p n =
    some (record { phase = some leaving; pool = p; next = n; closed = c ∷ [] })
advance releases (leased c) p n = some (release c p n)
advance discards (leased c) p n =
    some (record { phase = some leaving; pool = p; next = n; closed = c ∷ [] })
advance gives_back leaving p n =
    some (record { phase = none; pool = record p { sem = p.sem - 1 }; next = n; closed = [] })
advance _ _ p n = none

-- Close: the pool is marked, and the idle list is taken and closed.
pub close : Pool → Pool × List ℕ
close p = (record p { done = true; idle = [] }, p.idle)

-- The pool, the goroutines that hold a permit, and the connections that were closed.
pub record World : Type 0 where
  pub pool : Pool
  pub threads : List Phase
  pub next : ℕ
  pub closed : List ℕ

abbrev pub start : ℕ → World
start size = record { pool = new_pool size; threads = []; next = 0; closed = [] }

abbrev pub still : Option Phase → List Phase
still none = []
still (some t) = t ∷ []

-- One step of the whole: a goroutine takes a permit if there is one, one of those that hold a
-- permit goes on, or the pool is closed.
pub data Step (w : World) : World → Type 0 where
  enter :
      w.pool.sem < w.pool.size
      → Step w (record w {
        pool = record w.pool { sem = w.pool.sem + 1 };
        threads = entered ∷ w.threads;
      })
  run :
      (before after : List Phase) (t : Phase) (e : Event) (f : Effect)
      → w.threads ≡ before ++ (t ∷ after)
      → advance e t w.pool w.next ≡ some f
      → Step w (record {
        pool = f.pool;
        threads = before ++ (still f.phase ++ after);
        next = f.next;
        closed = f.closed ++ w.closed;
      })
  shut : Step w (record w { pool = (close w.pool).0; closed = (close w.pool).1 ++ w.closed })

pub data Reach (s : World) : World → Type 0 where
  here : Reach s s
  then_step : {v w : World} → Reach s v → Step v w → Reach s w

-- ===== src/Directory/Logic.antt =====
-- What holds of every request and of the outcome of an operation, whatever the replies are.
use go_adldap.Base.{List, ◌∷◌, Outcome, ok, err}
use go_adldap.Directory.{OpError, Request, Reply, Proc, done, call, ◌>>=◌, attempt, map_error}

-- The requests made so far with their replies, the latest first.
abbrev pub History : Type 0
History = List (Request × Reply)

-- Every request `r` is made at a history `h` where `Q h r`, and the operation ends at a history with
-- an outcome where `R`.
abbrev pub Holds :
    {A : Type 0}
    → (History → Request → Type 0)
    → (History → Outcome OpError A → Type 0)
    → History
    → Proc A
    → Type 0
Holds Q R h (done o) = R h o
Holds Q R h (call r k) = Q h r × ((x : Reply) → Holds Q R ((r, x) ∷ h) (k x))

module _ {A B : Type 0} (Q : History → Request → Type 0) (R : History → Outcome OpError A → Type 0)
    (S : History → Outcome OpError B → Type 0) where
  pub Holds-bind :
      (h : History) (m : Proc A) (f : A → Proc B)
      → Holds Q R h m
      → ((h' : History) (a : A) → R h' (ok a) → Holds Q S h' (f a))
      → ((h' : History) (e : OpError) → R h' (err e) → S h' (err e))
      → Holds Q S h (m >>= f)
  Holds-bind h (done (ok a)) f m_holds on_ok on_err = on_ok h a m_holds
  Holds-bind h (done (err e)) f m_holds on_ok on_err = on_err h e m_holds
  Holds-bind h (call r k) f (q, m_holds) on_ok on_err =
      (q, λ x. Holds-bind ((r, x) ∷ h) (k x) f (m_holds x) on_ok on_err)

module _ {A : Type 0} (Q : History → Request → Type 0)
    (R : History → Outcome OpError A → Type 0) where
  pub Holds-attempt :
      (S : History → Outcome OpError (Outcome OpError A) → Type 0) (h : History) (m : Proc A)
      → Holds Q R h m
      → ((h' : History) (o : Outcome OpError A) → R h' o → S h' (ok o))
      → Holds Q S h (attempt m)
  Holds-attempt S h (done o) m_holds on = on h o m_holds
  Holds-attempt S h (call r k) (q, m_holds) on =
      (q, λ x. Holds-attempt S ((r, x) ∷ h) (k x) (m_holds x) on)

  pub Holds-map_error :
      (S : History → Outcome OpError A → Type 0) (g : OpError → OpError) (h : History) (m : Proc A)
      → Holds Q R h m
      → ((h' : History) (a : A) → R h' (ok a) → S h' (ok a))
      → ((h' : History) (e : OpError) → R h' (err e) → S h' (err (g e)))
      → Holds Q S h (map_error g m)
  Holds-map_error S g h (done (ok a)) m_holds on_ok on_err = on_ok h a m_holds
  Holds-map_error S g h (done (err e)) m_holds on_ok on_err = on_err h e m_holds
  Holds-map_error S g h (call r k) (q, m_holds) on_ok on_err =
      (q, λ x. Holds-map_error S g ((r, x) ∷ h) (k x) (m_holds x) on_ok on_err)

  -- A weaker claim about the requests and the end.
  pub Holds-weaken :
      (Q' : History → Request → Type 0) (S : History → Outcome OpError A → Type 0) (h : History)
      (m : Proc A)
      → Holds Q R h m
      → ((h' : History) (r : Request) → Q h' r → Q' h' r)
      → ((h' : History) (o : Outcome OpError A) → R h' o → S h' o)
      → Holds Q' S h m
  Holds-weaken Q' S h (done o) m_holds on_request on_end = on_end h o m_holds
  Holds-weaken Q' S h (call r k) (q, m_holds) on_request on_end =
      (on_request h r q, λ x. Holds-weaken Q' S ((r, x) ∷ h) (k x) (m_holds x) on_request on_end)

  -- What further replies do not undo still holds at the end.
  pub Holds-frame :
      (P : History → Type 0)
      → ((h' : History) (r : Request) (x : Reply) → P h' → P ((r, x) ∷ h'))
      → (h : History) (m : Proc A) → P h
      → Holds Q R h m
      → Holds Q (λ h' o. P h' × R h' o) h m
  Holds-frame P grows h (done o) p m_holds = (p, m_holds)
  Holds-frame P grows h (call r k) p (q, m_holds) =
      (q, λ x. Holds-frame P grows ((r, x) ∷ h) (k x) (grows h r x p) (m_holds x))

-- Two claims about the end.
module _ {A : Type 0} (Q Q' : History → Request → Type 0)
    (R S : History → Outcome OpError A → Type 0) where
  pub Holds-both :
      (h : History) (m : Proc A)
      → Holds Q R h m
      → Holds Q' S h m
      → Holds Q (λ h' o. R h' o × S h' o) h m
  Holds-both h (done o) r s = (r, s)
  Holds-both h (call request k) (q, r) (q', s) =
      (q, λ x. Holds-both ((request, x) ∷ h) (k x) (r x) (s x))

-- ===== src/Pool/Count.antt =====
-- How often a connection occurs: among the idle ones, the closed ones and those that goroutines hold.
use go_adldap.Base.{
  ap, ℕ, ◌+◌, ◌≡◌, refl, arith, Option, none, some, List, [], ◌∷◌, ◌++◌, ◌==◌, if◌then◌else◌,
  length,
}
use go_adldap.Pool.{Phase, entered, dialing, binding, leased, leaving, split_last, on_front}

abbrev pub one_if_same : ℕ → ℕ → ℕ
one_if_same c d = if c == d then 1 else 0

abbrev pub count : ℕ → List ℕ → ℕ
count c [] = 0
count c (d ∷ l) = one_if_same d c + count c l

abbrev pub held : ℕ → Phase → ℕ
held c (binding d) = one_if_same d c
held c (leased d) = one_if_same d c
held c entered = 0
held c dialing = 0
held c leaving = 0

-- Connections that are open or being opened.
abbrev pub busy : Phase → ℕ
busy entered = 0
busy dialing = 1
busy (binding d) = 1
busy (leased d) = 1
busy leaving = 0

abbrev pub sum_by : (Phase → ℕ) → List Phase → ℕ
sum_by f [] = 0
sum_by f (t ∷ l) = f t + sum_by f l

pub count-append : (c : ℕ) (xs ys : List ℕ) → count c (xs ++ ys) ≡ count c xs + count c ys
count-append c [] ys = omega arith
count-append c (x ∷ xs) ys = omega (arith, count-append c xs ys)

pub sum_by-append :
    (f : Phase → ℕ) (xs ys : List Phase) → sum_by f (xs ++ ys) ≡ sum_by f xs + sum_by f ys
sum_by-append f [] ys = omega arith
sum_by-append f (x ∷ xs) ys = omega (arith, sum_by-append f xs ys)

pub split_last-none : (l : List ℕ) → split_last l ≡ none → l ≡ []
unfolding split_last
split_last-none [] h = refl
split_last-none (x ∷ l) h = cc

-- Taking the last one off loses nothing.
pub split_last-count :
    (c : ℕ) (l front : List ℕ) (d : ℕ)
    → split_last l ≡ some (front, d)
    → (count c l ≡ count c front + one_if_same d c) × (length l ≡ length front + 1)
unfolding split_last
split_last-count c [] front d h = cc
split_last-count c (x ∷ l) front d h =
    let same : on_front x (split_last l) ≡ (front, d) = cc in
    by_rest (split_last l) refl (λ f k. split_last-count c l f k) same
  where
    by_rest :
        (r : Option (List ℕ × ℕ))
        → split_last l ≡ r
        → ((f : List ℕ) (k : ℕ)
            → split_last l ≡ some (f, k)
            → (count c l ≡ count c f + one_if_same k c) × (length l ≡ length f + 1))
        → on_front x r ≡ (front, d)
        → (count c (x ∷ l) ≡ count c front + one_if_same d c) × (length (x ∷ l) ≡ length front + 1)
    by_rest none e ih k =
        rw (split_last-none l e, ← ap (λ q. q.0) k, ← ap (λ q. q.1) k) (omega arith, omega arith)
    by_rest (some (f, j)) e ih k =
        let (same, len) = ih f j e in
        rw (← ap (λ q. q.0) k, ← ap (λ q. q.1) k) (omega (arith, same), omega (arith, len))

-- ===== src/Context/Extends.antt =====
-- What every method of the shared state leaves of the process: what was made stays, and what is new
-- is at a new address.
use seaturtle.Common.{ℕ, ◌≤◌, ◌<◌, ◌≡◌, ◌⊎◌, inl, inr, some, arith, length}
use seaturtle.Context.{Slot, Outcome, died, gives, Process, M, ◌>>=◌}

-- `p'` is a later state of the process `p`.
pub record Extends (p p' : Process) : Type 0 where
  pub grows : length p.objects ≤ length p'.objects
  pub keeps : (slot : Slot) (a : ℕ) → p.shared slot ≡ some a → p'.shared slot ≡ some a
  pub news :
      (slot : Slot) (a : ℕ)
      → p'.shared slot ≡ some a
      → (p.shared slot ≡ some a) ⊎ ((length p.objects ≤ a) × (a < length p'.objects))

pub Extends-refl : (p : Process) → Extends p p
Extends-refl p = record { grows = omega arith; keeps = λ slot a e. e; news = λ slot a e. inl e }

later_news :
    {o n m : ℕ} {a : ℕ} {P Q : Type 0}
    → o ≤ n
    → n ≤ m
    → (Q → P ⊎ ((o ≤ a) × (a < n)))
    → Q ⊎ ((n ≤ a) × (a < m))
    → P ⊎ ((o ≤ a) × (a < m))
later_news {o} {n} {m} {a} {P} h1 h2 f (inr (x, y)) = inr (omega arith, y)
later_news {o} {n} {m} {a} {P} h1 h2 f (inl q) = earlier (f q)
  where
    earlier : P ⊎ ((o ≤ a) × (a < n)) → P ⊎ ((o ≤ a) × (a < m))
    earlier (inl p) = inl p
    earlier (inr (x, y)) = inr (x, omega arith)

pub Extends-trans : {p p1 p2 : Process} → Extends p p1 → Extends p1 p2 → Extends p p2
Extends-trans h k = record {
  grows = omega (arith, h.grows, k.grows);
  keeps = λ slot a e. k.keeps slot a (h.keeps slot a e);
  news = λ slot a e. later_news h.grows k.grows (h.news slot a) (k.news slot a e);
}

-- The result of a method that does not end the process, and the state after it.
abbrev pub Post : {A : Type 0} → (A → Process → Type 0) → Outcome A → Type 0
Post Q died = Unit
Post Q (gives a p) = Q a p

pub Post-bind :
    {A B : Type 0} (Q : A → Process → Type 0) (R : B → Process → Type 0) (m : M A) (f : A → M B)
    (p : Process)
    → Post Q (m p)
    → ((a : A) (p' : Process) → Q a p' → Post R (f a p'))
    → Post R ((m >>= f) p)
Post-bind {A} Q R m f p h k = after (m p) h
  where
    after : (run : Outcome A) → Post Q run → Post R (elim run [ died ↦ died | gives a p' ↦ f a p' ])
    after died q = tt
    after (gives a p') q = k a p' q

pub Post-mono :
    {A : Type 0} (Q R : A → Process → Type 0) (run : Outcome A)
    → Post Q run
    → ((a : A) (p' : Process) → Q a p' → R a p')
    → Post R run
Post-mono Q R died h k = tt
Post-mono Q R (gives a p') h k = k a p' h

-- `m` only extends the process.
pub record Safe {A : Type 0} (m : M A) : Type 0 where
  pub run : (p : Process) → Post (λ a p'. Extends p p' × (p'.settings ≡ p.settings)) (m p)

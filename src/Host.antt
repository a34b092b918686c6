-- ===== src/Host.antt =====
-- The walk from a host name to its parent domains, which `Blocker` and `HttpsRewriter` both make:
-- find the first dot, test the host, drop the label in front of the dot. Here is what it visits.
use seaturtle.Common.{
  ℕ, zero, suc, ◌≤◌, ◌≡◌, refl, sym, ap, subst, ◌↔◌, ◌⊎◌, inl, inr, none, some, List, [], ◌∷◌, ◌++◌,
  arith, ◌==◌, if◌then◌else◌, length, drop, Bytes, find_byte, Any, ==_iff, Bool-cases,
}

-- What follows each dot, the longest first.
abbrev pub parents : Bytes → List Bytes
parents [] = []
parents (c ∷ s) = let rest = parents s in if c == b'.' then s ∷ rest else rest

-- A host that is tried holds a dot.
abbrev pub HasDot : Bytes → Type 0
HasDot s = (pos : ℕ) × (find_byte b'.' s ≡ some pos)

-- `d` is the host itself or what follows one of its dots.
abbrev pub IsParent : Bytes → Bytes → Type 0
IsParent d host = (host ≡ d) ⊎ ((pre : Bytes) × (host ≡ pre ++ b'.' ∷ d))

pub parents-find_none : (s : Bytes) → find_byte b'.' s ≡ none → parents s ≡ []
unfolding find_byte
parents-find_none [] h = refl
parents-find_none (c ∷ s) h = ground (arith, parents-find_none s)

pub parents-find_some :
    (s : Bytes) (pos : ℕ)
    → find_byte b'.' s ≡ some pos
    → parents s ≡ drop (suc pos) s ∷ parents (drop (suc pos) s)
unfolding find_byte
parents-find_some [] pos h = cc
parents-find_some (c ∷ s) zero h = elim (Bool-cases (c == b'.')) [
  | inl dot ↦ rw dot
  | inr other ↦ ground (arith)
]
parents-find_some (c ∷ s) (suc pos) h = ground (arith, parents-find_some s pos)

Any-parents_sound :
    (P : Bytes → Type 0) (s : Bytes)
    → Any P (parents s)
    → (d : Bytes) × ((pre : Bytes) × (s ≡ pre ++ b'.' ∷ d)) × P d
Any-parents_sound P [] h = absurd h
Any-parents_sound P (c ∷ s) h = elim (Bool-cases (c == b'.')) [
  | inl dot ↦ elim (let h' : P s ⊎ Any P (parents s) = rw dot at h in h') [
    | inl p ↦ (s, ([], ap (λ x. x ∷ s) ((==_iff c b'.').0 dot)), p)
    | inr later ↦ behind c s (Any-parents_sound P s later)
  ]
  | inr other ↦ behind c s (Any-parents_sound P s (rw other at h))
]
  where
    behind :
        (c : ℕ) (s : Bytes)
        → (d : Bytes) × ((pre : Bytes) × (s ≡ pre ++ b'.' ∷ d)) × P d
        → (d : Bytes) × ((pre : Bytes) × (c ∷ s ≡ pre ++ b'.' ∷ d)) × P d
    behind c s (d, (pre, e), p) = (d, (c ∷ pre, ap (λ x. c ∷ x) e), p)

Any-parents_complete :
    (P : Bytes → Type 0) (pre d : Bytes) → P d → Any P (parents (pre ++ b'.' ∷ d))
Any-parents_complete P [] d p = inl p
Any-parents_complete P (c ∷ pre) d p =
    let rest = Any-parents_complete P pre d p in
    elim (Bool-cases (c == b'.')) [ inl dot ↦ rw dot (inr rest) | inr other ↦ rw other rest ]

-- Some parent of the host has the property exactly when some text behind one of its dots has it.
Any-parents_iff :
    (P : Bytes → Type 0) (s : Bytes)
    → Any P (parents s) ↔ ((d : Bytes) × ((pre : Bytes) × (s ≡ pre ++ b'.' ∷ d)) × P d)
Any-parents_iff P s =
    (Any-parents_sound P s, λ (d, (pre, e), p). rw e (Any-parents_complete P pre d p))

-- The same for the host itself and its parents together.
pub Any-visited_iff :
    (P : Bytes → Type 0) (s : Bytes) → Any P (s ∷ parents s) ↔ ((d : Bytes) × IsParent d s × P d)
Any-visited_iff P s = (
  λ h. elim h [
    | inl here ↦ (s, inl refl, here)
    | inr later ↦ let (d, behind, p) = (Any-parents_iff P s).0 later in (d, inr behind, p)
  ],
  λ (d, place, p). elim place [
    | inl same ↦ inl (subst P (sym same) p)
    | inr behind ↦ inr ((Any-parents_iff P s).1 (d, behind, p))
  ],
)

pub drop-eq-nil : (n : ℕ) (s : Bytes) → length s ≤ n → drop n s ≡ []
drop-eq-nil zero [] h = refl
drop-eq-nil zero (c ∷ s) h = elim h [ ]
drop-eq-nil (suc n) [] h = refl
drop-eq-nil (suc n) (c ∷ s) h = drop-eq-nil n s (omega arith)

-- A text without a dot, as the empty one, is never tried, and has no parents to try.
pub not_Any-visited :
    (P : Bytes → Type 0) (s : Bytes)
    → find_byte b'.' s ≡ none
    → Any (λ d. HasDot d × P d) (s ∷ parents s)
    → ⊥
not_Any-visited P s h (inl ((pos, e), p)) = cc
not_Any-visited P s h (inr later) = absurd (rw (parents-find_none s h) at later)

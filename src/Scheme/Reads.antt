-- ===== src/Scheme/Reads.antt =====
-- What the network stack gets from a rendered page, by reading until a read gives nothing.
use seaturtle.Common.{
  ℕ, zero, suc, ◌+◌, ◌-◌, ◌*◌, ◌≤◌, ◌<◌, min, ◌≡◌, refl, ap, ◌∙◌, inl, inr, false, Option, none,
  some, [], ◌∷◌, ◌++◌, arith, ltb, ◌==◌, Bool-cases, length, take, length-take, Bytes, append-nil,
}
use seaturtle.Scheme.{Job, strncpy, read_page}

abbrev and_then : Bytes → Option Bytes → Option Bytes
and_then [] rest = some []
and_then (c ∷ out) none = none
and_then (c ∷ out) (some rest) = some ((c ∷ out) ++ rest)

-- The reads of net::URLRequest with one buffer size, on fuel.
abbrev pub read_all : ℕ → ℕ → Bytes → Job → Option Bytes
read_all zero buf_size page job = none
read_all (suc fuel) buf_size page job =
    let (out, job') = read_page buf_size page job in
    let rest = read_all fuel buf_size page job' in and_then out rest

-- The text `s`, `n` times.
abbrev pub copies : ℕ → Bytes → Bytes
copies zero s = []
copies (suc n) s = s ++ copies n s

-- The text holds no NUL.
abbrev pub IsText : Bytes → Type 0
IsText [] = Unit
IsText (c ∷ s) = (c == 0 ≡ false) × IsText s

strncpy-take : (n : ℕ) (s : Bytes) → IsText s → n ≤ length s → strncpy n s ≡ take n s
unfolding strncpy
strncpy-take zero s t h = refl
strncpy-take (suc n) [] t h = ground arith
strncpy-take (suc n) (c ∷ s) (t, ts) h =
    rw t (ap (λ x. c ∷ x) (strncpy-take n s ts (omega (arith, h))))

and_then-some : (out rest : Bytes) → 0 < length out → and_then out (some rest) ≡ some (out ++ rest)
and_then-some [] rest e = elim e [ ]
and_then-some (c ∷ out) rest e = refl

-- Before the last of a row of rounds the end is not reached.
last_round :
    (size already end rounds : ℕ)
    → already < end
    → ((n : ℕ) → rounds ≡ suc n → (already + size) + n * size < end)
    → (n : ℕ) → suc rounds ≡ suc n
    → already + n * size < end
last_round size already end rounds less last zero e = omega (arith, less)
last_round size already end rounds less last (suc n) e = omega (arith, last n (omega (arith, e)))

module _ (buf_size : ℕ) (page : Bytes) (text : IsText page) where
  -- What each read but the last gives.
  abbrev pub chunk : Bytes
  chunk = take (min buf_size (length page)) page

  read_page-more :
      (job : Job)
      → job.bytes_already_read < length page
      → read_page buf_size page job ≡ (
        chunk,
        record job { bytes_already_read = job.bytes_already_read + min buf_size (length page) },
      )
  unfolding read_page
  read_page-more job h =
      rw (strncpy-take (min buf_size (length page)) page text (omega arith)) (ground (arith, h))

  read_page-done :
      (job : Job) → length page ≤ job.bytes_already_read → read_page buf_size page job ≡ ([], job)
  unfolding read_page
  read_page-done job h = ground (arith, h)

  -- How many chunks are read from `already` on.
  abbrev pub Covers : ℕ → ℕ → Type 0
  Covers already rounds =
      (length page ≤ already + rounds * min buf_size (length page))
      × ((n : ℕ) → rounds ≡ suc n → already + n * min buf_size (length page) < length page)

  read_all-rounds :
      (fuel : ℕ) (job : Job)
      → 0 < buf_size
      → length page - job.bytes_already_read < fuel
      → (rounds : ℕ) × Covers job.bytes_already_read rounds
        × (read_all fuel buf_size page job ≡ some (copies rounds chunk))
  read_all-rounds zero job pos h = elim h [ ]
  read_all-rounds (suc fuel) job pos h =
      elim (Bool-cases (ltb job.bytes_already_read (length page))) [
        | inr over ↦ (
          zero,
          (ground (arith, over), λ n e. cc),
          rw (read_page-done job (ground (arith, over))) refl,
        )
        | inl more ↦
            let size : ℕ = min buf_size (length page) in
            let less : job.bytes_already_read < length page = ground (arith, more) in
            let job' : Job = record job { bytes_already_read = job.bytes_already_read + size } in
            let (rounds, (enough, last), e) =
              read_all-rounds fuel job' pos (omega (arith, h, less, pos)) in
            (
              suc rounds,
              (
                omega (arith, enough),
                last_round size job.bytes_already_read (length page) rounds less last,
              ),
              rw (read_page-more job less, e)
                  (and_then-some chunk (copies rounds chunk)
                    (omega (arith, length-take (min buf_size (length page)) page, pos, less))),
            )
      ]

-- A page without NULs is read, whatever the size of the buffer, as copies of its first bytes, one
-- buffer or the whole page long, and just as many of them as reach the length of the page: each read
-- starts again at the front of the page. The reading ends.
pub read_all-copies :
    (buf_size : ℕ) (page : Bytes) (job : Job)
    → IsText page
    → 0 < buf_size
    → job.bytes_already_read ≡ 0
    → (rounds : ℕ) × (length page ≤ rounds * min buf_size (length page))
      × ((n : ℕ) → rounds ≡ suc n → n * min buf_size (length page) < length page)
      × (read_all (suc (length page)) buf_size page job
          ≡ some (copies rounds (take (min buf_size (length page)) page)))
read_all-copies buf_size page job text pos start =
    let (rounds, (enough, last), e) =
      read_all-rounds buf_size page text (suc (length page)) job pos (omega (arith, start)) in
    (rounds, omega (arith, enough, start), (λ n r. omega (arith, last n r, start)), e)

one_round :
    (step size rounds : ℕ)
    → step ≡ size
    → 0 < size
    → size ≤ rounds * step
    → ((n : ℕ) → rounds ≡ suc n → n * step < size)
    → rounds ≡ 1
one_round step size zero same pos enough last = omega (arith, pos, enough)
one_round step size (suc zero) same pos enough last = refl
one_round step size (suc (suc n)) same pos enough last =
    omega (arith, same, pos, last (suc n) refl, ap (λ k. n * k) same)

take-all : (n : ℕ) (s : Bytes) → length s ≤ n → take n s ≡ s
take-all zero [] h = refl
take-all zero (c ∷ s) h = elim h [ ]
take-all (suc n) [] h = refl
take-all (suc n) (c ∷ s) h = ap (λ x. c ∷ x) (take-all n s (omega (arith, h)))

copies-nil : (n : ℕ) → copies n [] ≡ []
copies-nil zero = refl
copies-nil (suc n) = copies-nil n

-- A page without NULs that fits into the buffer is read as it is.
read_all-whole :
    (buf_size : ℕ) (page : Bytes) (job : Job)
    → IsText page
    → 0 < buf_size
    → length page ≤ buf_size
    → job.bytes_already_read ≡ 0
    → read_all (suc (length page)) buf_size page job ≡ some page
read_all-whole buf_size [] job text pos fits start =
    let (rounds, enough, last, e) = read_all-copies buf_size [] job text pos start in
    e ∙ ap (λ t. some (copies rounds t)) (take-all _ [] (omega arith)) ∙ ap some (copies-nil rounds)
read_all-whole buf_size (c ∷ s) job text pos fits start =
    let page : Bytes = c ∷ s in
    let (rounds, enough, last, e) = read_all-copies buf_size page job text pos start in
    let size : ℕ = min buf_size (length page) in
    let once : rounds ≡ 1 =
      one_round size (length page) rounds (omega (arith, fits)) (omega arith) enough last in
    e
    ∙ ap (λ r. some (copies r (take size page))) once
    ∙ ap some (append-nil (take size page) ∙ take-all size page (omega (arith, fits)))

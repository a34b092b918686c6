-- ===== src/Downloads/Ids.antt =====
-- The ids of downloads, and what else happens between two of them.
use seaturtle.Common.{
  ℕ, zero, suc, ◌+◌, ◌-◌, ◌%◌, ◌^◌, ◌<◌, ◌≤◌, ◌≡◌, ◌≢◌, All, subst, refl, sym, ◌∙◌, ap, ◌⊎◌, inl,
  inr, append-nil, append_assoc, ◌↔◌, Bool, Bool-cases, List, [], ◌∷◌, ◌++◌, arith, Bytes, length,
}
use seaturtle.Url.{UrlApi}
use seaturtle.Downloads.{
  Downloads, is_external, new_downloads, get_next_id, determine_download_target,
  handle_external_protocol,
}

pub data Event (Gurl : Type 0) : Type 0 where
  gets_next_id : Event Gurl
  determines_target : Bytes → Event Gurl
  handles_external : Gurl → Bool → Event Gurl

module _ {Gurl : Type 0} (api : UrlApi Gurl) where
  abbrev pub run_event : Event Gurl → Downloads → Downloads
  run_event gets_next_id st = get_next_id st
  run_event (determines_target item_url) st = (determine_download_target item_url st).1
  run_event (handles_external url response) st = (handle_external_protocol api url response st).1

  abbrev pub run_events : List (Event Gurl) → Downloads → Downloads
  run_events [] st = st
  run_events (e ∷ es) st = run_events es (run_event e st)

abbrev pub requests : {Gurl : Type 0} → List (Event Gurl) → ℕ
requests [] = 0
requests (gets_next_id ∷ es) = suc (requests es)
requests (e ∷ es) = requests es

-- `n` ids in a row, from `a` on.
abbrev pub ids_from : ℕ → ℕ → List ℕ
ids_from a zero = []
ids_from a (suc n) = a % 2 ^ 32 ∷ ids_from (suc a) n

abbrev pub AllDiffer : List ℕ → Type 0
AllDiffer [] = Unit
AllDiffer (a ∷ xs) = All (λ b. a ≢ b) xs × AllDiffer xs

mod_next : (a : ℕ) → (a % 2 ^ 32 + 1) % 2 ^ 32 ≡ suc a % 2 ^ 32
mod_next a = omega arith

mod_period : (a : ℕ) → (suc a + (2 ^ 32 - 1)) % 2 ^ 32 ≡ a % 2 ^ 32
mod_period a = omega arith

mod_differs : (a d : ℕ) → 0 < d → d < 2 ^ 32 → a % 2 ^ 32 ≢ (a + d) % 2 ^ 32
mod_differs a d pos lt e = omega arith

-- An id is not among those that follow soon, and comes back after 2 ^ 32.
misses : (a d n : ℕ) → 0 < d → d + n ≤ 2 ^ 32 → All (λ b. a % 2 ^ 32 ≢ b) (ids_from (a + d) n)
misses a d zero pos le = tt
misses a d (suc n) pos le = (
  mod_differs a d pos (omega arith),
  subst (λ x. All (λ b. a % 2 ^ 32 ≢ b) (ids_from x n)) (omega arith)
      (misses a (suc d) n (omega arith) (omega arith)),
)

among : (x a n k : ℕ) → k < n → All (λ b. x ≢ b) (ids_from a n) → x ≢ (a + k) % 2 ^ 32
among x a zero k lt h = absurd (omega arith)
among x a (suc n) zero lt h = subst (λ y. x ≢ y % 2 ^ 32) (omega arith) (h.0)
among x a (suc n) (suc k) lt h =
    subst (λ y. x ≢ y % 2 ^ 32) (omega arith) (among x (suc a) n k (omega arith) (h.1))

le_or_lt : (a b : ℕ) → (a ≤ b) ⊎ (b < a)
le_or_lt a b = ground arith

comes_back : (a n : ℕ) → 2 ^ 32 ≤ n → ¬ All (λ b. a % 2 ^ 32 ≢ b) (ids_from (suc a) n)
comes_back a n le h = among (a % 2 ^ 32) (suc a) n (2 ^ 32 - 1) (omega arith) h (sym (mod_period a))

ids_from-AllDiffer_iff : (a n : ℕ) → AllDiffer (ids_from a n) ↔ (n ≤ 2 ^ 32)
ids_from-AllDiffer_iff a zero = (λ h. omega arith, λ le. tt)
ids_from-AllDiffer_iff a (suc n) = (
  λ h. elim (le_or_lt (2 ^ 32) n) [
    | inl le ↦ absurd (comes_back a n le h.0)
    | inr lt ↦ omega arith
  ],
  λ le. (
    subst (λ x. All (λ b. a % 2 ^ 32 ≢ b) (ids_from x n)) (omega arith)
        (misses a 1 n (omega arith) (omega arith)),
    (ids_from-AllDiffer_iff (suc a) n).1 (omega arith),
  ),
)

length-ids_from : (a n : ℕ) → length (ids_from a n) ≡ n
length-ids_from a zero = refl
length-ids_from a (suc n) = ap suc (length-ids_from (suc a) n)

module _ {Gurl : Type 0} (api : UrlApi Gurl) where
  handle_external_protocol-ids :
      (url : Gurl) (response : Bool) (st : Downloads)
      → let st' = (handle_external_protocol api url response st).1 in
        (st'.given ≡ st.given) × (st'.next_id ≡ st.next_id)
  unfolding handle_external_protocol
  handle_external_protocol-ids url response st = elim (Bool-cases (is_external api url)) [
    | inl external ↦ rw external (refl, refl)
    | inr other ↦ rw other (refl, refl)
  ]

  given_by :
      (es : List (Event Gurl)) (a : ℕ) (st : Downloads)
      → st.next_id ≡ a % 2 ^ 32
      → (run_events api es st).given ≡ st.given ++ ids_from a (requests es)
  unfolding get_next_id determine_download_target
  given_by [] a st e = sym (append-nil st.given)
  given_by (gets_next_id ∷ es) a st e =
      given_by es (suc a) (get_next_id st) (ap (λ x. (x + 1) % 2 ^ 32) e ∙ mod_next a)
      ∙ (append_assoc st.given (st.next_id ∷ []) (ids_from (suc a) (requests es))
          ∙ ap (λ x. st.given ++ x ∷ ids_from (suc a) (requests es)) e)
  given_by (determines_target item_url ∷ es) a st e =
      given_by es a (determine_download_target item_url st).1 e
  given_by (handles_external url response ∷ es) a st e =
      let (given, next_id) = handle_external_protocol-ids url response st in
      given_by es a (handle_external_protocol api url response st).1 (next_id ∙ e)
      ∙ ap (λ x. x ++ ids_from a (requests es)) given

  -- After any sequence of events from the start of the process, as many ids were given as downloads
  -- asked for one, and they differ from each other and from the invalid id, which is a 32-bit number,
  -- exactly if these were fewer than 2 ^ 32.
  pub get_next_id-AllDiffer_iff :
      (invalid_id : ℕ) (es : List (Event Gurl))
      → invalid_id < 2 ^ 32
      → let given = (run_events api es (new_downloads invalid_id)).given in
        (length given ≡ requests es) × (AllDiffer (invalid_id ∷ given) ↔ (requests es < 2 ^ 32))
  get_next_id-AllDiffer_iff invalid_id es lt =
      let row =
        given_by es (suc invalid_id) (new_downloads invalid_id)
          (ap (λ x. x % 2 ^ 32) (omega arith)) in
      let whole : invalid_id ∷ (run_events api es (new_downloads invalid_id)).given
          ≡ ids_from invalid_id (suc (requests es)) =
        rw row (ap (λ x. x ∷ ids_from (suc invalid_id) (requests es)) (omega arith)) in
      let distinct = ids_from-AllDiffer_iff invalid_id (suc (requests es)) in
      (
        ap length row ∙ length-ids_from (suc invalid_id) (requests es),
        (
          λ h. let le = distinct.0 (subst AllDiffer whole h) in omega arith,
          λ few. subst AllDiffer (sym whole) (distinct.1 (omega arith)),
        ),
      )

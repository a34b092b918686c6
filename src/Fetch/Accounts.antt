-- ===== src/Fetch/Accounts.antt =====
-- Fetches are counted: what can happen to them, and the accounts that are kept of each id.
use seaturtle.Common.{
  ℕ, ◌+◌, ◌≤◌, ◌≡◌, Bool, List, [], ◌∷◌, ◌++◌, arith, ◌==◌, if◌then◌else◌, length, Bytes, Abort, io,
}
use seaturtle.Fetch.{Fetcher, HttpFetchComplete, Fetching, fetch, init_first, on_url_fetch_complete}

abbrev pub one_if : Bool → ℕ
one_if c = if c then 1 else 0

module _ {A : Type 0} (id_of : A → ℕ) where
  abbrev pub times : ℕ → List A → ℕ
  times id [] = 0
  times id (x ∷ xs) = one_if (id_of x == id) + times id xs

  pub times-append : (id : ℕ) (xs ys : List A) → times id (xs ++ ys) ≡ times id xs + times id ys
  times-append id [] ys = omega arith
  times-append id (x ∷ xs) ys = omega (arith, times-append id xs ys)

-- How often an id was given to Java, is in a fetcher, and was told to Java with a result.
abbrev pub times_given : ℕ → Fetching → ℕ
times_given id st = times (λ x. x) id st.given

abbrev pub times_fetching : ℕ → Fetching → ℕ
times_fetching id st =
    times (λ (f : Fetcher). f.id) id st.posted + times (λ (f : Fetcher). f.id) id st.started

abbrev pub times_told : ℕ → Fetching → ℕ
times_told id st = times (λ (r : HttpFetchComplete). r.id) id st.told

-- What happens: Java fetches, the IO thread runs a task, and a request ends.
pub data Event : Type 0 where
  fetches : Bool → Bytes → Event
  runs_task : Event
  ends : Bool → ℕ → ℕ → Bytes → Event

abbrev pub run_event : Event → Fetching → Abort Fetching
run_event (fetches is_posted url) st = fetch is_posted url st
run_event runs_task st = init_first st.posted st
run_event (ends has_content id code content) st =
    on_url_fetch_complete io has_content id code content st

-- Every id given is in one fetcher or was told once; ids are given in order.
pub record Accounts (st : Fetching) : Type 0 where
  pub balanced : (id : ℕ) → times_given id st ≡ times_fetching id st + times_told id st
  pub fresh : (id : ℕ) → st.seq ≤ id → times_given id st ≡ 0
  pub single : (id : ℕ) → times_given id st ≤ 1
  pub counted : st.seq ≡ length st.given

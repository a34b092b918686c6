-- ===== src/Fetch/Ids.antt =====
-- A fetch is answered at most once, under the id that Java was given for it.
use seaturtle.Common.{
  ℕ, suc, ◌+◌, ◌^◌, ◌≤◌, ◌<◌, ◌≡◌, refl, ap, subst, Bool, true, false, Option, none, some, List, [],
  ◌∷◌, ◌++◌, arith, inl, inr, ◌==◌, ==_iff, Bool-cases, length-append, Bytes, Abort, ok, crash,
  ◌>>=◌, io, Runs, done, then_runs,
}
use seaturtle.Context.Build.{Getter}
use seaturtle.Fetch.{
  Fetcher, HttpFetchComplete, Fetching, fetch, the_getter, init, init_first, take_fetcher, behind,
  complete_in, on_url_fetch_complete,
}
use seaturtle.Fetch.Accounts.{
  one_if, times, times-append, Event, run_event, Accounts, fetches, runs_task, ends,
}

abbrev Keeps : Abort Fetching → Type 0
Keeps crash = Unit
Keeps (ok st) = Accounts st

times-snoc :
    {A : Type 0} (id_of : A → ℕ) (id : ℕ) (xs : List A) (x : A)
    → times id_of id (xs ++ x ∷ []) ≡ times id_of id xs + one_if (id_of x == id)
times-snoc id_of id xs x = omega (arith, times-append id_of id xs (x ∷ []))

fetch-Keeps :
    (is_posted : Bool) (url : Bytes) (st : Fetching)
    → Accounts st
    → st.seq + 1 < 2 ^ 32
    → Keeps (fetch is_posted url st)
unfolding fetch
fetch-Keeps false url st acc h = tt
fetch-Keeps true url st acc h =
    let f : Fetcher = record { id = st.seq; url = url } in
    record {
      balanced = λ id. ground (
        arith,
        acc.balanced id,
        times-snoc (λ (x : ℕ). x) id st.given st.seq,
        times-snoc (λ (f : Fetcher). f.id) id st.posted f,
      );
      fresh = λ id le.
          ground (arith, acc.fresh id (omega arith), times-snoc (λ (x : ℕ). x) id st.given st.seq);
      single = λ id.
          ground (arith, acc.single id, acc.fresh id, times-snoc (λ (x : ℕ). x) id st.given st.seq);
      counted = ground (arith, acc.counted, length-append st.given (st.seq ∷ []));
    }

abbrev KeepsTo : ℕ → Abort Fetching → Type 0
KeepsTo n crash = Unit
KeepsTo n (ok st) = Accounts st × (st.seq ≤ n)

started-Keeps :
    (run : Abort Getter) (f : Fetcher) (posted : List Fetcher) (st : Fetching) (n : ℕ)
    → st.posted ≡ f ∷ posted
    → Accounts st
    → st.seq ≤ n
    → KeepsTo n (
        run >>= λ getter.
        ok (record st {
          posted = posted;
          started = st.started ++ f ∷ [];
          fetch_getter = some getter;
        }))
started-Keeps crash f posted st n e acc le = tt
started-Keeps (ok getter) f posted st n e acc le = (
  record {
    balanced = λ id. omega (
      arith,
      acc.balanced id,
      ap (times (λ (f : Fetcher). f.id) id) e,
      times-snoc (λ (f : Fetcher). f.id) id st.started f,
    );
    fresh = acc.fresh;
    single = acc.single;
    counted = acc.counted;
  },
  le,
)

init-Keeps :
    (posted : List Fetcher) (st : Fetching) (n : ℕ)
    → st.posted ≡ posted
    → Accounts st
    → st.seq ≤ n
    → KeepsTo n (init_first posted st)
unfolding init
init-Keeps [] st n e acc le = (acc, le)
init-Keeps (f ∷ posted) st n e acc le =
    started-Keeps (the_getter io st.fetch_getter) f posted st n e acc le

abbrev of_fetchers : ℕ → List Fetcher → ℕ
of_fetchers other fs = times (λ (f : Fetcher). f.id) other fs

taken_further :
    (id other : ℕ) (f : Fetcher) (fs fs' : List Fetcher) (found : Option (List Fetcher))
    → ((gs : List Fetcher)
        → found ≡ some gs
        → of_fetchers other fs ≡ of_fetchers other gs + one_if (id == other))
    → behind f found ≡ some fs'
    → of_fetchers other (f ∷ fs) ≡ of_fetchers other fs' + one_if (id == other)
taken_further id other f fs fs' none ih e = cc
taken_further id other f fs fs' (some gs) ih e =
    let e' : f ∷ gs ≡ fs' = cc in omega (arith, ih gs refl, ap (of_fetchers other) e')

taken :
    (id other : ℕ) (fs fs' : List Fetcher)
    → take_fetcher id fs ≡ some fs'
    → of_fetchers other fs ≡ of_fetchers other fs' + one_if (id == other)
unfolding take_fetcher
taken id other [] fs' e = cc
taken id other (f ∷ fs) fs' e = elim (Bool-cases (f.id == id)) [
  | inl same ↦
      let e' : some fs ≡ some fs' = rw same at e in
      let e'' : fs ≡ fs' = cc in ground (arith, ap (of_fetchers other) e'', (==_iff f.id id).0 same)
  | inr different ↦
      taken_further id other f fs fs' (take_fetcher id fs) (λ gs h. taken id other fs gs h)
        (rw different at e)
]

complete-Keeps :
    (found : Option (List Fetcher)) (id code : ℕ) (content : Bytes) (st : Fetching) (n : ℕ)
    → take_fetcher id st.started ≡ found
    → Accounts st
    → st.seq ≤ n
    → KeepsTo n (complete_in found id code content st)
complete-Keeps none id code content st n e acc le = tt
complete-Keeps (some started) id code content st n e acc le =
    let r : HttpFetchComplete = record { id = id; response = code; content = content } in
    (
      record {
        balanced = λ other. omega (
          arith,
          acc.balanced other,
          taken id other st.started started e,
          times-snoc (λ (r : HttpFetchComplete). r.id) other st.told r,
        );
        fresh = acc.fresh;
        single = acc.single;
        counted = acc.counted;
      },
      le,
    )

end-Keeps :
    (has_content : Bool) (id code : ℕ) (content : Bytes) (st : Fetching) (n : ℕ)
    → Accounts st
    → st.seq ≤ n
    → KeepsTo n (on_url_fetch_complete io has_content id code content st)
unfolding on_url_fetch_complete
end-Keeps false id code content st n acc le = tt
end-Keeps true id code content st n acc le =
    complete-Keeps (take_fetcher id st.started) id code content st n refl acc le

abbrev pub fetches_in : List Event → ℕ
fetches_in [] = 0
fetches_in (fetches is_posted url ∷ es) = suc (fetches_in es)
fetches_in (runs_task ∷ es) = fetches_in es
fetches_in (ends has_content id code content ∷ es) = fetches_in es

fetch-seq :
    (is_posted : Bool) (url : Bytes) (st : Fetching) (n : ℕ)
    → Keeps (fetch is_posted url st)
    → st.seq + 1 ≤ n
    → KeepsTo n (fetch is_posted url st)
unfolding fetch
fetch-seq false url st n h le = tt
fetch-seq true url st n h le = (h, omega arith)

event-KeepsTo :
    (e : Event) (st : Fetching) (n : ℕ)
    → Accounts st
    → st.seq + fetches_in (e ∷ []) ≤ n
    → n < 2 ^ 32
    → KeepsTo n (run_event e st)
event-KeepsTo (fetches is_posted url) st n acc le lt =
    fetch-seq is_posted url st n (fetch-Keeps is_posted url st acc (omega arith)) le
event-KeepsTo runs_task st n acc le lt = init-Keeps st.posted st n refl acc (omega arith)
event-KeepsTo (ends has_content id code content) st n acc le lt =
    end-Keeps has_content id code content st n acc (omega arith)

fetches_in-cons :
    (e : Event) (es : List Event) → fetches_in (e ∷ []) + fetches_in es ≡ fetches_in (e ∷ es)
fetches_in-cons (fetches is_posted url) es = omega arith
fetches_in-cons runs_task es = omega arith
fetches_in-cons (ends has_content id code content) es = omega arith

-- Let Java fetch, the IO thread run its tasks and requests end, in any order, from a state where the
-- ids are in order, and let the process not end and the numbers not reach 2 ^ 32. Then no id has been
-- given to Java twice, and each id that was given is in exactly one fetcher, or has been told to Java
-- with its result exactly once.
pub Runs-Accounts :
    (es : List Event) {st st' : Fetching}
    → Accounts st
    → st.seq + fetches_in es < 2 ^ 32
    → Runs run_event es st st'
    → Accounts st'
Runs-Accounts [] acc lt done = acc
Runs-Accounts (e ∷ es) {st = st} acc lt (then_runs step runs) =
    let first = subst (KeepsTo (st.seq + fetches_in (e ∷ []))) step (
      event-KeepsTo e st (st.seq + fetches_in (e ∷ [])) acc (omega arith)
        (omega (arith, fetches_in-cons e es))) in
    Runs-Accounts es first.0 (omega (arith, fetches_in-cons e es, first.1)) runs

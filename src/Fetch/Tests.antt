-- ===== src/Fetch/Tests.antt =====
-- One fetch from Java's call to its answer, and the theorem on such runs.
use seaturtle.Common.{
  ◌≡◌, refl, true, none, some, [], ◌∷◌, arith, lit, crash, Runs, done, then_runs,
}
use seaturtle.Fetch.{Fetching, fetch, init, on_url_fetch_complete}
use seaturtle.Fetch.Ids.{Runs-Accounts}
use seaturtle.Fetch.Accounts.{Accounts, fetches, runs_task, ends, run_event}

abbrev idle : Fetching
idle = record { seq = 0; posted = []; started = []; given = []; told = []; fetch_getter = none }

abbrev asked : Fetching
asked = record idle { seq = 1; posted = record { id = 0; url = lit "u" } ∷ []; given = 0 ∷ [] }

abbrev underway : Fetching
underway = record asked {
  posted = [];
  started = record { id = 0; url = lit "u" } ∷ [];
  fetch_getter = some (record { base_path = []; url_request_context = none });
}

abbrev over : Fetching
over = record underway {
  started = [];
  told = record { id = 0; response = 200; content = lit "x" } ∷ [];
}

one_fetch :
    Runs run_event (fetches true (lit "u") ∷ runs_task ∷ ends true 0 200 (lit "x") ∷ []) idle over
unfolding fetch init on_url_fetch_complete
one_fetch =
    then_runs {st1 = asked} refl
      (then_runs {st1 = underway} refl (then_runs {st1 = over} refl done))

ends_twice : run_event (ends true 0 200 []) over ≡ crash
unfolding on_url_fetch_complete
ends_twice = refl

idle-Accounts : Accounts idle
idle-Accounts = record {
  balanced = λ id. refl;
  fresh = λ id le. refl;
  single = λ id. omega arith;
  counted = refl;
}

Runs-Accounts_example : Accounts over
Runs-Accounts_example =
    Runs-Accounts (fetches true (lit "u") ∷ runs_task ∷ ends true 0 200 (lit "x") ∷ [])
      idle-Accounts (omega arith) one_fetch

-- ===== src/Fetch.antt =====
-- extra/fetch.h and extra/fetch.cc: what Java fetches through the browser. A fetch is a task of the IO
-- thread, then a request, and is over when Java is told its result.
pub mod Accounts
pub mod Ids
mod Tests
use seaturtle.Common.{
  ℕ, suc, ◌+◌, ◌%◌, ◌^◌, Bool, true, false, Option, none, some, List, [], ◌∷◌, ◌++◌, ◌==◌,
  if◌then◌else◌, Bytes, Abort, ok, crash, ◌>>=◌, ◌>>◌, check, Thread, io, check_on_io,
}
use seaturtle.Url.{UrlApi, Request}
use seaturtle.Context.Build.{Getter, new_fetcher_getter}

-- class Fetcher
pub record Fetcher : Type 0 where
  pub id : ℕ
  pub url : Bytes

-- jni::HttpFetchComplete
pub record HttpFetchComplete : Type 0 where
  pub id : ℕ
  pub response : ℕ
  pub content : Bytes

-- `seq`, the fetchers whose Init is posted, those whose request was started, the ids that Java was
-- given, what it was told, the oldest first, and `fetch_getter`.
pub record Fetching : Type 0 where
  pub seq : ℕ
  pub posted : List Fetcher
  pub started : List Fetcher
  pub given : List ℕ
  pub told : List HttpFetchComplete
  pub fetch_getter : Option Getter

-- Fetcher::Fetch with the constructor; `is_posted` is the result of PostTask.
unfoldable pub fetch : Bool → Bytes → Fetching → Abort Fetching
fetch is_posted url st =
    check is_posted
    >> ok (record st {
      seq = (st.seq + 1) % 2 ^ 32;
      posted = st.posted ++ record { id = st.seq; url = url } ∷ [];
      given = st.given ++ st.seq ∷ [];
    })

abbrev pub the_getter : Thread → Option Getter → Abort Getter
the_getter thread none = new_fetcher_getter thread
the_getter thread (some getter) = ok getter

-- Fetcher::Init, which starts the request of a fetcher.
unfoldable pub init : Thread → Fetcher → Fetching → Abort Fetching
unfolding new_fetcher_getter
init thread f st =
    check_on_io thread
    >> (the_getter thread st.fetch_getter >>= λ getter.
        ok (record st { started = st.started ++ f ∷ []; fetch_getter = some getter }))

-- The request of Init: the data under kSeaturtleAutocompleteRequest is set, and cookies are neither
-- sent nor kept, which its load flags say. `first_party` is what net::URLFetcher sets.
unfoldable pub request_of : {Gurl : Type 0} → UrlApi Gurl → Gurl → Fetcher → Request Gurl
request_of api first_party f = record {
  url = api.parse f.url;
  first_party_for_cookies = first_party;
  prev_rewrites = none;
  is_autocomplete = true;
  view = none;
  referrer = [];
}

-- Fetcher::IsAutocompleteRequest
unfoldable pub is_autocomplete_request : {Gurl : Type 0} → Request Gurl → Bool
is_autocomplete_request req = req.is_autocomplete

abbrev pub behind : Fetcher → Option (List Fetcher) → Option (List Fetcher)
behind f none = none
behind f (some fs) = some (f ∷ fs)

-- The fetchers without the first one of an id; `none` where there is no such fetcher.
unfoldable pub take_fetcher : ℕ → List Fetcher → Option (List Fetcher)
take_fetcher id [] = none
take_fetcher id (f ∷ fs) =
    let rest = take_fetcher id fs in if f.id == id then some fs else behind f rest

abbrev pub complete_in : Option (List Fetcher) → ℕ → ℕ → Bytes → Fetching → Abort Fetching
complete_in none id code content st = crash
complete_in (some started) id code content st = ok (record st {
  started = started;
  told = st.told ++ record { id = id; response = code; content = content } ∷ [];
})

-- Fetcher::OnURLFetchComplete of a fetcher that was started, which deletes it; `has_content` is the
-- result of GetResponseAsString.
unfoldable pub on_url_fetch_complete : Thread → Bool → ℕ → ℕ → Bytes → Fetching → Abort Fetching
unfolding take_fetcher
on_url_fetch_complete thread has_content id code content st =
    check_on_io thread
    >> (check has_content >> complete_in (take_fetcher id st.started) id code content st)

-- The IO thread runs the first posted Init.
abbrev pub init_first : List Fetcher → Fetching → Abort Fetching
init_first [] st = ok st
init_first (f ∷ posted) st = init io f (record st { posted = posted })

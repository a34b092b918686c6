-- ===== src/Context/Tests.antt =====
-- A browser context's getter and the fetcher's, and the theorems on their contexts.
use seaturtle.Common.{
  ◌≡◌, ◌≢◌, refl, ok, ui, ◌↔◌, Bool, true, none, some, List, [], ◌∷◌, ◌++◌, Bytes, lit, io, done,
  then_runs,
}
use seaturtle.Fixtures.{plain_api, test_sites, test_system, fresh}
use seaturtle.Cookies.{add_favorites}
use seaturtle.Settings.{default_settings, get_global_settings_ref}
use seaturtle.Settings.Ssl.{new_ssl_config}
use seaturtle.ProcessCache.{get_accept_langs}
use seaturtle.Context.{
  Slot-discrete, Process, Outcome, died, gives, get_or_new, new, reset, Clearing, cookies_of,
  cache_of, transport_security_of,
}
use seaturtle.Context.Shared.{
  get_network_delegate, get_ssl_config_service, get_host_resolver, get_auth_factory,
  get_http_server_properties, get_proxy_service, get_http_user_agent_settings, get_job_factory,
  get_sdch, get_cookie_store, get_transport_security_state, make_tss, get_http_cache, clear_data,
  get_split_cookie_store,
}
use seaturtle.Context.Build.{
  new_getter, new_fetcher_getter, Context, Getter, get_url_request_context, make_context,
  make_context_with, always_shared, make_cookie_store, make_stores, stores_on_disk,
  stores_in_memory,
}
use seaturtle.Context.Stores.{IsValid}
use seaturtle.Context.Isolation.{TwoContexts, contexts-share, contexts-isolate}
use seaturtle.Context.Events.{clears}
use seaturtle.Context.Cleared.{Has, clear_data-reaches}
use seaturtle.Context.Keeps.{PersistsCookies, PersistsCache}
use seaturtle.Fetch.{Fetching, init}
use seaturtle.BrowserContext.{create_request_context}
use seaturtle.BrowserContext.Fetches.{fetches-isolated}

abbrev getter_at : Bytes → Getter
getter_at base_path = record { base_path = base_path; url_request_context = none }

-- The context of the browser is built from `fresh` on, and then the data is cleared.
abbrev browser_context : Context
browser_context = record {
  network_delegate = 0;
  ssl_config_service = 1;
  cert_verifier = 2;
  host_resolver = 3;
  http_auth_handler_factory = 4;
  http_server_properties = 5;
  proxy_service = 6;
  http_user_agent_settings = 7;
  job_factory = 8;
  cookie_store = 9;
  transport_security_state = 10;
  http_transaction_factory = 12;
  sdch_manager = 13;
}

-- The fetcher's, which is built next: it has a verifier and stores of its own.
abbrev fetcher_context : Context
fetcher_context = record browser_context {
  cert_verifier = 14;
  cookie_store = 15;
  transport_security_state = 16;
  http_transaction_factory = 17;
  sdch_manager = 18;
}

abbrev process_of : {A : Type 0} → Process → Outcome A → Process
process_of p died = p
process_of p (gives a p') = p'

-- Its line lists what a run computes with.
run_getter : Process → Bytes → Outcome (Context × Getter)
unfolding get_url_request_context make_context make_context_with always_shared make_cookie_store
    make_stores stores_on_disk stores_in_memory get_network_delegate get_ssl_config_service
    get_host_resolver get_auth_factory get_http_server_properties get_proxy_service
    get_http_user_agent_settings get_job_factory get_sdch get_cookie_store
    get_transport_security_state make_tss get_http_cache get_or_new new reset
    get_global_settings_ref new_ssl_config get_accept_langs add_favorites Slot-discrete clear_data
run_getter p base_path =
    get_url_request_context plain_api test_sites io test_system (getter_at base_path) p

abbrev built : Process
built =
    process_of fresh
      (get_url_request_context plain_api test_sites io test_system (getter_at (lit "/d")) fresh)

abbrev cleared_once : Process
cleared_once = clear_data (λ a. true) built

abbrev all_built : Process
all_built =
    process_of cleared_once
      (get_url_request_context plain_api test_sites io test_system (getter_at []) cleared_once)

abbrev with_context : Bytes → Context → Getter
with_context base_path c = record { base_path = base_path; url_request_context = some c }

browser_built :
    get_url_request_context plain_api test_sites io test_system (getter_at (lit "/d")) fresh
    ≡ gives (browser_context, with_context (lit "/d") browser_context) built
unfolding run_getter
browser_built = refl

fetcher_built :
    get_url_request_context plain_api test_sites io test_system (getter_at []) cleared_once
    ≡ gives (fetcher_context, with_context [] fetcher_context) all_built
unfolding run_getter
fetcher_built = refl

-- The cookie store cannot be asked for before a context has made it.
too_early : get_split_cookie_store plain_api test_sites test_system fresh ≡ died
unfolding get_split_cookie_store run_getter
too_early = refl

empty-IsValid : IsValid fresh
empty-IsValid slot a e = cc

abbrev both_built :
    TwoContexts plain_api test_sites test_system
      (lit "/d")
      []
      fresh
      built
      cleared_once
      all_built
      browser_context
      fetcher_context
both_built = record {
  getter = with_context (lit "/d") browser_context;
  getter' = with_context [] fetcher_context;
  events = clears (λ a. true) ∷ [];
  first = browser_built;
  between = then_runs refl done;
  second = fetcher_built;
}

unchanged_settings : cleared_once.settings ≡ some default_settings
unfolding run_getter
unchanged_settings = refl

contexts-share_example :
    (get_url_request_context plain_api test_sites io test_system both_built.getter all_built
      ≡ gives (browser_context, both_built.getter) all_built)
    × ((browser_context.network_delegate ≡ fetcher_context.network_delegate)
        × (browser_context.ssl_config_service ≡ fetcher_context.ssl_config_service)
        × (browser_context.host_resolver ≡ fetcher_context.host_resolver)
        × (browser_context.http_auth_handler_factory ≡ fetcher_context.http_auth_handler_factory)
        × (browser_context.http_server_properties ≡ fetcher_context.http_server_properties)
        × (browser_context.proxy_service ≡ fetcher_context.proxy_service)
        × (browser_context.http_user_agent_settings ≡ fetcher_context.http_user_agent_settings)
        × (browser_context.job_factory ≡ fetcher_context.job_factory))
contexts-share_example =
    contexts-share plain_api test_sites test_system (lit "/d") [] empty-IsValid both_built

contexts-isolate_example :
    ((browser_context.cookie_store ≡ fetcher_context.cookie_store)
      ↔ (PersistsCookies (lit "/d") default_settings × PersistsCookies [] default_settings))
    × ((browser_context.transport_security_state ≡ fetcher_context.transport_security_state)
        ↔ (PersistsCache (lit "/d") default_settings × PersistsCache [] default_settings))
    × ((browser_context.http_transaction_factory ≡ fetcher_context.http_transaction_factory)
        ↔ (PersistsCache (lit "/d") default_settings × PersistsCache [] default_settings))
    × ((browser_context.sdch_manager ≡ fetcher_context.sdch_manager)
        ↔ (PersistsCache (lit "/d") default_settings × PersistsCache [] default_settings))
contexts-isolate_example =
    contexts-isolate plain_api test_sites test_system (lit "/d") [] default_settings
      default_settings empty-IsValid refl unchanged_settings both_built

abbrev no_fetches : Fetching
no_fetches = record {
  seq = 1;
  posted = [];
  started = [];
  given = 0 ∷ [];
  told = [];
  fetch_getter = none;
}

is_created :
    create_request_context ui (record { path = lit "/d"; download_manager_delegate = none })
    ≡ ok (getter_at (lit "/d"))
unfolding create_request_context new_getter
is_created = refl

is_started :
    init io (record { id = 0; url = lit "u" }) no_fetches
    ≡ ok (record no_fetches {
      started = record { id = 0; url = lit "u" } ∷ [];
      fetch_getter = some (getter_at []);
    })
unfolding init new_fetcher_getter
is_started = refl

fetches-isolated_example :
    (browser_context.cookie_store ≢ fetcher_context.cookie_store)
    × (browser_context.transport_security_state ≢ fetcher_context.transport_security_state)
    × (browser_context.http_transaction_factory ≢ fetcher_context.http_transaction_factory)
    × (browser_context.sdch_manager ≢ fetcher_context.sdch_manager)
fetches-isolated_example =
    fetches-isolated plain_api test_sites test_system ui
      (record { path = lit "/d"; download_manager_delegate = none })
      (record { id = 0; url = lit "u" }) no_fetches
      (record no_fetches {
        started = record { id = 0; url = lit "u" } ∷ [];
        fetch_getter = some (getter_at []);
      })
      (getter_at (lit "/d")) (with_context (lit "/d") browser_context) (getter_at [])
      (with_context [] fetcher_context) default_settings default_settings (clears (λ a. true) ∷ [])
      fresh empty-IsValid refl unchanged_settings is_created browser_built (then_runs refl done)
      refl is_started refl fetcher_built

clear_data-reaches_example :
    (asked : List Clearing) × (clear_data (λ a. true) built
      ≡ record built { cleared = built.cleared ++ asked })
    × (Has (cookies_of 9) asked ↔ PersistsCookies (lit "/d") default_settings)
    × (Has (cache_of 12) asked
        ↔ (PersistsCache (lit "/d") default_settings × (◌≡◌ {A = Bool} true true)))
    × (Has (transport_security_of 10) asked ↔ PersistsCache (lit "/d") default_settings)
clear_data-reaches_example =
    clear_data-reaches plain_api test_sites test_system (lit "/d") fresh default_settings []
      (λ a. true) empty-IsValid refl browser_built done

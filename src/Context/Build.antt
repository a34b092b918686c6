-- ===== src/Context/Build.antt =====
-- shell/browser/shell_url_request_context_getter.cc: GetURLRequestContext, which makes the context of
-- a getter when it is first asked for.
use seaturtle.Common.{
  ℕ, ◌*◌, ◌%◌, ◌^◌, Bool, true, false, Option, none, some, [], ◌&&◌, not, is_empty, Bytes, Abort,
  ok, crash, Thread, check_on_io, check_on_ui,
}
use seaturtle.Url.{UrlApi}
use seaturtle.Cookies.{SiteApi}
use seaturtle.Settings.{AllSettings, get_global_settings_ref}
use seaturtle.Context.{Params, Object, System, M, ◌>>=◌, ◌>>◌, return, lift, new, gives}
use seaturtle.Context.Shared.{
  of_settings, get_network_delegate, get_ssl_config_service, get_host_resolver, get_auth_factory,
  get_http_server_properties, get_proxy_service, get_http_user_agent_settings, get_job_factory,
  get_sdch, get_cookie_store, get_transport_security_state, get_http_cache,
}

-- net::URLRequestContext: the objects that it is given. NetLog::Get() is NULL.
pub record Context : Type 0 where
  pub network_delegate : ℕ
  pub ssl_config_service : ℕ
  pub cert_verifier : ℕ
  pub host_resolver : ℕ
  pub http_auth_handler_factory : ℕ
  pub http_server_properties : ℕ
  pub proxy_service : ℕ
  pub http_user_agent_settings : ℕ
  pub job_factory : ℕ
  pub cookie_store : ℕ
  pub transport_security_state : ℕ
  pub http_transaction_factory : ℕ
  pub sdch_manager : ℕ

-- class ShellURLRequestContextGetter: `base_path_` and `url_request_context_`.
pub record Getter : Type 0 where
  pub base_path : Bytes
  pub url_request_context : Option Context

-- The constructors: the one for the fetcher, and the one for a browser context.
unfoldable pub new_fetcher_getter : Thread → Abort Getter
new_fetcher_getter thread = elim (check_on_io thread) [
  | crash ↦ crash
  | ok _ ↦ ok (record { base_path = []; url_request_context = none })
]

unfoldable pub new_getter : Thread → Bytes → Abort Getter
new_getter thread base_path = elim (check_on_ui thread) [
  | crash ↦ crash
  | ok _ ↦ ok (record { base_path = base_path; url_request_context = none })
]

-- The tests for what is kept on disk.
abbrev pub keeps_cookies : Bytes → AllSettings → Bool
keeps_cookies base_path settings =
    not (is_empty base_path)
    && (settings.state.single_context && settings.state.allow_persistant_cookies)

abbrev pub keeps_cache : Bytes → AllSettings → Bool
keeps_cache base_path settings =
    not (is_empty base_path) && (settings.state.single_context && settings.state.persist_cache)

-- `int disk_cache_size`, as a bit pattern.
unfoldable pub disk_cache_size : AllSettings → ℕ
disk_cache_size settings = settings.state.disk_cache_size_mb * 1024 * 1024 % 2 ^ 32

-- The part of the context that is always shared, with its parameters for a cache.
unfoldable pub always_shared : System → AllSettings → M (Params × ℕ × ℕ)
always_shared sys settings = do
  network_delegate ← get_network_delegate
  ssl_config_service ← get_ssl_config_service sys
  cert_verifier ← new Object.cert_verifier
  host_resolver ← get_host_resolver
  http_auth_handler_factory ← get_auth_factory host_resolver
  http_server_properties ← get_http_server_properties
  proxy_service ← get_proxy_service
  http_user_agent_settings ← get_http_user_agent_settings sys
  job_factory ← get_job_factory
  return (
    record {
      network_delegate = network_delegate;
      ssl_config_service = ssl_config_service;
      cert_verifier = cert_verifier;
      host_resolver = host_resolver;
      http_auth_handler_factory = http_auth_handler_factory;
      http_server_properties = http_server_properties;
      proxy_service = proxy_service;
      spdy = settings.spdy_enabled;
      transport_security_state = 0;
    },
    http_user_agent_settings,
    job_factory,
  )

-- The transport security state, the cache and the dictionaries: on disk and shared, or in memory and
-- the context's own.
unfoldable pub stores_on_disk : System → AllSettings → Bytes → Params → M (ℕ × ℕ × ℕ)
stores_on_disk sys settings base_path params = do
  tss ← get_transport_security_state sys base_path
  http_cache ←
      get_http_cache sys base_path (disk_cache_size settings)
        (record params { transport_security_state = tss })
  sdch ← get_sdch
  return (tss, http_cache, sdch)

unfoldable pub stores_in_memory : Params → M (ℕ × ℕ × ℕ)
stores_in_memory params = do
  tss ← new Object.transport_security_state
  main_cache ← new (Object.memory_http_cache (record params { transport_security_state = tss }))
  sdch ← new Object.sdch_manager
  return (tss, main_cache, sdch)

unfoldable pub make_stores : System → AllSettings → Bytes → Params → M (ℕ × ℕ × ℕ)
make_stores sys settings base_path params = elim (keeps_cache base_path settings) [
  | true ↦ stores_on_disk sys settings base_path params
  | false ↦ stores_in_memory params
]

module _ {Gurl : Type 0} (api : UrlApi Gurl) (sites : SiteApi Gurl) where
  unfoldable pub make_cookie_store : System → AllSettings → Bytes → M ℕ
  make_cookie_store sys settings base_path = elim (keeps_cookies base_path settings) [
    | true ↦ get_cookie_store api sites sys base_path
    | false ↦ new Object.memory_cookie_store
  ]

  -- What GetURLRequestContext does where there is no context yet.
  unfoldable pub make_context_with : System → Bytes → AllSettings → M Context
  make_context_with sys base_path settings = do
    (params, http_user_agent_settings, job_factory) ← always_shared sys settings
    cookie_store ← make_cookie_store sys settings base_path
    (tss, transaction_factory, sdch) ← make_stores sys settings base_path params
    return (record {
      network_delegate = params.network_delegate;
      ssl_config_service = params.ssl_config_service;
      cert_verifier = params.cert_verifier;
      host_resolver = params.host_resolver;
      http_auth_handler_factory = params.http_auth_handler_factory;
      http_server_properties = params.http_server_properties;
      proxy_service = params.proxy_service;
      http_user_agent_settings = http_user_agent_settings;
      job_factory = job_factory;
      cookie_store = cookie_store;
      transport_security_state = tss;
      http_transaction_factory = transaction_factory;
      sdch_manager = sdch;
    })

  -- The same, from ST_SETTINGS on.
  unfoldable pub make_context : System → Bytes → M Context
  make_context sys base_path =
      of_settings get_global_settings_ref >>= make_context_with sys base_path

  abbrev pub context_or : Option Context → M Context → M Context
  context_or none make p = make p
  context_or (some context) make p = gives context p

  -- ShellURLRequestContextGetter::GetURLRequestContext
  unfoldable pub get_url_request_context : Thread → System → Getter → M (Context × Getter)
  get_url_request_context thread sys g = do
    lift (check_on_io thread)
    context ← context_or g.url_request_context (make_context sys g.base_path)
    return (context, record g { url_request_context = some context })

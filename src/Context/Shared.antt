-- ===== src/Context/Shared.antt =====
-- shell/browser/shell_url_request_context_getter.cc: the methods of SharedState, and ClearData.
use seaturtle.Common.{
  ℕ, Bool, true, false, Option, none, some, List, [], ◌∷◌, ◌++◌, not, is_empty, Bytes, lit, Abort,
  check,
}
use seaturtle.Url.{UrlApi}
use seaturtle.Cookies.{SiteApi, add_favorites}
use seaturtle.Settings.{AllSettings}
use seaturtle.Settings.Ssl.{new_ssl_config}
use seaturtle.ProcessCache.{get_accept_langs}
use seaturtle.Context.{
  Slot, Params, Object, Clearing, cookies_of, cache_of, transport_security_of, Process, System, M,
  ◌>>=◌, ◌>>◌, return, lift, new, reset, get_or_new, get_or,
}

-- `path.Append(kStateDir).Append(name)`
abbrev pub state_path : System → Bytes → Bytes → Bytes
state_path sys path name = sys.append_path (sys.append_path path (lit "state")) name

abbrev pub of_settings : {A : Type 0} → (Option AllSettings → Abort A) → M A
of_settings f p = lift (f p.settings) p

-- SharedState::GetNetworkDelegate
unfoldable pub get_network_delegate : M ℕ
get_network_delegate = get_or_new Slot.network_delegate_ (return Object.shell_network_delegate)

-- SharedState::GetSSLConfigService
unfoldable pub get_ssl_config_service : System → M ℕ
get_ssl_config_service sys =
    get_or_new Slot.ssl_config_service_
      (do config ← of_settings (new_ssl_config sys.net); return (Object.ssl_config_service config))

-- SharedState::GetHostResolver
unfoldable pub get_host_resolver : M ℕ
get_host_resolver = get_or_new Slot.host_resolver_ (return Object.host_resolver)

-- SharedState::GetAuthFactory
unfoldable pub get_auth_factory : ℕ → M ℕ
get_auth_factory host_resolver =
    get_or_new Slot.auth_factory_ (return (Object.auth_handler_factory host_resolver))

-- SharedState::GetHttpServerProperties
unfoldable pub get_http_server_properties : M ℕ
get_http_server_properties = get_or_new Slot.hsp_ (return Object.http_server_properties)

-- SharedState::GetProxyService
unfoldable pub get_proxy_service : M ℕ
get_proxy_service = get_or_new Slot.proxy_service_ (return Object.proxy_service)

abbrev pub accept_langs_now : System → M Bytes
accept_langs_now sys p =
    let (langs, cache) = get_accept_langs sys.accept_langs p.process_cache in
    return langs (record p { process_cache = cache })

-- SharedState::GetHttpUserAgentSettings
unfoldable pub get_http_user_agent_settings : System → M ℕ
get_http_user_agent_settings sys = get_or_new Slot.ua_settings_ (do
  langs ← accept_langs_now sys
  return (Object.user_agent_settings (sys.accept_language_header langs)))

-- SharedState::GetJobFactory; the handler of the one scheme is always accepted.
unfoldable pub get_job_factory : M ℕ
get_job_factory = get_or_new Slot.urjf_ (return Object.job_factory)

-- SharedState::GetSdch
unfoldable pub get_sdch : M ℕ
get_sdch = get_or_new Slot.sdch_ (return Object.sdch_manager)

module _ {Gurl : Type 0} (api : UrlApi Gurl) (sites : SiteApi Gurl) where
  -- SharedState::GetCookieStore, with the favorites that the constructor of the store asks Java for.
  unfoldable pub get_cookie_store : System → Bytes → M ℕ
  get_cookie_store sys path = get_or_new Slot.cookie_store_ (do
    lift (check (not (is_empty path)))
    favorites ← lift (add_favorites api sites sys.favorite_urls [])
    return (Object.split_cookie_store (state_path sys path (lit "cookie_store")) favorites))

  -- ShellURLRequestContextGetter::GetSplitCookieStore
  unfoldable pub get_split_cookie_store : System → M ℕ
  get_split_cookie_store sys = get_cookie_store sys []

unfoldable pub make_tss : System → Bytes → M ℕ
make_tss sys path = do
  tss ← new Object.transport_security_state
  reset Slot.tss_ tss
  lift (check (sys.create_directory (state_path sys path (lit "hsts"))))
  tsp ← new (Object.transport_security_persister tss (state_path sys path (lit "hsts")))
  return tss

abbrev pub tss_or : M ℕ → M ℕ
tss_or make p = get_or (p.shared Slot.tss_) make p

-- SharedState::GetTransportSecurityState
unfoldable pub get_transport_security_state : System → Bytes → M ℕ
get_transport_security_state sys path =
    lift (check (not (is_empty path))) >> tss_or (make_tss sys path)

-- SharedState::GetHttpCache
unfoldable pub get_http_cache : System → Bytes → ℕ → Params → M ℕ
get_http_cache sys path cache_size params = do
  lift (check (not (is_empty path)))
  get_or_new Slot.http_cache_
      (return (Object.disk_http_cache (state_path sys path (lit "cache")) cache_size params))

-- The steps of ClearData for what the slots hold; `backend` says of which caches GetCurrentBackend is
-- not NULL.
abbrev pub clear_cookies : Option ℕ → List Clearing
clear_cookies none = []
clear_cookies (some scs) = cookies_of scs ∷ []

abbrev pub clear_cache : (ℕ → Bool) → Option ℕ → List Clearing
clear_cache backend none = []
clear_cache backend (some hc) = elim (backend hc) [ true ↦ cache_of hc ∷ [] | false ↦ [] ]

abbrev pub clear_transport_security : Option ℕ → List Clearing
clear_transport_security none = []
clear_transport_security (some tss) = transport_security_of tss ∷ []

-- ShellURLRequestContextGetter::ClearData
unfoldable pub clear_data : (ℕ → Bool) → Process → Process
clear_data backend p = record p {
  cleared =
      p.cleared
      ++ (clear_cookies (p.shared Slot.cookie_store_)
          ++ (clear_cache backend (p.shared Slot.http_cache_)
              ++ clear_transport_security (p.shared Slot.tss_)));
}

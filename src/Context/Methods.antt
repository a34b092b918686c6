-- ===== src/Context/Methods.antt =====
-- Each method of the shared state gives what its slot holds from then on.
use seaturtle.Common.{
  ℕ, ◌≡◌, refl, inl, Option, none, some, [], ◌∷◌, ◌++◌, arith, length, not, is_empty, check, Bytes,
  lit, Abort, ok, crash,
}
use seaturtle.Url.{UrlApi}
use seaturtle.Cookies.{SiteApi, add_favorites}
use seaturtle.Settings.{AllSettings}
use seaturtle.Settings.Ssl.{new_ssl_config}
use seaturtle.Context.{
  Slot, Params, Object, Process, System, M, ◌>>=◌, return, lift, new, reset, get_or,
}
use seaturtle.Context.Shared.{
  of_settings, get_network_delegate, get_ssl_config_service, get_host_resolver, get_auth_factory,
  get_http_server_properties, get_proxy_service, get_http_user_agent_settings, get_job_factory,
  get_sdch, get_cookie_store, get_transport_security_state, get_http_cache, state_path, make_tss,
  tss_or, accept_langs_now,
}
use seaturtle.Context.Extends.{Extends, Extends-refl, Extends-trans, Post, Safe}
use seaturtle.Context.Got.{
  Got, put-Extends, update_at, put, get_or_new-Got, new-Owns, return-Safe, lift-Safe, bind-Safe,
}

of_settings-Safe : {A : Type 0} (f : Option AllSettings → Abort A) → Safe (of_settings f)
of_settings-Safe f = record { run = λ p. (lift-Safe (f p.settings)).run p }

pub network_delegate-Got :
    (p : Process) → Post (Got Slot.network_delegate_ p) (get_network_delegate p)
unfolding get_network_delegate
network_delegate-Got p = get_or_new-Got _ _ p (return-Safe _)

pub ssl_config_service-Got :
    (sys : System) (p : Process)
    → Post (Got Slot.ssl_config_service_ p) (get_ssl_config_service sys p)
unfolding get_ssl_config_service
ssl_config_service-Got sys p =
    get_or_new-Got _ _ p
      (bind-Safe (of_settings-Safe (new_ssl_config sys.net)) (λ config. return-Safe _))

pub host_resolver-Got : (p : Process) → Post (Got Slot.host_resolver_ p) (get_host_resolver p)
unfolding get_host_resolver
host_resolver-Got p = get_or_new-Got _ _ p (return-Safe _)

pub auth_factory-Got :
    (host_resolver : ℕ) (p : Process)
    → Post (Got Slot.auth_factory_ p) (get_auth_factory host_resolver p)
unfolding get_auth_factory
auth_factory-Got host_resolver p = get_or_new-Got _ _ p (return-Safe _)

pub http_server_properties-Got :
    (p : Process) → Post (Got Slot.hsp_ p) (get_http_server_properties p)
unfolding get_http_server_properties
http_server_properties-Got p = get_or_new-Got _ _ p (return-Safe _)

pub proxy_service-Got : (p : Process) → Post (Got Slot.proxy_service_ p) (get_proxy_service p)
unfolding get_proxy_service
proxy_service-Got p = get_or_new-Got _ _ p (return-Safe _)

accept_langs_now-Safe : (sys : System) → Safe (accept_langs_now sys)
accept_langs_now-Safe sys = record {
  run =
      λ p. (record { grows = omega arith; keeps = λ slot a e. e; news = λ slot a e. inl e }, refl);
}

pub user_agent_settings-Got :
    (sys : System) (p : Process)
    → Post (Got Slot.ua_settings_ p) (get_http_user_agent_settings sys p)
unfolding get_http_user_agent_settings
user_agent_settings-Got sys p = get_or_new-Got _ _ p (
    bind-Safe (accept_langs_now-Safe sys)
      (λ langs. return-Safe (Object.user_agent_settings (sys.accept_language_header langs))))

pub job_factory-Got : (p : Process) → Post (Got Slot.urjf_ p) (get_job_factory p)
unfolding get_job_factory
job_factory-Got p = get_or_new-Got _ _ p (return-Safe _)

pub sdch-Got : (p : Process) → Post (Got Slot.sdch_ p) (get_sdch p)
unfolding get_sdch
sdch-Got p = get_or_new-Got _ _ p (return-Safe _)

pub cookie_store-Got :
    {Gurl : Type 0} (api : UrlApi Gurl) (sites : SiteApi Gurl) (sys : System) (path : Bytes)
    (p : Process)
    → Post (Got Slot.cookie_store_ p) (get_cookie_store api sites sys path p)
unfolding get_cookie_store
cookie_store-Got api sites sys path p = get_or_new-Got _ _ p (
    bind-Safe (lift-Safe (check (not (is_empty path)))) (λ _.
      bind-Safe (lift-Safe (add_favorites api sites sys.favorite_urls []))
        (λ favorites. return-Safe _)))

after_Safe :
    {A : Type 0} (run : Abort A) (slot : Slot) (m : M ℕ)
    → ((p : Process) → Post (Got slot p) (m p))
    → (p : Process) → Post (Got slot p) ((lift run >>= λ _. m) p)
after_Safe crash slot m h p = tt
after_Safe (ok a) slot m h p = h p

pub http_cache-Got :
    (sys : System) (path : Bytes) (size : ℕ) (params : Params) (p : Process)
    → Post (Got Slot.http_cache_ p) (get_http_cache sys path size params p)
unfolding get_http_cache
http_cache-Got sys path size params =
    after_Safe (check (not (is_empty path))) Slot.http_cache_ _
      (λ p. get_or_new-Got Slot.http_cache_ _ p (return-Safe _))

-- A new object in its slot, and then another new object.
then_new :
    (slot : Slot) (o o' : Object) (p : Process) (run : Abort (Unit {0}))
    → p.shared slot ≡ none
    → Post
        (Got slot p)
        ((lift run >>= λ _. new o' >>= λ _. return (length p.objects)) (put slot o p))
unfolding new
then_new slot o o' p crash e = tt
then_new slot o o' p (ok _) e =
    let h = put-Extends slot o p p (Extends-refl p) e in
    let k : Extends (put slot o p)
        (record (put slot o p) { objects = (put slot o p).objects ++ o' ∷ [] }) =
      (new-Owns o' (put slot o p)).0 in
    (Extends-trans h k, update_at slot slot (length p.objects) p.shared refl, refl)

tss_or-Got :
    (sys : System) (path : Bytes) (p : Process) (held : Option ℕ)
    → p.shared Slot.tss_ ≡ held
    → Post (Got Slot.tss_ p) (get_or held (make_tss sys path) p)
unfolding make_tss new reset
tss_or-Got sys path p (some a) e = (Extends-refl p, e, refl)
tss_or-Got sys path p none e =
    then_new Slot.tss_ Object.transport_security_state
      (Object.transport_security_persister (length p.objects) (state_path sys path (lit "hsts"))) p
      (check (sys.create_directory (state_path sys path (lit "hsts")))) e

pub transport_security_state-Got :
    (sys : System) (path : Bytes) (p : Process)
    → Post (Got Slot.tss_ p) (get_transport_security_state sys path p)
unfolding get_transport_security_state
transport_security_state-Got sys path =
    after_Safe (check (not (is_empty path))) Slot.tss_ (tss_or (make_tss sys path))
      (λ p. tss_or-Got sys path p (p.shared Slot.tss_) refl)

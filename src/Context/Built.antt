-- ===== src/Context/Built.antt =====
-- What GetURLRequestContext builds: which objects of the context stand in the shared slots.
use seaturtle.Common.{ℕ, ◌≡◌, refl, ◌∙◌, Option, none, some, Bytes}
use seaturtle.Url.{UrlApi}
use seaturtle.Cookies.{SiteApi}
use seaturtle.Settings.{AllSettings, get_global_settings_ref}
use seaturtle.Context.{Slot, Params, Object, Process, System, lift, new}
use seaturtle.Context.Shared.{
  of_settings, get_network_delegate, get_ssl_config_service, get_host_resolver, get_auth_factory,
  get_http_server_properties, get_proxy_service, get_http_user_agent_settings, get_job_factory,
}
use seaturtle.Context.Build.{
  Context, keeps_cookies, keeps_cache, always_shared, make_stores, make_cookie_store, make_context,
  make_context_with,
}
use seaturtle.Context.Extends.{Extends, Extends-trans, Post, Post-bind, Post-mono}
use seaturtle.Context.Got.{Got, Owns, new-Owns}
use seaturtle.Context.Methods.{
  network_delegate-Got, ssl_config_service-Got, host_resolver-Got, auth_factory-Got,
  http_server_properties-Got, proxy_service-Got, user_agent_settings-Got, job_factory-Got,
}
use seaturtle.Context.Stores.{
  IsValid, StoreOf, Extends-IsValid, StoreOf-later, StoreOf-earlier, Stores, Cookies,
  make_stores-Stores, make_cookie_store-Cookies,
}

-- The part that is always shared stands in its slots.
pub record Always (p : Process) (part : Params × ℕ × ℕ) (p' : Process) : Type 0 where
  pub extends : Extends p p'
  pub same : p'.settings ≡ p.settings
  pub network_delegate : p'.shared Slot.network_delegate_ ≡ some part.0.network_delegate
  pub ssl_config_service : p'.shared Slot.ssl_config_service_ ≡ some part.0.ssl_config_service
  pub host_resolver : p'.shared Slot.host_resolver_ ≡ some part.0.host_resolver
  pub auth_factory : p'.shared Slot.auth_factory_ ≡ some part.0.http_auth_handler_factory
  pub properties : p'.shared Slot.hsp_ ≡ some part.0.http_server_properties
  pub proxy_service : p'.shared Slot.proxy_service_ ≡ some part.0.proxy_service
  pub ua_settings : p'.shared Slot.ua_settings_ ≡ some part.1
  pub job_factory : p'.shared Slot.urjf_ ≡ some part.2

always_shared-Always :
    (sys : System) (settings : AllSettings) (p : Process)
    → Post (Always p) (always_shared sys settings p)
unfolding always_shared
always_shared-Always sys settings p =
    Post-bind (Got Slot.network_delegate_ p) (Always p) get_network_delegate _ p
      (network_delegate-Got p)
      λ nd p1 h1.
        Post-bind (Got Slot.ssl_config_service_ p1) (Always p) (get_ssl_config_service sys) _ p1
          (ssl_config_service-Got sys p1)
          λ ssl p2 h2.
            Post-bind (Owns p2) (Always p) (new Object.cert_verifier) _ p2
              (new-Owns Object.cert_verifier p2)
              λ cv p3 h3.
                Post-bind (Got Slot.host_resolver_ p3) (Always p) get_host_resolver _ p3
                  (host_resolver-Got p3)
                  λ hr p4 h4.
                    Post-bind (Got Slot.auth_factory_ p4) (Always p) (get_auth_factory hr) _ p4
                      (auth_factory-Got hr p4)
                      λ af p5 h5.
                        Post-bind (Got Slot.hsp_ p5) (Always p) get_http_server_properties _ p5
                          (http_server_properties-Got p5)
                          λ hp p6 h6.
                            Post-bind (Got Slot.proxy_service_ p6) (Always p) get_proxy_service _ p6
                              (proxy_service-Got p6)
                              λ ps p7 h7.
                                Post-bind (Got Slot.ua_settings_ p7) (Always p)
                                  (get_http_user_agent_settings sys) _ p7
                                  (user_agent_settings-Got sys p7)
                                  λ ua p8 h8.
                                    Post-bind (Got Slot.urjf_ p8) (Always p) get_job_factory _ p8
                                      (job_factory-Got p8)
                                      λ jf p9 h9.
                                        let e8 = h9.0 in
                                        let e7 = Extends-trans h8.0 e8 in
                                        let e6 = Extends-trans h7.0 e7 in
                                        let e5 = Extends-trans h6.0 e6 in
                                        let e4 = Extends-trans h5.0 e5 in
                                        let e3 = Extends-trans h4.0 e4 in
                                        let e2 = Extends-trans h3.0 e3 in
                                        let e1 = Extends-trans h2.0 e2 in
                                        record {
                                          extends = Extends-trans h1.0 e1;
                                          same =
                                              h9.2
                                              ∙ (h8.2
                                                  ∙ (h7.2
                                                      ∙ (h6.2
                                                          ∙ (h5.2
                                                            ∙ (h4.2 ∙ (h3.3.1 ∙ (h2.2 ∙ h1.2)))))));
                                          network_delegate = e1.keeps _ _ h1.1;
                                          ssl_config_service = e2.keeps _ _ h2.1;
                                          host_resolver = e4.keeps _ _ h4.1;
                                          auth_factory = e5.keeps _ _ h5.1;
                                          properties = e6.keeps _ _ h6.1;
                                          proxy_service = e7.keeps _ _ h7.1;
                                          ua_settings = e8.keeps _ _ h8.1;
                                          job_factory = h9.1;
                                        }

-- A context that was made from `p` on, with the settings of `p`.
pub record Built (settings : AllSettings) (base_path : Bytes) (p : Process) (c : Context)
    (p' : Process) : Type 0 where
  pub extends : Extends p p'
  pub same : p'.settings ≡ p.settings
  pub network_delegate : p'.shared Slot.network_delegate_ ≡ some c.network_delegate
  pub ssl_config_service : p'.shared Slot.ssl_config_service_ ≡ some c.ssl_config_service
  pub host_resolver : p'.shared Slot.host_resolver_ ≡ some c.host_resolver
  pub auth_factory : p'.shared Slot.auth_factory_ ≡ some c.http_auth_handler_factory
  pub properties : p'.shared Slot.hsp_ ≡ some c.http_server_properties
  pub proxy_service : p'.shared Slot.proxy_service_ ≡ some c.proxy_service
  pub ua_settings : p'.shared Slot.ua_settings_ ≡ some c.http_user_agent_settings
  pub job_factory : p'.shared Slot.urjf_ ≡ some c.job_factory
  pub cookies : StoreOf (keeps_cookies base_path settings) Slot.cookie_store_ p c.cookie_store p'
  pub tss : StoreOf (keeps_cache base_path settings) Slot.tss_ p c.transport_security_state p'
  pub cache :
      StoreOf (keeps_cache base_path settings) Slot.http_cache_ p c.http_transaction_factory p'
  pub sdch : StoreOf (keeps_cache base_path settings) Slot.sdch_ p c.sdch_manager p'

module _ {Gurl : Type 0} (api : UrlApi Gurl) (sites : SiteApi Gurl) (sys : System)
    (base_path : Bytes) where
  make_context_with-Built :
      (settings : AllSettings) (p : Process)
      → IsValid p
      → Post (Built settings base_path p) (make_context_with api sites sys base_path settings p)
  unfolding make_context_with
  make_context_with-Built settings p v =
      Post-bind (Always p) (Built settings base_path p) (always_shared sys settings) _ p
        (always_shared-Always sys settings p)
        λ part p1 h1.
          let v1 = Extends-IsValid h1.extends v in
          Post-bind (Cookies (keeps_cookies base_path settings) p1) (Built settings base_path p)
            (make_cookie_store api sites sys settings base_path) _ p1
            (make_cookie_store-Cookies api sites sys settings base_path p1 v1)
            λ cookie_store p2 h2.
              let v2 = Extends-IsValid h2.extends v1 in
              Post-bind (Stores (keeps_cache base_path settings) p2) (Built settings base_path p)
                (make_stores sys settings base_path part.0) _ p2
                (make_stores-Stores sys settings base_path part.0 p2 v2)
                λ stores p3 h3.
                  let later = Extends-trans h2.extends h3.extends in
                  let before = Extends-trans h1.extends h2.extends in
                  record {
                    extends = Extends-trans h1.extends later;
                    same = h3.same ∙ (h2.same ∙ h1.same);
                    network_delegate = later.keeps _ _ h1.network_delegate;
                    ssl_config_service = later.keeps _ _ h1.ssl_config_service;
                    host_resolver = later.keeps _ _ h1.host_resolver;
                    auth_factory = later.keeps _ _ h1.auth_factory;
                    properties = later.keeps _ _ h1.properties;
                    proxy_service = later.keeps _ _ h1.proxy_service;
                    ua_settings = later.keeps _ _ h1.ua_settings;
                    job_factory = later.keeps _ _ h1.job_factory;
                    cookies = StoreOf-earlier h1.extends (StoreOf-later h2.store h3.extends);
                    tss = StoreOf-earlier before h3.tss;
                    cache = StoreOf-earlier before h3.cache;
                    sdch = StoreOf-earlier before h3.sdch;
                  }

  of_settings_known :
      (p : Process) (held : Option AllSettings)
      → Post (λ s p'. (held ≡ some s) × (p' ≡ p)) (lift (get_global_settings_ref held) p)
  unfolding get_global_settings_ref
  of_settings_known p none = tt
  of_settings_known p (some s) = (refl, refl)

  -- The context is built with the settings of the time.
  abbrev pub BuiltNow : Process → Context → Process → Type 0
  BuiltNow p c p' =
      (settings : AllSettings) × (p.settings ≡ some settings) × Built settings base_path p c p'

  pub make_context-Built :
      (p : Process) → IsValid p → Post (BuiltNow p) (make_context api sites sys base_path p)
  unfolding make_context
  make_context-Built p v =
      Post-bind (λ s p'. (p.settings ≡ some s) × (p' ≡ p)) (BuiltNow p)
        (of_settings get_global_settings_ref) _ p (of_settings_known p p.settings)
        λ s p' h. rw h.1 (
          Post-mono (Built s base_path p) (BuiltNow p)
            (make_context_with api sites sys base_path s p) (make_context_with-Built s p v)
            (λ c p'' built. (s, h.0, built)))

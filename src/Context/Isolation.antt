-- ===== src/Context/Isolation.antt =====
-- What two request contexts have in common, and what each has for itself.
use seaturtle.Common.{
  ℕ, ◌≡◌, refl, sym, ◌∙◌, ap, subst, ◌↔◌, Bool, true, some, List, arith, Bytes, io, Runs,
}
use seaturtle.Url.{UrlApi}
use seaturtle.Cookies.{SiteApi}
use seaturtle.Settings.{AllSettings}
use seaturtle.Context.{Slot, Process, System, gives}
use seaturtle.Context.Build.{Context, Getter, get_url_request_context}
use seaturtle.Context.Extends.{Extends, Extends-trans}
use seaturtle.Context.Stores.{
  IsValid, StoreOf, on_disk, in_memory, Extends-IsValid, not_shared_later,
}
use seaturtle.Context.Built.{Built}
use seaturtle.Context.Keeps.{
  PersistsCookies, PersistsCache, keeps_cookies_iff, keeps_cache_iff, iff_trans, both_iff,
}
use seaturtle.Context.Events.{
  some-injective, Event, gives-Post, run_event, Runs-Extends, unasked, first-Built,
}

-- A store of an earlier context and one of a later context are the same exactly if both are on disk.
same_store_iff :
    {b b' : Bool} {slot : Slot} {p p1 p2 p3 : Process} {a a' : ℕ}
    → IsValid p1
    → StoreOf b slot p a p1
    → Extends p1 p2
    → StoreOf b' slot p2 a' p3
    → Extends p2 p3
    → (a ≡ a') ↔ ((b ≡ true) × (b' ≡ true))
same_store_iff {a = a} {a' = a'} v (on_disk e h) k (on_disk e' h') k' =
    let h3 = k'.keeps _ _ (k.keeps _ _ h) in (λ _. (e, e'), λ _. cc)
same_store_iff v (on_disk e h) k (in_memory e' x y free) k' =
    (λ same. absurd (omega (arith, v _ _ h, k.grows)), λ both. absurd (cc (both.1)))
same_store_iff v (in_memory e x y free) k (on_disk e' h) k' = (
  λ same. absurd (not_shared_later (Extends-trans k k') _ y free _ (h ∙ ap some (sym same))),
  λ both. absurd (cc (both.0)),
)
same_store_iff v (in_memory e x y free) k (in_memory e' x' y' free') k' =
    (λ same. absurd (omega (arith, k.grows)), λ both. absurd (cc (both.0)))

same_slot :
    {slot : Slot} {p p' : Process} {a a' : ℕ}
    → p.shared slot ≡ some a
    → Extends p p'
    → p'.shared slot ≡ some a'
    → a ≡ a'
same_slot h k h' = let h1 = k.keeps _ _ h in cc

-- Two getters with their contexts: the one of `path` is asked first, the other of `path'` after some
-- more events.
pub record TwoContexts {Gurl : Type 0} (api : UrlApi Gurl) (sites : SiteApi Gurl) (sys : System)
    (path path' : Bytes) (p p1 p2 p3 : Process) (c c' : Context) : Type 0 where
  pub getter : Getter
  pub getter' : Getter
  pub events : List Event
  pub first :
      get_url_request_context api sites io sys (unasked api sites sys path) p ≡ gives (c, getter) p1
  pub between : Runs (run_event api sites sys) events p1 p2
  pub second :
      get_url_request_context api sites io sys (unasked api sites sys path') p2
      ≡ gives (c', getter') p3

module _ {Gurl : Type 0} (api : UrlApi Gurl) (sites : SiteApi Gurl) (sys : System)
    (path path' : Bytes) {p p1 p2 p3 : Process} {c c' : Context} where
  -- Whatever paths two getters have, whatever events come between, the settings included: the two
  -- contexts that they build have the same network delegate, SSL configuration, resolver,
  -- authentication handlers, server properties, proxies, user agent settings and job factory; and
  -- the first getter, asked again after all, gives the same context and makes nothing.
  pub contexts-share :
      IsValid p
      → (two : TwoContexts api sites sys path path' p p1 p2 p3 c c')
      → (get_url_request_context api sites io sys two.getter p3 ≡ gives (c, two.getter) p3)
        × ((c.network_delegate ≡ c'.network_delegate)
            × (c.ssl_config_service ≡ c'.ssl_config_service)
            × (c.host_resolver ≡ c'.host_resolver)
            × (c.http_auth_handler_factory ≡ c'.http_auth_handler_factory)
            × (c.http_server_properties ≡ c'.http_server_properties)
            × (c.proxy_service ≡ c'.proxy_service)
            × (c.http_user_agent_settings ≡ c'.http_user_agent_settings)
            × (c.job_factory ≡ c'.job_factory))
  unfolding get_url_request_context
  contexts-share v two =
      let b1 = gives-Post _ _ (first-Built api sites sys path p v) two.first in
      let b = b1.0.2 in
      let v1 = Extends-IsValid b.extends v in
      let k = Runs-Extends api sites sys two.events v1 two.between in
      let b2 =
        gives-Post _ _ (first-Built api sites sys path' p2 (Extends-IsValid k v1)) two.second in
      let b' = b2.0.2 in
      let later = Extends-trans k b'.extends in
      (
        rw b1.1 refl,
        (
          same_slot b.network_delegate later b'.network_delegate,
          same_slot b.ssl_config_service later b'.ssl_config_service,
          same_slot b.host_resolver later b'.host_resolver,
          same_slot b.auth_factory later b'.auth_factory,
          same_slot b.properties later b'.properties,
          same_slot b.proxy_service later b'.proxy_service,
          same_slot b.ua_settings later b'.ua_settings,
          same_slot b.job_factory later b'.job_factory,
        ),
      )

  -- Under the same conditions, whatever the settings are when each of the two is built: the two
  -- contexts have the same cookie store exactly if both getters have a path and the settings allowed
  -- persistent cookies in a single context both times; and the same transport security state, the
  -- same cache and the same dictionaries exactly if both have a path and the settings had a persistent
  -- cache in a single context both times. So what a context keeps in memory is no other context's.
  pub contexts-isolate :
      (s s' : AllSettings)
      → IsValid p
      → p.settings ≡ some s
      → p2.settings ≡ some s'
      → TwoContexts api sites sys path path' p p1 p2 p3 c c'
      → ((c.cookie_store ≡ c'.cookie_store) ↔ (PersistsCookies path s × PersistsCookies path' s'))
        × ((c.transport_security_state ≡ c'.transport_security_state)
            ↔ (PersistsCache path s × PersistsCache path' s'))
        × ((c.http_transaction_factory ≡ c'.http_transaction_factory)
            ↔ (PersistsCache path s × PersistsCache path' s'))
        × ((c.sdch_manager ≡ c'.sdch_manager) ↔ (PersistsCache path s × PersistsCache path' s'))
  contexts-isolate s s' v e e' two =
      let b1 = gives-Post _ _ (first-Built api sites sys path p v) two.first in
      let b : Built s path p c p1 =
        subst (λ x. Built x path p c p1) (some-injective (sym b1.0.1 ∙ e)) b1.0.2 in
      let v1 = Extends-IsValid b.extends v in
      let k = Runs-Extends api sites sys two.events v1 two.between in
      let b2 =
        gives-Post _ _ (first-Built api sites sys path' p2 (Extends-IsValid k v1)) two.second in
      let b' : Built s' path' p2 c' p3 =
        subst (λ x. Built x path' p2 c' p3) (some-injective (sym b2.0.1 ∙ e')) b2.0.2 in
      let caches = both_iff (keeps_cache_iff path s) (keeps_cache_iff path' s') in
      (
        iff_trans (same_store_iff v1 b.cookies k b'.cookies b'.extends)
            (both_iff (keeps_cookies_iff path s) (keeps_cookies_iff path' s')),
        iff_trans (same_store_iff v1 b.tss k b'.tss b'.extends) caches,
        iff_trans (same_store_iff v1 b.cache k b'.cache b'.extends) caches,
        iff_trans (same_store_iff v1 b.sdch k b'.sdch b'.extends) caches,
      )

-- ===== src/BrowserContext/Fetches.antt =====
-- What Java fetches has nothing of what the browser keeps.
use seaturtle.Common.{
  ◌≡◌, ◌≢◌, refl, sym, ap, subst, ◌∙◌, ◌++◌, ◌∷◌, Option, none, some, List, [], Abort, ok, ◌>>=◌,
  io, Runs, Thread, ui, other_thread,
}
use seaturtle.Url.{UrlApi}
use seaturtle.Cookies.{SiteApi}
use seaturtle.Settings.{AllSettings}
use seaturtle.Context.{Process, System, gives}
use seaturtle.Context.Build.{
  Context, Getter, new_getter, new_fetcher_getter, get_url_request_context,
}
use seaturtle.Context.Stores.{IsValid}
use seaturtle.Context.Isolation.{TwoContexts, contexts-isolate}
use seaturtle.Context.Events.{Event, run_event, some-injective}
use seaturtle.Fetch.{Fetcher, Fetching, init, the_getter}
use seaturtle.BrowserContext.{BrowserContext, create_request_context}

ok-injective : {V : Type 0} {a b : V} → Abort.ok a ≡ ok b → a ≡ b
ok-injective e = cc

created-unasked :
    (thread : Thread) (bc : BrowserContext) {g : Getter}
    → create_request_context thread bc ≡ ok g
    → g ≡ record { base_path = bc.path; url_request_context = none }
unfolding create_request_context new_getter
created-unasked ui bc h = sym (ok-injective h)
created-unasked io bc h = cc
created-unasked other_thread bc h = cc

init-unasked :
    (f : Fetcher) (st : Fetching) {st' : Fetching}
    → st.fetch_getter ≡ none
    → init io f st ≡ ok st'
    → st'.fetch_getter ≡ some (record { base_path = []; url_request_context = none })
unfolding init new_fetcher_getter
init-unasked f st {st' = st'} e h = held_by st.fetch_getter e h
  where
    held_by :
        (held : Option Getter)
        → held ≡ none
        → (the_getter io held >>= λ getter.
            ok (record st { started = st.started ++ f ∷ []; fetch_getter = some getter }))
          ≡ ok st'
        → st'.fetch_getter ≡ some (record { base_path = []; url_request_context = none })
    held_by none e h = sym (ap (λ (x : Fetching). x.fetch_getter) (ok-injective h))
    held_by (some g) e h = cc

module _ {Gurl : Type 0} (api : UrlApi Gurl) (sites : SiteApi Gurl) (sys : System) where
  -- Let the browser's request context be built first, from the getter that was created for it, and the
  -- fetcher's after any further events, from the getter that the first fetch made. Whatever the
  -- settings are at each time, the two contexts have no cookie store, no transport security state,
  -- no cache and no dictionaries in common.
  pub fetches-isolated :
      (thread : Thread) (bc : BrowserContext) (f : Fetcher) (st st' : Fetching)
      (g g1 g' g1' : Getter) (s s' : AllSettings) (es : List Event) (p : Process)
      {p1 p2 p3 : Process} {c c' : Context}
      → IsValid p
      → p.settings ≡ some s
      → p2.settings ≡ some s'
      → create_request_context thread bc ≡ ok g
      → get_url_request_context api sites io sys g p ≡ gives (c, g1) p1
      → Runs (run_event api sites sys) es p1 p2
      → st.fetch_getter ≡ none
      → init io f st ≡ ok st'
      → st'.fetch_getter ≡ some g'
      → get_url_request_context api sites io sys g' p2 ≡ gives (c', g1') p3
      → (c.cookie_store ≢ c'.cookie_store)
        × (c.transport_security_state ≢ c'.transport_security_state)
        × (c.http_transaction_factory ≢ c'.http_transaction_factory)
        × (c.sdch_manager ≢ c'.sdch_manager)
  fetches-isolated thread bc f st st' g g1 g' g1' s s' es p {p1} {p2} {p3} {c} {c'} v e e' creates
        asks runs no_getter inits held asks' =
      let mine = created-unasked thread bc creates in
      let fetchers : g' ≡ record { base_path = []; url_request_context = none } =
        some-injective (sym held ∙ init-unasked f st no_getter inits) in
      let two : TwoContexts api sites sys bc.path [] p p1 p2 p3 c c' = record {
        getter = g1;
        getter' = g1';
        events = es;
        first =
            subst (λ x. get_url_request_context api sites io sys x p ≡ gives (c, g1) p1) mine asks;
        between = runs;
        second =
            subst (λ x. get_url_request_context api sites io sys x p2 ≡ gives (c', g1') p3) fetchers
              asks';
      } in
      let (cookies, tss, cache, sdch) = contexts-isolate api sites sys bc.path [] s s' v e e' two in
      (
        λ same. (cookies.0 same).1.0 refl,
        λ same. (tss.0 same).1.0 refl,
        λ same. (cache.0 same).1.0 refl,
        λ same. (sdch.0 same).1.0 refl,
      )

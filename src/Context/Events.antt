-- ===== src/Context/Events.antt =====
-- What happens to the network stack between two calls of GetURLRequestContext: no event takes a shared
-- object away.
use seaturtle.Common.{
  ℕ, ◌≡◌, refl, subst, inl, Bool, Option, none, some, List, [], ◌∷◌, arith, Bytes, Abort, ok, crash,
  io, Runs, done, then_runs,
}
use seaturtle.Url.{UrlApi}
use seaturtle.Cookies.{SiteApi}
use seaturtle.Settings.{AllSettings, update_global_settings}
use seaturtle.Context.{Process, System, Outcome, died, gives}
use seaturtle.Context.Shared.{get_split_cookie_store, get_cookie_store, clear_data}
use seaturtle.Context.Build.{Context, Getter, make_context, get_url_request_context, context_or}
use seaturtle.Context.Extends.{Extends, Extends-refl, Extends-trans, Post, Post-bind, Post-mono}
use seaturtle.Context.Methods.{cookie_store-Got}
use seaturtle.Context.Stores.{IsValid, Extends-IsValid}
use seaturtle.Context.Built.{Built, make_context-Built}

pub some-injective : {A : Type 0} {a b : A} → some a ≡ some b → a ≡ b
some-injective e = cc

-- What can happen to the process between two calls of GetURLRequestContext: other getters are asked,
-- the settings change, the data is cleared, and the cookie store is asked for.
pub data Event : Type 0 where
  asks_getter : Getter → Event
  updates : AllSettings → Event
  clears : (ℕ → Bool) → Event
  asks_cookie_store : Event

abbrev pub state_after : {A : Type 0} → Outcome A → Abort Process
state_after died = crash
state_after (gives a p) = ok p

state_after-Post :
    {A : Type 0} (Q : Process → Type 0) (run : Outcome A) {p : Process}
    → Post (λ _ p'. Q p') run
    → state_after run ≡ ok p
    → Q p
state_after-Post Q died h e = cc
state_after-Post Q (gives a p') h e = let e' : p' ≡ _ = cc in subst Q e' h

pub gives-Post :
    {A : Type 0} (Q : A → Process → Type 0) (run : Outcome A) {a : A} {p : Process}
    → Post Q run
    → run ≡ gives a p
    → Q a p
gives-Post Q run h e = subst (Post Q) e h

module _ {Gurl : Type 0} (api : UrlApi Gurl) (sites : SiteApi Gurl) (sys : System) where
  abbrev pub run_event : Event → Process → Abort Process
  run_event (asks_getter g) p = state_after (get_url_request_context api sites io sys g p)
  run_event (updates new_settings) p =
      ok (record p { settings = update_global_settings new_settings p.settings })
  run_event (clears backend) p = ok (clear_data backend p)
  run_event asks_cookie_store p = state_after (get_split_cookie_store api sites sys p)

  getter-Extends :
      (g : Getter) (p : Process)
      → IsValid p
      → Post (λ _ p'. Extends p p') (get_url_request_context api sites io sys g p)
  unfolding get_url_request_context
  getter-Extends g p v =
      Post-bind (λ _ p'. Extends p p') (λ _ p'. Extends p p')
        (context_or api sites g.url_request_context (make_context api sites sys g.base_path)) _ p
        (either g.url_request_context) λ c p' h. h
    where
      either :
          (held : Option Context)
          → Post
              (λ _ p'. Extends p p')
              (context_or api sites held (make_context api sites sys g.base_path) p)
      either (some c) = Extends-refl p
      either none =
          Post-mono _ (λ _ p'. Extends p p') (make_context api sites sys g.base_path p)
            (make_context-Built api sites sys g.base_path p v) (λ c p' h. h.2.extends)

  event-Extends :
      (e : Event) (p : Process) {p' : Process} → IsValid p → run_event e p ≡ ok p' → Extends p p'
  unfolding clear_data get_split_cookie_store
  event-Extends (asks_getter g) p v h = state_after-Post (Extends p) _ (getter-Extends g p v) h
  event-Extends (updates new_settings) p {p' = p'} v h =
      let e : record p { settings = update_global_settings new_settings p.settings } ≡ p' = cc in
      subst (Extends p) e
        (record { grows = omega arith; keeps = λ slot a e. e; news = λ slot a e. inl e })
  event-Extends (clears backend) p {p' = p'} v h =
      let e : clear_data backend p ≡ p' = cc in
      subst (Extends p) e
        (record { grows = omega arith; keeps = λ slot a e. e; news = λ slot a e. inl e })
  event-Extends asks_cookie_store p v h =
      state_after-Post (Extends p) _
        (Post-mono _ (λ _ p'. Extends p p') (get_cookie_store api sites sys [] p)
          (cookie_store-Got api sites sys [] p) (λ a p' got. got.0))
        h

  pub Runs-Extends :
      (es : List Event) {p p' : Process} → IsValid p → Runs run_event es p p' → Extends p p'
  Runs-Extends [] {p = p} v done = Extends-refl p
  Runs-Extends (e ∷ es) {p = p} v (then_runs step runs) =
      let first = event-Extends e p v step in
      Extends-trans first (Runs-Extends es (Extends-IsValid first v) runs)

  abbrev pub unasked : Bytes → Getter
  unasked base_path = record { base_path = base_path; url_request_context = none }

  pub first-Built :
      (base_path : Bytes) (p : Process)
      → IsValid p
      → Post
          (λ r p'.
            ((settings : AllSettings) × (p.settings ≡ some settings)
              × Built settings base_path p r.0 p')
            × (r.1 ≡ record { base_path = base_path; url_request_context = some r.0 }))
          (get_url_request_context api sites io sys (unasked base_path) p)
  unfolding get_url_request_context
  first-Built base_path p v =
      Post-bind _ _ (make_context api sites sys base_path) _ p
        (make_context-Built api sites sys base_path p v) λ c p' h. (h, refl)

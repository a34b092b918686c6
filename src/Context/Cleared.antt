-- ===== src/Context/Cleared.antt =====
-- What ClearData reaches of a context: what is kept on disk, and nothing of what is in memory.
use seaturtle.Common.{
  ℕ, ◌≡◌, refl, sym, ◌∙◌, ap, subst, ◌↔◌, ◌⊎◌, inl, inr, Bool, true, false, Option, none, some,
  List, [], ◌∷◌, ◌++◌, Any, Bytes, io, Runs,
}
use seaturtle.Url.{UrlApi}
use seaturtle.Cookies.{SiteApi}
use seaturtle.Settings.{AllSettings}
use seaturtle.Context.{
  Slot, Clearing, cookies_of, cache_of, transport_security_of, Process, System, gives,
}
use seaturtle.Context.Shared.{clear_cookies, clear_cache, clear_transport_security, clear_data}
use seaturtle.Context.Build.{Context, Getter, get_url_request_context}
use seaturtle.Context.Extends.{Extends}
use seaturtle.Context.Stores.{
  IsValid, StoreOf, on_disk, in_memory, Extends-IsValid, not_shared_later,
}
use seaturtle.Context.Built.{Built}
use seaturtle.Context.Keeps.{
  PersistsCookies, PersistsCache, keeps_cookies_iff, keeps_cache_iff, iff_trans, both_iff,
}
use seaturtle.Context.Events.{
  Event, run_event, unasked, first-Built, Runs-Extends, gives-Post, some-injective,
}

-- `x` is among the clearings.
abbrev pub Has : Clearing → List Clearing → Type 0
Has x xs = Any (λ y. y ≡ x) xs

Has-append : (x : Clearing) (xs ys : List Clearing) → Has x (xs ++ ys) → Has x xs ⊎ Has x ys
Has-append x [] ys h = inr h
Has-append x (y ∷ xs) ys (inl e) = inl (inl e)
Has-append x (y ∷ xs) ys (inr h) = elim (Has-append x xs ys h) [
  | inl h' ↦ inl (inr h')
  | inr h' ↦ inr h'
]

Has-append_left : (x : Clearing) (xs ys : List Clearing) → Has x xs → Has x (xs ++ ys)
Has-append_left x [] ys h = absurd h
Has-append_left x (y ∷ xs) ys (inl e) = inl e
Has-append_left x (y ∷ xs) ys (inr h) = inr (Has-append_left x xs ys h)

Has-append_right : (x : Clearing) (xs ys : List Clearing) → Has x ys → Has x (xs ++ ys)
Has-append_right x [] ys h = h
Has-append_right x (y ∷ xs) ys h = inr (Has-append_right x xs ys h)

-- What the three steps of ClearData ask for.
cookies-Has :
    (x : Clearing) (o : Option ℕ)
    → Has x (clear_cookies o)
    → (a : ℕ) × (o ≡ some a) × (x ≡ cookies_of a)
cookies-Has x none h = absurd h
cookies-Has x (some a) (inl e) = (a, refl, sym e)
cookies-Has x (some a) (inr h) = absurd h

tss-Has :
    (x : Clearing) (o : Option ℕ)
    → Has x (clear_transport_security o)
    → (a : ℕ) × (o ≡ some a) × (x ≡ transport_security_of a)
tss-Has x none h = absurd h
tss-Has x (some a) (inl e) = (a, refl, sym e)
tss-Has x (some a) (inr h) = absurd h

cache-Has :
    (x : Clearing) (backend : ℕ → Bool) (o : Option ℕ)
    → Has x (clear_cache backend o)
    → (a : ℕ) × (o ≡ some a) × (backend a ≡ true) × (x ≡ cache_of a)
cache-Has x backend none h = absurd h
cache-Has x backend (some a) h = present (backend a) refl h
  where
    present :
        (b : Bool)
        → backend a ≡ b
        → Has x (elim b as (λ _. List Clearing) [ true ↦ cache_of a ∷ [] | false ↦ [] ])
        → (a' : ℕ) × (some a ≡ some a') × (backend a' ≡ true) × (x ≡ cache_of a')
    present true e (inl e') = (a, refl, e, sym e')
    present true e (inr none_there) = absurd none_there
    present false e none_there = absurd none_there

cache_here :
    (a : ℕ) (b : Bool)
    → b ≡ true
    → Has (cache_of a) (elim b as (λ _. List Clearing) [ true ↦ cache_of a ∷ [] | false ↦ [] ])
cache_here a true e = inl refl
cache_here a false e = cc

Has-clear_cache :
    (a : ℕ) (backend : ℕ → Bool) (o : Option ℕ)
    → o ≡ some a
    → backend a ≡ true
    → Has (cache_of a) (clear_cache backend o)
Has-clear_cache a backend o e h = rw e (cache_here a (backend a) h)

abbrev asked_of : (ℕ → Bool) → Option ℕ → Option ℕ → Option ℕ → List Clearing
asked_of backend scs hc tss =
    clear_cookies scs ++ (clear_cache backend hc ++ clear_transport_security tss)

module _ (backend : ℕ → Bool) (scs hc tss : Option ℕ) (a : ℕ) where
  three :
      (x : Clearing)
      → Has x (asked_of backend scs hc tss)
      → Has x (clear_cookies scs)
        ⊎ (Has x (clear_cache backend hc) ⊎ Has x (clear_transport_security tss))
  three x h = elim (Has-append x (clear_cookies scs) _ h) [
    | inl h' ↦ inl h'
    | inr h' ↦ inr (Has-append x (clear_cache backend hc) _ h')
  ]

  Has-cookies_iff : Has (cookies_of a) (asked_of backend scs hc tss) ↔ (scs ≡ some a)
  Has-cookies_iff = (
    λ h. elim (three (cookies_of a) h) [
      | inl h' ↦ let r = cookies-Has _ scs h' in cc (r.1, r.2)
      | inr (inl h') ↦ let r = cache-Has _ backend hc h' in cc (r.3)
      | inr (inr h') ↦ let r = tss-Has _ tss h' in cc (r.2)
    ],
    λ e. Has-append_left (cookies_of a) (clear_cookies scs) _ (rw e (inl refl)),
  )

  Has-cache_iff :
      Has (cache_of a) (asked_of backend scs hc tss) ↔ ((hc ≡ some a) × (backend a ≡ true))
  Has-cache_iff = (
    λ h. elim (three (cache_of a) h) [
      | inl h' ↦ let r = cookies-Has _ scs h' in cc (r.2)
      | inr (inl h') ↦
          let r = cache-Has _ backend hc h' in
          let same : r.0 ≡ a = cc (r.3) in (cc (r.1), ap backend (sym same) ∙ r.2)
      | inr (inr h') ↦ let r = tss-Has _ tss h' in cc (r.2)
    ],
    λ e. Has-append_right (cache_of a) (clear_cookies scs) _ (
        Has-append_left (cache_of a) (clear_cache backend hc) _
          (Has-clear_cache a backend hc e.0 e.1)),
  )

  Has-tss_iff : Has (transport_security_of a) (asked_of backend scs hc tss) ↔ (tss ≡ some a)
  Has-tss_iff = (
    λ h. elim (three (transport_security_of a) h) [
      | inl h' ↦ let r = cookies-Has _ scs h' in cc (r.2)
      | inr (inl h') ↦ let r = cache-Has _ backend hc h' in cc (r.3)
      | inr (inr h') ↦ let r = tss-Has _ tss h' in cc (r.1, r.2)
    ],
    λ e.
        Has-append_right (transport_security_of a) (clear_cookies scs) _
          (Has-append_right (transport_security_of a) (clear_cache backend hc) _ (rw e (inl refl))),
  )

-- A store stands in its slot later exactly if it is kept on disk.
on_disk_iff :
    {b : Bool} {slot : Slot} {p p1 p2 : Process} {a : ℕ}
    → StoreOf b slot p a p1
    → Extends p1 p2
    → (p2.shared slot ≡ some a) ↔ (b ≡ true)
on_disk_iff (on_disk e h) k = (λ _. e, λ _. k.keeps _ _ h)
on_disk_iff (in_memory e x y free) k =
    (λ shared. absurd (not_shared_later k _ y free _ shared), λ e'. absurd (cc))

module _ {Gurl : Type 0} (api : UrlApi Gurl) (sites : SiteApi Gurl) (sys : System) (path : Bytes)
    (p : Process) {p1 p2 : Process} {c : Context} {g : Getter} where
  -- Let a context be built by a getter that had none, and any events follow. ClearData then asks for
  -- more clearings, and changes nothing else. All cookies of the context's store are among them
  -- exactly if the getter has a path and the settings allowed persistent cookies in a single context;
  -- all entries of its cache exactly if it has a path, the settings had a persistent cache in a single
  -- context, and the cache has a backend now; and its transport security data exactly under the same
  -- conditions but for the backend. What a context keeps in memory is never cleared.
  pub clear_data-reaches :
      (s : AllSettings) (es : List Event) (backend : ℕ → Bool)
      → IsValid p
      → p.settings ≡ some s
      → get_url_request_context api sites io sys (unasked api sites sys path) p ≡ gives (c, g) p1
      → Runs (run_event api sites sys) es p1 p2
      → (asked : List Clearing) × (clear_data backend p2
          ≡ record p2 { cleared = p2.cleared ++ asked })
        × (Has (cookies_of c.cookie_store) asked ↔ PersistsCookies path s)
        × (Has (cache_of c.http_transaction_factory) asked
            ↔ (PersistsCache path s × (backend c.http_transaction_factory ≡ true)))
        × (Has (transport_security_of c.transport_security_state) asked ↔ PersistsCache path s)
  unfolding clear_data
  clear_data-reaches s es backend v e first runs =
      let b1 = gives-Post _ _ (first-Built api sites sys path p v) first in
      let b : Built s path p c p1 =
        subst (λ x. Built x path p c p1) (some-injective (sym b1.0.1 ∙ e)) b1.0.2 in
      let k = Runs-Extends api sites sys es (Extends-IsValid b.extends v) runs in
      let scs = p2.shared Slot.cookie_store_ in
      let hc = p2.shared Slot.http_cache_ in
      let tss = p2.shared Slot.tss_ in
      (
        asked_of backend scs hc tss,
        refl,
        iff_trans (Has-cookies_iff backend scs hc tss c.cookie_store)
            (iff_trans (on_disk_iff b.cookies k) (keeps_cookies_iff path s)),
        iff_trans (Has-cache_iff backend scs hc tss c.http_transaction_factory) (
            both_iff (iff_trans (on_disk_iff b.cache k) (keeps_cache_iff path s)) (λ x. x, λ x. x)),
        iff_trans (Has-tss_iff backend scs hc tss c.transport_security_state)
            (iff_trans (on_disk_iff b.tss k) (keeps_cache_iff path s)),
      )

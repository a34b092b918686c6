-- ===== src/Context/Stores.antt =====
-- The stores of a context: the shared ones, or its own, which no other context can get.
use seaturtle.Common.{
  ℕ, ◌≤◌, ◌<◌, ◌≡◌, ◌≢◌, refl, sym, ◌∙◌, ◌⊎◌, inl, inr, Bool, true, false, some, arith, length,
  Bytes,
}
use seaturtle.Url.{UrlApi}
use seaturtle.Cookies.{SiteApi}
use seaturtle.Settings.{AllSettings}
use seaturtle.Context.{Slot, Params, Object, Process, System, M, new}
use seaturtle.Context.Shared.{
  get_sdch, get_cookie_store, get_transport_security_state, get_http_cache,
}
use seaturtle.Context.Build.{
  keeps_cookies, keeps_cache, stores_on_disk, stores_in_memory, make_stores, make_cookie_store,
  disk_cache_size,
}
use seaturtle.Context.Extends.{Extends, Extends-trans, Post, Post-bind, Post-mono}
use seaturtle.Context.Got.{Got, Owns, new-Owns}
use seaturtle.Context.Methods.{
  cookie_store-Got, transport_security_state-Got, http_cache-Got, sdch-Got,
}

-- Every slot of the process holds an object that was made.
abbrev pub IsValid : Process → Type 0
IsValid p = (slot : Slot) (a : ℕ) → p.shared slot ≡ some a → a < length p.objects

-- A store of a context: the shared one where it is kept on disk, else a new one that is in no slot.
pub data StoreOf (b : Bool) (slot : Slot) (p : Process) (a : ℕ) (p' : Process) : Type 0 where
  on_disk : b ≡ true → p'.shared slot ≡ some a → StoreOf b slot p a p'
  in_memory :
      b ≡ false
      → length p.objects ≤ a
      → a < length p'.objects
      → ((other : Slot) → p'.shared other ≢ some a)
      → StoreOf b slot p a p'

pub Extends-IsValid : {p p' : Process} → Extends p p' → IsValid p → IsValid p'
Extends-IsValid {p} {p'} h v slot a e = bound (h.news slot a e)
  where
    bound :
        (p.shared slot ≡ some a) ⊎ ((length p.objects ≤ a) × (a < length p'.objects))
        → a < length p'.objects
    bound (inl old) = omega (arith, v slot a old, h.grows)
    bound (inr (x, y)) = y

-- An object that stood in no slot gets into none.
pub not_shared_later :
    {p p' : Process}
    → Extends p p'
    → (a : ℕ) → a < length p.objects
    → ((other : Slot) → p.shared other ≢ some a)
    → (other : Slot) → p'.shared other ≢ some a
not_shared_later {p} {p'} h a lt free other e = either (h.news other a e)
  where
    either : (p.shared other ≡ some a) ⊎ ((length p.objects ≤ a) × (a < length p'.objects)) → ⊥
    either (inl old) = free other old
    either (inr (x, y)) = omega arith

pub StoreOf-later :
    {b : Bool} {slot : Slot} {p p1 p2 : Process} {a : ℕ}
    → StoreOf b slot p a p1
    → Extends p1 p2
    → StoreOf b slot p a p2
StoreOf-later (on_disk e h) k = on_disk e (k.keeps _ _ h)
StoreOf-later (in_memory e x y free) k =
    in_memory e x (omega (arith, y, k.grows)) (not_shared_later k _ y free)

pub StoreOf-earlier :
    {b : Bool} {slot : Slot} {p p1 p2 : Process} {a : ℕ}
    → Extends p p1
    → StoreOf b slot p1 a p2
    → StoreOf b slot p a p2
StoreOf-earlier k (on_disk e h) = on_disk e h
StoreOf-earlier k (in_memory e x y free) = in_memory e (omega (arith, x, k.grows)) y free

Owns-StoreOf :
    {p p' : Process} {a : ℕ} (slot : Slot) → IsValid p → Owns p a p' → StoreOf false slot p a p'
Owns-StoreOf {p} {p'} {a} slot v h =
    in_memory refl h.1 h.2
      (λ other e. absurd (omega (arith, v other a (sym (h.3.0 other) ∙ e), h.1)))

-- The three stores that go together.
pub record Stores (b : Bool) (p : Process) (r : ℕ × ℕ × ℕ) (p' : Process) : Type 0 where
  pub extends : Extends p p'
  pub same : p'.settings ≡ p.settings
  pub tss : StoreOf b Slot.tss_ p r.0 p'
  pub cache : StoreOf b Slot.http_cache_ p r.1 p'
  pub sdch : StoreOf b Slot.sdch_ p r.2 p'

stores_on_disk-Stores :
    (sys : System) (settings : AllSettings) (base_path : Bytes) (params : Params) (p : Process)
    → Post (Stores true p) (stores_on_disk sys settings base_path params p)
unfolding stores_on_disk
stores_on_disk-Stores sys settings base_path params p =
    Post-bind (Got Slot.tss_ p) (Stores true p) (get_transport_security_state sys base_path) _ p
      (transport_security_state-Got sys base_path p)
      λ tss p1 h1.
        let cache_params : Params = record params { transport_security_state = tss } in
        Post-bind (Got Slot.http_cache_ p1) (Stores true p)
          (get_http_cache sys base_path (disk_cache_size settings) cache_params) _ p1
          (http_cache-Got sys base_path (disk_cache_size settings) cache_params p1)
          λ cache p2 h2.
            Post-bind (Got Slot.sdch_ p2) (Stores true p) get_sdch _ p2 (sdch-Got p2) λ sdch p3 h3.
              record {
                extends = Extends-trans h1.0 (Extends-trans h2.0 h3.0);
                same = h3.2 ∙ (h2.2 ∙ h1.2);
                tss = on_disk refl (h3.0.keeps _ _ (h2.0.keeps _ _ h1.1));
                cache = on_disk refl (h3.0.keeps _ _ h2.1);
                sdch = on_disk refl h3.1;
              }

stores_in_memory-Stores :
    (params : Params) (p : Process) → IsValid p → Post (Stores false p) (stores_in_memory params p)
unfolding stores_in_memory
stores_in_memory-Stores params p v =
    Post-bind (Owns p) (Stores false p) (new Object.transport_security_state) _ p
      (new-Owns Object.transport_security_state p)
      λ tss p1 h1.
        let cache = Object.memory_http_cache (record params { transport_security_state = tss }) in
        Post-bind (Owns p1) (Stores false p) (new cache) _ p1 (new-Owns cache p1)
          λ main_cache p2 h2.
            Post-bind (Owns p2) (Stores false p) (new Object.sdch_manager) _ p2
              (new-Owns Object.sdch_manager p2)
              λ sdch p3 h3.
                let v1 = Extends-IsValid h1.0 v in
                let v2 = Extends-IsValid h2.0 v1 in
                record {
                  extends = Extends-trans h1.0 (Extends-trans h2.0 h3.0);
                  same = h3.3.1 ∙ (h2.3.1 ∙ h1.3.1);
                  tss = StoreOf-later (Owns-StoreOf Slot.tss_ v h1) (Extends-trans h2.0 h3.0);
                  cache =
                      StoreOf-earlier h1.0
                        (StoreOf-later (Owns-StoreOf Slot.http_cache_ v1 h2) h3.0);
                  sdch = StoreOf-earlier (Extends-trans h1.0 h2.0) (Owns-StoreOf Slot.sdch_ v2 h3);
                }

either-Stores :
    (b : Bool) (sys : System) (settings : AllSettings) (base_path : Bytes) (params : Params)
    (p : Process)
    → IsValid p
    → Post (Stores b p) (
        elim b as (λ _. M (ℕ × ℕ × ℕ)) [
          | true ↦ stores_on_disk sys settings base_path params
          | false ↦ stores_in_memory params
        ]
          p)
either-Stores true sys settings base_path params p v =
    stores_on_disk-Stores sys settings base_path params p
either-Stores false sys settings base_path params p v = stores_in_memory-Stores params p v

pub make_stores-Stores :
    (sys : System) (settings : AllSettings) (base_path : Bytes) (params : Params) (p : Process)
    → IsValid p
    → Post (Stores (keeps_cache base_path settings) p) (make_stores sys settings base_path params p)
unfolding make_stores
make_stores-Stores sys settings base_path params p v =
    either-Stores (keeps_cache base_path settings) sys settings base_path params p v

pub record Cookies (b : Bool) (p : Process) (a : ℕ) (p' : Process) : Type 0 where
  pub extends : Extends p p'
  pub same : p'.settings ≡ p.settings
  pub store : StoreOf b Slot.cookie_store_ p a p'

module _ {Gurl : Type 0} (api : UrlApi Gurl) (sites : SiteApi Gurl) where
  either-Cookies :
      (b : Bool) (sys : System) (base_path : Bytes) (p : Process)
      → IsValid p
      → Post (Cookies b p) (
          elim b as (λ _. M ℕ) [
            | true ↦ get_cookie_store api sites sys base_path
            | false ↦ new Object.memory_cookie_store
          ]
            p)
  either-Cookies true sys base_path p v =
      Post-mono (Got Slot.cookie_store_ p) (Cookies true p)
        (get_cookie_store api sites sys base_path p) (cookie_store-Got api sites sys base_path p)
        (λ a p' h. record { extends = h.0; same = h.2; store = on_disk refl h.1 })
  either-Cookies false sys base_path p v =
      Post-mono (Owns p) (Cookies false p) (new Object.memory_cookie_store p)
        (new-Owns Object.memory_cookie_store p)
        (λ a p' h. record {
          extends = h.0;
          same = h.3.1;
          store = Owns-StoreOf Slot.cookie_store_ v h;
        })

  pub make_cookie_store-Cookies :
      (sys : System) (settings : AllSettings) (base_path : Bytes) (p : Process)
      → IsValid p
      → Post
          (Cookies (keeps_cookies base_path settings) p)
          (make_cookie_store api sites sys settings base_path p)
  unfolding make_cookie_store
  make_cookie_store-Cookies sys settings base_path p v =
      either-Cookies (keeps_cookies base_path settings) sys base_path p v

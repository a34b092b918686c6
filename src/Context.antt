-- ===== src/Context.antt =====
-- shell/browser/shell_url_request_context_getter.h and shell/browser/shell_url_request_context_getter.cc:
-- the objects of the network stack. Some are shared by all request contexts and are made when they
-- are first asked for; a context that must leave no trace has its own stores.
pub mod Shared
pub mod Build
pub mod Extends
pub mod Got
pub mod Methods
pub mod Stores
pub mod Built
pub mod Keeps
pub mod Events
pub mod Isolation
pub mod Cleared
pub mod Size
mod Tests
use mathlib.Core.Logic.{ite}
use seaturtle.Common.{
  ℕ, Bool, true, false, Option, none, some, List, [], ◌∷◌, ◌++◌, not, is_empty, length, Bytes, lit,
  Abort, ok, crash, check,
}
use seaturtle.Url.{UrlApi}
use seaturtle.Cookies.{SiteApi, add_favorites}
use seaturtle.Settings.{AllSettings}
use seaturtle.Settings.Ssl.{NetVersions, SslConfig, new_ssl_config}
use seaturtle.ProcessCache.{ProcessCache, get_accept_langs}

-- The members of SharedState, but `tsp_`, which is written with `tss_` and never read.
pub data Slot : Type 0 where
  network_delegate_ cookie_store_ tss_ http_cache_ ssl_config_service_ host_resolver_ : Slot
  auth_factory_ hsp_ proxy_service_ ua_settings_ urjf_ sdch_ : Slot

pub Slot-discrete : Discrete Slot
Slot-discrete = hlevel

-- net::HttpNetworkSession::Params, as far as it is set. `spdy` is next_protos with
-- use_alternate_protocols; ignore_certificate_errors is false. NetLog::Get() is NULL.
pub record Params : Type 0 where
  pub network_delegate : ℕ
  pub ssl_config_service : ℕ
  pub cert_verifier : ℕ
  pub host_resolver : ℕ
  pub http_auth_handler_factory : ℕ
  pub http_server_properties : ℕ
  pub proxy_service : ℕ
  pub spdy : Bool
  pub transport_security_state : ℕ

-- An object, with what it is made of.
pub data Object : Type 0 where
  shell_network_delegate host_resolver http_server_properties proxy_service : Object
  job_factory sdch_manager cert_verifier memory_cookie_store transport_security_state : Object
  split_cookie_store : Bytes → List Bytes → Object
  transport_security_persister : ℕ → Bytes → Object
  disk_http_cache : Bytes → ℕ → Params → Object
  memory_http_cache : Params → Object
  ssl_config_service : SslConfig → Object
  auth_handler_factory : ℕ → Object
  user_agent_settings : Bytes → Object

-- What ClearData asks for: all cookies of a store, all entries of a cache's backend, all dynamic data
-- of a transport security state.
pub data Clearing : Type 0 where
  cookies_of cache_of transport_security_of : ℕ → Clearing

-- The process: the objects that were made so far, the oldest first, where an object's address is its
-- place in the list; the shared singleton; the settings; the process cache; what was cleared.
pub record Process : Type 0 where
  pub objects : List Object
  pub shared : Slot → Option ℕ
  pub settings : Option AllSettings
  pub process_cache : ProcessCache
  pub cleared : List Clearing

-- What is outside of the repository: FilePath::Append, base::CreateDirectory,
-- GenerateAcceptLanguageHeader, the versions of net, and Java's answers to the questions for the
-- favorite sites and the languages.
pub record System : Type 0 where
  pub append_path : Bytes → Bytes → Bytes
  pub create_directory : Bytes → Bool
  pub accept_language_header : Bytes → Bytes
  pub net : NetVersions
  pub favorite_urls : List Bytes
  pub accept_langs : Bytes

-- The result of a method and the process after it, unless a failed check ended the process.
pub data Outcome (A : Type 0) : Type 0 where
  died : Outcome A
  gives : A → Process → Outcome A

abbrev pub M : Type 0 → Type 0
M A = Process → Outcome A

infixl 5 ◌>>=◌ ◌>>◌
abbrev pub ◌>>=◌ : {A B : Type 0} → M A → (A → M B) → M B
◌>>=◌ m f p = elim (m p) [ died ↦ died | gives a p' ↦ f a p' ]

abbrev pub ◌>>◌ : {B : Type 0} → M (Unit {0}) → M B → M B
m >> k = m >>= λ _. k

abbrev pub return : {A : Type 0} → A → M A
return a p = gives a p

abbrev pub lift : {A : Type 0} → Abort A → M A
lift crash p = died
lift (ok a) p = gives a p

-- `new`
unfoldable pub new : Object → M ℕ
new object p = gives (length p.objects) (record p { objects = p.objects ++ object ∷ [] })

abbrev pub update : Slot → ℕ → (Slot → Option ℕ) → Slot → Option ℕ
update slot a shared slot' = ite (Slot-discrete slot slot') (some a) (shared slot')

-- `reset` of a member, or its assignment.
unfoldable pub reset : Slot → ℕ → M (Unit {0})
reset slot a p = gives tt (record p { shared = update slot a p.shared })

abbrev pub get_or : Option ℕ → M ℕ → M ℕ
get_or none make p = make p
get_or (some a) make p = gives a p

-- `if (x_.get() == NULL) { x_.reset(new ...); } return x_.get();`
unfoldable pub get_or_new : Slot → M Object → M ℕ
unfolding new reset
get_or_new slot make p =
    get_or (p.shared slot) (do object ← make; a ← new object; reset slot a; return a) p

-- ===== src/Proxy.antt =====
-- extra/proxy_config_service.h and extra/proxy_config_service.cc: the services that are alive, and how
-- a configuration from Java reaches them and their observers.
pub mod Delivery
mod Tests
use seaturtle.Common.{
  ℕ, Bool, true, false, Option, none, some, List, [], ◌∷◌, ◌++◌, map, ◌==◌, if◌then◌else◌, is_empty,
  Bytes, Abort, ok, crash, ◌>>=◌, ◌>>◌,
}

-- jni::ProxyConfig
pub data ProxyConfig : Type 0 where
  pending : ProxyConfig
  valid : Bytes → ProxyConfig

-- class ProxyConfigService, with what its observers have been told, the oldest first. `Rules` is
-- net::ProxyConfig.
pub record Service (Rules : Type 0) : Type 0 where
  pub self : ℕ
  pub latest : Option Rules
  pub observers : List ℕ
  pub told : List (ℕ × Rules)

-- `parse` is ProxyRules::ParseFromString.
module _ {Rules : Type 0} (parse : Bytes → Rules) where
  -- SetConfigOnNetworkThread; without a configuration `*pc` is NULL for every observer.
  unfoldable pub set_config : ProxyConfig → Service Rules → Abort (Service Rules)
  set_config pending s = if is_empty s.observers then ok s else crash
  set_config (valid config) s =
      let pc = parse config in
      ok (record s {
        latest = some pc;
        told = s.told ++ map (λ observer. (observer, pc)) s.observers;
      })

  -- SetAllConfigsOnNetworkThread
  unfoldable pub set_all_configs : ProxyConfig → List (Service Rules) → Abort (List (Service Rules))
  unfolding set_config
  set_all_configs config [] = ok []
  set_all_configs config (s ∷ all_configs) =
      set_config config s >>= λ s'. set_all_configs config all_configs >>= λ rest. ok (s' ∷ rest)

  -- The constructor, with Java's answer to the first request.
  unfoldable pub new_service : ℕ → ProxyConfig → List (Service Rules) → Abort (List (Service Rules))
  unfolding set_config
  new_service self config all_configs =
      let s : Service Rules = record { self = self; latest = none; observers = []; told = [] } in
      set_config config s >>= λ s'. ok (all_configs ++ s' ∷ [])

-- ObserverList::RemoveObserver, of a list that has no observer twice.
abbrev pub without : ℕ → List ℕ → List ℕ
without observer [] = []
without observer (o ∷ observers) =
    let rest = without observer observers in if o == observer then observers else o ∷ rest

module _ {Rules : Type 0} where
  -- The loop of the destructor.
  unfoldable pub erase_service : ℕ → List (Service Rules) → List (Service Rules)
  erase_service self [] = []
  erase_service self (s ∷ all_configs) =
      if s.self == self then all_configs else s ∷ erase_service self all_configs

  -- AddObserver
  unfoldable pub add_observer : ℕ → Service Rules → Service Rules
  add_observer observer s = record s { observers = s.observers ++ observer ∷ [] }

  -- RemoveObserver
  unfoldable pub remove_observer : ℕ → Service Rules → Service Rules
  remove_observer observer s = record s { observers = without observer s.observers }

  -- GetLatestProxyConfig: `none` is CONFIG_PENDING.
  unfoldable pub get_latest_proxy_config : Service Rules → Option Rules
  get_latest_proxy_config s = s.latest

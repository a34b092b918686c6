-- ===== src/Proxy/Tests.antt =====
-- Configurations for two services, and the theorems on them at concrete arguments.
use seaturtle.Common.{◌≡◌, refl, none, List, [], ◌∷◌, Bytes, lit, ok}
use seaturtle.Proxy.{pending, valid, Service, set_all_configs, new_service}
use seaturtle.Proxy.Delivery.{Delivered, set_all_configs-Delivered}

abbrev quiet_service : Service Bytes
quiet_service = record { self = 1; latest = none; observers = []; told = [] }

abbrev services : List (Service Bytes)
services = quiet_service ∷ record quiet_service { self = 2; observers = 9 ∷ [] } ∷ []

made : new_service (λ config. config) 1 pending [] ≡ ok (quiet_service ∷ [])
unfolding new_service
made = refl

set_all_configs-Delivered_example :
    (after : List (Service Bytes)) × (set_all_configs
        (λ config. config)
        (valid (lit "p:1"))
        services
      ≡ ok after)
    × Delivered (λ config. config) (lit "p:1") services after
set_all_configs-Delivered_example =
    set_all_configs-Delivered (λ config. config) (lit "p:1") services

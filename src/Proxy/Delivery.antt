-- ===== src/Proxy/Delivery.antt =====
-- What a new configuration does to all services.
use seaturtle.Common.{
  ◌≡◌, refl, ap, ◌∙◌, ◌⊎◌, inl, inr, true, false, some, List, [], ◌∷◌, ◌++◌, map, Bool-cases,
  is_empty, Bytes, Any, ok, crash, ◌>>=◌,
}
use seaturtle.Proxy.{pending, valid, Service, set_config, set_all_configs, get_latest_proxy_config}

module _ {Rules : Type 0} (parse : Bytes → Rules) where
  -- The services after the configuration `config`, one by one.
  abbrev pub Delivered : Bytes → List (Service Rules) → List (Service Rules) → Type 0
  Delivered config [] [] = Unit
  Delivered config [] (_ ∷ _) = ⊥
  Delivered config (_ ∷ _) [] = ⊥
  Delivered config (s ∷ old) (s' ∷ new) =
      (get_latest_proxy_config s' ≡ some (parse config))
      × (s'.told ≡ s.told ++ map (λ observer. (observer, parse config)) s.observers)
      × (s'.observers ≡ s.observers)
      × Delivered config old new

  -- The service has an observer.
  abbrev pub IsObserved : Service Rules → Type 0
  IsObserved s = is_empty s.observers ≡ false

  abbrev updated : Bytes → Service Rules → Service Rules
  updated config s = record s {
    latest = some (parse config);
    told = s.told ++ map (λ observer. (observer, parse config)) s.observers;
  }

  -- A valid configuration from Java never ends the process: afterwards every service gives it as the
  -- latest one, and each has told it to all its observers, in order and once.
  pub set_all_configs-Delivered :
      (config : Bytes) (services : List (Service Rules))
      → (after : List (Service Rules)) × (set_all_configs parse (valid config) services ≡ ok after)
        × Delivered config services after
  unfolding set_all_configs set_config get_latest_proxy_config
  set_all_configs-Delivered config [] = ([], refl, tt)
  set_all_configs-Delivered config (s ∷ services) =
      let (after, e, all) = set_all_configs-Delivered config services in
      (
        updated config s ∷ after,
        ap (λ m. m >>= λ rest. ok (updated config s ∷ rest)) e,
        (refl, refl, refl, all),
      )

  pending_step :
      (s : Service Rules) (services : List (Service Rules))
      → is_empty s.observers ≡ true
      → set_all_configs parse pending (s ∷ services)
        ≡ (set_all_configs parse pending services >>= λ rest. ok (s ∷ rest))
  unfolding set_all_configs set_config
  pending_step s services e = rw e refl

  pending_crash :
      (s : Service Rules) (services : List (Service Rules))
      → is_empty s.observers ≡ false
      → set_all_configs parse pending (s ∷ services) ≡ crash
  unfolding set_all_configs set_config
  pending_crash s services e = rw e refl

  -- Without a configuration, either no service is observed, and then nothing changes, or one is, and
  -- then the process dies of a NULL pointer.
  set_all_configs-pending :
      (services : List (Service Rules))
      → (set_all_configs parse pending services ≡ ok services)
        ⊎ (Any IsObserved services × (set_all_configs parse pending services ≡ crash))
  unfolding set_all_configs
  set_all_configs-pending [] = inl refl
  set_all_configs-pending (s ∷ services) = elim (Bool-cases (is_empty s.observers)) [
    | inr observed ↦ inr (inl observed, pending_crash s services observed)
    | inl quiet ↦ elim (set_all_configs-pending services) [
      | inl e ↦ inl (pending_step s services quiet ∙ ap (λ m. m >>= λ rest. ok (s ∷ rest)) e)
      | inr (any, e) ↦
          inr (inr any, pending_step s services quiet ∙ ap (λ m. m >>= λ rest. ok (s ∷ rest)) e)
    ]
  ]

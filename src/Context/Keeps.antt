-- ===== src/Context/Keeps.antt =====
-- When the stores of a context are kept on disk, said of its path and of the settings.
use seaturtle.Common.{◌≡◌, ◌≢◌, refl, ◌↔◌, Bool, true, false, [], ◌∷◌, Bytes, ◌&&◌, not, is_empty}
use seaturtle.Settings.{AllSettings}
use seaturtle.Context.Build.{keeps_cookies, keeps_cache}

-- There is a path, all shells share a context, and cookies (the cache) may persist.
abbrev pub PersistsCookies : Bytes → AllSettings → Type 0
PersistsCookies path s =
    (path ≢ []) × (s.state.single_context ≡ true) × (s.state.allow_persistant_cookies ≡ true)

abbrev pub PersistsCache : Bytes → AllSettings → Type 0
PersistsCache path s =
    (path ≢ []) × (s.state.single_context ≡ true) × (s.state.persist_cache ≡ true)

all_three_iff :
    (path : Bytes) (a b : Bool)
    → ((not (is_empty path) && (a && b)) ≡ true) ↔ ((path ≢ []) × (a ≡ true) × (b ≡ true))
all_three_iff [] a b = (λ e. cc, λ h. absurd (h.0 refl))
all_three_iff (c ∷ path) true true = (λ e. ((λ e. cc), refl, refl), λ h. refl)
all_three_iff (c ∷ path) true false = (λ e. cc, λ h. h.2)
all_three_iff (c ∷ path) false b = (λ e. cc, λ h. h.1)

pub keeps_cookies_iff :
    (path : Bytes) (s : AllSettings) → (keeps_cookies path s ≡ true) ↔ PersistsCookies path s
keeps_cookies_iff path s = all_three_iff path _ _

pub keeps_cache_iff :
    (path : Bytes) (s : AllSettings) → (keeps_cache path s ≡ true) ↔ PersistsCache path s
keeps_cache_iff path s = all_three_iff path _ _

pub iff_trans : {A B C : Type 0} → A ↔ B → B ↔ C → A ↔ C
iff_trans f g = (λ a. g.0 (f.0 a), λ c. f.1 (g.1 c))

pub both_iff : {A B C D : Type 0} → A ↔ B → C ↔ D → (A × C) ↔ (B × D)
both_iff f g = (λ h. (f.0 h.0, g.0 h.1), λ h. (f.1 h.0, g.1 h.1))

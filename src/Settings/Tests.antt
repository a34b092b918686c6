-- ===== src/Settings/Tests.antt =====
-- Settings that are applied in a row.
use seaturtle.Common.{◌≡◌, refl, true, false, [], ◌∷◌}
use seaturtle.Fixtures.{all_enabled}
use seaturtle.Settings.{WebSettings, default_settings}
use seaturtle.Settings.Preferences.{update_web_preferences, update_each}

abbrev defaults : WebSettings
defaults = default_settings.web_preferences

abbrev no_webgl : WebSettings
no_webgl = record defaults { experimental_webgl_enabled = false; javascript_enabled = false }

-- WebGL stays off, though the second update has it on; JavaScript comes back.
webgl_stays_off :
    let q = update_each (no_webgl ∷ defaults ∷ []) all_enabled in
    (q.experimental_webgl_enabled ≡ false) × (q.javascript_enabled ≡ true)
unfolding update_web_preferences
webgl_stays_off = (refl, refl)

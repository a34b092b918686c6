-- ===== src/Shell/WebPages/Tests.antt =====
-- Settings that reach the pages of two shells.
use seaturtle.Common.{◌≡◌, refl, none, some, [], ◌∷◌, if◌then◌else◌, ◌==◌, ok, crash}
use seaturtle.Fixtures.{all_enabled, one_shell}
use seaturtle.Settings.{default_settings}
use seaturtle.Shell.WebPages.{
  Views, updated, update_all_web_preferences, update_all_web_preferences_lem,
}

abbrev two_views : Views (Unit {0})
two_views wc = if wc == 1 then some all_enabled else none

update_all_web_preferences_example :
    update_all_web_preferences default_settings.web_preferences (one_shell ∷ []) two_views
    ≡ ok (updated default_settings.web_preferences (one_shell ∷ []) two_views)
update_all_web_preferences_example =
    update_all_web_preferences_lem default_settings.web_preferences (one_shell ∷ []) two_views

no_view :
    update_all_web_preferences {R = Unit {0}} default_settings.web_preferences
      (one_shell ∷ [])
      (λ wc. none)
    ≡ crash
unfolding update_all_web_preferences
no_view = refl

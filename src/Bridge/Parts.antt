-- ===== src/Bridge/Parts.antt =====
-- The parts of the browser process that messages of Java change, and what each message leaves alone.
use seaturtle.Common.{◌≡◌, Bool, true, false}
use seaturtle.Bridge.{
  Params, launch_shell_params, update_blocking_rules, http_auth_response, http_fetch,
  javascript_dialog_closed, certificate_error_response, update_settings, shell_command,
  proxy_config_changed, update_https_rules, update_favorites_response, clear_data_params,
  update_blocking_whitelist, App, is_close,
}

-- The parts of the state: the settings, the blocker, the rewriter, the shells with what was sent to
-- Java and the contexts that went with shells, the pending questions about certificates, the preferences of pages, what pages are asked to
-- do, the dialogs of scripts, the login dialogs, the fetches, the objects of the network stack, the
-- favorites with the stored cookies, and the proxy configurations on their way.
pub data Part : Type 0 where
  settings blocking rewriting shells certificates preferences page_actions : Part
  script_dialogs logins fetches network_objects cookie_jar proxies : Part

abbrev pub touches : Params → Part → Bool
touches (launch_shell_params parent context self wc) shells = true
touches (update_blocking_rules path) blocking = true
touches (http_auth_response response) logins = true
touches (http_fetch url) fetches = true
touches (javascript_dialog_closed wc success text) script_dialogs = true
touches (certificate_error_response native_callback allow) certificates = true
touches (update_settings new_settings) settings = true
touches (update_settings new_settings) preferences = true
touches (shell_command native_shell c) shells = true
touches (shell_command native_shell c) page_actions = true
touches (shell_command native_shell c) script_dialogs = is_close c
touches (shell_command native_shell c) preferences = is_close c
touches (proxy_config_changed config) proxies = true
touches (update_https_rules path) rewriting = true
touches (update_favorites_response urls) network_objects = true
touches (update_favorites_response urls) cookie_jar = true
touches clear_data_params network_objects = true
touches (update_blocking_whitelist hosts) blocking = true
touches _ _ = false

module _ {Gurl W Re Store R : Type 0} where
  abbrev pub IsSame : Part → App Gurl W Re Store R → App Gurl W Re Store R → Type 0
  IsSame settings app app' = app'.process.settings ≡ app.process.settings
  IsSame blocking app app' = app'.blocker ≡ app.blocker
  IsSame rewriting app app' = app'.rewriter ≡ app.rewriter
  IsSame shells app app' =
      (app'.client.browser ≡ app.client.browser) × (app'.deleted_contexts ≡ app.deleted_contexts)
  IsSame certificates app app' =
      (app'.client.callbacks ≡ app.client.callbacks)
      × (app'.client.asked ≡ app.client.asked)
      × (app'.client.ran ≡ app.client.ran)
  IsSame preferences app app' = app'.views ≡ app.views
  IsSame page_actions app app' = app'.actions ≡ app.actions
  IsSame script_dialogs app app' = app'.dialogs ≡ app.dialogs
  IsSame logins app app' = app'.login ≡ app.login
  IsSame fetches app app' = app'.fetching ≡ app.fetching
  IsSame network_objects app app' =
      (app'.process.objects ≡ app.process.objects)
      × (app'.process.shared ≡ app.process.shared)
      × (app'.process.process_cache ≡ app.process.process_cache)
      × (app'.process.cleared ≡ app.process.cleared)
  IsSame cookie_jar app app' = app'.cookies ≡ app.cookies
  IsSame proxies app app' = app'.proxy_tasks ≡ app.proxy_tasks

  -- A part that the message does not touch stays as it is.
  abbrev pub Spares : Params → App Gurl W Re Store R → App Gurl W Re Store R → Part → Type 0
  Spares m app app' part = touches m part ≡ false → IsSame part app app'

-- ===== src/Bridge/Frame.antt =====
-- Which parts of the browser process a message of Java can change.
use seaturtle.Common.{
  ℕ, ◌≡◌, refl, subst, false, Option, none, List, [], Bytes, Abort, ok, crash, ◌>>=◌,
}
use seaturtle.Settings.{get_global_settings_ref}
use seaturtle.Cookies.{SplitCookieStore, update_favorites}
use seaturtle.Client.{allow_certificate_error_response}
use seaturtle.Context
use seaturtle.Context.{Process, Slot}
use seaturtle.Context.Extends.{Post}
use seaturtle.Context.Got.{Got}
use seaturtle.Context.Shared.{get_split_cookie_store}
use seaturtle.Context.Methods.{cookie_store-Got}
use seaturtle.Blocker.Loading
use seaturtle.Rewriter.Loading as RewriterLoading
use seaturtle.Bridge.{
  Params, launch_shell_params, update_blocking_rules, http_auth_response, http_fetch,
  javascript_dialog_closed, certificate_error_response, update_settings, shell_command,
  proxy_config_changed, update_https_rules, update_favorites_response, clear_data_params,
  update_blocking_whitelist, unknown, Reply, App, Outside, java_to_native, with_store,
}
use seaturtle.Login.{process_response}
use seaturtle.Fetch.{fetch}
use seaturtle.Dialogs.{dialog_closed}
use seaturtle.Shell.WebPages.{update_all_web_preferences}
use seaturtle.Shell.Commands.{dispatch_shell_command}
use seaturtle.Bridge.Parts.{Part, touches, IsSame}
use seaturtle.Bridge.Kept.{
  launch-IsSame, rules-IsSame, login-IsSame, fetch-IsSame, dialog-IsSame, settings-IsSame,
  command-IsSame, proxy-IsSame, https-IsSame, whitelist-IsSame, certificate-IsSame, clear-IsSame,
  favorites-IsSame,
}

first_of :
    {V W : Type 0} {a b : V} {c d : W} → Abort.ok (let x : V × W = (a, c) in x) ≡ ok (b, d) → a ≡ b
first_of e = cc

-- A property of the state after a step that is followed by an answer.
pub through :
    {V A : Type 0} (P : A → Type 0) (run : Abort V) (k : V → A × Option Reply) {app' : A}
    {r : Option Reply}
    → (run >>= λ v. ok (k v)) ≡ ok (app', r)
    → ((v : V) → run ≡ ok v → P (k v).0)
    → P app'
through P crash k h f = cc
through P (ok v) k h f = subst P (first_of h) (f v refl)

split_store-Got :
    {Gurl W Re : Type 0} (o : Outside Gurl W Re) (p : Process)
    → Post (Got Slot.cookie_store_ p) (get_split_cookie_store o.api o.sites o.sys p)
unfolding get_split_cookie_store
split_store-Got o p = cookie_store-Got o.api o.sites o.sys [] p

abbrev with_cookies :
    {Gurl W Re Store R : Type 0}
    → App Gurl W Re Store R
    → SplitCookieStore Store
    → Abort (App Gurl W Re Store R × Option Reply)
with_cookies app cookies = ok (record app { cookies = cookies }, none)

favorites_through :
    {Gurl W Re Store R : Type 0} (o : Outside Gurl W Re) (urls : List Bytes)
    (app : App Gurl W Re Store R) {app' : App Gurl W Re Store R} {r : Option Reply} (part : Part)
    (store : Context.Outcome ℕ)
    → Post (Got Slot.cookie_store_ app.process) store
    → (with_store o store app >>= λ app1.
        update_favorites o.api o.sites urls app1.cookies >>= with_cookies app1)
      ≡ ok (app', r)
    → touches (update_favorites_response urls) part ≡ false
    → IsSame part app app'
favorites_through o urls app part Context.died got h u = cc
favorites_through o urls app part (Context.gives scs process) got h u =
    through (IsSame part app) (update_favorites o.api o.sites urls app.cookies) _ h
      (λ cookies _. favorites-IsSame urls app process cookies got.2 part u)

-- A message that Java sends and that does not end the process changes only the parts of the state that
-- `touches` names for it: settings, blocking, rewriting, shells, questions about certificates,
-- preferences of pages, requests to pages, dialogs of scripts, login dialogs, fetches, network
-- objects, cookies and proxies are each left as they are by all other messages. Of the commands to a
-- shell, the one that closes it may change the preferences of pages and the dialogs of scripts.
pub java_to_native-frame :
    {Gurl W Re Store R : Type 0} (o : Outside Gurl W Re) (m : Params) (app : App Gurl W Re Store R)
    {app' : App Gurl W Re Store R} {r : Option Reply}
    → java_to_native o m app ≡ ok (app', r)
    → (part : Part) → touches m part ≡ false
    → IsSame part app app'
unfolding java_to_native
java_to_native-frame o (launch_shell_params parent context self wc) app h part u =
    through (IsSame part app) (get_global_settings_ref app.process.settings) _ h
      (λ s _. launch-IsSame parent context self wc app _ part u)
java_to_native-frame o (update_blocking_rules path) app h part u =
    through (IsSame part app)
      (Loading.update_rules_with_path o.parse_rules o.from_utf8 o.open_file path app.blocker) _ h
      (λ b _. rules-IsSame path app b part u)
java_to_native-frame o (http_auth_response response) app h part u =
    through (IsSame part app) (process_response response app.login) _ h
      (λ l _. login-IsSame response app l part u)
java_to_native-frame o (http_fetch url) app h part u =
    through (IsSame part app) (fetch o.is_posted url app.fetching) _ h
      (λ f _. fetch-IsSame url app f part u)
java_to_native-frame o (javascript_dialog_closed wc success text) app h part u =
    through (IsSame part app)
      (dialog_closed wc success text
        (record app.dialogs { shells = app.client.browser.all_shells }))
      _ h (λ d _. dialog-IsSame wc success text app d part u)
java_to_native-frame o (certificate_error_response native_callback allow) app h part u =
    through (IsSame part app) (allow_certificate_error_response native_callback allow app.client) _
      h (λ c e. certificate-IsSame native_callback allow app e part u)
java_to_native-frame o (update_settings new_settings) app h part u =
    through (IsSame part app)
      (update_all_web_preferences new_settings.web_preferences app.client.browser.all_shells
        app.views)
      _ h (λ views _. settings-IsSame new_settings app _ views part u)
java_to_native-frame o (shell_command native_shell c) app h part u =
    through (IsSame part app)
      (dispatch_shell_command o.api o.append_query o.names o.ssl_version_tls1 native_shell c
        o.page_of app.client.browser)
      _ h (λ out _. command-IsSame o native_shell c app out part u)
java_to_native-frame o (proxy_config_changed config) app h part u =
    subst (IsSame part app) (first_of h) (proxy-IsSame config app _ part u)
java_to_native-frame o (update_https_rules path) app h part u =
    through (IsSame part app)
      (RewriterLoading.update_rules_with_path o.re2 o.open_file o.parse_sets path) _ h
      (λ r _. https-IsSame path app r part u)
java_to_native-frame o (update_favorites_response urls) app h part u =
    favorites_through o urls app part (get_split_cookie_store o.api o.sites o.sys app.process)
      (split_store-Got o app.process) h u
java_to_native-frame o clear_data_params app h part u =
    subst (IsSame part app) (first_of h) (clear-IsSame o.backend app part u)
java_to_native-frame o (update_blocking_whitelist hosts) app h part u =
    subst (IsSame part app) (first_of h) (whitelist-IsSame hosts app _ part u)
java_to_native-frame o (unknown type) app h part u = cc

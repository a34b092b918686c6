-- ===== src/Bridge/Kept.antt =====
-- What each message of Java leaves alone, where it comes through.
use seaturtle.Common.{
  ℕ, ◌≡◌, refl, sym, ap, Bool, Option, none, some, List, ◌++◌, [], ◌∷◌, Bytes, ok,
}
use seaturtle.Settings.{AllSettings}
use seaturtle.Blocker.{WhitelistedHost}
use seaturtle.Cookies.{SplitCookieStore}
use seaturtle.Client.{Client, allow_certificate_error_response, take_callback, run_taken}
use seaturtle.Context.{Process}
use seaturtle.Context.Shared.{clear_data}
use seaturtle.Bridge.{
  launch_shell_params, update_blocking_rules, http_auth_response, http_fetch,
  javascript_dialog_closed, certificate_error_response, update_settings, shell_command,
  proxy_config_changed, update_https_rules, update_favorites_response, clear_data_params,
  update_blocking_whitelist, App, Outside, commanded,
}
use seaturtle.Shell.{Browser}
use seaturtle.Blocker.{Blocker}
use seaturtle.Login.{HttpAuthResponse, Login}
use seaturtle.Fetch.{Fetching}
use seaturtle.Dialogs.{Dialogs}
use seaturtle.Shell.WebPages.{Views}
use seaturtle.Shell.Commands.{Command, Outcome}
use seaturtle.Proxy.{ProxyConfig}
use seaturtle.Rewriter.{HttpsRewriter}
use seaturtle.Bridge.Parts.{
  Part, settings, blocking, rewriting, shells, certificates, preferences, page_actions,
  script_dialogs, logins, fetches, network_objects, cookie_jar, proxies, Spares,
}

response-browser :
    {Gurl : Type 0} (native_callback : ℕ) (allow : Bool) (st : Client Gurl) {st' : Client Gurl}
    → allow_certificate_error_response native_callback allow st ≡ ok st'
    → st'.browser ≡ st.browser
unfolding allow_certificate_error_response
response-browser {Gurl = Gurl} native_callback allow st {st' = st'} h =
    taken (take_callback native_callback st.callbacks) h
  where
    taken :
        (found : Option (ℕ × List (ℕ × ℕ)))
        → run_taken found allow st ≡ ok st'
        → st'.browser ≡ st.browser
    taken none e = cc
    taken (some (callback, heap)) e =
        let e' : record st { callbacks = heap; ran = st.ran ++ (callback, allow) ∷ [] } ≡ st' =
          cc in
        sym (ap (λ (c : Client Gurl). c.browser) e')

module _ {Gurl W Re Store R : Type 0} where
  pub launch-IsSame :
      (parent context self wc : ℕ) (app : App Gurl W Re Store R) (b : Browser Gurl)
      → (part : Part)
      → Spares
          (launch_shell_params parent context self wc)
          app
          (record app { client = record app.client { browser = b } })
          part
  launch-IsSame parent context self wc app b part =
      elim part
        as (Spares (launch_shell_params parent context self wc) app
          (record app { client = record app.client { browser = b } })) [
            | shells ↦ λ u. cc
            | certificates ↦ λ u. (refl, refl, refl)
            | network_objects ↦ λ u. (refl, refl, refl, refl)
            | _ ↦ λ u. refl
          ]

  pub rules-IsSame :
      (path : Bytes) (app : App Gurl W Re Store R) (b : Blocker W)
      → (part : Part) → Spares (update_blocking_rules path) app (record app { blocker = b }) part
  rules-IsSame path app b part =
      elim part as (Spares (update_blocking_rules path) app (record app { blocker = b })) [
        | blocking ↦ λ u. cc
        | shells ↦ λ u. (refl, refl)
        | certificates ↦ λ u. (refl, refl, refl)
        | network_objects ↦ λ u. (refl, refl, refl, refl)
        | _ ↦ λ u. refl
      ]

  pub login-IsSame :
      (response : HttpAuthResponse) (app : App Gurl W Re Store R) (l : Login)
      → (part : Part) → Spares (http_auth_response response) app (record app { login = l }) part
  login-IsSame response app l part =
      elim part as (Spares (http_auth_response response) app (record app { login = l })) [
        | logins ↦ λ u. cc
        | shells ↦ λ u. (refl, refl)
        | certificates ↦ λ u. (refl, refl, refl)
        | network_objects ↦ λ u. (refl, refl, refl, refl)
        | _ ↦ λ u. refl
      ]

  pub fetch-IsSame :
      (url : Bytes) (app : App Gurl W Re Store R) (f : Fetching)
      → (part : Part) → Spares (http_fetch url) app (record app { fetching = f }) part
  fetch-IsSame url app f part =
      elim part as (Spares (http_fetch url) app (record app { fetching = f })) [
        | fetches ↦ λ u. cc
        | shells ↦ λ u. (refl, refl)
        | certificates ↦ λ u. (refl, refl, refl)
        | network_objects ↦ λ u. (refl, refl, refl, refl)
        | _ ↦ λ u. refl
      ]

  pub dialog-IsSame :
      (wc : ℕ) (success : Bool) (text : Bytes) (app : App Gurl W Re Store R) (d : Dialogs Gurl)
      → (part : Part)
      → Spares (javascript_dialog_closed wc success text) app (record app { dialogs = d }) part
  dialog-IsSame wc success text app d part =
      elim part
        as (Spares (javascript_dialog_closed wc success text) app (record app { dialogs = d })) [
          | script_dialogs ↦ λ u. cc
          | shells ↦ λ u. (refl, refl)
          | certificates ↦ λ u. (refl, refl, refl)
          | network_objects ↦ λ u. (refl, refl, refl, refl)
          | _ ↦ λ u. refl
        ]

  pub settings-IsSame :
      (new_settings : AllSettings) (app : App Gurl W Re Store R) (new : Option AllSettings)
      (views : Views R)
      → (part : Part)
      → Spares
          (update_settings new_settings)
          app
          (record app { process = record app.process { settings = new }; views = views })
          part
  settings-IsSame new_settings app new views part =
      elim part
        as (Spares (update_settings new_settings) app
          (record app { process = record app.process { settings = new }; views = views })) [
            | settings ↦ λ u. cc
            | preferences ↦ λ u. cc
            | shells ↦ λ u. (refl, refl)
            | certificates ↦ λ u. (refl, refl, refl)
            | network_objects ↦ λ u. (refl, refl, refl, refl)
            | _ ↦ λ u. refl
          ]

  pub command-IsSame :
      (o : Outside Gurl W Re) (native_shell : ℕ) (c : Command) (app : App Gurl W Re Store R)
      (out : Outcome Gurl)
      → (part : Part)
      → Spares (shell_command native_shell c) app (commanded o native_shell c app out).0 part
  command-IsSame o native_shell c app out part =
      elim part
        as (Spares (shell_command native_shell c) app (commanded o native_shell c app out).0) [
          | shells ↦ λ u. cc
          | page_actions ↦ λ u. cc
          | script_dialogs ↦ λ u. rw u refl
          | preferences ↦ λ u. rw u refl
          | certificates ↦ λ u. (refl, refl, refl)
          | network_objects ↦ λ u. (refl, refl, refl, refl)
          | _ ↦ λ u. refl
        ]

  pub proxy-IsSame :
      (config : ProxyConfig) (app : App Gurl W Re Store R) (tasks : List ProxyConfig)
      → (part : Part)
      → Spares (proxy_config_changed config) app (record app { proxy_tasks = tasks }) part
  proxy-IsSame config app tasks part =
      elim part as (Spares (proxy_config_changed config) app (record app { proxy_tasks = tasks })) [
        | proxies ↦ λ u. cc
        | shells ↦ λ u. (refl, refl)
        | certificates ↦ λ u. (refl, refl, refl)
        | network_objects ↦ λ u. (refl, refl, refl, refl)
        | _ ↦ λ u. refl
      ]

  pub https-IsSame :
      (path : Bytes) (app : App Gurl W Re Store R) (rw1 : HttpsRewriter Re)
      → (part : Part) → Spares (update_https_rules path) app (record app { rewriter = rw1 }) part
  https-IsSame path app rw1 part =
      elim part as (Spares (update_https_rules path) app (record app { rewriter = rw1 })) [
        | rewriting ↦ λ u. cc
        | shells ↦ λ u. (refl, refl)
        | certificates ↦ λ u. (refl, refl, refl)
        | network_objects ↦ λ u. (refl, refl, refl, refl)
        | _ ↦ λ u. refl
      ]

  pub whitelist-IsSame :
      (hosts : List WhitelistedHost) (app : App Gurl W Re Store R) (b : Blocker W)
      → (part : Part)
      → Spares (update_blocking_whitelist hosts) app (record app { blocker = b }) part
  whitelist-IsSame hosts app b part =
      elim part as (Spares (update_blocking_whitelist hosts) app (record app { blocker = b })) [
        | blocking ↦ λ u. cc
        | shells ↦ λ u. (refl, refl)
        | certificates ↦ λ u. (refl, refl, refl)
        | network_objects ↦ λ u. (refl, refl, refl, refl)
        | _ ↦ λ u. refl
      ]

  pub certificate-IsSame :
      (native_callback : ℕ) (allow : Bool) (app : App Gurl W Re Store R) {c : Client Gurl}
      → allow_certificate_error_response native_callback allow app.client ≡ ok c
      → (part : Part)
      → Spares
          (certificate_error_response native_callback allow)
          app
          (record app { client = c })
          part
  certificate-IsSame native_callback allow app {c = c} h =
      let e = response-browser native_callback allow app.client h in
      λ part.
        elim part
          as (Spares (certificate_error_response native_callback allow) app
            (record app { client = c })) [
              | certificates ↦ λ u. cc
              | shells ↦ λ u. (e, refl)
              | network_objects ↦ λ u. (refl, refl, refl, refl)
              | _ ↦ λ u. refl
            ]

  pub clear-IsSame :
      (backend : ℕ → Bool) (app : App Gurl W Re Store R) (part : Part)
      → Spares clear_data_params app (record app { process = clear_data backend app.process }) part
  unfolding clear_data
  clear-IsSame backend app part =
      elim part
        as (Spares clear_data_params app
          (record app { process = clear_data backend app.process })) [
            | shells ↦ λ u. (refl, refl)
            | certificates ↦ λ u. (refl, refl, refl)
            | network_objects ↦ λ u. cc
            | _ ↦ λ u. refl
          ]

  pub favorites-IsSame :
      (urls : List Bytes) (app : App Gurl W Re Store R) (process : Process)
      (cookies : SplitCookieStore Store)
      → process.settings ≡ app.process.settings
      → (part : Part)
      → Spares
          (update_favorites_response urls)
          app
          (record app { process = process; cookies = cookies })
          part
  favorites-IsSame urls app process cookies e part =
      elim part
        as (Spares (update_favorites_response urls) app
          (record app { process = process; cookies = cookies })) [
            | settings ↦ λ u. e
            | shells ↦ λ u. (refl, refl)
            | certificates ↦ λ u. (refl, refl, refl)
            | network_objects ↦ λ u. cc
            | cookie_jar ↦ λ u. cc
            | _ ↦ λ u. refl
          ]

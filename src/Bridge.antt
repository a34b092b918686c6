-- ===== src/Bridge.antt =====
-- jni/jni_bridge.cc: javaToNative, where the messages of Java enter the browser process, and the state
-- of the parts that they reach.
pub mod Parts
pub mod Kept
pub mod Frame
pub mod Whitelisting
pub mod Closing
mod Tests
use seaturtle.Common.{
  ℕ, Bool, true, false, Option, none, some, List, [], ◌∷◌, ◌++◌, if◌then◌else◌, Bytes, Abort, ok,
  crash, ◌>>=◌, io,
}
use seaturtle.Url.{UrlApi}
use seaturtle.Settings.{AllSettings, get_global_settings_ref, update_global_settings}
use seaturtle.Files.{OpenFile}
use seaturtle.Blocker.{Blocker, Rule, WhitelistedHost}
use seaturtle.Blocker.Whitelist.{update_whitelist}
use seaturtle.Blocker.Loading as BlockerLoading
use seaturtle.Rewriter.{Re2Api, RuleSet, HttpsRewriter}
use seaturtle.Rewriter.Loading as RewriterLoading
use mathlib.Core.Option
use seaturtle.Shell.{Shell, Browser, Message}
use seaturtle.Shell.Registry.{for_ptr, launch_shell, release_context}
use seaturtle.Shell.Commands.{
  Command, close, Page, CipherNames, Action, Response, Outcome, dispatch_shell_command,
}
use seaturtle.Shell.WebPages.{Views, clear_view, update_all_web_preferences}
use seaturtle.Cookies.{SiteApi, SplitCookieStore, update_favorites}
use seaturtle.Context
use seaturtle.Context.{Process, System}
use seaturtle.Context.Shared.{clear_data, get_split_cookie_store}
use seaturtle.Client.{Client, allow_certificate_error_response}
use seaturtle.Dialogs.{Dialogs, cancel_dialogs, dialog_closed}
use seaturtle.Login.{Login, HttpAuthResponse, process_response}
use seaturtle.Fetch.{Fetching, fetch}
use seaturtle.Proxy.{ProxyConfig, Service, set_all_configs}

-- jni::Params, as far as Java sends it. The numbers of `launch_shell` are the addresses of a new
-- browser context, of the shell and of its WebContents; those of `certificate_error_response` and
-- `javascript_dialog_closed` are as in the message.
pub data Params : Type 0 where
  launch_shell_params : ℕ → ℕ → ℕ → ℕ → Params
  update_blocking_rules : Bytes → Params
  http_auth_response : HttpAuthResponse → Params
  http_fetch : Bytes → Params
  javascript_dialog_closed : ℕ → Bool → Bytes → Params
  certificate_error_response : ℕ → Bool → Params
  update_settings : AllSettings → Params
  shell_command : ℕ → Command → Params
  proxy_config_changed : ProxyConfig → Params
  update_https_rules : Bytes → Params
  update_favorites_response : List Bytes → Params
  clear_data_params : Params
  update_blocking_whitelist : List WhitelistedHost → Params
  unknown : ℕ → Params

-- The answer to Java, if there is one.
pub data Reply : Type 0 where
  launch_reply : Message → Reply
  http_fetch_response : ℕ → Reply
  shell_command_response : Response → Reply

-- The state of the browser process. The shells are those of the client's browser; the settings are
-- those of the process of the network stack. `proxy_tasks` are posted to the IO thread, `actions` is
-- what pages were asked to do, and `deleted_contexts` are the browser contexts that went with their
-- shells, the oldest first.
pub record App (Gurl W Re Store R : Type 0) : Type 0 where
  pub process : Process
  pub blocker : Blocker W
  pub rewriter : HttpsRewriter Re
  pub client : Client Gurl
  pub views : Views R
  pub dialogs : Dialogs Gurl
  pub login : Login
  pub fetching : Fetching
  pub cookies : SplitCookieStore Store
  pub proxy_tasks : List ProxyConfig
  pub actions : List (Action Gurl)
  pub deleted_contexts : List ℕ

-- The command has the shell deleted.
abbrev pub is_close : Command → Bool
is_close close = true
is_close _ = false

module _ {Gurl : Type 0} where
  -- The shell that the command deletes.
  abbrev pub deleted_by : Command → ℕ → List (Shell Gurl) → Option (Shell Gurl)
  deleted_by c native_shell shells = if is_close c then for_ptr native_shell shells else none

  -- What goes with a deleted shell: `last_callback_` of its dialog manager, its WebContents with the
  -- preferences of the page, and its context if no shell that is left shares it.
  abbrev pub dialogs_without : Option (Shell Gurl) → Dialogs Gurl → Dialogs Gurl
  dialogs_without none dialogs = dialogs
  dialogs_without (some s) dialogs = cancel_dialogs s.wc dialogs

  abbrev pub views_without : {R : Type 0} → Option (Shell Gurl) → Views R → Views R
  views_without none views = views
  views_without (some s) views = clear_view s.wc views

  abbrev pub contexts_of : Option (Shell Gurl) → List (Shell Gurl) → List ℕ
  contexts_of none left = []
  contexts_of (some s) left = release_context s.sbc left

-- What is outside of the repository: see the components that use the fields.
pub record Outside (Gurl W Re : Type 0) : Type 0 where
  pub api : UrlApi Gurl
  pub sites : SiteApi Gurl
  pub sys : System
  pub re2 : Re2Api Re
  pub open_file : Bytes → Option OpenFile
  pub parse_rules : Bytes → Option (List Rule)
  pub parse_sets : Bytes → Option (List RuleSet)
  pub from_utf8 : Bytes → W
  pub append_query : Bytes → Gurl
  pub names : ℕ → ℕ → CipherNames
  pub ssl_version_tls1 : ℕ
  pub page_of : ℕ → Page Gurl
  pub backend : ℕ → Bool
  pub is_posted : Bool

module _ {Gurl W Re Store R : Type 0} (o : Outside Gurl W Re) where
  abbrev pub put_browser : Browser Gurl → App Gurl W Re Store R → App Gurl W Re Store R
  put_browser b app = record app { client = record app.client { browser = b } }

  abbrev pub launch :
      Bool → ℕ → ℕ → ℕ → ℕ → App Gurl W Re Store R → App Gurl W Re Store R × Option Reply
  launch single_context parent context self wc app =
      let (b, reply) = launch_shell single_context context self wc parent app.client.browser in
      (put_browser b app, some (launch_reply reply))

  abbrev pub fetched : App Gurl W Re Store R → Fetching → App Gurl W Re Store R × Option Reply
  fetched app f = (record app { fetching = f }, some (http_fetch_response app.fetching.seq))

  -- After DispatchShellCommand; `b` is without the shell that the command deleted, if any.
  abbrev pub commanded :
      ℕ → Command → App Gurl W Re Store R → Outcome Gurl → App Gurl W Re Store R × Option Reply
  commanded native_shell c app (response, actions, b) =
      let deleted = deleted_by c native_shell app.client.browser.all_shells in
      (
        record (put_browser b app) {
          actions = app.actions ++ actions;
          dialogs = dialogs_without deleted app.dialogs;
          views = views_without deleted app.views;
          deleted_contexts = app.deleted_contexts ++ contexts_of deleted b.all_shells;
        },
        Option.map shell_command_response response,
      )

  abbrev pub with_store : Context.Outcome ℕ → App Gurl W Re Store R → Abort (App Gurl W Re Store R)
  with_store Context.died app = crash
  with_store (Context.gives scs process) app = ok (record app { process = process })

  -- Java_co_kr36_krypton_jni_Bridge_javaToNative; a message of another type is STNOTREACHED.
  unfoldable pub java_to_native :
      Params → App Gurl W Re Store R → Abort (App Gurl W Re Store R × Option Reply)
  unfolding get_global_settings_ref update_global_settings
  java_to_native (launch_shell_params parent context self wc) app = do
    settings ← get_global_settings_ref app.process.settings
    ok (launch settings.state.single_context parent context self wc app)
  java_to_native (update_blocking_rules path) app = do
    b ← BlockerLoading.update_rules_with_path o.parse_rules o.from_utf8 o.open_file path app.blocker
    ok (record app { blocker = b }, none)
  java_to_native (http_auth_response response) app = do
    login ← process_response response app.login
    ok (record app { login = login }, none)
  java_to_native (http_fetch url) app = do
    f ← fetch o.is_posted url app.fetching
    ok (fetched app f)
  java_to_native (javascript_dialog_closed wc success text) app = do
    d ←
        dialog_closed wc success text
          (record app.dialogs { shells = app.client.browser.all_shells })
    ok (record app { dialogs = d }, none)
  java_to_native (certificate_error_response native_callback allow) app = do
    c ← allow_certificate_error_response native_callback allow app.client
    ok (record app { client = c }, none)
  java_to_native (update_settings new_settings) app = do
    views ←
        update_all_web_preferences new_settings.web_preferences app.client.browser.all_shells
          app.views
    let settings = update_global_settings new_settings app.process.settings
    ok (record app { process = record app.process { settings = settings }; views = views }, none)
  java_to_native (shell_command native_shell c) app = do
    out ←
        dispatch_shell_command o.api o.append_query o.names o.ssl_version_tls1 native_shell c
          o.page_of app.client.browser
    ok (commanded native_shell c app out)
  java_to_native (proxy_config_changed config) app =
      ok (record app { proxy_tasks = app.proxy_tasks ++ config ∷ [] }, none)
  java_to_native (update_https_rules path) app = do
    r ← RewriterLoading.update_rules_with_path o.re2 o.open_file o.parse_sets path
    ok (record app { rewriter = r }, none)
  java_to_native (update_favorites_response urls) app = do
    app' ← with_store (get_split_cookie_store o.api o.sites o.sys app.process) app
    cookies ← update_favorites o.api o.sites urls app'.cookies
    ok (record app' { cookies = cookies }, none)
  java_to_native clear_data_params app =
      ok (record app { process = clear_data o.backend app.process }, none)
  java_to_native (update_blocking_whitelist hosts) app =
      ok (record app { blocker = update_whitelist app.blocker hosts }, none)
  java_to_native (unknown type) app = crash

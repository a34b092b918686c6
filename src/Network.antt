-- ===== src/Network.antt =====
-- shell/browser/shell_network_delegate.cc and extra/cookie_access_policy.cc: what the network stack
-- asks about a request, with the tab that hears of it.
pub mod Outcomes
pub mod Requests
pub mod Reports
mod Tests
use seaturtle.Common.{
  ℕ, Bool, true, false, not, ◌&&◌, Option, none, some, List, [], ◌∷◌, if◌then◌else◌, Bytes, Abort,
  ok, crash,
}
use seaturtle.Url.{UrlApi, NetError, net_ok, err_blocked_by_client, Request}
use seaturtle.Settings.{AllSettings}
use seaturtle.Blocker.{Blocker}
use seaturtle.Blocker.Whitelist.{is_whitelisted}
use seaturtle.Blocker.Blacklist.{should_block_third_party_request, should_clear_referrer}
use seaturtle.Rewriter.{Re2Api, HttpsRewriter, Rewritten, maybe_rewrite}
use seaturtle.Shell.{Browser, LogType, Shell, request, cookie, file}
use seaturtle.Shell.Registry.{for_url_request}
use seaturtle.Shell.Log.{log_event}

module _ {Gurl : Type 0} where
  -- `shell->LogEvent(...)` on the shell of ForURLRequest, if there is one.
  abbrev pub log_on : Option (Shell Gurl) → LogType → Bool → Bytes → Browser Gurl → Browser Gurl
  log_on none t is_blocked desc b = b
  log_on (some s) t is_blocked desc b = log_event s.self t is_blocked desc b

  -- `from_id` gives the WebContents of a renderer's ids, see `for_render_process_and_id`.
  unfoldable pub log_for_request :
      (ℕ → ℕ → Option ℕ) → Request Gurl → LogType → Bool → Bytes → Browser Gurl → Browser Gurl
  unfolding for_url_request
  log_for_request from_id r t is_blocked desc b =
      log_on (for_url_request from_id r.view b.all_shells) t is_blocked desc b

  -- ShellNetworkDelegate::OnCanAccessFile
  unfoldable pub on_can_access_file :
      (ℕ → ℕ → Option ℕ) → Request Gurl → Bytes → Browser Gurl → Bool × Browser Gurl
  unfolding log_for_request
  on_can_access_file from_id r path b = (false, log_for_request from_id r file true path b)

-- `allows url first_party` is what net::StaticCookiePolicy says, CanGetCookies(...) == net::OK or
-- CanSetCookie(...) == net::OK, when it blocks all third-party cookies.
module _ {Gurl : Type 0} (allows : Gurl → Gurl → Bool) where
  -- CookieAccessPolicy::OnCanGetCookies
  unfoldable pub on_can_get_cookies : Request Gurl → Bool
  on_can_get_cookies r = allows r.url r.first_party_for_cookies

  -- CookieAccessPolicy::OnCanSetCookie
  unfoldable pub on_can_set_cookie :
      UrlApi Gurl → (ℕ → ℕ → Option ℕ) → Request Gurl → Browser Gurl → Bool × Browser Gurl
  unfolding log_for_request
  on_can_set_cookie api from_id r b =
      let allowed = allows r.url r.first_party_for_cookies in
      (allowed, log_for_request from_id r cookie (not allowed) (api.spec r.url) b)

  -- CookieAccessPolicy::AllowGetCookie and AllowSetCookie
  unfoldable pub allow_cookie : Gurl → Gurl → Bool
  allow_cookie url first_party = allows url first_party

module _ {Gurl : Type 0} where
  unfoldable pub clear_referrer : AllSettings → Request Gurl → Request Gurl
  clear_referrer settings r =
      if should_clear_referrer settings.filters then record r { referrer = [] } else r

  -- The answer of the rewriter, with the tabs as they are.
  abbrev pub with_browser :
      Browser Gurl
      → Abort (NetError × Rewritten Gurl)
      → Abort (NetError × Rewritten Gurl × Browser Gurl)
  with_browser browser crash = crash
  with_browser browser (ok (error, out)) = ok (error, out, browser)

module _ {Gurl W : Type 0} (api : UrlApi Gurl) where
  -- The three tests before a request is blocked.
  unfoldable pub is_blocked : AllSettings → Blocker W → Request Gurl → Bool
  is_blocked settings b r =
      not (is_whitelisted api b r.first_party_for_cookies)
      && (not (api.domain_is r.url (api.host r.first_party_for_cookies))
          && should_block_third_party_request api settings.filters b r.url)

module _ {Gurl W Re : Type 0} (api : UrlApi Gurl) (re2 : Re2Api Re)
    (from_id : ℕ → ℕ → Option ℕ) where
  -- ShellNetworkDelegate::OnBeforeURLRequest
  unfoldable pub on_before_url_request :
      AllSettings
      → Blocker W
      → HttpsRewriter Re
      → Request Gurl
      → Browser Gurl
      → Abort (NetError × Rewritten Gurl × Browser Gurl)
  unfolding is_blocked clear_referrer log_for_request
  on_before_url_request settings b rewriter r browser =
      let blocked = is_blocked api settings b r in
      let browser' = log_for_request from_id r request blocked (api.spec r.url) browser in
      let rewritten =
        with_browser browser'
          (maybe_rewrite api re2 settings.https_rewrite rewriter (clear_referrer settings r)) in
      if r.is_autocomplete
      then ok (net_ok, (none, r), browser)
      else if blocked
      then ok (err_blocked_by_client, (none, r), browser')
      else rewritten

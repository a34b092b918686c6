-- ===== src/Network/Tests.antt =====
-- Runs of the network delegate on small inputs, and its theorems at concrete arguments.
use seaturtle.Common.{
  ℕ, ◌≡◌, refl, ◌⊎◌, Bool, true, false, Option, none, some, [], ◌∷◌, ◌==◌, if◌then◌else◌, Bytes,
  lit, to_lower_ascii, find_byte, bytes_eq, lookup, contains, Abort, ok,
}
use seaturtle.Url.{NetError, net_ok, err_blocked_by_client, err_unsafe_redirect, Request}
use seaturtle.Fixtures.{plain_api, schemes_differ, one_shell, one_tab}
use seaturtle.Settings.{default_settings}
use seaturtle.Blocker.{Blocker}
use seaturtle.Blocker.Whitelist.{is_whitelisted}
use seaturtle.Blocker.Blacklist.{
  is_host_evil_third_party, should_block_third_party_request, should_clear_referrer,
}
use seaturtle.Rewriter.{Re2Api, HttpsRewriter, Rewritten, maybe_rewrite}
use seaturtle.Shell.{Browser, LogEntry, request, shell_command, notify_log_event}
use seaturtle.Shell.Registry.{for_url_request}
use seaturtle.Shell.Log.{get_log, log_event}
use seaturtle.Network.{on_before_url_request}
use seaturtle.Network.Requests.{
  IsUnwanted, on_before_url_request-blocks_iff, on_before_url_request-goes_on,
  on_before_url_request-reports,
}

abbrev no_patterns : Re2Api Bytes
no_patterns = record { compile = λ p. some p; replace = λ p to text. none }

abbrev no_rules : HttpsRewriter Bytes
no_rules = record { exact_host = []; super_host = []; exact_owners = []; super_owners = [] }

abbrev ads_blocked : Blocker Bytes
ads_blocked = record {
  file_path = [];
  domain_blacklist = (lit "ads.com", record { key_in = 0; held = 0 }) ∷ [];
  global_stylesheets = [];
  domain_stylesheets = [];
  whitelist = [];
}

-- The renderer with id 1 shows the WebContents 1.
abbrev views : ℕ → ℕ → Option ℕ
views child route = if child == 1 then some 1 else none

abbrev get_from_news : Bytes → Request Bytes
get_from_news url = record {
  url = url;
  first_party_for_cookies = lit "ftp://news.org/";
  prev_rewrites = none;
  is_autocomplete = false;
  view = some (1, 2);
  referrer = lit "ftp://news.org/";
}

abbrev ad_request : Request Bytes
ad_request = get_from_news (lit "ftp://x.ads.com/b")

abbrev page_request : Request Bytes
page_request = get_from_news (lit "ftp://lib.net/j")

abbrev log_of_request : Bytes → Bool → LogEntry
log_of_request url is_blocked = record {
  type = request;
  is_blocked = is_blocked;
  description = url;
}

abbrev tab_after : Bytes → Bool → Browser Bytes
tab_after url is_blocked = record {
  all_shells = record one_shell { log = log_of_request url is_blocked ∷ [] } ∷ [];
  sent = shell_command 100 notify_log_event ∷ [];
}

abbrev before_request : Request Bytes → Abort (NetError × Rewritten Bytes × Browser Bytes)
before_request r =
    on_before_url_request plain_api no_patterns views default_settings ads_blocked no_rules r
      one_tab

ad_run :
    before_request ad_request
    ≡ ok (err_blocked_by_client, (none, ad_request), tab_after (lit "ftp://x.ads.com/b") true)
unfolding on_before_url_request log_event is_whitelisted should_block_third_party_request
    is_host_evil_third_party lookup contains bytes_eq to_lower_ascii find_byte
ad_run = refl

page_run :
    before_request page_request
    ≡ ok (
      net_ok,
      (none, record page_request { referrer = [] }),
      tab_after (lit "ftp://lib.net/j") false,
    )
unfolding on_before_url_request log_event is_whitelisted should_block_third_party_request
    should_clear_referrer maybe_rewrite is_host_evil_third_party lookup contains bytes_eq
    to_lower_ascii find_byte
page_run = refl

on_before_url_request-blocks_example :
    (ad_request.is_autocomplete ≡ false)
    × IsUnwanted plain_api no_patterns views default_settings ads_blocked no_rules ad_request
on_before_url_request-blocks_example =
    (on_before_url_request-blocks_iff plain_api no_patterns views default_settings ads_blocked
        no_rules schemes_differ ad_request one_tab).0
      (none, ad_request, tab_after (lit "ftp://x.ads.com/b") true, ad_run)

abbrev no_url : Option Bytes
no_url = none

on_before_url_request-goes_on_example :
    ((net_ok ≡ err_blocked_by_client)
      × (no_url ≡ none)
      × (record page_request { referrer = [] } ≡ page_request))
    ⊎ (((net_ok ≡ net_ok) ⊎ (net_ok ≡ err_unsafe_redirect))
        × ([] ≡ (if default_settings.filters.clear_referrer then [] else page_request.referrer))
        × (page_request.url ≡ page_request.url))
on_before_url_request-goes_on_example =
    on_before_url_request-goes_on plain_api no_patterns views default_settings ads_blocked no_rules
      schemes_differ page_request (record page_request { referrer = [] }) one_tab
      (tab_after (lit "ftp://lib.net/j") false) net_ok none refl page_run

on_before_url_request-reports_example :
    get_log 100 (tab_after (lit "ftp://x.ads.com/b") true)
    ≡ some (log_of_request (lit "ftp://x.ads.com/b") true ∷ [])
unfolding get_log for_url_request
on_before_url_request-reports_example =
    on_before_url_request-reports plain_api no_patterns views default_settings ads_blocked no_rules
      schemes_differ ad_request ad_request one_tab (tab_after (lit "ftp://x.ads.com/b") true)
      err_blocked_by_client none 100 {l = []} refl ad_run refl

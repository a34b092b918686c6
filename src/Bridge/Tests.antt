-- ===== src/Bridge/Tests.antt =====
-- Messages of Java to a browser with one shell, and the theorems on them.
use seaturtle.Common.{
  ℕ, Bool, ◌==◌, if◌then◌else◌, ◌≡◌, refl, ◌↔◌, true, false, none, some, [], ◌∷◌, Bytes, lit, ok,
  crash, bytes_eq, lookup, insert, to_lower_ascii, Runs, done, then_runs,
}
use seaturtle.Fixtures.{plain_api, test_sites, test_system, fresh, one_shell, one_tab}
use seaturtle.Blocker.{WhitelistedHost}
use seaturtle.Blocker.Whitelist.{update_whitelist, is_whitelisted, add_host, add_hosts}
use seaturtle.Blocker.Loading.{update_rules_with_path}
use seaturtle.Fetch.{fetch}
use seaturtle.Bridge.{Params, update_blocking_whitelist, http_fetch, App, Outside, java_to_native}
use seaturtle.Bridge.Parts.{shells}
use seaturtle.Shell
use seaturtle.Shell.{hide, cleanup}
use seaturtle.Shell.Registry.{for_ptr, for_web_contents}
use seaturtle.Shell.Commands.{close}
use seaturtle.Dialogs.{held_by}
use seaturtle.Bridge.Closing.{java_to_native-close}
use seaturtle.Bridge.Frame.{java_to_native-frame}
use seaturtle.Bridge.Whitelisting.{receive, IsListed, is_whitelisted-after_iff}

abbrev test_outside : Outside Bytes Bytes Bytes
test_outside = record {
  api = plain_api;
  sites = test_sites;
  sys = test_system;
  re2 = record { compile = λ re. some re; replace = λ re to text. none };
  open_file = λ path. none;
  parse_rules = λ raw. none;
  parse_sets = λ raw. none;
  from_utf8 = λ text. text;
  append_query = λ query. query;
  names = λ version cipher_suite. record {
    version_name = none;
    key_exchange = none;
    cipher = none;
    mac = none;
    is_aead = false;
  };
  ssl_version_tls1 = 0x0301;
  page_of = λ wc. record { last_committed = none; visible = none; active = none };
  backend = λ a. true;
  is_posted = true;
}

abbrev started : App Bytes Bytes Bytes (Unit {0}) (Unit {0})
started = record {
  process = fresh;
  blocker = record {
    file_path = [];
    domain_blacklist = [];
    global_stylesheets = [];
    domain_stylesheets = [];
    whitelist = [];
  };
  rewriter = record { exact_host = []; super_host = []; exact_owners = []; super_owners = [] };
  client = record { browser = one_tab; callbacks = []; asked = []; ran = [] };
  views = λ wc. none;
  dialogs = record { shells = []; last_callbacks = []; shown = []; calls = [] };
  login = record {
    held = [];
    requests = [];
    ui_tasks = [];
    io_tasks = [];
    invoked = [];
    told = [];
  };
  fetching = record {
    seq = 0;
    posted = [];
    started = [];
    given = [];
    told = [];
    fetch_getter = none;
  };
  cookies = record { persistant = tt; transient = tt; favorites = [] };
  proxy_tasks = [];
  actions = [];
  deleted_contexts = [];
}

abbrev mail_org : WhitelistedHost
mail_org = record { host = lit "Mail.org"; paths = [] }

abbrev whitelisting : App Bytes Bytes Bytes (Unit {0}) (Unit {0})
whitelisting = record started {
  blocker = record started.blocker { whitelist = (lit "mail.org", []) ∷ [] };
}

is_received :
    java_to_native test_outside (update_blocking_whitelist (mail_org ∷ [])) started
    ≡ ok (whitelisting, none)
unfolding java_to_native update_whitelist add_host add_hosts lookup insert bytes_eq to_lower_ascii
is_received = refl

-- A rule file that does not open ends the process.
no_file : java_to_native test_outside (Params.update_blocking_rules (lit "/x")) started ≡ crash
unfolding java_to_native update_rules_with_path
no_file = refl

java_to_native-frame_example :
    (whitelisting.client.browser ≡ started.client.browser)
    × (whitelisting.deleted_contexts ≡ started.deleted_contexts)
java_to_native-frame_example =
    java_to_native-frame test_outside (update_blocking_whitelist (mail_org ∷ [])) started
      is_received shells refl

abbrev afterwards : App Bytes Bytes Bytes (Unit {0}) (Unit {0})
afterwards = record whitelisting {
  fetching = record whitelisting.fetching {
    seq = 1;
    posted = record { id = 0; url = lit "u" } ∷ [];
    given = 0 ∷ [];
  };
}

both_received :
    Runs
      (receive test_outside)
      (update_blocking_whitelist (mail_org ∷ []) ∷ http_fetch (lit "u") ∷ [])
      started
      afterwards
unfolding java_to_native fetch update_whitelist add_host add_hosts lookup insert bytes_eq
    to_lower_ascii
both_received = then_runs {st1 = whitelisting} refl (then_runs {st1 = afterwards} refl done)

is_whitelisted-after_example :
    (is_whitelisted plain_api afterwards.blocker (lit "http://mail.org/in") ≡ true)
    ↔ IsListed plain_api (mail_org ∷ []) (lit "http://mail.org/in")
is_whitelisted-after_example =
    is_whitelisted-after_iff test_outside (mail_org ∷ []) (http_fetch (lit "u") ∷ []) started
      afterwards (tt, tt) both_received (lit "http://mail.org/in")

-- A script of the tab waits for Java.
abbrev asking : App Bytes Bytes Bytes (Unit {0}) (Unit {0})
asking = record started { dialogs = record started.dialogs { last_callbacks = (1, 9) ∷ [] } }

java_to_native-close_example :
    (app' : App Bytes Bytes Bytes (Unit {0}) (Unit {0})) × (java_to_native test_outside
        (Params.shell_command 100 close)
        asking
      ≡ ok (app', none))
    × ((ptr : ℕ)
        → for_ptr ptr app'.client.browser.all_shells
          ≡ (if 100 == ptr then none else for_ptr ptr (one_shell ∷ [])))
    × ((wc : ℕ)
        → for_web_contents wc app'.client.browser.all_shells
          ≡ (if 1 == wc then none else for_web_contents wc (one_shell ∷ [])))
    × ((wc : ℕ)
        → held_by wc app'.dialogs.last_callbacks
          ≡ (if 1 == wc then none else held_by wc ((1, 9) ∷ [])))
    × (app'.dialogs.calls ≡ [])
    × (app'.client.browser.sent
        ≡ Shell.shell_command 100 hide ∷ Shell.shell_command 100 cleanup ∷ [])
    × ((success : Bool) (text : Bytes)
        → java_to_native test_outside (Params.javascript_dialog_closed 1 success text) app' ≡ crash)
unfolding for_ptr
java_to_native-close_example = java_to_native-close test_outside 100 asking one_shell (tt, tt) refl

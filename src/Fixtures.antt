-- ===== src/Fixtures.antt =====
-- Test data: a plain URL type, where a URL is its text and the accessors cut it up, and a shell.
use seaturtle.Common.{
  none, some, ℕ, suc, ◌≡◌, refl, ap, ◌∙◌, lit, bytes_eq_iff, false, Bool, true, not, [], ◌∷◌, ◌==◌,
  ◌++◌, is_empty, if◌then◌else◌, length, drop, Bytes, bytes_eq,
}
use seaturtle.Url.{UrlApi}
use seaturtle.Cookies.{SiteApi}
use seaturtle.Shell.{Shell, Browser}
use seaturtle.Settings.{default_settings}
use seaturtle.Settings.Preferences.{WebPreferences}
use seaturtle.Settings.Ssl.{NetVersions}
use seaturtle.ProcessCache.{new_process_cache}
use seaturtle.Context.{Process, System}

abbrev until_byte : ℕ → Bytes → Bytes
until_byte c [] = []
until_byte c (a ∷ s) = let rest = until_byte c s in if a == c then [] else a ∷ rest

abbrev pub url_scheme : Bytes → Bytes
url_scheme u = until_byte b':' u

-- What follows "scheme://".
abbrev after_scheme : Bytes → Bytes
after_scheme u = drop (suc (suc (suc (length (until_byte b':' u))))) u

abbrev pub url_host : Bytes → Bytes
url_host u = until_byte b'/' (after_scheme u)

abbrev pub url_path : Bytes → Bytes
url_path u = drop (length (until_byte b'/' (after_scheme u))) (after_scheme u)

abbrev pub is_suffix : Bytes → Bytes → Bool
is_suffix d [] = bytes_eq d []
is_suffix d (c ∷ s) = let rest = is_suffix d s in if bytes_eq d (c ∷ s) then true else rest

abbrev pub plain_api : UrlApi Bytes
plain_api = record {
  parse = λ u. u;
  is_valid = λ u. not (bytes_eq (url_host u) []);
  spec = λ u. u;
  scheme_is = λ u s. bytes_eq (url_scheme u) s;
  host = url_host;
  path = url_path;
  domain_is = λ u d. is_suffix d (url_host u);
}

http-ne-https : bytes_eq (lit "http") (lit "https") ≡ false
unfolding bytes_eq
http-ne-https = refl

-- No text has both schemes.
pub schemes_differ :
    (u : Bytes)
    → bytes_eq (url_scheme u) (lit "http") ≡ true
    → bytes_eq (url_scheme u) (lit "https") ≡ false
schemes_differ u h =
    ap (λ s. bytes_eq s (lit "https")) ((bytes_eq_iff (url_scheme u) (lit "http")).0 h)
    ∙ http-ne-https

-- Every host of the tests is a registered domain or a name below "a.com".
abbrev pub test_sites : SiteApi Bytes
test_sites = record {
  has_host = λ u. if is_empty (url_host u) then false else true;
  get_origin = λ u. u;
  has_port = λ u. false;
  clear_port = λ u. u;
  set_host = λ d u. lit "s://" ++ d;
  domain_and_registry = λ u. if plain_api.domain_is u (lit "a.com") then lit "a.com" else [];
  no_url = [];
}

-- A shell in the common context, and a browser with no other.
abbrev pub one_shell : Shell Bytes
one_shell = record {
  self = 100;
  wc = 1;
  sbc = none;
  parent_shell = 0;
  is_fullscreen = false;
  favicon_candidate = none;
  log = [];
}

abbrev pub one_tab : Browser Bytes
one_tab = record { all_shells = one_shell ∷ []; sent = [] }

-- The network stack's numbers of the TLS versions, a system that never fails, and a process that has
-- built nothing yet.
abbrev test_net : NetVersions
test_net = record {
  ssl_protocol_version_ssl3 = 0x0300;
  ssl_protocol_version_tls1 = 0x0301;
  ssl_protocol_version_tls1_1 = 0x0302;
  ssl_protocol_version_tls1_2 = 0x0303;
  default_ssl_version_min = 0x0300;
  default_ssl_version_max = 0x0303;
}

abbrev pub test_system : System
test_system = record {
  append_path = λ path name. path ++ lit "/" ++ name;
  create_directory = λ path. true;
  accept_language_header = λ langs. langs;
  net = test_net;
  favorite_urls = [];
  accept_langs = lit "de";
}

abbrev pub fresh : Process
fresh = record {
  objects = [];
  shared = λ slot. none;
  settings = some default_settings;
  process_cache = new_process_cache;
  cleared = [];
}

-- Preferences with every field on.
abbrev pub all_enabled : WebPreferences (Unit {0})
all_enabled = record {
  javascript_enabled = true;
  web_security_enabled = true;
  javascript_can_open_windows_automatically = true;
  loads_images_automatically = true;
  images_enabled = true;
  plugins_enabled = true;
  dom_paste_enabled = true;
  java_enabled = true;
  allow_scripts_to_close_windows = true;
  remote_fonts_enabled = true;
  xss_auditor_enabled = true;
  dns_prefetching_enabled = true;
  local_storage_enabled = true;
  databases_enabled = true;
  application_cache_enabled = true;
  hyperlink_auditing_enabled = true;
  allow_universal_access_from_file_urls = true;
  allow_file_access_from_file_urls = true;
  webaudio_enabled = true;
  experimental_webgl_enabled = true;
  pepper_3d_enabled = true;
  flash_3d_enabled = true;
  flash_stage3d_enabled = true;
  flash_stage3d_baseline_enabled = true;
  privileged_webgl_extensions_enabled = true;
  accelerated_2d_canvas_enabled = true;
  accelerated_filters_enabled = true;
  allow_displaying_insecure_content = true;
  allow_running_insecure_content = true;
  password_echo_enabled = true;
  cookie_enabled = true;
  pepper_accelerated_video_decode_enabled = true;
  user_gesture_required_for_media_playback = true;
  rest = tt;
}

-- ===== src/Settings.antt =====
-- protos/setting.proto, extra/settings.h and extra/settings.cc: the settings that the Java side
-- sends. A field holds what its getter returns, the default where the message leaves it out.
pub mod Preferences
pub mod Ssl
mod Tests
use seaturtle.Common.{ℕ, Bool, true, false, Option, none, some, Abort, ok, crash}

-- settings::State
pub record State : Type 0 where
  pub gc_period_days : ℕ
  pub disk_cache_size_mb : ℕ
  pub single_context : Bool
  pub persist_cache : Bool
  pub allow_persistant_cookies : Bool

-- settings::WebPreferences
pub record WebSettings : Type 0 where
  pub javascript_enabled : Bool
  pub javascript_can_open_windows_automatically : Bool
  pub loads_images_automatically : Bool
  pub images_enabled : Bool
  pub remote_fonts_enabled : Bool
  pub dns_prefetching_enabled : Bool
  pub local_storage_enabled : Bool
  pub databases_enabled : Bool
  pub application_cache_enabled : Bool
  pub webaudio_enabled : Bool
  pub experimental_webgl_enabled : Bool
  pub accelerated_2d_canvas_enabled : Bool
  pub accelerated_filters_enabled : Bool
  pub allow_displaying_insecure_content : Bool
  pub allow_running_insecure_content : Bool
  pub cookie_enabled : Bool
  pub user_gesture_required_for_media_playback : Bool

-- settings::SslConfig::SslVersion
pub data SslVersion : Type 0 where
  ssl3 tls1 tls1_1 tls1_2 : SslVersion

-- settings::SslConfig
pub record SslSettings : Type 0 where
  pub rev_checking_enabled : Bool
  pub rev_checking_required_local_anchors : Bool
  pub version_min : SslVersion
  pub channel_id_enabled : Bool
  pub false_start_enabled : Bool
  pub signed_cert_timestamps_enabled : Bool
  pub require_forward_secrecy : Bool
  pub send_client_cert : Bool
  pub verify_ev_cert : Bool
  pub version_fallback : Bool
  pub cert_io_enabled : Bool

-- settings::HttpsRewrite
pub record HttpsRewrite : Type 0 where
  pub enabled : Bool
  pub https_only : Bool

-- settings::Filters
pub record Filters : Type 0 where
  pub clear_referrer : Bool
  pub inject_js : Bool
  pub blacklist_third_parties : Bool
  pub inject_css : Bool

-- settings::AllSettings; `spdy_enabled` is settings::Network.
pub record AllSettings : Type 0 where
  pub state : State
  pub web_preferences : WebSettings
  pub spdy_enabled : Bool
  pub ssl_config : SslSettings
  pub https_rewrite : HttpsRewrite
  pub filters : Filters

-- What the getters return for an empty message.
abbrev pub default_settings : AllSettings
default_settings = record {
  state = record {
    gc_period_days = 30;
    disk_cache_size_mb = 128;
    single_context = true;
    persist_cache = true;
    allow_persistant_cookies = true;
  };
  web_preferences = record {
    javascript_enabled = true;
    javascript_can_open_windows_automatically = true;
    loads_images_automatically = true;
    images_enabled = true;
    remote_fonts_enabled = true;
    dns_prefetching_enabled = true;
    local_storage_enabled = true;
    databases_enabled = false;
    application_cache_enabled = false;
    webaudio_enabled = true;
    experimental_webgl_enabled = true;
    accelerated_2d_canvas_enabled = true;
    accelerated_filters_enabled = true;
    allow_displaying_insecure_content = true;
    allow_running_insecure_content = false;
    cookie_enabled = true;
    user_gesture_required_for_media_playback = false;
  };
  spdy_enabled = true;
  ssl_config = record {
    rev_checking_enabled = false;
    rev_checking_required_local_anchors = false;
    version_min = ssl3;
    channel_id_enabled = true;
    false_start_enabled = true;
    signed_cert_timestamps_enabled = true;
    require_forward_secrecy = false;
    send_client_cert = false;
    verify_ev_cert = false;
    version_fallback = false;
    cert_io_enabled = true;
  };
  https_rewrite = record { enabled = true; https_only = false };
  filters = record {
    clear_referrer = true;
    inject_js = true;
    blacklist_third_parties = true;
    inject_css = true;
  };
}

-- GetGlobalSettingsRef: `none` is the null reference before the first update.
unfoldable pub get_global_settings_ref : Option AllSettings → Abort AllSettings
get_global_settings_ref none = crash
get_global_settings_ref (some s) = ok s

-- The change that UpdateGlobalSettings makes to the singleton; it then calls
-- Shell::UpdateAllWebPreferences.
unfoldable pub update_global_settings : AllSettings → Option AllSettings → Option AllSettings
update_global_settings new_settings old = some new_settings

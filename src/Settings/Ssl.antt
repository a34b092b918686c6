-- ===== src/Settings/Ssl.antt =====
-- extra/ssl_config_service.h and extra/ssl_config_service.cc: the SSL configuration that is made of
-- the settings once, when the service is created.
use seaturtle.Common.{ℕ, Bool, Option, max, Abort, ok, ◌>>=◌}
use seaturtle.Settings.{
  SslVersion, ssl3, tls1, tls1_1, tls1_2, SslSettings, AllSettings, get_global_settings_ref,
}

-- The protocol versions of net::SSLConfig, and its defaults.
pub record NetVersions : Type 0 where
  pub ssl_protocol_version_ssl3 : ℕ
  pub ssl_protocol_version_tls1 : ℕ
  pub ssl_protocol_version_tls1_1 : ℕ
  pub ssl_protocol_version_tls1_2 : ℕ
  pub default_ssl_version_min : ℕ
  pub default_ssl_version_max : ℕ

-- The fields of net::SSLConfig that the code writes.
pub record SslConfig : Type 0 where
  pub rev_checking_enabled : Bool
  pub rev_checking_required_local_anchors : Bool
  pub channel_id_enabled : Bool
  pub false_start_enabled : Bool
  pub signed_cert_timestamps_enabled : Bool
  pub require_forward_secrecy : Bool
  pub send_client_cert : Bool
  pub verify_ev_cert : Bool
  pub version_fallback : Bool
  pub cert_io_enabled : Bool
  pub version_min : ℕ
  pub version_max : ℕ

module _ (net : NetVersions) where
  -- ToContentSslVersion; the message has no other version.
  unfoldable pub to_content_ssl_version : SslVersion → ℕ
  to_content_ssl_version ssl3 = net.ssl_protocol_version_ssl3
  to_content_ssl_version tls1 = net.ssl_protocol_version_tls1
  to_content_ssl_version tls1_1 = net.ssl_protocol_version_tls1_1
  to_content_ssl_version tls1_2 = net.ssl_protocol_version_tls1_2

  -- `static_config_` after the constructor SSLConfigService::SSLConfigService.
  unfoldable pub static_config : SslSettings → SslConfig
  unfolding to_content_ssl_version
  static_config s = record {
    rev_checking_enabled = s.rev_checking_enabled;
    rev_checking_required_local_anchors = s.rev_checking_required_local_anchors;
    channel_id_enabled = s.channel_id_enabled;
    false_start_enabled = s.false_start_enabled;
    signed_cert_timestamps_enabled = s.signed_cert_timestamps_enabled;
    require_forward_secrecy = s.require_forward_secrecy;
    send_client_cert = s.send_client_cert;
    verify_ev_cert = s.verify_ev_cert;
    version_fallback = s.version_fallback;
    cert_io_enabled = s.cert_io_enabled;
    version_min = max (to_content_ssl_version s.version_min) net.default_ssl_version_min;
    version_max = net.default_ssl_version_max;
  }

  -- The constructor, with ST_SETTINGS.
  unfoldable pub new_ssl_config : Option AllSettings → Abort SslConfig
  unfolding static_config get_global_settings_ref
  new_ssl_config settings =
      get_global_settings_ref settings >>= λ s. ok (static_config s.ssl_config)

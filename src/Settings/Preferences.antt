-- ===== src/Settings/Preferences.antt =====
-- extra/settings.cc: UpdateWebPreferences, and what a series of updates leaves in the preferences.
use seaturtle.Common.{◌≡◌, Bool, true, false, ◌&&◌, List, [], ◌∷◌, arith}
use seaturtle.Settings.{WebSettings}

-- The fields of content::WebPreferences that the code writes; `rest` is all others.
pub record WebPreferences (R : Type 0) : Type 0 where
  pub javascript_enabled : Bool
  pub web_security_enabled : Bool
  pub javascript_can_open_windows_automatically : Bool
  pub loads_images_automatically : Bool
  pub images_enabled : Bool
  pub plugins_enabled : Bool
  pub dom_paste_enabled : Bool
  pub java_enabled : Bool
  pub allow_scripts_to_close_windows : Bool
  pub remote_fonts_enabled : Bool
  pub xss_auditor_enabled : Bool
  pub dns_prefetching_enabled : Bool
  pub local_storage_enabled : Bool
  pub databases_enabled : Bool
  pub application_cache_enabled : Bool
  pub hyperlink_auditing_enabled : Bool
  pub allow_universal_access_from_file_urls : Bool
  pub allow_file_access_from_file_urls : Bool
  pub webaudio_enabled : Bool
  pub experimental_webgl_enabled : Bool
  pub pepper_3d_enabled : Bool
  pub flash_3d_enabled : Bool
  pub flash_stage3d_enabled : Bool
  pub flash_stage3d_baseline_enabled : Bool
  pub privileged_webgl_extensions_enabled : Bool
  pub accelerated_2d_canvas_enabled : Bool
  pub accelerated_filters_enabled : Bool
  pub allow_displaying_insecure_content : Bool
  pub allow_running_insecure_content : Bool
  pub password_echo_enabled : Bool
  pub cookie_enabled : Bool
  pub pepper_accelerated_video_decode_enabled : Bool
  pub user_gesture_required_for_media_playback : Bool
  pub rest : R

-- The setting is on in every one of the updates.
abbrev pub all_of : (WebSettings → Bool) → List WebSettings → Bool
all_of f [] = true
all_of f (s ∷ ss) = f s && all_of f ss

module _ {R : Type 0} where
  unfoldable pub update_web_preferences : WebSettings → WebPreferences R → WebPreferences R
  update_web_preferences swp p = record {
    javascript_enabled = swp.javascript_enabled;
    web_security_enabled = true;
    javascript_can_open_windows_automatically = swp.javascript_can_open_windows_automatically;
    loads_images_automatically = swp.loads_images_automatically;
    images_enabled = swp.images_enabled;
    plugins_enabled = false;
    dom_paste_enabled = false;
    java_enabled = false;
    allow_scripts_to_close_windows = false;
    remote_fonts_enabled = swp.remote_fonts_enabled;
    xss_auditor_enabled = true;
    dns_prefetching_enabled = swp.dns_prefetching_enabled;
    local_storage_enabled = swp.local_storage_enabled;
    databases_enabled = swp.databases_enabled;
    application_cache_enabled = swp.application_cache_enabled;
    hyperlink_auditing_enabled = true;
    allow_universal_access_from_file_urls = false;
    allow_file_access_from_file_urls = false;
    webaudio_enabled = p.webaudio_enabled && swp.webaudio_enabled;
    experimental_webgl_enabled = p.experimental_webgl_enabled && swp.experimental_webgl_enabled;
    pepper_3d_enabled = false;
    flash_3d_enabled = false;
    flash_stage3d_enabled = false;
    flash_stage3d_baseline_enabled = false;
    privileged_webgl_extensions_enabled = false;
    accelerated_2d_canvas_enabled =
        p.accelerated_2d_canvas_enabled && swp.accelerated_2d_canvas_enabled;
    accelerated_filters_enabled = p.accelerated_filters_enabled && swp.accelerated_filters_enabled;
    allow_displaying_insecure_content = swp.allow_displaying_insecure_content;
    allow_running_insecure_content = swp.allow_running_insecure_content;
    password_echo_enabled = false;
    cookie_enabled = swp.cookie_enabled;
    pepper_accelerated_video_decode_enabled = false;
    user_gesture_required_for_media_playback = swp.user_gesture_required_for_media_playback;
    rest = p.rest;
  }

  -- The updates that follow one another as the settings change.
  abbrev pub update_each : List WebSettings → WebPreferences R → WebPreferences R
  update_each [] p = p
  update_each (s ∷ ss) p = update_each ss (update_web_preferences s p)

  -- A feature whose setting is joined by AND is on after a series of updates exactly when it was on
  -- before and every one of the updates had it on: switching it off is for good. The features are
  -- web audio, WebGL, the accelerated 2D canvas and accelerated filters. What the code does not write
  -- stays as it was.
  update_each-sticky :
      (ss : List WebSettings) (p : WebPreferences R)
      → let q = update_each ss p in
        (q.webaudio_enabled ≡ (p.webaudio_enabled && all_of (λ s. s.webaudio_enabled) ss))
        × (q.experimental_webgl_enabled
            ≡ (p.experimental_webgl_enabled && all_of (λ s. s.experimental_webgl_enabled) ss))
        × (q.accelerated_2d_canvas_enabled
            ≡ (p.accelerated_2d_canvas_enabled && all_of (λ s. s.accelerated_2d_canvas_enabled) ss))
        × (q.accelerated_filters_enabled
            ≡ (p.accelerated_filters_enabled && all_of (λ s. s.accelerated_filters_enabled) ss))
        × (q.rest ≡ p.rest)
  unfolding update_web_preferences
  update_each-sticky [] p = ground arith
  update_each-sticky (s ∷ ss) p = ground (arith, update_each-sticky ss (update_web_preferences s p))

  -- All that earlier updates leave behind in the preferences after a later one is that they may have
  -- switched off the four features that are joined by AND: every other preference depends on the
  -- last settings and on what the preferences were at first alone.
  update_each-last :
      (ss : List WebSettings) (s : WebSettings) (p : WebPreferences R)
      → update_web_preferences s (update_each ss p)
        ≡ update_web_preferences s (record p {
          webaudio_enabled = p.webaudio_enabled && all_of (λ t. t.webaudio_enabled) ss;
          experimental_webgl_enabled =
              p.experimental_webgl_enabled && all_of (λ t. t.experimental_webgl_enabled) ss;
          accelerated_2d_canvas_enabled =
              p.accelerated_2d_canvas_enabled && all_of (λ t. t.accelerated_2d_canvas_enabled) ss;
          accelerated_filters_enabled =
              p.accelerated_filters_enabled && all_of (λ t. t.accelerated_filters_enabled) ss;
        })
  unfolding update_web_preferences
  update_each-last ss s p = cc (
    (update_each-sticky ss p).0,
    (update_each-sticky ss p).1,
    (update_each-sticky ss p).2,
    (update_each-sticky ss p).3,
    (update_each-sticky ss p).4,
  )

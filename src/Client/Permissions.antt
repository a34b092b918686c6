-- ===== src/Client/Permissions.antt =====
-- shell/browser/shell_content_browser_client.cc, shell/browser/shell_quota_permission_context.cc and the
-- resource context of shell/browser/shell_browser_context.cc: the permissions that pages and workers
-- ask for.
pub mod Refusals
mod Tests
use seaturtle.Common.{ℕ, Bool, true, false, List, [], ◌∷◌, Bytes}
use seaturtle.Shell.{Browser}
use seaturtle.Client.{request_geolocation_permission}

-- What can be asked, where it matters with the WebContents and the spec of the frame's URL.
pub data Permission : Type 0 where
  geolocation : ℕ → Bytes → Permission
  midi_sys_ex : ℕ → Bytes → Permission
  protected_media_identifier : ℕ → Bytes → Permission
  app_cache : Bytes → Bytes → Permission
  save_local_state : Permission
  worker_database : Bytes → Permission
  worker_file_system : Bytes → Permission
  worker_indexed_db : Bytes → Permission
  quota : Bytes → Permission
  mic_access : Bytes → Permission
  camera_access : Bytes → Permission

-- RequestMidiSysExPermission
unfoldable pub request_midi_sys_ex_permission : ℕ → Bytes → Bool
request_midi_sys_ex_permission wc requesting_frame = false

-- RequestProtectedMediaIdentifierPermission
unfoldable pub request_protected_media_identifier_permission : ℕ → Bytes → Bool
request_protected_media_identifier_permission wc origin = false

unfoldable pub allow_app_cache : Bytes → Bytes → Bool
allow_app_cache manifest_url first_party = false

unfoldable pub allow_save_local_state : Bool
allow_save_local_state = false

unfoldable pub allow_worker_database : Bytes → Bool
allow_worker_database url = false

unfoldable pub allow_worker_file_system : Bytes → Bool
allow_worker_file_system url = false

unfoldable pub allow_worker_indexed_db : Bytes → Bool
allow_worker_indexed_db url = false

-- ShellQuotaPermissionContext::RequestQuotaPermission; the answer is QUOTA_PERMISSION_RESPONSE_DISALLOW.
unfoldable pub request_quota_permission : Bytes → Bool
request_quota_permission origin_url = false

-- ShellResourceContext::AllowMicAccess and AllowCameraAccess
unfoldable pub allow_mic_access : Bytes → Bool
allow_mic_access origin = false

unfoldable pub allow_camera_access : Bytes → Bool
allow_camera_access origin = false

module _ {Gurl : Type 0} where
  -- One question, with its answer and the browser after it.
  abbrev pub ask : Permission → Browser Gurl → Bool × Browser Gurl
  ask (geolocation wc url) b = request_geolocation_permission wc url b
  ask (midi_sys_ex wc url) b = (request_midi_sys_ex_permission wc url, b)
  ask (protected_media_identifier wc url) b =
      (request_protected_media_identifier_permission wc url, b)
  ask (app_cache url first_party) b = (allow_app_cache url first_party, b)
  ask save_local_state b = (allow_save_local_state, b)
  ask (worker_database url) b = (allow_worker_database url, b)
  ask (worker_file_system url) b = (allow_worker_file_system url, b)
  ask (worker_indexed_db url) b = (allow_worker_indexed_db url, b)
  ask (quota url) b = (request_quota_permission url, b)
  ask (mic_access url) b = (allow_mic_access url, b)
  ask (camera_access url) b = (allow_camera_access url, b)

  -- Questions in a row.
  abbrev pub ask_all : List Permission → Browser Gurl → List Bool × Browser Gurl
  ask_all [] b = ([], b)
  ask_all (p ∷ ps) b =
      let (answer, b') = ask p b in let (answers, b'') = ask_all ps b' in (answer ∷ answers, b'')

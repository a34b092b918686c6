-- ===== src/BrowserContext.antt =====
-- shell/browser/shell_browser_context.cc: the browser context, with what
-- shell/browser/shell_content_browser_client.cc creates for it. It is used on the UI thread.
pub mod Fetches
mod Tests
use seaturtle.Common.{
  ℕ, Bool, true, false, Option, none, some, List, [], ◌∷◌, ◌++◌, if◌then◌else◌, not, lit, Bytes,
  Abort, ok, crash, ◌>>=◌, ◌>>◌, Thread, check_on_ui,
}
use seaturtle.Context.Build.{Getter, new_getter}

-- class ShellBrowserContext: `path_` and the address in `download_manager_delegate_`.
pub record BrowserContext : Type 0 where
  pub path : Bytes
  pub download_manager_delegate : Option ℕ

abbrev pub path_in : (Bytes → Bytes → Bytes) → Option Bytes → Abort Bytes
path_in append_path none = crash
path_in append_path (some dir) = ok (append_path dir (lit "seaturtle"))

-- ShellBrowserContext::InitWhileIOAllowed, which the constructor calls: the context, and the
-- directories that it asks to be created. `exists` is base::PathExists; whether CreateDirectory
-- succeeds is not looked at.
unfoldable pub new_browser_context :
    Thread
    → (Bytes → Bytes → Bytes)
    → Option Bytes
    → (Bytes → Bool)
    → Abort (BrowserContext × List Bytes)
new_browser_context thread append_path app_data exists =
    check_on_ui thread
    >> (path_in append_path app_data >>= λ path. ok (
      record { path = path; download_manager_delegate = none },
      if exists path then [] else path ∷ [],
    ))

-- GetPath
unfoldable pub get_path : Thread → BrowserContext → Abort Bytes
get_path thread bc = check_on_ui thread >> ok bc.path

unfoldable pub is_off_the_record : BrowserContext → Bool
is_off_the_record bc = true

abbrev pub delegate_or : Option ℕ → ℕ → BrowserContext → ℕ × BrowserContext
delegate_or none a bc = (a, record bc { download_manager_delegate = some a })
delegate_or (some a) _ bc = (a, bc)

-- GetDownloadManagerDelegate; the number is the address that a new delegate gets.
unfoldable pub get_download_manager_delegate :
    Thread → ℕ → BrowserContext → Abort (ℕ × BrowserContext)
get_download_manager_delegate thread a bc =
    check_on_ui thread >> ok (delegate_or bc.download_manager_delegate a bc)

-- GetRequestContextForRenderProcess, GetMediaRequestContext, GetMediaRequestContextForRenderProcess
-- and GetMediaRequestContextForStoragePartition: what GetRequestContext gives, which is the getter of
-- the default storage partition.
unfoldable pub get_request_context_for_render_process : {G : Type 0} → Thread → ℕ → G → Abort G
get_request_context_for_render_process thread renderer_child_id getter =
    check_on_ui thread >> ok getter

unfoldable pub get_media_request_context : {G : Type 0} → Thread → G → Abort G
get_media_request_context thread getter = check_on_ui thread >> ok getter

unfoldable pub get_media_request_context_for_render_process :
    {G : Type 0} → Thread → ℕ → G → Abort G
get_media_request_context_for_render_process thread renderer_child_id getter =
    check_on_ui thread >> ok getter

unfoldable pub get_media_request_context_for_storage_partition :
    {G : Type 0} → Thread → Bytes → Bool → G → Abort G
get_media_request_context_for_storage_partition thread partition_path in_memory getter =
    check_on_ui thread >> ok getter

-- GetSpecialStoragePolicy, GetGuestManager, GetPushMessagingService and GetSSLHostStateDelegate: NULL.
unfoldable pub no_service : Thread → Abort (Option ℕ)
no_service thread = check_on_ui thread >> ok none

-- ShellContentBrowserClient::CreateRequestContext
unfoldable pub create_request_context : Thread → BrowserContext → Abort Getter
unfolding get_path
create_request_context thread bc = get_path thread bc >>= new_getter thread

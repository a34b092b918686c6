-- ===== src/Downloads.antt =====
-- shell/browser/shell_download_manager_delegate.cc and
-- shell/browser/shell_resource_dispatcher_host_delegate.cc: what goes to Java instead of to Chromium,
-- downloads and the links of other apps.
pub mod Ids
mod Tests
use seaturtle.Common.{
  ℕ, suc, ◌+◌, ◌%◌, ◌^◌, Bool, true, false, Option, List, [], ◌∷◌, ◌++◌, ◌||◌, if◌then◌else◌, lit,
  Bytes, Abort, crash,
}
use seaturtle.Url.{UrlApi}

-- What Java is asked: to start a download, or to open a link.
pub data Asked : Type 0 where
  start_download : Bytes → Asked
  intent_url : Bytes → Asked

-- content::DownloadTargetCallback: an empty path cancels the download.
pub record Target : Type 0 where
  pub target_path : Bytes
  pub intermediate_path : Bytes

-- `next_id`, the ids that were given, the targets that downloads were told, and what Java was asked,
-- the oldest first.
pub record Downloads : Type 0 where
  pub next_id : ℕ
  pub given : List ℕ
  pub targets : List Target
  pub asked : List Asked

-- The start of the process; the parameter is DownloadItem::kInvalidId.
abbrev pub new_downloads : ℕ → Downloads
new_downloads invalid_id = record {
  next_id = (invalid_id + 1) % 2 ^ 32;
  given = [];
  targets = [];
  asked = [];
}

-- ShellDownloadManagerDelegate::GetNextId
unfoldable pub get_next_id : Downloads → Downloads
get_next_id st = record st {
  given = st.given ++ st.next_id ∷ [];
  next_id = (st.next_id + 1) % 2 ^ 32;
}

-- ShellDownloadManagerDelegate::DetermineDownloadTarget, of an item with the URL
unfoldable pub determine_download_target : Bytes → Downloads → Bool × Downloads
determine_download_target item_url st = (
  true,
  record st {
    targets = st.targets ++ record { target_path = []; intermediate_path = [] } ∷ [];
    asked = st.asked ++ start_download item_url ∷ [];
  },
)

-- ShellDownloadManagerDelegate::ShouldCompleteDownload and ShouldOpenDownload
unfoldable pub should_complete_download : Abort Bool
should_complete_download = crash

unfoldable pub should_open_download : Abort Bool
should_open_download = crash

-- The schemes whose links Java is asked to open.
abbrev pub is_external : {Gurl : Type 0} → UrlApi Gurl → Gurl → Bool
is_external api url =
    api.scheme_is url (lit "intent")
    || (api.scheme_is url (lit "market")
        || (api.scheme_is url (lit "mailto")
            || (api.scheme_is url (lit "tel")
                || (api.scheme_is url (lit "sip") || api.scheme_is url (lit "sms")))))

-- ShellResourceDispatcherHostDelegate::HandleExternalProtocol; `response` is Java's answer.
unfoldable pub handle_external_protocol :
    {Gurl : Type 0} → UrlApi Gurl → Gurl → Bool → Downloads → Bool × Downloads
handle_external_protocol api url response st =
    if is_external api url
    then (response, record st { asked = st.asked ++ intent_url (api.spec url) ∷ [] })
    else (false, st)

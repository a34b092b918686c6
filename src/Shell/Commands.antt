-- ===== src/Shell/Commands.antt =====
-- shell/browser/shell.cc: the commands that Java sends to a shell, DispatchShellCommand and
-- HandleShellCommand, with what they read of the shell's page and what they ask of it.
pub mod Dispatch
pub mod Security
mod Tests
use seaturtle.Common.{
  ℕ, Bool, true, false, not, Option, none, some, List, [], ◌∷◌, ◌++◌, ltb, ◌==◌, if◌then◌else◌,
  is_empty, Bytes, lit, Abort, ok, crash,
}
use seaturtle.Url.{UrlApi, krypton_scheme}
use seaturtle.Shell.{Shell, Browser, LogEntry}
use seaturtle.Shell.Registry.{for_ptr, close_shell}

-- content::SSLStatus; `security_bits` is `none` for a negative number. The cipher suite and the
-- version are what net reads out of the connection status.
pub record SslStatus : Type 0 where
  pub is_authenticated : Bool
  pub security_bits : Option ℕ
  pub cipher_suite : ℕ
  pub ssl_version : ℕ

-- content::NavigationEntry at the address `entry_ptr`
pub record NavigationEntry (Gurl : Type 0) : Type 0 where
  pub entry_ptr : ℕ
  pub entry_url : Gurl
  pub ssl : SslStatus

-- What the commands read of a WebContents and its NavigationController.
pub record Page (Gurl : Type 0) : Type 0 where
  pub last_committed : Option (NavigationEntry Gurl)
  pub visible : Option (NavigationEntry Gurl)
  pub active : Option (NavigationEntry Gurl)

-- jni::FindInPage
pub record FindInPage : Type 0 where
  pub id : ℕ
  pub stop : Bool
  pub query : Bytes
  pub forward : Bool
  pub find_next : Bool

-- jni::ShellCommand as Java sends it; `other` is a command that the native side sends.
pub data Command : Type 0 where
  close get_parent get_ssl_status get_ssl_details get_log get_visible_url download_favicon : Command
  load_url : Bytes → Bool → Command
  reload : Bool → Command
  find_in_page : FindInPage → Command
  other : ℕ → Command

-- The names that net gives to a version and a cipher suite.
pub record CipherNames : Type 0 where
  pub version_name : Option Bytes
  pub key_exchange : Option Bytes
  pub cipher : Option Bytes
  pub mac : Option Bytes
  pub is_aead : Bool

-- jni::SSLDetails
pub record SslDetails : Type 0 where
  pub bits : Option ℕ
  pub names : Option CipherNames

-- jni::ShellCommandResponse
pub data Response : Type 0 where
  parent_shell : ℕ → Response
  ssl_status : Bool → Response
  ssl_details : Option SslDetails → Response
  log : List LogEntry → Response
  visible_url : Option Bytes → Response

-- What a command asks of the WebContents. `loads` says whether the user agent is the desktop's.
pub data Action (Gurl : Type 0) : Type 0 where
  loads : Gurl → Bool → Action Gurl
  reloads stops_finding : Action Gurl
  downloads_image : Gurl → Action Gurl
  finds : ℕ → Bytes → Bool → Bool → Action Gurl

abbrev pub bits_below_128 : Option ℕ → Bool
bits_below_128 none = true
bits_below_128 (some bits) = ltb bits 128

-- `ssl_version_tls1` is net::SSL_CONNECTION_VERSION_TLS1, `append_query` is AppendQueryParameter on
-- the URL for bad URLs.
module _ {Gurl : Type 0} (api : UrlApi Gurl) where
  -- Shell::GetSSLStatus, for the last committed entry
  abbrev pub ssl_status_of_entry : ℕ → Option (NavigationEntry Gurl) → Response
  ssl_status_of_entry ssl_version_tls1 none = ssl_status false
  ssl_status_of_entry ssl_version_tls1 (some ne) =
      if api.scheme_is ne.entry_url krypton_scheme
      then ssl_status false
      else if not ne.ssl.is_authenticated
      then ssl_status true
      else if bits_below_128 ne.ssl.security_bits
      then ssl_status true
      else if ne.ssl.cipher_suite == 0
      then ssl_status true
      else ssl_status (ltb ne.ssl.ssl_version ssl_version_tls1)

  unfoldable pub get_ssl_status_of : ℕ → Page Gurl → Response
  get_ssl_status_of ssl_version_tls1 page = ssl_status_of_entry ssl_version_tls1 page.last_committed

  -- Shell::GetVisibleUrl
  unfoldable pub get_visible_url_of : Page Gurl → Response
  get_visible_url_of page = elim page.visible [
    | none ↦ visible_url none
    | some shown ↦ elim page.last_committed [
      | none ↦ visible_url (some (api.spec shown.entry_url))
      | some last ↦
          if last.entry_ptr == shown.entry_ptr
          then visible_url none
          else visible_url (some (api.spec shown.entry_url))
    ]
  ]

  -- Shell::Load
  unfoldable pub load : (Bytes → Gurl) → Bytes → Bool → List (Action Gurl)
  load append_query surl as_desktop =
      let url = api.parse surl in
      loads (if api.is_valid url then url else append_query surl) as_desktop ∷ []

  -- Shell::Reload
  unfoldable pub reload_page : (Bytes → Gurl) → Bool → Page Gurl → List (Action Gurl)
  unfolding load
  reload_page append_query as_desktop page = elim page.active [
    | none ↦ reloads ∷ []
    | some entry ↦
        let anew = load append_query (api.spec entry.entry_url) true in
        if as_desktop then anew else reloads ∷ []
  ]

module _ {Gurl : Type 0} where
  -- Shell::GetSSLDetails
  unfoldable pub get_ssl_details_of : (ℕ → ℕ → CipherNames) → Page Gurl → Response
  get_ssl_details_of names page = elim page.last_committed [
    | none ↦ ssl_details none
    | some ne ↦
        let found = names ne.ssl.ssl_version ne.ssl.cipher_suite in
        let is_secure : Bool = elim ne.ssl.security_bits [
          | none ↦ false
          | some bits ↦ ltb 0 bits
        ] in
        ssl_details (
          some (record {
            bits = ne.ssl.security_bits;
            names =
                if is_secure then if ne.ssl.cipher_suite == 0 then none else some found else none;
          }))
  ]

  -- Shell::DownloadFavicon
  unfoldable pub download_favicon_of : Shell Gurl → List (Action Gurl)
  download_favicon_of s = elim s.favicon_candidate [
    | none ↦ []
    | some url ↦ downloads_image url ∷ []
  ]

  -- Shell::FindInPage
  unfoldable pub find_in : FindInPage → List (Action Gurl)
  find_in fip =
      (if fip.stop then stops_finding ∷ [] else [])
      ++ (if is_empty fip.query then [] else finds fip.id fip.query fip.forward fip.find_next ∷ [])

-- What a command does: its answer, what it asks of the page, and the browser afterwards.
abbrev pub Outcome : Type 0 → Type 0
Outcome Gurl = Option Response × List (Action Gurl) × Browser Gurl

module _ {Gurl : Type 0} (api : UrlApi Gurl) (append_query : Bytes → Gurl)
    (names : ℕ → ℕ → CipherNames) (ssl_version_tls1 : ℕ) where
  -- Shell::HandleShellCommand on the shell `s`, whose page is `page`; an unknown command is
  -- STNOTREACHED.
  unfoldable pub handle_shell_command :
      Command → Shell Gurl → Page Gurl → Browser Gurl → Abort (Outcome Gurl)
  unfolding close_shell load reload_page get_ssl_status_of get_ssl_details_of get_visible_url_of
      download_favicon_of find_in
  handle_shell_command close s page b = ok (none, [], close_shell s.self b)
  handle_shell_command get_parent s page b = ok (some (parent_shell s.parent_shell), [], b)
  handle_shell_command (load_url url as_desktop) s page b =
      ok (none, load api append_query url as_desktop, b)
  handle_shell_command (reload as_desktop) s page b =
      ok (none, reload_page api append_query as_desktop page, b)
  handle_shell_command get_ssl_status s page b =
      ok (some (get_ssl_status_of api ssl_version_tls1 page), [], b)
  handle_shell_command get_ssl_details s page b = ok (some (get_ssl_details_of names page), [], b)
  handle_shell_command get_log s page b = ok (some (log s.log), [], b)
  handle_shell_command get_visible_url s page b = ok (some (get_visible_url_of api page), [], b)
  handle_shell_command download_favicon s page b = ok (none, download_favicon_of s, b)
  handle_shell_command (find_in_page fip) s page b = ok (none, find_in fip, b)
  handle_shell_command (other c) s page b = crash

  abbrev pub handle_found :
      Command → (ℕ → Page Gurl) → Browser Gurl → Option (Shell Gurl) → Abort (Outcome Gurl)
  handle_found c page_of b none = crash
  handle_found c page_of b (some s) = handle_shell_command c s (page_of s.wc) b

  -- Shell::DispatchShellCommand, for the address that the command names; `page_of` gives the page of
  -- a WebContents.
  unfoldable pub dispatch_shell_command :
      ℕ → Command → (ℕ → Page Gurl) → Browser Gurl → Abort (Outcome Gurl)
  unfolding handle_shell_command for_ptr
  dispatch_shell_command native_shell c page_of b =
      handle_found c page_of b (for_ptr native_shell b.all_shells)

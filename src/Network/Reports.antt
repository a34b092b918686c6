-- ===== src/Network/Reports.antt =====
-- What a tab's log holds after the network stack has asked about one of its requests.
use seaturtle.Common.{
  ℕ, ◌≡◌, refl, sym, ap, ◌∙◌, Bool, true, false, not, Option, none, some, List, [], ◌∷◌, ◌++◌, ◌==◌,
  append-nil, if◌then◌else◌, Bytes,
}
use seaturtle.Url.{UrlApi, Request}
use seaturtle.Shell.{Browser, LogEntry, LogType, Shell, cookie, file}
use seaturtle.Shell.Registry.{for_url_request}
use seaturtle.Shell.Log.{get_log}
use seaturtle.Shell.Log.Since.{get_log-logs}
use seaturtle.Network.{log_on, log_for_request, on_can_access_file, on_can_set_cookie}

module _ {Gurl : Type 0} where
  -- The entry, in the log of the shell `s` and in no other.
  abbrev pub reported : Option (Shell Gurl) → ℕ → LogType → Bool → Bytes → List LogEntry
  reported none p t is_blocked desc = []
  reported (some s) p t is_blocked desc =
      if s.self == p
      then record { type = t; is_blocked = is_blocked; description = desc } ∷ []
      else []

  get_log-log_on :
      (o : Option (Shell Gurl)) (p : ℕ) (t : LogType) (is_blocked : Bool) (desc : Bytes)
      (b : Browser Gurl) {l : List LogEntry}
      → get_log p b ≡ some l
      → get_log p (log_on o t is_blocked desc b) ≡ some (l ++ reported o p t is_blocked desc)
  get_log-log_on none p t is_blocked desc b {l = l} found = found ∙ ap some (sym (append-nil l))
  get_log-log_on (some s) p t is_blocked desc b found =
      get_log-logs p s.self t is_blocked desc b found

  pub get_log-log_for_request :
      (from_id : ℕ → ℕ → Option ℕ) (r : Request Gurl) (p : ℕ) (t : LogType) (is_blocked : Bool)
      (desc : Bytes) (b : Browser Gurl) {l : List LogEntry}
      → get_log p b ≡ some l
      → get_log p (log_for_request from_id r t is_blocked desc b)
        ≡ some (l ++ reported (for_url_request from_id r.view b.all_shells) p t is_blocked desc)
  unfolding log_for_request
  get_log-log_for_request from_id r p t is_blocked desc b found =
      get_log-log_on (for_url_request from_id r.view b.all_shells) p t is_blocked desc b found

  -- When a server sets a cookie, or a page asks for a file, the tab of the request gets one log entry
  -- that says whether it was refused, no other tab's log changes, and the answer is the opposite of
  -- what the entry says; a file is always refused. A request without a tab is answered all the same.
  access_reports :
      (allows : Gurl → Gurl → Bool) (api : UrlApi Gurl) (from_id : ℕ → ℕ → Option ℕ)
      (r : Request Gurl) (path : Bytes) (p : ℕ) (b : Browser Gurl) {l : List LogEntry}
      → get_log p b ≡ some l
      → let tab = for_url_request from_id r.view b.all_shells in
        let (set, after_set) = on_can_set_cookie allows api from_id r b in
        let (read, after_read) = on_can_access_file from_id r path b in
        (read ≡ false)
        × (get_log p after_read ≡ some (l ++ reported tab p file true path))
        × (set ≡ allows r.url r.first_party_for_cookies)
        × (get_log p after_set ≡ some (l ++ reported tab p cookie (not set) (api.spec r.url)))
  unfolding on_can_set_cookie on_can_access_file
  access_reports allows api from_id r path p b found = (
    refl,
    get_log-log_for_request from_id r p file true path b found,
    refl,
    get_log-log_for_request from_id r p cookie (not (allows r.url r.first_party_for_cookies))
        (api.spec r.url) b found,
  )

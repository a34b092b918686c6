-- ===== src/Shell/Log.antt =====
-- shell/browser/shell.cc: the log of a shell, and the callbacks of its WebContents that write to it or
-- to the Java side. A callback runs on the shell of an address, the first one of the registry.
pub mod Events
pub mod Since
use seaturtle.Common.{
  ℕ, Bool, true, false, Option, none, some, List, [], ◌∷◌, ◌++◌, ◌==◌, if◌then◌else◌, Bytes,
}
use seaturtle.Shell.{
  Shell, Browser, LogType, LogEntry, Message, exit_fullscreen_mode, notify_log_event, is_loading,
  update_visible_url, did_finish_load, send_command,
}
use seaturtle.Shell.Registry.{for_ptr}

module _ {Gurl : Type 0} where
  -- The store of a method's `this`.
  unfoldable pub update_shell :
      ℕ → (Shell Gurl → Shell Gurl) → List (Shell Gurl) → List (Shell Gurl)
  update_shell self f [] = []
  update_shell self f (s ∷ shells) =
      if s.self == self then f s ∷ shells else s ∷ update_shell self f shells

  -- Shell::LogEvent
  unfoldable pub log_event : ℕ → LogType → Bool → Bytes → Browser Gurl → Browser Gurl
  unfolding update_shell
  log_event self t is_blocked desc b =
      let le : LogEntry = record { type = t; is_blocked = is_blocked; description = desc } in
      send_command self notify_log_event (record b {
        all_shells = update_shell self (λ s. record s { log = s.log ++ le ∷ [] }) b.all_shells;
      })

  abbrev pub log_of : Option (Shell Gurl) → Option (List LogEntry)
  log_of none = none
  log_of (some s) = some s.log

  -- Shell::GetLog, of the shell of an address
  unfoldable pub get_log : ℕ → Browser Gurl → Option (List LogEntry)
  unfolding for_ptr
  get_log self b = log_of (for_ptr self b.all_shells)

  unfoldable pub clear_log : Bool → Shell Gurl → Shell Gurl
  clear_log to_different_page s = if to_different_page then record s { log = [] } else s

  -- Shell::DidNavigateMainFrame, with the spec of the page's URL
  unfoldable pub did_navigate_main_frame : ℕ → Bool → Bytes → Browser Gurl → Browser Gurl
  unfolding update_shell clear_log
  did_navigate_main_frame self to_different_page url b =
      let b' = record b {
        all_shells = update_shell self (clear_log to_different_page) b.all_shells;
      } in
      let b'' = send_command self (update_visible_url url) b' in
      record b'' {
        all_shells = update_shell self (λ s. record s { favicon_candidate = none }) b''.all_shells;
      }

  -- Shell::LoadingStateChanged
  unfoldable pub loading_state_changed : ℕ → Bool → Browser Gurl → Browser Gurl
  loading_state_changed self loading b = send_command self (is_loading loading) b

  -- Shell::DidFinishLoad, with the frames as numbers
  unfoldable pub did_finish_load_in : ℕ → ℕ → ℕ → Bytes → Bytes → Browser Gurl → Browser Gurl
  did_finish_load_in self main_frame rfh url title b =
      if main_frame == rfh then send_command self (did_finish_load url title) b else b

  -- Shell::ToggleFullscreenModeForTab
  unfoldable pub toggle_fullscreen_mode : ℕ → Bool → Browser Gurl → Browser Gurl
  unfolding update_shell
  toggle_fullscreen_mode self enter b =
      let b' = record b {
        all_shells = update_shell self (λ s. record s { is_fullscreen = enter }) b.all_shells;
      } in
      if enter then b' else record b' { sent = b'.sent ++ exit_fullscreen_mode ∷ [] }

-- ===== src/Shell.antt =====
-- shell/browser/shell.h and shell/browser/shell.cc: the tabs. The browser's state is the registry of
-- shells and the messages that went to the Java side; the children have the operations.
pub mod Registry
pub mod Log
pub mod Favicon
pub mod Commands
pub mod WebPages
pub mod Opening
pub mod Icons
mod Tests
use seaturtle.Common.{ℕ, Bool, Option, none, List, [], ◌∷◌, ◌++◌, Bytes}

-- jni::LogEvent::Type
pub data LogType : Type 0 where
  request cookie file location sub_resource_ssl_error popup : LogType

-- jni::LogEvent
pub record LogEntry : Type 0 where
  pub type : LogType
  pub is_blocked : Bool
  pub description : Bytes

-- The commands of jni::ShellCommand that the native side sends, with the fields that it sets.
pub data Notice : Type 0 where
  is_loading : Bool → Notice
  hide cleanup notify_log_event notify_popup_opened : Notice
  update_visible_url : Bytes → Notice
  did_finish_load : Bytes → Bytes → Notice

-- What is passed to jni::Invoke without an answer.
pub data Message : Type 0 where
  shell_command : ℕ → Notice → Message
  launch_shell_response : ℕ → ℕ → Message
  exit_fullscreen_mode : Message

-- class Shell. Pointers are numbers: `self` is the shell's own address, `wc` its WebContents, and
-- `sbc` the browser context that it owns, if any.
pub record Shell (Gurl : Type 0) : Type 0 where
  pub self : ℕ
  pub wc : ℕ
  pub sbc : Option ℕ
  pub parent_shell : ℕ
  pub is_fullscreen : Bool
  pub favicon_candidate : Option Gurl
  pub log : List LogEntry

-- `Shell::all_shells_` and the messages sent so far, the oldest first.
pub record Browser (Gurl : Type 0) : Type 0 where
  pub all_shells : List (Shell Gurl)
  pub sent : List Message

module _ {Gurl : Type 0} where
  -- Shell::SendCommand
  abbrev pub send_command : ℕ → Notice → Browser Gurl → Browser Gurl
  send_command self c b = record b { sent = b.sent ++ shell_command self c ∷ [] }

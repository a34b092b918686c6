-- ===== src/Dialogs.antt =====
-- shell/browser/shell_javascript_dialog_manager.cc: the dialogs of scripts, which Java shows and
-- answers.
pub mod Calls
mod Tests
use seaturtle.Common.{
  ℕ, Bool, true, false, not, Option, none, some, List, [], ◌∷◌, ◌++◌, ◌==◌, if◌then◌else◌, Bytes,
  Abort, ok, crash,
}
use seaturtle.Shell.{Shell}
use seaturtle.Shell.Registry.{for_web_contents}

-- jni::JavascriptDialog::JsMessageType; `unknown` is any other number of content's type.
pub data JsMessageType : Type 0 where
  alert confirm prompt before_unload unknown : JsMessageType

-- The shells, `last_callback_` of each manager that holds one, by the WebContents of its shell, the
-- dialogs that Java was asked to show, and the calls of callbacks, the oldest first. A callback is a
-- number.
pub record Dialogs (Gurl : Type 0) : Type 0 where
  pub shells : List (Shell Gurl)
  pub last_callbacks : List (ℕ × ℕ)
  pub shown : List (ℕ × JsMessageType)
  pub calls : List (ℕ × Bool × Bytes)

-- `last_callback_.get()` and `last_callback_.reset()` of the manager of a WebContents.
unfoldable pub held_by : ℕ → List (ℕ × ℕ) → Option ℕ
held_by wc [] = none
held_by wc (entry ∷ entries) =
    let rest = held_by wc entries in if entry.0 == wc then some entry.1 else rest

unfoldable pub reset : ℕ → List (ℕ × ℕ) → List (ℕ × ℕ)
reset wc [] = []
reset wc (entry ∷ entries) =
    let rest = reset wc entries in if entry.0 == wc then rest else entry ∷ rest

module _ {Gurl : Type 0} where
  abbrev pub show : ℕ → JsMessageType → ℕ → Dialogs Gurl → Dialogs Gurl
  show wc type callback st = record st {
    last_callbacks = (wc, callback) ∷ reset wc st.last_callbacks;
    shown = st.shown ++ (wc, type) ∷ [];
  }

  -- RunJavaScriptDialog; a type that it does not know is STNOTREACHED, and so is content's type for
  -- no dialog of a script.
  unfoldable pub run_javascript_dialog : ℕ → JsMessageType → ℕ → Dialogs Gurl → Abort (Dialogs Gurl)
  unfolding reset
  run_javascript_dialog wc alert callback st = ok (show wc alert callback st)
  run_javascript_dialog wc confirm callback st = ok (show wc confirm callback st)
  run_javascript_dialog wc prompt callback st = ok (show wc prompt callback st)
  run_javascript_dialog wc before_unload callback st = crash
  run_javascript_dialog wc unknown callback st = crash

  -- RunBeforeUnloadDialog
  unfoldable pub run_before_unload_dialog : ℕ → ℕ → Dialogs Gurl → Dialogs Gurl
  unfolding reset
  run_before_unload_dialog wc callback st = show wc before_unload callback st

  -- CancelActiveAndPendingDialogs, and WebContentsDestroyed, which does the same
  unfoldable pub cancel_dialogs : ℕ → Dialogs Gurl → Dialogs Gurl
  unfolding reset
  cancel_dialogs wc st = record st { last_callbacks = reset wc st.last_callbacks }

  abbrev pub close_dialog :
      Option (Shell Gurl) → Option ℕ → ℕ → Bool → Bytes → Dialogs Gurl → Abort (Dialogs Gurl)
  close_dialog none held wc success text st = crash
  close_dialog (some shell) none wc success text st = crash
  close_dialog (some shell) (some callback) wc success text st = ok (record st {
    last_callbacks = reset wc st.last_callbacks;
    calls = st.calls ++ (callback, success, text) ∷ [];
  })

  -- DialogClosed: Java's answer for the WebContents.
  unfoldable pub dialog_closed : ℕ → Bool → Bytes → Dialogs Gurl → Abort (Dialogs Gurl)
  unfolding held_by reset for_web_contents
  dialog_closed wc success text st =
      close_dialog (for_web_contents wc st.shells) (held_by wc st.last_callbacks) wc success text st

-- ===== src/Login.antt =====
-- shell/browser/shell_login_dialog.h and shell/browser/shell_login_dialog.cc: the dialogs that ask for
-- a user name and a password. A dialog lives on two threads, which hand it over by posted tasks; each
-- task keeps it alive, and so does the resource dispatcher host, until the request is answered.
pub mod Tasks
pub mod Answers
mod Tests
use seaturtle.Common.{
  ℕ, Bool, true, false, not, Option, none, some, List, [], ◌∷◌, ◌++◌, map, ◌==◌, ◌||◌,
  if◌then◌else◌, Bytes, Abort, ok, crash, ◌>>=◌, ◌>>◌, check, Thread, ui, io, check_on_ui,
  check_on_io,
}

-- class ShellLoginDialog: its address and `request_`.
pub record LoginDialog : Type 0 where
  pub self : ℕ
  pub request : ℕ

-- What a request is told.
pub data Credentials : Type 0 where
  set_auth : Bytes → Bytes → Credentials
  cancel_auth : Credentials

-- The tasks that are posted to the UI thread and to the IO thread. `host` and `realm` are the texts
-- of the challenge.
pub data UiTask : Type 0 where
  prep_dialog_task : LoginDialog → Bytes → Bytes → UiTask
  platform_request_cancelled_task : LoginDialog → UiTask

pub record IoTask : Type 0 where
  pub dialog : LoginDialog
  pub success : Bool
  pub username : Bytes
  pub password : Bytes

-- jni::HttpAuth
pub record HttpAuth : Type 0 where
  pub native_object : ℕ
  pub is_cancel : Bool
  pub host : Bytes
  pub realm : Bytes

-- jni::HttpAuthResponse
pub record HttpAuthResponse : Type 0 where
  pub native_object : ℕ
  pub is_user_cancelled : Bool
  pub username : Bytes
  pub password : Bytes

-- The dialogs that the host holds, the requests that are alive, the two queues, what Java was asked,
-- and what requests were told, the oldest first.
pub record Login : Type 0 where
  pub held : List LoginDialog
  pub requests : List ℕ
  pub ui_tasks : List UiTask
  pub io_tasks : List IoTask
  pub invoked : List HttpAuth
  pub told : List (ℕ × Credentials)

-- The constructor, with the host's reference to the new dialog.
unfoldable pub new_login_dialog : Thread → LoginDialog → Bytes → Bytes → Login → Abort Login
new_login_dialog thread d host realm st =
    check_on_io thread
    >> ok (record st {
      held = d ∷ st.held;
      ui_tasks = st.ui_tasks ++ prep_dialog_task d host realm ∷ [];
    })

-- OnRequestCancelled
unfoldable pub on_request_cancelled : Thread → LoginDialog → Login → Abort Login
on_request_cancelled thread d st =
    check_on_io thread
    >> ok (record st { ui_tasks = st.ui_tasks ++ platform_request_cancelled_task d ∷ [] })

abbrev pub post_io : LoginDialog → Bool → Bytes → Bytes → Login → Login
post_io d success username password st =
    let task : IoTask = record {
      dialog = d;
      success = success;
      username = username;
      password = password;
    } in
    record st { io_tasks = st.io_tasks ++ task ∷ [] }

-- UserAcceptedAuth
unfoldable pub user_accepted_auth : Thread → LoginDialog → Bytes → Bytes → Login → Abort Login
user_accepted_auth thread d username password st =
    check_on_ui thread >> ok (post_io d true username password st)

-- UserCancelledAuth
unfoldable pub user_cancelled_auth : Thread → LoginDialog → Login → Abort Login
user_cancelled_auth thread d st = check_on_ui thread >> ok (post_io d false [] [] st)

-- PrepDialog
unfoldable pub prep_dialog : Thread → LoginDialog → Bytes → Bytes → Login → Abort Login
prep_dialog thread d host realm st =
    let p : HttpAuth = record {
      native_object = d.self;
      is_cancel = false;
      host = host;
      realm = realm;
    } in
    check_on_ui thread >> ok (record st { invoked = st.invoked ++ p ∷ [] })

-- PlatformRequestCancelled
unfoldable pub platform_request_cancelled : Thread → LoginDialog → Login → Abort Login
platform_request_cancelled thread d st =
    let p : HttpAuth = record { native_object = d.self; is_cancel = true; host = []; realm = [] } in
    check_on_ui thread >> ok (record st { invoked = st.invoked ++ p ∷ [] })

abbrev pub is_alive : ℕ → List ℕ → Bool
is_alive r [] = false
is_alive r (r' ∷ requests) = r' == r || is_alive r requests

-- ClearLoginDelegateForRequest
unfoldable pub clear_login_delegate : ℕ → List LoginDialog → List LoginDialog
clear_login_delegate request [] = []
clear_login_delegate request (d ∷ held) =
    let rest = clear_login_delegate request held in if d.request == request then rest else d ∷ rest

abbrev pub credentials : IoTask → Credentials
credentials task = if task.success then set_auth task.username task.password else cancel_auth

-- SendAuthToRequester; a request that is gone is dereferenced.
unfoldable pub send_auth_to_requester : Thread → IoTask → Login → Abort Login
unfolding clear_login_delegate
send_auth_to_requester thread task st =
    check_on_io thread
    >> (check (is_alive task.dialog.request st.requests)
        >> ok (record st {
          told = st.told ++ (task.dialog.request, credentials task) ∷ [];
          held = clear_login_delegate task.dialog.request st.held;
        }))

-- What `reinterpret_cast` finds at an address: a dialog that the host holds, or one that a task does.
abbrev pub find_dialog : ℕ → List LoginDialog → Option LoginDialog
find_dialog ptr [] = none
find_dialog ptr (d ∷ ds) = if d.self == ptr then some d else find_dialog ptr ds

abbrev pub of_ui_task : UiTask → LoginDialog
of_ui_task (prep_dialog_task d host realm) = d
of_ui_task (platform_request_cancelled_task d) = d

abbrev pub live_dialogs : Login → List LoginDialog
live_dialogs st =
    st.held ++ (map of_ui_task st.ui_tasks ++ map (λ (t : IoTask). t.dialog) st.io_tasks)

abbrev pub respond_to : Option LoginDialog → HttpAuthResponse → Login → Abort Login
respond_to none response st = crash
respond_to (some d) response st =
    if response.is_user_cancelled
    then user_cancelled_auth ui d st
    else user_accepted_auth ui d response.username response.password st

-- ProcessResponse, on the UI thread, where Java calls it.
unfoldable pub process_response : HttpAuthResponse → Login → Abort Login
unfolding user_cancelled_auth user_accepted_auth
process_response response st =
    respond_to (find_dialog response.native_object (live_dialogs st)) response st

-- The next task of a thread, if there is one, which then is no longer in its queue.
unfoldable pub run_ui_task : Login → List UiTask → Abort Login
unfolding prep_dialog platform_request_cancelled
run_ui_task st [] = ok st
run_ui_task st (prep_dialog_task d host realm ∷ rest) =
    prep_dialog ui d host realm (record st { ui_tasks = rest })
run_ui_task st (platform_request_cancelled_task d ∷ rest) =
    platform_request_cancelled ui d (record st { ui_tasks = rest })

unfoldable pub run_io_tasks : List IoTask → Login → Abort Login
unfolding send_auth_to_requester
run_io_tasks [] st = ok st
run_io_tasks (task ∷ rest) st =
    send_auth_to_requester io task (record st { io_tasks = rest }) >>= run_io_tasks rest

-- The IO thread runs the tasks that are posted to it.
unfoldable pub run_io : Login → Abort Login
unfolding run_io_tasks
run_io st = run_io_tasks st.io_tasks st

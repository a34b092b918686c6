-- ===== src/Login/Tests.antt =====
-- A challenge, its dialog and the user's answer, and the theorems on them.
use seaturtle.Common.{
  ◌≡◌, refl, ◌↔◌, ◌⊎◌, false, [], ◌∷◌, ◌++◌, map, Any, lit, ok, crash, ◌>>=◌, io,
}
use seaturtle.Login.{
  LoginDialog, set_auth, HttpAuthResponse, Login, new_login_dialog, run_ui_task, process_response,
  run_io, clear_login_delegate, is_alive,
}
use seaturtle.Login.Answers.{answer-arrives, late_answer-crash_iff}
use seaturtle.Login.Tasks.{IsTooLate, told_by, answer_of, clear_all}

abbrev one_dialog : LoginDialog
one_dialog = record { self = 7; request = 3 }

abbrev challenged : Login
challenged = record {
  held = [];
  requests = 3 ∷ [];
  ui_tasks = [];
  io_tasks = [];
  invoked = [];
  told = [];
}

abbrev asked : Login
asked = record challenged {
  held = one_dialog ∷ [];
  invoked =
      record { native_object = 7; is_cancel = false; host = lit "a.com"; realm = lit "r" } ∷ [];
}

-- The request was cancelled, and Java does not know yet.
abbrev cancelled : Login
cancelled = record asked { requests = [] }

abbrev accepts : HttpAuthResponse
accepts = record {
  native_object = 7;
  is_user_cancelled = false;
  username = lit "u";
  password = lit "p";
}

is_asked :
    (new_login_dialog io one_dialog (lit "a.com") (lit "r") challenged >>= λ st.
    run_ui_task st st.ui_tasks)
    ≡ ok asked
unfolding new_login_dialog run_ui_task
is_asked = refl

answered_run :
    (process_response accepts asked >>= run_io)
    ≡ ok (record asked { held = []; told = (3, set_auth (lit "u") (lit "p")) ∷ [] })
unfolding process_response run_io
answered_run = refl

answered_twice :
    (process_response accepts asked >>= λ st. run_io st >>= process_response accepts) ≡ crash
unfolding process_response run_io
answered_twice = refl

answer-arrives_example :
    (process_response accepts asked >>= run_io)
    ≡ ok (record asked {
      io_tasks = [];
      told = [] ++ (map told_by [] ++ (3, answer_of accepts) ∷ []);
      held = clear_login_delegate 3 (clear_all [] (one_dialog ∷ []));
    })
answer-arrives_example = answer-arrives accepts one_dialog asked refl tt refl

late_answer-crash_example :
    ((process_response accepts cancelled >>= run_io) ≡ crash)
    ↔ (Any (IsTooLate cancelled) [] ⊎ (is_alive 3 [] ≡ false))
late_answer-crash_example = late_answer-crash_iff accepts one_dialog cancelled refl

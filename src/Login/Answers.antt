-- ===== src/Login/Answers.antt =====
-- The user's answers reach the requests that asked for them.
use seaturtle.Common.{
  ◌≡◌, refl, ◌∙◌, ap, ◌↔◌, ◌⊎◌, inl, inr, true, false, some, List, [], ◌∷◌, ◌++◌, map,
  if◌then◌else◌, Bool-cases, All, Any, ok, crash, ◌>>=◌,
}
use seaturtle.Login.{
  LoginDialog, IoTask, HttpAuthResponse, Login, is_alive, clear_login_delegate, find_dialog,
  live_dialogs, respond_to, process_response, run_io, user_accepted_auth, user_cancelled_auth,
}
use seaturtle.Login.Tasks.{
  IsAnswerable, IsTooLate, told_by, clear_all, answer_of, run_io_tasks-answered, run_io_tasks-crash,
  IsAnswerable-or_late,
}

-- The task that an answer posts.
abbrev task_of : LoginDialog → HttpAuthResponse → IoTask
task_of d response =
    if response.is_user_cancelled
    then record { dialog = d; success = false; username = []; password = [] }
    else record {
      dialog = d;
      success = true;
      username = response.username;
      password = response.password;
    }

abbrev posted : IoTask → Login → Login
posted task st = record st { io_tasks = st.io_tasks ++ task ∷ [] }

respond_to-posted :
    (response : HttpAuthResponse) (d : LoginDialog) (st : Login)
    → respond_to (some d) response st ≡ ok (posted (task_of d response) st)
unfolding user_cancelled_auth user_accepted_auth
respond_to-posted response d st = elim (Bool-cases response.is_user_cancelled) [
  | inl e ↦ rw e refl
  | inr e ↦ rw e refl
]

told_by-task_of :
    (response : HttpAuthResponse) (d : LoginDialog)
    → told_by (task_of d response) ≡ (d.request, answer_of response)
told_by-task_of response d = elim (Bool-cases response.is_user_cancelled) [
  | inl e ↦ rw e refl
  | inr e ↦ rw e refl
]

request-task_of :
    (response : HttpAuthResponse) (d : LoginDialog)
    → (task_of d response).dialog.request ≡ d.request
request-task_of response d = ap (λ x. x.0) (told_by-task_of response d)

All-snoc :
    (st : Login) (tasks : List IoTask) (task : IoTask)
    → All (IsAnswerable st) tasks
    → IsAnswerable st task
    → All (IsAnswerable st) (tasks ++ task ∷ [])
All-snoc st [] task h k = (k, tt)
All-snoc st (x ∷ tasks) task h k = (h.0, All-snoc st tasks task h.1 k)

told_by-snoc :
    (tasks : List IoTask) (task : IoTask)
    → map told_by (tasks ++ task ∷ []) ≡ map told_by tasks ++ told_by task ∷ []
told_by-snoc [] task = refl
told_by-snoc (x ∷ tasks) task = rw (told_by-snoc tasks task) refl

clear_all-snoc :
    (tasks : List IoTask) (task : IoTask) (held : List LoginDialog)
    → clear_all (tasks ++ task ∷ []) held
      ≡ clear_login_delegate task.dialog.request (clear_all tasks held)
clear_all-snoc [] task held = refl
clear_all-snoc (x ∷ tasks) task held =
    clear_all-snoc tasks task (clear_login_delegate x.dialog.request held)

-- Let Java answer for a dialog that is alive, when the IO thread has tasks that were posted before.
-- The answer is posted last. If then every request of these tasks and of the dialog is still there,
-- the IO thread tells each request its answer in the order of posting, the dialog's request last,
-- drops the host's references to their dialogs, and changes nothing else.
pub answer-arrives :
    (response : HttpAuthResponse) (d : LoginDialog) (st : Login)
    → find_dialog response.native_object (live_dialogs st) ≡ some d
    → All (IsAnswerable st) st.io_tasks
    → is_alive d.request st.requests ≡ true
    → (process_response response st >>= run_io)
      ≡ ok (record st {
        io_tasks = [];
        told = st.told ++ (map told_by st.io_tasks ++ (d.request, answer_of response) ∷ []);
        held = clear_login_delegate d.request (clear_all st.io_tasks st.held);
      })
unfolding process_response run_io
answer-arrives response d st found h alive =
    let task = task_of d response in
    let answerable : IsAnswerable st task =
      ap (λ r. is_alive r st.requests) (request-task_of response d) ∙ alive in
    rw (found, respond_to-posted response d st)
      (run_io_tasks-answered (st.io_tasks ++ task ∷ []) (posted task st) refl
          (All-snoc st st.io_tasks task h answerable)
        ∙ rw
            (
              told_by-snoc st.io_tasks task,
              clear_all-snoc st.io_tasks task st.held,
              told_by-task_of response d,
              request-task_of response d,
            )
            refl)

Any-snoc :
    (st : Login) (tasks : List IoTask) (task : IoTask)
    → Any (IsTooLate st) tasks ⊎ IsTooLate st task
    → Any (IsTooLate st) (tasks ++ task ∷ [])
Any-snoc st [] task (inl h) = absurd h
Any-snoc st [] task (inr h) = inl h
Any-snoc st (x ∷ tasks) task (inl (inl h)) = inl h
Any-snoc st (x ∷ tasks) task (inl (inr h)) = inr (Any-snoc st tasks task (inl h))
Any-snoc st (x ∷ tasks) task (inr h) = inr (Any-snoc st tasks task (inr h))

-- Let Java answer for a dialog that is alive. The process ends, at the latest when the IO thread has
-- run its tasks, exactly if a request is gone for which an answer had been posted before, or the
-- request of the dialog itself: a request that is cancelled while its answer is on the way is used
-- after it was freed.
pub late_answer-crash_iff :
    (response : HttpAuthResponse) (d : LoginDialog) (st : Login)
    → find_dialog response.native_object (live_dialogs st) ≡ some d
    → ((process_response response st >>= run_io) ≡ crash)
      ↔ (Any (IsTooLate st) st.io_tasks ⊎ (is_alive d.request st.requests ≡ false))
unfolding process_response run_io
late_answer-crash_iff response d st found = (ends, late)
  where
    ends :
        (process_response response st >>= run_io) ≡ crash
        → Any (IsTooLate st) st.io_tasks ⊎ (is_alive d.request st.requests ≡ false)
    ends e = elim (IsAnswerable-or_late st.io_tasks st) [
      | inr h ↦ inl h
      | inl h ↦ elim (Bool-cases (is_alive d.request st.requests)) [
        | inr gone ↦ inr gone
        | inl alive ↦ cc (answer-arrives response d st found h alive)
      ]
    ]

    of_request :
        Any (IsTooLate st) st.io_tasks ⊎ (is_alive d.request st.requests ≡ false)
        → Any (IsTooLate st) st.io_tasks ⊎ IsTooLate st (task_of d response)
    of_request (inl h') = inl h'
    of_request (inr gone) =
        inr (ap (λ r. is_alive r st.requests) (request-task_of response d) ∙ gone)

    late :
        Any (IsTooLate st) st.io_tasks ⊎ (is_alive d.request st.requests ≡ false)
        → (process_response response st >>= run_io) ≡ crash
    late h =
        rw (found, respond_to-posted response d st)
          (run_io_tasks-crash (st.io_tasks ++ task_of d response ∷ [])
            (posted (task_of d response) st)
            (Any-snoc st st.io_tasks (task_of d response) (of_request h)))

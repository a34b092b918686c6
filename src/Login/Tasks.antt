-- ===== src/Login/Tasks.antt =====
-- What the IO thread makes of the answers that are posted to it.
use seaturtle.Common.{
  ℕ, ◌≡◌, refl, ◌∙◌, ◌⊎◌, inl, inr, true, false, List, [], ◌∷◌, ◌++◌, map, append-nil, append_assoc,
  arith, if◌then◌else◌, Bool-cases, All, Any, ok, crash,
}
use seaturtle.Login.{
  LoginDialog, Credentials, set_auth, cancel_auth, IoTask, HttpAuthResponse, Login, is_alive,
  clear_login_delegate, credentials, run_io_tasks,
}

-- The request of the task is there, or is gone.
abbrev pub IsAnswerable : Login → IoTask → Type 0
IsAnswerable st task = is_alive task.dialog.request st.requests ≡ true

abbrev pub IsTooLate : Login → IoTask → Type 0
IsTooLate st task = is_alive task.dialog.request st.requests ≡ false

abbrev pub told_by : IoTask → ℕ × Credentials
told_by task = (task.dialog.request, credentials task)

abbrev pub clear_all : List IoTask → List LoginDialog → List LoginDialog
clear_all [] held = held
clear_all (task ∷ tasks) held = clear_all tasks (clear_login_delegate task.dialog.request held)

abbrev pub answer_of : HttpAuthResponse → Credentials
answer_of response =
    if response.is_user_cancelled then cancel_auth else set_auth response.username response.password

-- The state after all posted answers have been given.
abbrev pub answered : List IoTask → Login → Login
answered tasks st = record st {
  io_tasks = [];
  told = st.told ++ map told_by tasks;
  held = clear_all tasks st.held;
}

keep_told :
    (a : ℕ × Credentials) (xs ys : List (ℕ × Credentials)) → (xs ++ a ∷ []) ++ ys ≡ xs ++ a ∷ ys
keep_told a xs ys = append_assoc xs (a ∷ []) ys

pub run_io_tasks-answered :
    (tasks : List IoTask) (st : Login)
    → st.io_tasks ≡ tasks
    → All (IsAnswerable st) tasks
    → run_io_tasks tasks st ≡ ok (answered tasks st)
unfolding run_io_tasks
run_io_tasks-answered [] st e h = ground (arith, append-nil st.told, e)
run_io_tasks-answered (task ∷ tasks) st e h = rw h.0 (
    run_io_tasks-answered tasks
      (record st {
        io_tasks = tasks;
        told = st.told ++ told_by task ∷ [];
        held = clear_login_delegate task.dialog.request st.held;
      })
      refl h.1
    ∙ rw (keep_told (told_by task) st.told (map told_by tasks)) refl)

pub run_io_tasks-crash :
    (tasks : List IoTask) (st : Login) → Any (IsTooLate st) tasks → run_io_tasks tasks st ≡ crash
unfolding run_io_tasks
run_io_tasks-crash [] st h = absurd h
run_io_tasks-crash (task ∷ tasks) st (inl late) = rw late refl
run_io_tasks-crash (task ∷ tasks) st (inr h) =
    elim (Bool-cases (is_alive task.dialog.request st.requests)) [
      | inl alive ↦ rw alive (
          run_io_tasks-crash tasks
            (record st {
              io_tasks = tasks;
              told = st.told ++ told_by task ∷ [];
              held = clear_login_delegate task.dialog.request st.held;
            })
            h)
      | inr late ↦ rw late refl
    ]

pub IsAnswerable-or_late :
    (tasks : List IoTask) (st : Login) → All (IsAnswerable st) tasks ⊎ Any (IsTooLate st) tasks
IsAnswerable-or_late [] st = inl tt
IsAnswerable-or_late (task ∷ tasks) st =
    elim (Bool-cases (is_alive task.dialog.request st.requests)) [
      | inr late ↦ inr (inl late)
      | inl alive ↦ elim (IsAnswerable-or_late tasks st) [
        | inl rest ↦ inl (alive, rest)
        | inr late ↦ inr (inr late)
      ]
    ]

-- ===== src/Dialogs/Tests.antt =====
-- Dialogs of one shell, and the theorem on them at concrete arguments.
use seaturtle.Common.{◌+◌, ◌≤◌, ◌≡◌, refl, true, [], ◌∷◌, Bytes, lit, ok, crash, done, then_runs}
use seaturtle.Fixtures.{one_shell}
use seaturtle.Dialogs.{alert, confirm, Dialogs, run_javascript_dialog, dialog_closed}
use seaturtle.Dialogs.Calls.{opens, closes, times_called, times_held, times_opened, calls_bounded}

abbrev quiet : Dialogs Bytes
quiet = record { shells = one_shell ∷ []; last_callbacks = []; shown = []; calls = [] }

abbrev asking : Dialogs Bytes
asking = record quiet { last_callbacks = (1, 7) ∷ []; shown = (1, alert) ∷ [] }

-- A second dialog takes the place of the first, whose callback is not called.
abbrev asking_again : Dialogs Bytes
asking_again = record quiet { last_callbacks = (1, 8) ∷ []; shown = (1, alert) ∷ (1, confirm) ∷ [] }

abbrev answered : Dialogs Bytes
answered = record asking_again { last_callbacks = []; calls = (8, true, lit "y") ∷ [] }

first_opens : run_javascript_dialog 1 alert 7 quiet ≡ ok asking
unfolding run_javascript_dialog
first_opens = refl

second_opens : run_javascript_dialog 1 confirm 8 asking ≡ ok asking_again
unfolding run_javascript_dialog
second_opens = refl

is_closed : dialog_closed 1 true (lit "y") asking_again ≡ ok answered
unfolding dialog_closed
is_closed = refl

closed_twice : dialog_closed 1 true (lit "y") answered ≡ crash
unfolding dialog_closed
closed_twice = refl

calls_bounded_example :
    times_called 7 answered.calls + times_held 7 answered.last_callbacks
    ≤ (times_called 7 quiet.calls + times_held 7 quiet.last_callbacks)
      + times_opened 7 (opens 1 alert 7 ∷ opens 1 confirm 8 ∷ closes 1 true (lit "y") ∷ [])
calls_bounded_example =
    calls_bounded 7 (opens 1 alert 7 ∷ opens 1 confirm 8 ∷ closes 1 true (lit "y") ∷ [])
      (then_runs first_opens (then_runs second_opens (then_runs is_closed done)))

-- ===== src/Dialogs/Calls.antt =====
-- No callback of a dialog is called more often than its dialog was opened.
use seaturtle.Common.{
  ℕ, ◌+◌, ◌≤◌, ◌≡◌, refl, subst, Bool, Option, none, some, List, [], ◌∷◌, ◌++◌, arith, ◌==◌,
  if◌then◌else◌, Bytes, Abort, ok, crash, Runs, done, then_runs,
}
use seaturtle.Shell.{Shell}
use seaturtle.Shell.Registry.{for_web_contents}
use seaturtle.Dialogs.{
  JsMessageType, alert, confirm, prompt, before_unload, unknown, Dialogs, held_by, reset,
  run_javascript_dialog, run_before_unload_dialog, cancel_dialogs, close_dialog, dialog_closed,
}

abbrev one_if : Bool → ℕ
one_if c = if c then 1 else 0

-- How many managers hold a callback, and how often it was called.
abbrev pub times_held : ℕ → List (ℕ × ℕ) → ℕ
times_held c [] = 0
times_held c (entry ∷ entries) = one_if (entry.1 == c) + times_held c entries

abbrev pub times_called : ℕ → List (ℕ × Bool × Bytes) → ℕ
times_called c [] = 0
times_called c (call ∷ calls) = one_if (call.0 == c) + times_called c calls

pub data Event : Type 0 where
  opens : ℕ → JsMessageType → ℕ → Event
  unloads : ℕ → ℕ → Event
  cancels : ℕ → Event
  closes : ℕ → Bool → Bytes → Event

abbrev pub times_opened : ℕ → List Event → ℕ
times_opened c [] = 0
times_opened c (opens wc type callback ∷ es) = one_if (callback == c) + times_opened c es
times_opened c (unloads wc callback ∷ es) = one_if (callback == c) + times_opened c es
times_opened c (cancels wc ∷ es) = times_opened c es
times_opened c (closes wc success text ∷ es) = times_opened c es

times_called-snoc :
    (c : ℕ) (calls : List (ℕ × Bool × Bytes)) (call : ℕ × Bool × Bytes)
    → times_called c (calls ++ call ∷ []) ≡ times_called c calls + one_if (call.0 == c)
times_called-snoc c [] call = omega arith
times_called-snoc c (call' ∷ calls) call = omega (arith, times_called-snoc c calls call)

reset-le :
    (c wc : ℕ) (entries : List (ℕ × ℕ)) → times_held c (reset wc entries) ≤ times_held c entries
unfolding reset
reset-le c wc [] = omega arith
reset-le c wc (entry ∷ entries) = ground (arith, reset-le c wc entries)

-- What the manager held goes when it is reset.
reset-held :
    (c wc : ℕ) (entries : List (ℕ × ℕ)) (callback : ℕ)
    → held_by wc entries ≡ some callback
    → times_held c (reset wc entries) + one_if (callback == c) ≤ times_held c entries
unfolding reset held_by
reset-held c wc [] callback e = cc
reset-held c wc (entry ∷ entries) callback e =
    ground (arith, e, reset-le c wc entries, reset-held c wc entries callback)

times_opened-cons :
    (c : ℕ) (e : Event) (es : List Event)
    → times_opened c (e ∷ []) + times_opened c es ≡ times_opened c (e ∷ es)
times_opened-cons c (opens wc type callback) es = omega arith
times_opened-cons c (unloads wc callback) es = omega arith
times_opened-cons c (cancels wc) es = omega arith
times_opened-cons c (closes wc success text) es = omega arith

module _ {Gurl : Type 0} where
  abbrev pub run_event : Event → Dialogs Gurl → Abort (Dialogs Gurl)
  run_event (opens wc type callback) st = run_javascript_dialog wc type callback st
  run_event (unloads wc callback) st = ok (run_before_unload_dialog wc callback st)
  run_event (cancels wc) st = ok (cancel_dialogs wc st)
  run_event (closes wc success text) st = dialog_closed wc success text st

  abbrev total : ℕ → Dialogs Gurl → ℕ
  total c st = times_called c st.calls + times_held c st.last_callbacks

  -- Wherever the run does not end the process, the total is at most `n` afterwards.
  abbrev Bounds : ℕ → ℕ → Abort (Dialogs Gurl) → Type 0
  Bounds c n crash = Unit
  Bounds c n (ok st) = total c st ≤ n

  close-Bounds :
      (c wc : ℕ) (o : Option (Shell Gurl)) (held : Option ℕ) (success : Bool) (text : Bytes)
      (st : Dialogs Gurl)
      → held_by wc st.last_callbacks ≡ held
      → Bounds c (total c st) (close_dialog o held wc success text st)
  close-Bounds c wc none held success text st e = tt
  close-Bounds c wc (some shell) none success text st e = tt
  close-Bounds c wc (some shell) (some callback) success text st e = omega (
    arith,
    reset-held c wc st.last_callbacks callback e,
    times_called-snoc c st.calls (callback, success, text),
  )

  event-Bounds :
      (c : ℕ) (e : Event) (st : Dialogs Gurl)
      → Bounds c (total c st + times_opened c (e ∷ [])) (run_event e st)
  unfolding run_javascript_dialog run_before_unload_dialog cancel_dialogs dialog_closed
  event-Bounds c (opens wc alert callback) st = omega (arith, reset-le c wc st.last_callbacks)
  event-Bounds c (opens wc confirm callback) st = omega (arith, reset-le c wc st.last_callbacks)
  event-Bounds c (opens wc prompt callback) st = omega (arith, reset-le c wc st.last_callbacks)
  event-Bounds c (opens wc before_unload callback) st = tt
  event-Bounds c (opens wc unknown callback) st = tt
  event-Bounds c (unloads wc callback) st = omega (arith, reset-le c wc st.last_callbacks)
  event-Bounds c (cancels wc) st = omega (arith, reset-le c wc st.last_callbacks)
  event-Bounds c (closes wc success text) st =
      subst (λ n. Bounds c n (run_event (closes wc success text) st)) (omega arith)
        (close-Bounds c wc (for_web_contents wc st.shells) (held_by wc st.last_callbacks) success
          text st refl)

  -- Whatever dialogs are opened, cancelled and answered, of whatever WebContents and in any order, as
  -- long as the process lives no callback has been called, and is held for a later call, more often
  -- than a dialog was opened with it.
  pub calls_bounded :
      (c : ℕ) (es : List Event) {st st' : Dialogs Gurl}
      → Runs run_event es st st'
      → times_called c st'.calls + times_held c st'.last_callbacks
        ≤ (times_called c st.calls + times_held c st.last_callbacks) + times_opened c es
  calls_bounded c [] done = omega arith
  calls_bounded c (e ∷ es) {st = st} (then_runs step runs) =
      let first =
        subst (Bounds c (total c st + times_opened c (e ∷ []))) step (event-Bounds c e st) in
      omega (arith, first, calls_bounded c es runs, times_opened-cons c e es)

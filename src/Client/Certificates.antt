-- ===== src/Client/Certificates.antt =====
-- Every certificate error of a main frame is answered at most once, and none is lost.
use seaturtle.Common.{
  ℕ, suc, ◌+◌, ◌≡◌, refl, sym, ap, subst, ◌∙◌, inl, inr, Bool, true, false, Option, none, some,
  List, [], ◌∷◌, ◌++◌, arith, ◌==◌, if◌then◌else◌, Bool-cases, Option-cases, Bytes, Abort, ok,
  crash, Runs, done, then_runs,
}
use seaturtle.Shell.{Shell}
use seaturtle.Shell.Registry.{for_render_process_and_id}
use seaturtle.Client.{
  Client, Certificate, no_certificate, undecodable, der_encoded, behind, take_callback,
  refuse_sub_resource, ask_about_certificate, allow_certificate_error, run_taken,
  allow_certificate_error_response,
}

-- How often a callback waits on the heap, and how often it was run.
abbrev pub waiting : ℕ → List (ℕ × ℕ) → ℕ
waiting c [] = 0
waiting c (entry ∷ heap) = let rest = waiting c heap in if entry.1 == c then suc rest else rest

abbrev pub times_run : ℕ → List (ℕ × Bool) → ℕ
times_run c [] = 0
times_run c (call ∷ calls) = let rest = times_run c calls in if call.0 == c then suc rest else rest

-- What Java and the network stack do: an error with its frame, URL, certificate, fresh address and
-- callback, or an answer.
pub data Event : Type 0 where
  errs : Bool → ℕ × ℕ → ℕ → Bytes → Certificate → ℕ → ℕ → Event
  answers : ℕ → Bool → Event

-- How often the events ask about a certificate with this callback.
abbrev pub times_asked : ℕ → List Event → ℕ
times_asked c [] = 0
times_asked c (errs true frame code url cert ptr callback ∷ es) =
    let rest = times_asked c es in if callback == c then suc rest else rest
times_asked c (errs false frame code url cert ptr callback ∷ es) = times_asked c es
times_asked c (answers ptr allow ∷ es) = times_asked c es

times_run-snoc :
    (c : ℕ) (calls : List (ℕ × Bool)) (callback : ℕ) (allow : Bool)
    → times_run c (calls ++ (callback, allow) ∷ [])
      ≡ times_run c calls + (if callback == c then 1 else 0)
times_run-snoc c [] callback allow = ground arith
times_run-snoc c (call ∷ calls) callback allow =
    ground (arith, times_run-snoc c calls callback allow)

pub take-here :
    (ptr : ℕ) (entry : ℕ × ℕ) (heap : List (ℕ × ℕ))
    → entry.0 == ptr ≡ true
    → take_callback ptr (entry ∷ heap) ≡ some (entry.1, heap)
unfolding take_callback
take-here ptr entry heap e = rw e refl

pub take-later :
    (ptr : ℕ) (entry : ℕ × ℕ) (heap : List (ℕ × ℕ))
    → entry.0 == ptr ≡ false
    → take_callback ptr (entry ∷ heap) ≡ behind entry (take_callback ptr heap)
unfolding take_callback
take-later ptr entry heap e = rw e refl

take_callback-waiting :
    (c ptr : ℕ) (heap heap' : List (ℕ × ℕ)) (callback : ℕ)
    → take_callback ptr heap ≡ some (callback, heap')
    → waiting c heap ≡ waiting c heap' + (if callback == c then 1 else 0)
unfolding take_callback
take_callback-waiting c ptr [] heap' callback e = cc
take_callback-waiting c ptr (entry ∷ heap) heap' callback e = elim (Bool-cases (entry.0 == ptr)) [
  | inl here ↦
      let e' = sym (take-here ptr entry heap here) ∙ e in
      let same : entry.1 ≡ callback = cc in
      let rest : heap ≡ heap' = cc in rw (sym rest, sym same) (ground arith)
  | inr later ↦ elim (Option-cases (take_callback ptr heap)) [
    | inl missing ↦
        absurd (cc (sym (take-later ptr entry heap later ∙ ap (behind entry) missing) ∙ e))
    | inr ((first, heap1), found) ↦
        let e' = sym (take-later ptr entry heap later ∙ ap (behind entry) found) ∙ e in
        let same : first ≡ callback = cc in
        let rest : entry ∷ heap1 ≡ heap' = cc in
        let ih = take_callback-waiting c ptr heap heap1 first found in
        rw (sym rest, sym same) (ground (arith, ih))
  ]
]

times_asked-cons :
    (c : ℕ) (e : Event) (es : List Event)
    → times_asked c (e ∷ []) + times_asked c es ≡ times_asked c (e ∷ es)
times_asked-cons c (errs true frame code url cert ptr callback) es = ground arith
times_asked-cons c (errs false frame code url cert ptr callback) es = omega arith
times_asked-cons c (answers ptr allow) es = omega arith

module _ {Gurl : Type 0} (from_id : ℕ → ℕ → Option ℕ) where
  abbrev pub run_event : Event → Client Gurl → Abort (Client Gurl)
  run_event (errs is_main frame code url cert ptr callback) st =
      allow_certificate_error from_id is_main frame code url cert ptr callback st
  run_event (answers ptr allow) st = allow_certificate_error_response ptr allow st

  abbrev total : ℕ → Client Gurl → ℕ
  total c st = times_run c st.ran + waiting c st.callbacks

  -- Wherever the run does not end the process, the total is `n` afterwards.
  abbrev Totals : ℕ → ℕ → Abort (Client Gurl) → Type 0
  Totals c n crash = Unit
  Totals c n (ok st) = total c st ≡ n

  refuse-Totals :
      (c : ℕ) (o : Option (Shell Gurl)) (url : Bytes) (st : Client Gurl)
      → Totals c (total c st) (refuse_sub_resource o url st)
  refuse-Totals c none url st = tt
  refuse-Totals c (some s) url st = refl

  ask-Totals :
      (c : ℕ) (frame : ℕ × ℕ) (code : ℕ) (url : Bytes) (cert : Certificate) (ptr callback : ℕ)
      (st : Client Gurl)
      → Totals c
          (total c st + (if callback == c then 1 else 0))
          (ask_about_certificate frame code url cert ptr callback st)
  ask-Totals c frame code url undecodable ptr callback st = tt
  ask-Totals c frame code url no_certificate ptr callback st = ground arith
  ask-Totals c frame code url (der_encoded der) ptr callback st = ground arith

  answer-Totals :
      (c ptr : ℕ) (allow : Bool) (st : Client Gurl)
      → Totals c (total c st) (allow_certificate_error_response ptr allow st)
  unfolding allow_certificate_error_response
  answer-Totals c ptr allow st = elim (Option-cases (take_callback ptr st.callbacks)) [
    | inl missing ↦ subst (λ o. Totals c (total c st) (run_taken o allow st)) (sym missing) tt
    | inr ((callback, heap), found) ↦
        let taken = take_callback-waiting c ptr st.callbacks heap callback found in
        let called = times_run-snoc c st.ran callback allow in
        subst (λ o. Totals c (total c st) (run_taken o allow st)) (sym found)
          (omega (arith, taken, called))
  ]

  event-Totals :
      (c : ℕ) (e : Event) (st : Client Gurl)
      → Totals c (total c st + times_asked c (e ∷ [])) (run_event e st)
  unfolding allow_certificate_error
  event-Totals c (errs true frame code url cert ptr callback) st =
      ask-Totals c frame code url cert ptr callback st
  event-Totals c (errs false frame code url cert ptr callback) st =
      subst (λ n. Totals c n (run_event (errs false frame code url cert ptr callback) st))
        (omega arith)
        (refuse-Totals c (for_render_process_and_id from_id frame.0 frame.1 st.browser.all_shells)
          url st)
  event-Totals c (answers ptr allow) st =
      subst (λ n. Totals c n (run_event (answers ptr allow) st)) (omega arith)
        (answer-Totals c ptr allow st)

  -- As long as the process lives, the runs of a callback and the places where it still waits for an
  -- answer are together as many as the errors of main frames that came with it: no answer is lost, and
  -- none is given twice. A sub-resource asks for no answer.
  pub callbacks_conserved :
      (c : ℕ) (es : List Event) {st st' : Client Gurl}
      → Runs run_event es st st'
      → times_run c st'.ran + waiting c st'.callbacks
        ≡ (times_run c st.ran + waiting c st.callbacks) + times_asked c es
  callbacks_conserved c [] done = omega arith
  callbacks_conserved c (e ∷ es) {st = st} (then_runs step runs) =
      let first =
        subst (Totals c (total c st + times_asked c (e ∷ []))) step (event-Totals c e st) in
      omega (arith, first, callbacks_conserved c es runs, times_asked-cons c e es)

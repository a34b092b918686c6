-- ===== src/Client/RoundTrip.antt =====
-- The address of a callback goes to Java and comes back: a question about a certificate and its answer.
use seaturtle.Common.{
  ℕ, suc, length, ◌≡◌, ◌≢◌, refl, sym, ap, subst, ◌∙◌, inl, inr, Bool, true, false, Option, none,
  some, List, [], ◌∷◌, ◌++◌, All, ◌==◌, ==_iff, if◌then◌else◌, Bool-cases, Option-cases, Bytes,
  Abort, ok, crash, Runs, done, then_runs,
}
use seaturtle.Shell.{Shell}
use seaturtle.Shell.Registry.{for_render_process_and_id}
use seaturtle.Client.{
  Client, Certificate, no_certificate, undecodable, der_encoded, behind, take_callback,
  refuse_sub_resource, ask_about_certificate, allow_certificate_error, run_taken,
  allow_certificate_error_response,
}
use seaturtle.Client.Certificates.{Event, errs, answers, run_event, take-here, take-later}

-- The event neither makes a callback at the address nor answers to it.
abbrev pub Elsewhere : ℕ → Event → Type 0
Elsewhere ptr (errs is_main frame code url cert q callback) = q ≢ ptr
Elsewhere ptr (answers q allow) = q ≢ ptr

-- The callback at an address.
abbrev pub held_at : ℕ → List (ℕ × ℕ) → Option ℕ
held_at ptr [] = none
held_at ptr (entry ∷ heap) = if entry.0 == ptr then some entry.1 else held_at ptr heap

differs : (q ptr : ℕ) → q ≢ ptr → (q == ptr) ≡ false
differs q ptr ne = elim (Bool-cases (q == ptr)) [
  | inl same ↦ absurd (ne ((==_iff q ptr).0 same))
  | inr other ↦ other
]

same_address : (ptr : ℕ) → (ptr == ptr) ≡ true
same_address ptr = (==_iff ptr ptr).1 refl

take-held :
    (ptr callback : ℕ) (heap : List (ℕ × ℕ))
    → held_at ptr heap ≡ some callback
    → (rest : List (ℕ × ℕ)) × (take_callback ptr heap ≡ some (callback, rest))
take-held ptr callback [] e = cc
take-held ptr callback (entry ∷ heap) e = elim (Bool-cases (entry.0 == ptr)) [
  | inl here ↦
      let found : some entry.1 ≡ some callback = sym (rw here refl) ∙ e in
      (heap, take-here ptr entry heap here ∙ cc found)
  | inr later ↦
      let (rest, taken) = take-held ptr callback heap (sym (rw later refl) ∙ e) in
      (entry ∷ rest, take-later ptr entry heap later ∙ ap (behind entry) taken)
]

held_at-taken :
    (q ptr c : ℕ) (heap rest : List (ℕ × ℕ))
    → q ≢ ptr
    → take_callback q heap ≡ some (c, rest)
    → held_at ptr rest ≡ held_at ptr heap
unfolding take_callback
held_at-taken q ptr c [] rest ne e = cc
held_at-taken q ptr c (entry ∷ heap) rest ne e = elim (Bool-cases (entry.0 == q)) [
  | inl here ↦
      let e' = sym (take-here q entry heap here) ∙ e in
      let same : heap ≡ rest = cc in
      let at : entry.0 ≡ q = (==_iff entry.0 q).0 here in
      let other : (entry.0 == ptr) ≡ false = differs entry.0 ptr (λ x. ne (sym at ∙ x)) in
      rw other (ap (held_at ptr) (sym same))
  | inr later ↦ elim (Option-cases (take_callback q heap)) [
    | inl missing ↦
        absurd (cc (sym (take-later q entry heap later ∙ ap (behind entry) missing) ∙ e))
    | inr ((c', rest'), found) ↦
        let e' = sym (take-later q entry heap later ∙ ap (behind entry) found) ∙ e in
        let whole : entry ∷ rest' ≡ rest = cc in
        let ih = held_at-taken q ptr c' heap rest' ne found in
        subst (λ x. held_at ptr x ≡ held_at ptr (entry ∷ heap)) whole
          (ap (λ x. if entry.0 == ptr then some entry.1 else x) ih)
  ]
]

length-taken :
    (ptr callback : ℕ) (heap rest : List (ℕ × ℕ))
    → take_callback ptr heap ≡ some (callback, rest)
    → length heap ≡ suc (length rest)
unfolding take_callback
length-taken ptr callback [] rest e = cc
length-taken ptr callback (entry ∷ heap) rest e = elim (Bool-cases (entry.0 == ptr)) [
  | inl here ↦
      let e' = sym (take-here ptr entry heap here) ∙ e in
      let same : heap ≡ rest = cc in ap (λ h. suc (length h)) same
  | inr later ↦ elim (Option-cases (take_callback ptr heap)) [
    | inl missing ↦
        absurd (cc (sym (take-later ptr entry heap later ∙ ap (behind entry) missing) ∙ e))
    | inr ((c', rest'), found) ↦
        let e' = sym (take-later ptr entry heap later ∙ ap (behind entry) found) ∙ e in
        let whole : entry ∷ rest' ≡ rest = cc in
        ap suc (length-taken ptr c' heap rest' found) ∙ ap (λ h. suc (length h)) whole
  ]
]

module _ {Gurl : Type 0} (from_id : ℕ → ℕ → Option ℕ) where
  -- A step that leaves what is held at the address.
  abbrev KeepsHeld : ℕ → Client Gurl → Abort (Client Gurl) → Type 0
  KeepsHeld ptr st crash = Unit
  KeepsHeld ptr st (ok st') = held_at ptr st'.callbacks ≡ held_at ptr st.callbacks

  refuse-KeepsHeld :
      (found : Option (Shell Gurl)) (url : Bytes) (ptr : ℕ) (st : Client Gurl)
      → KeepsHeld ptr st (refuse_sub_resource found url st)
  refuse-KeepsHeld none url ptr st = tt
  refuse-KeepsHeld (some s) url ptr st = refl

  ask-KeepsHeld :
      (frame : ℕ × ℕ) (code : ℕ) (url : Bytes) (cert : Certificate) (q callback ptr : ℕ)
      (st : Client Gurl)
      → q ≢ ptr
      → KeepsHeld ptr st (ask_about_certificate frame code url cert q callback st)
  ask-KeepsHeld frame code url undecodable q callback ptr st ne = tt
  ask-KeepsHeld frame code url no_certificate q callback ptr st ne = rw (differs q ptr ne) refl
  ask-KeepsHeld frame code url (der_encoded der) q callback ptr st ne = rw (differs q ptr ne) refl

  answer-KeepsHeld :
      (q : ℕ) (allow : Bool) (ptr : ℕ) (st : Client Gurl) (taken : Option (ℕ × List (ℕ × ℕ)))
      → q ≢ ptr
      → take_callback q st.callbacks ≡ taken
      → KeepsHeld ptr st (run_taken taken allow st)
  answer-KeepsHeld q allow ptr st none ne e = tt
  answer-KeepsHeld q allow ptr st (some (c, rest)) ne e =
      held_at-taken q ptr c st.callbacks rest ne e

  event-KeepsHeld :
      (e : Event) (ptr : ℕ) (st : Client Gurl)
      → Elsewhere ptr e
      → KeepsHeld ptr st (run_event from_id e st)
  unfolding allow_certificate_error allow_certificate_error_response
  event-KeepsHeld (errs true frame code url cert q callback) ptr st ne =
      ask-KeepsHeld frame code url cert q callback ptr st ne
  event-KeepsHeld (errs false frame code url cert q callback) ptr st ne =
      refuse-KeepsHeld (for_render_process_and_id from_id frame.0 frame.1 st.browser.all_shells) url
        ptr st
  event-KeepsHeld (answers q allow) ptr st ne =
      answer-KeepsHeld q allow ptr st (take_callback q st.callbacks) ne refl

  Runs-held :
      {es : List Event} {st st' : Client Gurl} (ptr : ℕ)
      → All (Elsewhere ptr) es
      → Runs (run_event from_id) es st st'
      → held_at ptr st'.callbacks ≡ held_at ptr st.callbacks
  Runs-held ptr elsewhere done = refl
  Runs-held ptr elsewhere (then_runs {e = e} {st = st} step rest) =
      Runs-held ptr elsewhere.1 rest
      ∙ subst (KeepsHeld ptr st) step (event-KeepsHeld e ptr st elsewhere.0)

  abbrev HoldsIn : ℕ → ℕ → Abort (Client Gurl) → Type 0
  HoldsIn ptr callback crash = Unit
  HoldsIn ptr callback (ok st) = held_at ptr st.callbacks ≡ some callback

  asked-held :
      (frame : ℕ × ℕ) (code : ℕ) (url : Bytes) (cert : Certificate) (ptr callback : ℕ)
      (st : Client Gurl) {st1 : Client Gurl}
      → ask_about_certificate frame code url cert ptr callback st ≡ ok st1
      → held_at ptr st1.callbacks ≡ some callback
  asked-held frame code url undecodable ptr callback st e = cc
  asked-held frame code url no_certificate ptr callback st e =
      subst (HoldsIn ptr callback) e (rw (same_address ptr) refl)
  asked-held frame code url (der_encoded der) ptr callback st e =
      subst (HoldsIn ptr callback) e (rw (same_address ptr) refl)

  -- Let the browser ask about the certificate of a main frame, with a callback at an address, and let
  -- any questions and answers at other addresses follow. Then the answer to this address runs this
  -- callback with the verdict of Java, after all calls before it; the callbacks at all other addresses
  -- are held as before, one callback is held less than before, and nothing but the heap of callbacks
  -- and the list of calls changes.
  pub answer-question :
      (frame : ℕ × ℕ) (code : ℕ) (url : Bytes) (cert : Certificate) (ptr callback : ℕ)
      (allow : Bool) (es : List Event) (st : Client Gurl) {st1 st2 : Client Gurl}
      → allow_certificate_error from_id true frame code url cert ptr callback st ≡ ok st1
      → All (Elsewhere ptr) es
      → Runs (run_event from_id) es st1 st2
      → (heap : List (ℕ × ℕ)) × (allow_certificate_error_response ptr allow st2
          ≡ ok (record st2 { callbacks = heap; ran = st2.ran ++ (callback, allow) ∷ [] }))
        × ((q : ℕ) → ptr ≢ q → held_at q heap ≡ held_at q st2.callbacks)
        × (length st2.callbacks ≡ suc (length heap))
  unfolding allow_certificate_error allow_certificate_error_response
  answer-question frame code url cert ptr callback allow es st {st2 = st2} asks elsewhere runs =
      let held =
        Runs-held ptr elsewhere runs ∙ asked-held frame code url cert ptr callback st asks in
      let (heap, taken) = take-held ptr callback st2.callbacks held in
      (
        heap,
        ap (λ x. run_taken x allow st2) taken,
        λ q ne. held_at-taken ptr q callback st2.callbacks heap ne taken,
        length-taken ptr callback st2.callbacks heap taken,
      )

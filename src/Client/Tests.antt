-- ===== src/Client/Tests.antt =====
-- Certificate errors on small inputs, and the theorems on them at concrete arguments.
use seaturtle.Common.{
  ℕ, suc, length, ◌+◌, ◌≡◌, ◌≢◌, ◌++◌, List, arith, refl, true, Option, none, [], ◌∷◌, Bytes, lit,
  ok, crash, done, then_runs,
}
use seaturtle.Client.{
  Client, CertificateError, no_certificate, allow_certificate_error,
  allow_certificate_error_response,
}
use seaturtle.Client.RoundTrip.{held_at, answer-question}
use seaturtle.Client.Certificates.{
  errs, answers, times_run, waiting, times_asked, callbacks_conserved,
}

abbrev idle : Client Bytes
idle = record {
  browser = record { all_shells = []; sent = [] };
  callbacks = [];
  asked = [];
  ran = [];
}

abbrev no_views : ℕ → ℕ → Option ℕ
no_views process frame = none

abbrev a_question : CertificateError
a_question = record {
  native_callback = 500;
  render_process_id = 1;
  render_frame_id = 1;
  cert_error = 201;
  url = lit "https://a";
  der_encoded_cert = none;
}

abbrev asked_once : Client Bytes
asked_once = record idle { callbacks = (500, 7) ∷ []; asked = a_question ∷ [] }

abbrev answered : Client Bytes
answered = record asked_once { callbacks = []; ran = (7, true) ∷ [] }

asks :
    allow_certificate_error no_views true (1, 1) 201 (lit "https://a") no_certificate 500 7 idle
    ≡ ok asked_once
unfolding allow_certificate_error
asks = refl

abbrev asked_twice : Client Bytes
asked_twice = record asked_once {
  callbacks = (600, 8) ∷ (500, 7) ∷ [];
  asked = a_question ∷ record a_question { native_callback = 600 } ∷ [];
}

asks_again :
    allow_certificate_error no_views true
      (1, 1)
      201
      (lit "https://a")
      no_certificate
      600
      8
      asked_once
    ≡ ok asked_twice
unfolding allow_certificate_error
asks_again = refl

other_address : ◌≢◌ {A = ℕ} 600 500
other_address = λ e. omega arith

is_answered : allow_certificate_error_response 500 true asked_once ≡ ok answered
unfolding allow_certificate_error_response
is_answered = refl

-- A second answer to one address finds no callback there.
answered_twice : allow_certificate_error_response 500 true answered ≡ crash
unfolding allow_certificate_error_response
answered_twice = refl

callbacks_conserved_example :
    times_run 7 answered.ran + waiting 7 answered.callbacks
    ≡ (times_run 7 idle.ran + waiting 7 idle.callbacks)
      + times_asked 7
          (errs true (1, 1) 201 (lit "https://a") no_certificate 500 7 ∷ answers 500 true ∷ [])
callbacks_conserved_example =
    callbacks_conserved no_views 7
      (errs true (1, 1) 201 (lit "https://a") no_certificate 500 7 ∷ answers 500 true ∷ [])
      (then_runs asks (then_runs is_answered done))

answer-question_example :
    (heap : List (ℕ × ℕ)) × (allow_certificate_error_response 500 true asked_twice
      ≡ ok (record asked_twice { callbacks = heap; ran = asked_twice.ran ++ (7, true) ∷ [] }))
    × ((q : ℕ) → 500 ≢ q → held_at q heap ≡ held_at q asked_twice.callbacks)
    × (length asked_twice.callbacks ≡ suc (length heap))
answer-question_example =
    answer-question no_views (1, 1) 201 (lit "https://a") no_certificate 500 7 true
      (errs true (1, 1) 201 (lit "https://a") no_certificate 600 8 ∷ []) idle asks
      (other_address, tt) (then_runs asks_again done)

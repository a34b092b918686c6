-- ===== src/Client/Answers.antt =====
-- What the browser client answers at once: refused sub-resources, permissions and style sheets.
use seaturtle.Common.{
  ℕ, ◌≡◌, refl, ◌↔◌, ◌⊎◌, inl, inr, Bool, true, false, Option, none, some, Bytes, crash,
}
use seaturtle.Shell.{Shell}
use seaturtle.Shell.Registry.{for_render_process_and_id}
use seaturtle.Client.{
  Client, Certificate, no_certificate, undecodable, der_encoded, refuse_sub_resource,
  ask_about_certificate, allow_certificate_error,
}

module _ {Gurl : Type 0} where
  refuse-crash_iff :
      (o : Option (Shell Gurl)) (url : Bytes) (st : Client Gurl)
      → (refuse_sub_resource o url st ≡ crash) ↔ (o ≡ none)
  refuse-crash_iff none url st = (λ e. refl, λ e. refl)
  refuse-crash_iff (some s) url st = (λ e. cc, λ e. cc)

  ask-crash_iff :
      (frame : ℕ × ℕ) (code : ℕ) (url : Bytes) (cert : Certificate) (ptr callback : ℕ)
      (st : Client Gurl)
      → (ask_about_certificate frame code url cert ptr callback st ≡ crash) ↔ (cert ≡ undecodable)
  ask-crash_iff frame code url undecodable ptr callback st = (λ e. refl, λ e. refl)
  ask-crash_iff frame code url no_certificate ptr callback st = (λ e. cc, λ e. cc)
  ask-crash_iff frame code url (der_encoded der) ptr callback st = (λ e. cc, λ e. cc)

  -- A certificate error ends the process exactly when it is on a sub-resource of a frame that belongs
  -- to no shell, or on a main frame with a certificate that has no DER encoding.
  allow_certificate_error-crash_iff :
      (from_id : ℕ → ℕ → Option ℕ) (is_main_frame : Bool) (frame : ℕ × ℕ) (code : ℕ) (url : Bytes)
      (cert : Certificate) (ptr callback : ℕ) (st : Client Gurl)
      → (allow_certificate_error from_id is_main_frame frame code url cert ptr callback st ≡ crash)
        ↔ (((is_main_frame ≡ false)
              × (for_render_process_and_id from_id frame.0 frame.1 st.browser.all_shells ≡ none))
            ⊎ ((is_main_frame ≡ true) × (cert ≡ undecodable)))
  unfolding allow_certificate_error
  allow_certificate_error-crash_iff from_id true frame code url cert ptr callback st =
      let asks = ask-crash_iff frame code url cert ptr callback st in
      (
        λ e. inr (refl, asks.0 e),
        λ e. elim e [ inl (f, _) ↦ absurd (cc f) | inr (_, bad) ↦ asks.1 bad ],
      )
  allow_certificate_error-crash_iff from_id false frame code url cert ptr callback st =
      let refuses =
        refuse-crash_iff (for_render_process_and_id from_id frame.0 frame.1 st.browser.all_shells)
          url st in
      (
        λ e. inl (refl, refuses.0 e),
        λ e. elim e [ inl (_, missing) ↦ refuses.1 missing | inr (f, _) ↦ absurd (cc f) ],
      )

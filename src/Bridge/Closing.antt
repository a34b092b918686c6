-- ===== src/Bridge/Closing.antt =====
-- What goes with a shell that Java closes: Shell::Close, behind the CLOSE command of javaToNative.
use seaturtle.Common.{
  ℕ, ◌≡◌, refl, ap, ◌∙◌, ◌≢◌, inl, inr, Bool, none, some, List, [], ◌∷◌, ◌++◌, arith, ◌==◌, ==_iff,
  if◌then◌else◌, Bool-cases, Bytes, ok, crash,
}
use seaturtle.Shell
use seaturtle.Shell.{Shell, hide, cleanup}
use seaturtle.Shell.Registry.{for_ptr, for_web_contents, erase_shell, close_shell, release_context}
use seaturtle.Shell.WebPages.{clear_view}
use seaturtle.Shell.Registry.Laws.{IsFresh, IsDistinct, for_ptr-close_shell}
use seaturtle.Shell.Commands.{close, dispatch_shell_command}
use seaturtle.Dialogs.{held_by, reset, cancel_dialogs, dialog_closed}
use seaturtle.Bridge.{App, Outside, shell_command, javascript_dialog_closed, java_to_native}

module _ {Gurl : Type 0} where
  for_ptr-self :
      (ptr : ℕ) (shells : List (Shell Gurl)) (s : Shell Gurl)
      → for_ptr ptr shells ≡ some s
      → s.self ≡ ptr
  unfolding for_ptr
  for_ptr-self ptr [] s e = cc
  for_ptr-self ptr (t ∷ shells) s e = ground (arith, for_ptr-self ptr shells s)

  for_web_contents-fresh :
      (a w : ℕ) (shells : List (Shell Gurl)) → IsFresh a w shells → for_web_contents w shells ≡ none
  unfolding for_web_contents
  for_web_contents-fresh a w [] f = refl
  for_web_contents-fresh a w (t ∷ shells) (p, q, f) =
      ground (arith, for_web_contents-fresh a w shells f, q)

  fresh_found :
      (a w ptr : ℕ) (shells : List (Shell Gurl)) (s : Shell Gurl)
      → IsFresh a w shells
      → for_ptr ptr shells ≡ some s
      → s.wc ≢ w
  unfolding for_ptr
  fresh_found a w ptr [] s f e = cc
  fresh_found a w ptr (t ∷ shells) s (p, q, f) e = elim (Bool-cases (t.self == ptr)) [
    | inl here ↦
        let same : t ≡ s = cc (rw here at e) in λ x. q (ap (λ (u : Shell Gurl). u.wc) same ∙ x)
    | inr later ↦ fresh_found a w ptr shells s f (rw later at e)
  ]

  for_web_contents-erase :
      (ptr wc : ℕ) (shells : List (Shell Gurl)) (s : Shell Gurl)
      → IsDistinct shells
      → for_ptr ptr shells ≡ some s
      → for_web_contents wc (erase_shell ptr shells)
        ≡ (if s.wc == wc then none else for_web_contents wc shells)
  unfolding for_ptr for_web_contents erase_shell
  for_web_contents-erase ptr wc [] s d e = cc
  for_web_contents-erase ptr wc (t ∷ shells) s (f, d) e = elim (Bool-cases (t.self == ptr)) [
    | inl here ↦
        let same : t ≡ s = cc (rw here at e) in
        rw (here, ← same) (ground (arith, for_web_contents-fresh t.self t.wc shells f))
    | inr later ↦
        let other = fresh_found t.self t.wc ptr shells s f (rw later at e) in
        rw later (ground (arith, other, for_web_contents-erase ptr wc shells s d (rw later at e)))
  ]

held_by-reset :
    (wc w : ℕ) (entries : List (ℕ × ℕ))
    → held_by w (reset wc entries) ≡ (if wc == w then none else held_by w entries)
unfolding held_by reset
held_by-reset wc w [] = ground arith
held_by-reset wc w (entry ∷ entries) = ground (arith, held_by-reset wc w entries)

module _ {Gurl W Re Store R : Type 0} (o : Outside Gurl W Re) where
  -- The state without the shell.
  abbrev closed : Shell Gurl → App Gurl W Re Store R → App Gurl W Re Store R
  closed s app =
      let b = close_shell s.self app.client.browser in
      record app {
        client = record app.client { browser = b };
        actions = app.actions ++ [];
        dialogs = cancel_dialogs s.wc app.dialogs;
        views = clear_view s.wc app.views;
        deleted_contexts = app.deleted_contexts ++ release_context s.sbc b.all_shells;
      }

  close-closed :
      (native_shell : ℕ) (app : App Gurl W Re Store R) (s : Shell Gurl)
      → for_ptr native_shell app.client.browser.all_shells ≡ some s
      → java_to_native o (shell_command native_shell close) app ≡ ok (closed s app, none)
  unfolding java_to_native dispatch_shell_command
  close-closed native_shell app s e = rw e refl

  no_shell_left :
      (wc : ℕ) (success : Bool) (text : Bytes) (app : App Gurl W Re Store R)
      → for_web_contents wc app.client.browser.all_shells ≡ none
      → java_to_native o (javascript_dialog_closed wc success text) app ≡ crash
  unfolding java_to_native dialog_closed
  no_shell_left wc success text app e = rw e refl

  -- When Java closes a shell of a registry without shared addresses, the look-ups by address and by
  -- WebContents find this shell no more and all others as before; the callback that its dialog manager
  -- holds is dropped without a call, and those of all other WebContents are held as before; Java is
  -- told to hide the shell and then that it is gone. An answer of Java to a dialog of the closed shell
  -- then ends the process.
  pub java_to_native-close :
      (native_shell : ℕ) (app : App Gurl W Re Store R) (s : Shell Gurl)
      → IsDistinct app.client.browser.all_shells
      → for_ptr native_shell app.client.browser.all_shells ≡ some s
      → let old = app.client.browser in
        (app' : App Gurl W Re Store R) × (java_to_native o (shell_command native_shell close) app
          ≡ ok (app', none))
        × ((ptr : ℕ)
            → for_ptr ptr app'.client.browser.all_shells
              ≡ (if native_shell == ptr then none else for_ptr ptr old.all_shells))
        × ((wc : ℕ)
            → for_web_contents wc app'.client.browser.all_shells
              ≡ (if s.wc == wc then none else for_web_contents wc old.all_shells))
        × ((wc : ℕ)
            → held_by wc app'.dialogs.last_callbacks
              ≡ (if s.wc == wc then none else held_by wc app.dialogs.last_callbacks))
        × (app'.dialogs.calls ≡ app.dialogs.calls)
        × (app'.client.browser.sent
            ≡ (old.sent ++ Shell.shell_command native_shell hide ∷ [])
              ++ Shell.shell_command native_shell cleanup ∷ [])
        × ((success : Bool) (text : Bytes)
            → java_to_native o (javascript_dialog_closed s.wc success text) app' ≡ crash)
  unfolding close_shell cancel_dialogs
  java_to_native-close native_shell app s distinct e =
      let old = app.client.browser in
      let self = for_ptr-self native_shell old.all_shells s e in
      let (by_ptr, told) = for_ptr-close_shell native_shell old distinct in
      let by_wc = λ (wc : ℕ). for_web_contents-erase native_shell wc old.all_shells s distinct e in
      (
        closed s app,
        close-closed native_shell app s e,
        rw self by_ptr,
        rw self by_wc,
        λ wc. held_by-reset s.wc wc app.dialogs.last_callbacks,
        refl,
        rw self told,
        λ success text.
            no_shell_left s.wc success text (closed s app)
              (rw self (by_wc s.wc ∙ rw ((==_iff s.wc s.wc).1 refl) refl)),
      )

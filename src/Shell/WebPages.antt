-- ===== src/Shell/WebPages.antt =====
-- shell/browser/shell.cc: UpdateAllWebPreferences and UpdateWebPreferences, which bring the settings to
-- the pages of all shells.
mod Tests
use seaturtle.Common.{
  ℕ, ◌≡◌, refl, sym, ◌∙◌, ap, ◌↔◌, ◌⊎◌, inl, inr, Bool, true, false, ◌&&◌, ◌||◌, Option, none, some,
  List, [], ◌∷◌, arith, ◌==◌, ==_iff, if◌then◌else◌, Bool-cases, Option-cases, is_some, not, Bytes,
  Abort, ok, crash, ◌>>=◌,
}
use mathlib.Core.Option
use mathlib.Core.Path.{fun_ext}
use seaturtle.Settings.{WebSettings}
use seaturtle.Settings.Preferences.{WebPreferences, update_web_preferences}
use seaturtle.Shell.{Shell}

-- The preferences of the RenderViewHost of each WebContents; `none` where GetRenderViewHost is NULL.
abbrev pub Views : Type 0 → Type 0
Views R = ℕ → Option (WebPreferences R)

-- The WebContents is one of a shell.
abbrev pub shows : {Gurl : Type 0} → ℕ → List (Shell Gurl) → Bool
shows wc [] = false
shows wc (s ∷ shells) = wc == s.wc || shows wc shells

module _ {R : Type 0} where
  abbrev pub set_view : ℕ → WebPreferences R → Views R → Views R
  set_view wc wp views other = if other == wc then some wp else views other

  -- The WebContents is destroyed, and its RenderViewHost with it.
  abbrev pub clear_view : ℕ → Views R → Views R
  clear_view wc views other = if other == wc then none else views other

  abbrev pub update_view : WebSettings → ℕ → Option (WebPreferences R) → Views R → Abort (Views R)
  update_view swp wc none views = crash
  update_view swp wc (some wp) views = ok (set_view wc (update_web_preferences swp wp) views)

  -- Shell::UpdateWebPreferences of the shell with the WebContents
  unfoldable pub update_shell_web_preferences : WebSettings → ℕ → Views R → Abort (Views R)
  update_shell_web_preferences swp wc views = update_view swp wc (views wc) views

  -- Shell::UpdateAllWebPreferences
  unfoldable pub update_all_web_preferences :
      {Gurl : Type 0} → WebSettings → List (Shell Gurl) → Views R → Abort (Views R)
  unfolding update_shell_web_preferences
  update_all_web_preferences swp [] views = ok views
  update_all_web_preferences swp (s ∷ all_shells) views =
      update_shell_web_preferences swp s.wc views >>= update_all_web_preferences swp all_shells

  -- The preferences that all pages have afterwards.
  abbrev pub updated : {Gurl : Type 0} → WebSettings → List (Shell Gurl) → Views R → Views R
  updated swp shells views wc =
      if shows wc shells then Option.map (update_web_preferences swp) (views wc) else views wc

  -- Some shell has no RenderViewHost.
  abbrev pub lacks_view : {Gurl : Type 0} → List (Shell Gurl) → Views R → Bool
  lacks_view [] views = false
  lacks_view (s ∷ shells) views = not (is_some (views s.wc)) || lacks_view shells views

  update_twice :
      (swp : WebSettings) (wp : WebPreferences R)
      → update_web_preferences swp (update_web_preferences swp wp) ≡ update_web_preferences swp wp
  unfolding update_web_preferences
  update_twice swp wp = ground arith

  is_some-set_view :
      (wc other : ℕ) (wp wp' : WebPreferences R) (views : Views R)
      → views wc ≡ some wp
      → is_some (set_view wc wp' views other) ≡ is_some (views other)
  is_some-set_view wc other wp wp' views e = elim (Bool-cases (other == wc)) [
    | inl same ↦ rw (same, (==_iff other wc).0 same, e) refl
    | inr different ↦ rw different refl
  ]

  lacks_view-set_view :
      {Gurl : Type 0} (wc : ℕ) (wp wp' : WebPreferences R) (shells : List (Shell Gurl))
      (views : Views R)
      → views wc ≡ some wp
      → lacks_view shells (set_view wc wp' views) ≡ lacks_view shells views
  lacks_view-set_view wc wp wp' [] views e = refl
  lacks_view-set_view wc wp wp' (s ∷ shells) views e =
      rw (is_some-set_view wc s.wc wp wp' views e, lacks_view-set_view wc wp wp' shells views e)
        refl

  updated-set_view :
      {Gurl : Type 0} (swp : WebSettings) (s : Shell Gurl) (shells : List (Shell Gurl))
      (wp : WebPreferences R) (views : Views R)
      → views s.wc ≡ some wp
      → (wc : ℕ)
      → updated swp shells (set_view s.wc (update_web_preferences swp wp) views) wc
        ≡ updated swp (s ∷ shells) views wc
  updated-set_view swp s shells wp views e wc = elim (Bool-cases (wc == s.wc)) [
    | inl same ↦ elim (Bool-cases (shows wc shells)) [
      | inl shown ↦ rw (same, shown, (==_iff wc s.wc).0 same, e) (rw (update_twice swp wp) refl)
      | inr hidden ↦ rw (same, hidden, (==_iff wc s.wc).0 same, e) refl
    ]
    | inr different ↦ rw different refl
  ]

  step_view :
      {Gurl : Type 0} (swp : WebSettings) (s : Shell Gurl) (shells : List (Shell Gurl))
      (views : Views R) (held : Option (WebPreferences R))
      → views s.wc ≡ held
      → ((views' : Views R)
          → update_all_web_preferences swp shells views'
            ≡ (if lacks_view shells views' then crash else ok (updated swp shells views')))
      → (update_view swp s.wc held views >>= update_all_web_preferences swp shells) ≡ (
          if not (is_some held) || lacks_view shells views
          then crash
          else ok (updated swp (s ∷ shells) views))
  step_view swp s shells views none e ih = refl
  step_view swp s shells views (some wp) e ih =
      ih (set_view s.wc (update_web_preferences swp wp) views)
      ∙ rw
          (
            lacks_view-set_view s.wc wp (update_web_preferences swp wp) shells views e,
            fun_ext (updated-set_view swp s shells wp views e),
          )
          refl

  -- The loop over the shells ends the process exactly if some shell has no RenderViewHost. Else it
  -- gives every page of a shell the update of its preferences, once even if two shells share the
  -- page, and leaves the preferences of all other pages as they are.
  pub update_all_web_preferences_lem :
      {Gurl : Type 0} (swp : WebSettings) (shells : List (Shell Gurl)) (views : Views R)
      → update_all_web_preferences swp shells views
        ≡ (if lacks_view shells views then crash else ok (updated swp shells views))
  unfolding update_all_web_preferences
  update_all_web_preferences_lem swp [] views = refl
  update_all_web_preferences_lem swp (s ∷ shells) views =
      step_view swp s shells views (views s.wc) refl (update_all_web_preferences_lem swp shells)

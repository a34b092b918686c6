-- ===== src/Shell/Commands/Dispatch.antt =====
-- Which commands are answered, and what a command leaves alone.
use seaturtle.Common.{
  ℕ, ◌≡◌, refl, sym, ap, subst, ◌∙◌, ◌↔◌, ◌⊎◌, inl, inr, Bool, true, false, Option, none, some,
  List, [], ◌∷◌, arith, if◌then◌else◌, Bool-cases, Option-cases, is_empty, Bytes, All, Abort, ok,
  crash,
}
use seaturtle.Url.{UrlApi}
use seaturtle.Shell.{Shell, Browser}
use seaturtle.Shell.Registry.{for_ptr, close_shell}
use seaturtle.Shell.Registry.Laws.{IsDistinct, for_ptr-close_shell}
use seaturtle.Shell.Commands.{
  Page, Command, FindInPage, close, get_parent, get_ssl_status, get_ssl_details, get_log,
  get_visible_url, download_favicon, load_url, reload, find_in_page, other, CipherNames, Response,
  Action, loads, reloads, stops_finding, downloads_image, finds, Outcome, NavigationEntry, load,
  reload_page, download_favicon_of, find_in, handle_shell_command, handle_found,
  dispatch_shell_command,
}

for_ptr-self :
    {Gurl : Type 0} (ptr : ℕ) (shells : List (Shell Gurl)) {s : Shell Gurl}
    → for_ptr ptr shells ≡ some s
    → s.self ≡ ptr
unfolding for_ptr
for_ptr-self ptr [] e = cc
for_ptr-self ptr (t ∷ shells) {s = s} e =
    let rest : for_ptr ptr shells ≡ some s → s.self ≡ ptr = for_ptr-self ptr shells in grind arith

module _ {Gurl : Type 0} (api : UrlApi Gurl) (append_query : Bytes → Gurl)
    (names : ℕ → ℕ → CipherNames) (tls1 : ℕ) where
  abbrev dispatch : ℕ → Command → (ℕ → Page Gurl) → Browser Gurl → Abort (Outcome Gurl)
  dispatch = dispatch_shell_command api append_query names tls1

  dispatch-found :
      (ptr : ℕ) (c : Command) (page_of : ℕ → Page Gurl) (b : Browser Gurl) {s : Shell Gurl}
      → for_ptr ptr b.all_shells ≡ some s
      → dispatch ptr c page_of b
        ≡ handle_shell_command api append_query names tls1 c s (page_of s.wc) b
  unfolding dispatch_shell_command
  dispatch-found ptr c page_of b e = ap (handle_found api append_query names tls1 c page_of b) e

  dispatch-missing :
      (ptr : ℕ) (c : Command) (page_of : ℕ → Page Gurl) (b : Browser Gurl)
      → for_ptr ptr b.all_shells ≡ none
      → dispatch ptr c page_of b ≡ crash
  unfolding dispatch_shell_command
  dispatch-missing ptr c page_of b e = ap (handle_found api append_query names tls1 c page_of b) e

  -- The command is one that the native side sends.
  abbrev pub IsOther : Command → Type 0
  IsOther c = (n : ℕ) × (c ≡ other n)

  handle-crash_iff :
      (c : Command) (s : Shell Gurl) (page : Page Gurl) (b : Browser Gurl)
      → (handle_shell_command api append_query names tls1 c s page b ≡ crash) ↔ IsOther c
  unfolding handle_shell_command
  handle-crash_iff close s page b = (λ e. cc, λ (n, e). cc)
  handle-crash_iff get_parent s page b = (λ e. cc, λ (n, e). cc)
  handle-crash_iff get_ssl_status s page b = (λ e. cc, λ (n, e). cc)
  handle-crash_iff get_ssl_details s page b = (λ e. cc, λ (n, e). cc)
  handle-crash_iff get_log s page b = (λ e. cc, λ (n, e). cc)
  handle-crash_iff get_visible_url s page b = (λ e. cc, λ (n, e). cc)
  handle-crash_iff download_favicon s page b = (λ e. cc, λ (n, e). cc)
  handle-crash_iff (load_url url d) s page b = (λ e. cc, λ (n, e). cc)
  handle-crash_iff (reload d) s page b = (λ e. cc, λ (n, e). cc)
  handle-crash_iff (find_in_page fip) s page b = (λ e. cc, λ (n, e). cc)
  handle-crash_iff (other n) s page b = (λ e. (n, refl), λ e. refl)

  -- A command ends the process exactly when no live shell has the address that it names or when it is
  -- one that only the native side sends.
  dispatch-crash_iff :
      (ptr : ℕ) (c : Command) (page_of : ℕ → Page Gurl) (b : Browser Gurl)
      → (dispatch_shell_command api append_query names tls1 ptr c page_of b ≡ crash)
        ↔ ((for_ptr ptr b.all_shells ≡ none) ⊎ IsOther c)
  dispatch-crash_iff ptr c page_of b = elim (Option-cases (for_ptr ptr b.all_shells)) [
    | inl missing ↦ (λ e. inl missing, λ e. dispatch-missing ptr c page_of b missing)
    | inr (s, found) ↦
        let step = dispatch-found ptr c page_of b found in
        let handled = handle-crash_iff c s (page_of s.wc) b in
        (
          λ e. inr (handled.0 (sym step ∙ e)),
          λ e.
              step
              ∙ handled.1 (elim e [ inl missing ↦ absurd (cc (sym missing ∙ found)) | inr o ↦ o ]),
        )
  ]

  -- In a registry without shared addresses, a CLOSE command to a live shell is carried out, and any
  -- command that names the shell's address afterwards ends the process.
  dispatch-close :
      (ptr : ℕ) (c : Command) (page_of : ℕ → Page Gurl) (b : Browser Gurl) {s : Shell Gurl}
      → IsDistinct b.all_shells
      → for_ptr ptr b.all_shells ≡ some s
      → (dispatch_shell_command api append_query names tls1 ptr close page_of b
          ≡ ok (none, [], close_shell ptr b))
        × (dispatch_shell_command api append_query names tls1 ptr c page_of (close_shell ptr b)
            ≡ crash)
  unfolding handle_shell_command
  dispatch-close ptr c page_of b {s = s} distinct found = (
    dispatch-found ptr close page_of b found
        ∙ ap (λ p. ok (none, [], close_shell p b)) (for_ptr-self ptr b.all_shells found),
    dispatch-missing ptr c page_of (close_shell ptr b)
        ((for_ptr-close_shell ptr b distinct).0 ptr ∙ ground arith),
  )

  -- Every URL that is loaded is valid.
  abbrev pub LoadsValid : Action Gurl → Type 0
  LoadsValid (loads url as_desktop) = api.is_valid url ≡ true
  LoadsValid reloads = Unit
  LoadsValid stops_finding = Unit
  LoadsValid (downloads_image url) = Unit
  LoadsValid (finds id query forward next) = Unit

  load-LoadsValid :
      ((text : Bytes) → api.is_valid (append_query text) ≡ true)
      → (surl : Bytes) (as_desktop : Bool) → All LoadsValid (load api append_query surl as_desktop)
  unfolding load
  load-LoadsValid bad surl as_desktop = elim (Bool-cases (api.is_valid (api.parse surl))) [
    | inl valid ↦ (rw (valid, valid) refl, tt)
    | inr invalid ↦ (rw (invalid, bad surl) refl, tt)
  ]

  abbrev AllValid : Abort (Outcome Gurl) → Type 0
  AllValid crash = Unit
  AllValid (ok (answer, actions, b)) = All LoadsValid actions

  reload_page-LoadsValid :
      ((text : Bytes) → api.is_valid (append_query text) ≡ true)
      → (as_desktop : Bool) (page : Page Gurl)
      → All LoadsValid (reload_page api append_query as_desktop page)
  unfolding reload_page
  reload_page-LoadsValid bad as_desktop page = entry page.active as_desktop
    where
      entry :
          (o : Option (NavigationEntry Gurl)) (desktop : Bool)
          → All LoadsValid (elim o [
            | none ↦ reloads ∷ []
            | some e ↦
                if desktop then load api append_query (api.spec e.entry_url) true else reloads ∷ []
          ])
      entry none desktop = (tt, tt)
      entry (some e) true = load-LoadsValid bad (api.spec e.entry_url) true
      entry (some e) false = (tt, tt)

  find_in-LoadsValid : (fip : FindInPage) → All LoadsValid (find_in fip)
  unfolding find_in
  find_in-LoadsValid fip = elim (Bool-cases fip.stop) [
    | inl stop ↦ elim (Bool-cases (is_empty fip.query)) [
      | inl empty ↦ rw (stop, empty) (tt, tt)
      | inr q ↦ rw (stop, q) (tt, (tt, tt))
    ]
    | inr go ↦ elim (Bool-cases (is_empty fip.query)) [
      | inl empty ↦ rw (go, empty) tt
      | inr q ↦ rw (go, q) (tt, tt)
    ]
  ]

  download_favicon-LoadsValid : (s : Shell Gurl) → All LoadsValid (download_favicon_of s)
  unfolding download_favicon_of
  download_favicon-LoadsValid s = elim (Option-cases s.favicon_candidate) [
    | inl e ↦ rw e tt
    | inr (url, e) ↦ rw e (tt, tt)
  ]

  handle-AllValid :
      ((text : Bytes) → api.is_valid (append_query text) ≡ true)
      → (c : Command) (s : Shell Gurl) (page : Page Gurl) (b : Browser Gurl)
      → AllValid (handle_shell_command api append_query names tls1 c s page b)
  unfolding handle_shell_command
  handle-AllValid bad close s page b = tt
  handle-AllValid bad get_parent s page b = tt
  handle-AllValid bad get_ssl_status s page b = tt
  handle-AllValid bad get_ssl_details s page b = tt
  handle-AllValid bad get_log s page b = tt
  handle-AllValid bad get_visible_url s page b = tt
  handle-AllValid bad download_favicon s page b = download_favicon-LoadsValid s
  handle-AllValid bad (load_url url d) s page b = load-LoadsValid bad url d
  handle-AllValid bad (reload d) s page b = reload_page-LoadsValid bad d page
  handle-AllValid bad (find_in_page fip) s page b = find_in-LoadsValid fip
  handle-AllValid bad (other n) s page b = tt

  -- Whatever Java commands, a page is only ever sent to valid URLs, a text that is no valid URL going
  -- to the page for bad URLs, which is taken to be valid with any text in its query.
  dispatch-LoadsValid :
      (ptr : ℕ) (c : Command) (page_of : ℕ → Page Gurl) (b b' : Browser Gurl)
      (answer : Option Response) (actions : List (Action Gurl))
      → ((text : Bytes) → api.is_valid (append_query text) ≡ true)
      → dispatch_shell_command api append_query names tls1 ptr c page_of b
        ≡ ok (answer, actions, b')
      → All LoadsValid actions
  dispatch-LoadsValid ptr c page_of b b' answer actions bad h =
      elim (Option-cases (for_ptr ptr b.all_shells)) [
        | inl missing ↦ absurd (cc (sym (dispatch-missing ptr c page_of b missing) ∙ h))
        | inr (s, found) ↦
            subst AllValid (sym (dispatch-found ptr c page_of b found) ∙ h)
              (handle-AllValid bad c s (page_of s.wc) b)
      ]

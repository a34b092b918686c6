-- ===== src/Shell/Registry.antt =====
-- shell/browser/shell.cc: the registry `all_shells_`, and how a shell is found in it.
pub mod Laws
pub mod Runs
use seaturtle.Common.{
  ℕ, suc, ◌≡◌, refl, sym, ap, ◌∙◌, ◌≢◌, ◌⊎◌, inl, inr, Bool, true, false, ◌||◌, Option, none, some,
  List, [], ◌∷◌, ◌++◌, arith, ◌==◌, if◌then◌else◌, Bool-cases, ==_iff, All,
}
use seaturtle.Shell.{
  Shell, Browser, Message, shell_command, launch_shell_response, hide, cleanup, notify_popup_opened,
  send_command,
}

-- `sbc_` is this context.
abbrev pub owned_by : ℕ → Option ℕ → Bool
owned_by context none = false
owned_by context (some other) = other == context

module _ {Gurl : Type 0} where
  -- Shell::ForWebContents
  unfoldable pub for_web_contents : ℕ → List (Shell Gurl) → Option (Shell Gurl)
  for_web_contents wc [] = none
  for_web_contents wc (s ∷ shells) = if s.wc == wc then some s else for_web_contents wc shells

  -- Shell::ForPtr
  unfoldable pub for_ptr : ℕ → List (Shell Gurl) → Option (Shell Gurl)
  for_ptr ptr [] = none
  for_ptr ptr (s ∷ shells) = if s.self == ptr then some s else for_ptr ptr shells

  -- ForRenderProcessAndView and ForRenderProcessAndFrame; `from_id` is RenderViewHost::FromID or
  -- RenderFrameHost::FromID with the WebContents of the host that it finds.
  unfoldable pub for_render_process_and_id :
      (ℕ → ℕ → Option ℕ) → ℕ → ℕ → List (Shell Gurl) → Option (Shell Gurl)
  unfolding for_web_contents
  for_render_process_and_id from_id process id shells = elim (from_id process id) [
    | none ↦ none
    | some wc ↦ for_web_contents wc shells
  ]

  -- ForURLRequest, given the ids of the request's ResourceRequestInfo.
  unfoldable pub for_url_request :
      (ℕ → ℕ → Option ℕ) → Option (ℕ × ℕ) → List (Shell Gurl) → Option (Shell Gurl)
  unfolding for_render_process_and_id
  for_url_request from_id none shells = none
  for_url_request from_id (some (child, route)) shells =
      for_render_process_and_id from_id child route shells

  -- The constructor of Shell and CreateShell; `self` is the address of the new shell.
  unfoldable pub create_shell : ℕ → ℕ → ℕ → Option ℕ → Browser Gurl → Browser Gurl × Message
  create_shell self wc parent sbc b = (
    record b {
      all_shells =
          b.all_shells
          ++ record {
            self = self;
            wc = wc;
            sbc = sbc;
            parent_shell = parent;
            is_fullscreen = false;
            favicon_candidate = none;
            log = [];
          }
            ∷ [];
    },
    launch_shell_response self wc,
  )

  -- LaunchShell; `context` is a fresh browser context.
  unfoldable pub launch_shell : Bool → ℕ → ℕ → ℕ → ℕ → Browser Gurl → Browser Gurl × Message
  unfolding create_shell
  launch_shell single_context context self wc parent b =
      create_shell self wc parent (if single_context then none else some context) b

  -- AddNewContents of the shell `opener`.
  unfoldable pub add_new_contents : Bool → Shell Gurl → ℕ → ℕ → Browser Gurl → Browser Gurl
  unfolding create_shell
  add_new_contents single_context opener self wc b =
      let (b', p) =
        create_shell self wc opener.self (if single_context then none else opener.sbc) b in
      send_command opener.self notify_popup_opened (record b' { sent = b'.sent ++ p ∷ [] })

  -- The loop of the destructor: the first entry that is this shell goes.
  unfoldable pub erase_shell : ℕ → List (Shell Gurl) → List (Shell Gurl)
  erase_shell self [] = []
  erase_shell self (s ∷ shells) = if s.self == self then shells else s ∷ erase_shell self shells

  -- Shell::~Shell
  unfoldable pub destroy_shell : ℕ → Browser Gurl → Browser Gurl
  unfolding erase_shell
  destroy_shell self b =
      let b' = send_command self cleanup b in
      record b' { all_shells = erase_shell self b'.all_shells }

  -- Some shell of the list shares the browser context.
  unfoldable pub owns_context : ℕ → List (Shell Gurl) → Bool
  owns_context context [] = false
  owns_context context (s ∷ shells) = owned_by context s.sbc || owns_context context shells

  -- `linked_ptr<ShellBrowserContext> sbc_` of a shell that is deleted, when `shells` are left: the
  -- context goes with the last shell that shares it.
  unfoldable pub release_context : Option ℕ → List (Shell Gurl) → List ℕ
  unfolding owns_context
  release_context none shells = []
  release_context (some context) shells = if owns_context context shells then [] else context ∷ []

  -- Shell::Close, which CloseContents and the CLOSE command call, as far as the registry and Java see
  -- it. `delete this` also ends what the shell owns, its WebContents, the callback of its dialog
  -- manager and its context: see `commanded` of Bridge.
  unfoldable pub close_shell : ℕ → Browser Gurl → Browser Gurl
  unfolding destroy_shell
  close_shell self b = destroy_shell self (send_command self hide b)

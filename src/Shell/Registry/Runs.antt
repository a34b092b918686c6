-- ===== src/Shell/Registry/Runs.antt =====
-- Which shell an address stands for, after shells were launched, opened and closed in any order.
use seaturtle.Common.{
  ℕ, ◌≡◌, refl, ap, ◌∙◌, Bool, false, Option, none, some, [], ◌==◌, if◌then◌else◌,
}
use seaturtle.Shell.{Shell, Browser}
use seaturtle.Shell.Registry.{for_ptr, launch_shell, add_new_contents, close_shell}
use seaturtle.Shell.Registry.Laws.{
  IsFresh, IsDistinct, IsDistinct-snoc, IsDistinct-erase, for_ptr-erase, for_ptr-snoc,
}

module _ {Gurl : Type 0} where
  -- What the native side does to the registry: a launch from Java, a page that opens a window, and a
  -- shell that closes. The addresses of a new shell and of its WebContents are not in use.
  pub data Step (b : Browser Gurl) : Browser Gurl → Type 0 where
    launches :
        (single : Bool) (context self wc parent : ℕ)
        → IsFresh self wc b.all_shells
        → Step b (launch_shell single context self wc parent b).0
    opens :
        (single : Bool) (opener : Shell Gurl) (self wc : ℕ)
        → IsFresh self wc b.all_shells
        → Step b (add_new_contents single opener self wc b)
    closes : (self : ℕ) → Step b (close_shell self b)

  pub data Reach (start : Browser Gurl) : Browser Gurl → Type 0 where
    here : Reach start start
    next : {b b' : Browser Gurl} → Reach start b → Step b b' → Reach start b'

  -- A shell without a favicon and a log.
  abbrev pub new_shell : ℕ → ℕ → ℕ → Option ℕ → Shell Gurl
  new_shell self wc parent sbc = record {
    self = self;
    wc = wc;
    sbc = sbc;
    parent_shell = parent;
    is_fullscreen = false;
    favicon_candidate = none;
    log = [];
  }

  -- What the last step about the address says of it: the shell that it made, with its parent and the
  -- context that it owns, or no shell if it closed one; without such a step, what was there at first.
  abbrev pub last_said : {start b : Browser Gurl} → ℕ → Reach start b → Option (Shell Gurl)
  last_said {start} ptr here = for_ptr ptr start.all_shells
  last_said ptr (next r (launches single context self wc parent f)) =
      let rest = last_said ptr r in
      if self == ptr
      then some (new_shell self wc parent (if single then none else some context))
      else rest
  last_said ptr (next r (opens single opener self wc f)) =
      let rest = last_said ptr r in
      if self == ptr
      then some (new_shell self wc opener.self (if single then none else opener.sbc))
      else rest
  last_said ptr (next r (closes self)) =
      let rest = last_said ptr r in if self == ptr then none else rest

  Step-IsDistinct :
      {b b' : Browser Gurl} → Step b b' → IsDistinct b.all_shells → IsDistinct b'.all_shells
  unfolding launch_shell add_new_contents close_shell
  Step-IsDistinct {b} (launches single context self wc parent f) d =
      IsDistinct-snoc b.all_shells _ f d
  Step-IsDistinct {b} (opens single opener self wc f) d = IsDistinct-snoc b.all_shells _ f d
  Step-IsDistinct {b} (closes self) d = IsDistinct-erase self b.all_shells d

  Reach-IsDistinct :
      {start b : Browser Gurl}
      → IsDistinct start.all_shells
      → Reach start b
      → IsDistinct b.all_shells
  Reach-IsDistinct d here = d
  Reach-IsDistinct d (next r st) = Step-IsDistinct st (Reach-IsDistinct d r)

  -- Whatever shells are launched, opened and closed, in any order, the look-up of an address finds the
  -- shell that the last step about this address made, and none if that step closed a shell; it finds
  -- what it found at first if there was no such step. At first no two shells have one address or one
  -- WebContents, and a new shell takes addresses that no shell of the registry has.
  pub for_ptr-Reach :
      {start b : Browser Gurl} (ptr : ℕ)
      → IsDistinct start.all_shells
      → (r : Reach start b) → for_ptr ptr b.all_shells ≡ last_said ptr r
  unfolding launch_shell add_new_contents close_shell
  for_ptr-Reach ptr d here = refl
  for_ptr-Reach ptr d (next {b} r (launches single context self wc parent f)) =
      for_ptr-snoc ptr b.all_shells _ f
      ∙ ap
          (λ o.
            if self == ptr
            then some (new_shell self wc parent (if single then none else some context))
            else o)
          (for_ptr-Reach ptr d r)
  for_ptr-Reach ptr d (next {b} r (opens single opener self wc f)) =
      for_ptr-snoc ptr b.all_shells _ f
      ∙ ap
          (λ o.
            if self == ptr
            then some (new_shell self wc opener.self (if single then none else opener.sbc))
            else o)
          (for_ptr-Reach ptr d r)
  for_ptr-Reach ptr d (next {b} r (closes self)) =
      for_ptr-erase self ptr b.all_shells (Reach-IsDistinct d r)
      ∙ ap (λ o. if self == ptr then none else o) (for_ptr-Reach ptr d r)

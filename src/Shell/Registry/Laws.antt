-- ===== src/Shell/Registry/Laws.antt =====
-- Registries that hold no two shells of one address or one WebContents: what an opening and a closing
-- do to the look-ups.
use seaturtle.Common.{
  ℕ, ◌≡◌, refl, sym, ◌≢◌, inl, inr, Bool, false, none, some, List, [], ◌∷◌, ◌++◌, arith, ◌==◌,
  if◌then◌else◌, Bool-cases,
}
use seaturtle.Shell.{Shell, Browser, shell_command, hide, cleanup}
use seaturtle.Shell.Registry.{for_web_contents, for_ptr, add_new_contents, erase_shell, close_shell}

module _ {Gurl : Type 0} where
  -- No shell of the list has this address, or this WebContents.
  abbrev pub IsFresh : ℕ → ℕ → List (Shell Gurl) → Type 0
  IsFresh self wc [] = Unit
  IsFresh self wc (s ∷ shells) = (s.self ≢ self) × (s.wc ≢ wc) × IsFresh self wc shells

  -- The addresses of the shells are all different, and so are their WebContents.
  abbrev pub IsDistinct : List (Shell Gurl) → Type 0
  IsDistinct [] = Unit
  IsDistinct (s ∷ shells) = IsFresh s.self s.wc shells × IsDistinct shells

  IsFresh-snoc :
      (a w : ℕ) (shells : List (Shell Gurl)) (s : Shell Gurl)
      → IsFresh a w shells
      → s.self ≢ a
      → s.wc ≢ w
      → IsFresh a w (shells ++ s ∷ [])
  IsFresh-snoc a w [] s f p q = (p, q, tt)
  IsFresh-snoc a w (t ∷ shells) s (p', q', f) p q = (p', q', IsFresh-snoc a w shells s f p q)

  pub IsDistinct-snoc :
      (shells : List (Shell Gurl)) (s : Shell Gurl)
      → IsFresh s.self s.wc shells
      → IsDistinct shells
      → IsDistinct (shells ++ s ∷ [])
  IsDistinct-snoc [] s f d = (tt, tt)
  IsDistinct-snoc (t ∷ shells) s (p, q, f) (f', d) = (
    IsFresh-snoc t.self t.wc shells s f' (λ e. p (sym e)) (λ e. q (sym e)),
    IsDistinct-snoc shells s f d,
  )

  IsFresh-erase :
      (a w self : ℕ) (shells : List (Shell Gurl))
      → IsFresh a w shells
      → IsFresh a w (erase_shell self shells)
  unfolding erase_shell
  IsFresh-erase a w self [] f = tt
  IsFresh-erase a w self (t ∷ shells) (p, q, f) = elim (Bool-cases (t.self == self)) [
    | inl same ↦ rw same f
    | inr other ↦ rw other (p, q, IsFresh-erase a w self shells f)
  ]

  pub IsDistinct-erase :
      (self : ℕ) (shells : List (Shell Gurl))
      → IsDistinct shells
      → IsDistinct (erase_shell self shells)
  unfolding erase_shell
  IsDistinct-erase self [] d = tt
  IsDistinct-erase self (t ∷ shells) (f, d) = elim (Bool-cases (t.self == self)) [
    | inl same ↦ rw same d
    | inr other ↦ rw other (IsFresh-erase t.self t.wc self shells f, IsDistinct-erase self shells d)
  ]

  for_ptr-fresh :
      (a w : ℕ) (shells : List (Shell Gurl)) → IsFresh a w shells → for_ptr a shells ≡ none
  unfolding for_ptr
  for_ptr-fresh a w [] f = refl
  for_ptr-fresh a w (t ∷ shells) (p, q, f) = ground (arith, for_ptr-fresh a w shells f, p)

  pub for_ptr-erase :
      (self ptr : ℕ) (shells : List (Shell Gurl))
      → IsDistinct shells
      → for_ptr ptr (erase_shell self shells) ≡ (if self == ptr then none else for_ptr ptr shells)
  unfolding for_ptr erase_shell
  for_ptr-erase self ptr [] d = ground arith
  for_ptr-erase self ptr (t ∷ shells) (f, d) =
      ground (arith, for_ptr-erase self ptr shells d, for_ptr-fresh t.self t.wc shells f)

  pub for_ptr-snoc :
      (ptr : ℕ) (shells : List (Shell Gurl)) (s : Shell Gurl)
      → IsFresh s.self s.wc shells
      → for_ptr ptr (shells ++ s ∷ []) ≡ (if s.self == ptr then some s else for_ptr ptr shells)
  unfolding for_ptr
  for_ptr-snoc ptr [] s f = refl
  for_ptr-snoc ptr (t ∷ shells) s (p, q, f) = ground (arith, for_ptr-snoc ptr shells s f, p)

  for_web_contents-snoc :
      (wc : ℕ) (shells : List (Shell Gurl)) (s : Shell Gurl)
      → IsFresh s.self s.wc shells
      → for_web_contents wc (shells ++ s ∷ [])
        ≡ (if s.wc == wc then some s else for_web_contents wc shells)
  unfolding for_web_contents
  for_web_contents-snoc wc [] s f = refl
  for_web_contents-snoc wc (t ∷ shells) s (p, q, f) =
      ground (arith, for_web_contents-snoc wc shells s f, q)

  -- In a registry without shared addresses, closing a shell takes its address out of the look-ups by
  -- address and leaves those of all others as they were, and Java is told to hide the shell and then
  -- that it is gone.
  pub for_ptr-close_shell :
      (self : ℕ) (b : Browser Gurl)
      → IsDistinct b.all_shells
      → ((ptr : ℕ)
          → for_ptr ptr (close_shell self b).all_shells
            ≡ (if self == ptr then none else for_ptr ptr b.all_shells))
        × ((close_shell self b).sent
            ≡ (b.sent ++ shell_command self hide ∷ []) ++ shell_command self cleanup ∷ [])
  unfolding close_shell
  for_ptr-close_shell self b d = (λ ptr. for_ptr-erase self ptr b.all_shells d, refl)

  -- A shell that a page opens is found by its own address and by its WebContents, with the opener as
  -- its parent and with the opener's context unless there is a single context; the other shells are
  -- found as before.
  for_ptr-add_new_contents :
      (single : Bool) (opener : Shell Gurl) (self wc : ℕ) (b : Browser Gurl)
      → IsFresh self wc b.all_shells
      → let b' = add_new_contents single opener self wc b in
        let new_shell : Shell Gurl = record {
          self = self;
          wc = wc;
          sbc = if single then none else opener.sbc;
          parent_shell = opener.self;
          is_fullscreen = false;
          favicon_candidate = none;
          log = [];
        } in
        ((ptr : ℕ)
          → for_ptr ptr b'.all_shells
            ≡ (if self == ptr then some new_shell else for_ptr ptr b.all_shells))
        × ((w : ℕ)
            → for_web_contents w b'.all_shells
              ≡ (if wc == w then some new_shell else for_web_contents w b.all_shells))
  unfolding add_new_contents
  for_ptr-add_new_contents single opener self wc b f =
      (λ ptr. for_ptr-snoc ptr b.all_shells _ f, λ w. for_web_contents-snoc w b.all_shells _ f)

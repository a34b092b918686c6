-- ===== src/Shell/Favicon/Choice.antt =====
-- The favicon that is chosen: its class before its size, and which sizes count.
use seaturtle.Common.{
  ℕ, ◌≡◌, refl, sym, ap, ◌∙◌, ◌⊎◌, inl, inr, Bool, true, false, none, some, List, [], ◌∷◌, ltb,
  Bool-cases, Any, All,
}
use seaturtle.Shell.{Shell}
use seaturtle.Shell.Favicon.{
  IconType, invalid_icon, favicon, touch_icon, touch_precomposed_icon, FaviconUrl, Best, int_max,
  is_invalid, is_touch_icon, size_diff_of, try_sizes, try_valid, try_candidate, try_candidates,
  adopt, best_favicon, did_update_favicon_url,
}

not_both : {A : Type 0} (t : IconType) → is_invalid t ≡ true → is_touch_icon t ≡ true → A
not_both invalid_icon invalid touch = cc
not_both favicon invalid touch = cc
not_both touch_icon invalid touch = cc
not_both touch_precomposed_icon invalid touch = cc

module _ {Gurl : Type 0} where
  abbrev pub Touch : FaviconUrl Gurl → Type 0
  Touch f = is_touch_icon f.icon_type ≡ true

  -- The candidate has the address `url` and the class `touch`.
  abbrev pub Offers : Gurl → Bool → FaviconUrl Gurl → Type 0
  Offers url touch f =
      (is_invalid f.icon_type ≡ false) × (f.icon_url ≡ url) × (is_touch_icon f.icon_type ≡ touch)

  abbrev chosen : Gurl → ℕ → Bool → Best Gurl
  chosen url d touch = record { candidate = some url; size_diff = d; is_touch = touch }

  try_sizes-keeps :
      (url old : Gurl) (touch : Bool) (d : ℕ) (sizes : List (ℕ × ℕ))
      → (u : Gurl) × (d' : ℕ) × (try_sizes url touch sizes (chosen old d touch) ≡ chosen u d' touch)
        × ((u ≡ old) ⊎ (u ≡ url))
  unfolding try_sizes
  try_sizes-keeps url old touch d [] = (old, d, refl, inl refl)
  try_sizes-keeps url old touch d (s ∷ sizes) = elim (Bool-cases (ltb (size_diff_of s) d)) [
    | inl less ↦
        let (u, d', e, from) = try_sizes-keeps url url touch (size_diff_of s) sizes in
        (u, d', rw less e, (elim from [ inl e ↦ inr e | inr e ↦ inr e ]))
    | inr not_less ↦
        let (u, d', e, from) = try_sizes-keeps url old touch d sizes in (u, d', rw not_less e, from)
  ]

  -- What a further candidate does to a choice that has been made.
  Moves : Gurl → Bool → FaviconUrl Gurl → Gurl → Bool → Type 0
  Moves url touch f url' touch' =
      (((url' ≡ url) × (touch' ≡ touch)) ⊎ Offers url' touch' f)
      × (touch ≡ true → touch' ≡ true)
      × (Touch f → touch' ≡ true)

  offered :
      (f : FaviconUrl Gurl) (url : Gurl) (touch : Bool) {u : Gurl}
      → is_invalid f.icon_type ≡ false
      → is_touch_icon f.icon_type ≡ touch
      → (u ≡ url) ⊎ (u ≡ f.icon_url)
      → ((u ≡ url) × (touch ≡ touch)) ⊎ Offers u touch f
  offered f url touch valid class (inl e) = inl (e, refl)
  offered f url touch valid class (inr e) = inr (valid, sym e, class)

  try_valid-Moves :
      (f : FaviconUrl Gurl) (current : Bool) (url : Gurl) (d : ℕ) (touch : Bool)
      → is_invalid f.icon_type ≡ false
      → is_touch_icon f.icon_type ≡ current
      → (url' : Gurl) × (d' : ℕ) × (touch' : Bool) × (try_valid f current (chosen url d touch)
          ≡ chosen url' d' touch')
        × Moves url touch f url' touch'
  unfolding try_valid Moves
  try_valid-Moves f true url d true valid class =
      let (u, d', e, from) = try_sizes-keeps f.icon_url url true d f.icon_sizes in
      (u, d', true, e, (offered f url true valid class from, λ _. refl, λ _. refl))
  try_valid-Moves f true url d false valid class =
      (f.icon_url, d, true, refl, (inr (valid, refl, class), λ _. refl, λ _. refl))
  try_valid-Moves f false url d true valid class =
      (url, d, true, refl, (inl (refl, refl), λ _. refl, λ _. refl))
  try_valid-Moves f false url d false valid class =
      let (u, d', e, from) = try_sizes-keeps f.icon_url url false d f.icon_sizes in
      (u, d', false, e, (offered f url false valid class from, λ e. e, λ t. sym class ∙ t))

  try_candidate-valid :
      (f : FaviconUrl Gurl) (best : Best Gurl)
      → is_invalid f.icon_type ≡ false
      → try_candidate f best ≡ try_valid f (is_touch_icon f.icon_type) best
  unfolding try_candidate
  try_candidate-valid f best valid = rw valid refl

  try_candidate-Moves :
      (f : FaviconUrl Gurl) (url : Gurl) (d : ℕ) (touch : Bool)
      → (url' : Gurl) × (d' : ℕ) × (touch' : Bool) × (try_candidate f (chosen url d touch)
          ≡ chosen url' d' touch')
        × Moves url touch f url' touch'
  unfolding try_candidate Moves
  try_candidate-Moves f url d touch = elim (Bool-cases (is_invalid f.icon_type)) [
    | inl invalid ↦
        rw invalid
          (url, d, touch, refl, (inl (refl, refl), λ e. e, λ t. not_both f.icon_type invalid t))
    | inr valid ↦
        let (u, d', t, e, moves) =
          try_valid-Moves f (is_touch_icon f.icon_type) url d touch valid refl in
        (u, d', t, try_candidate-valid f (chosen url d touch) valid ∙ e, moves)
  ]

  carry :
      (f : FaviconUrl Gurl) (candidates : List (FaviconUrl Gurl)) (u url u' : Gurl)
      (t touch t' : Bool)
      → ((u ≡ url) × (t ≡ touch)) ⊎ Offers u t f
      → ((u' ≡ u) × (t' ≡ t)) ⊎ Any (Offers u' t') candidates
      → ((u' ≡ url) × (t' ≡ touch)) ⊎ Any (Offers u' t') (f ∷ candidates)
  carry f candidates u url u' t touch t' (inl (e, c)) (inl (e', c')) = inl (e' ∙ e, c' ∙ c)
  carry f candidates u url u' t touch t' (inr (valid, e, c)) (inl (e', c')) =
      inr (inl (valid, e ∙ sym e', c ∙ sym c'))
  carry f candidates u url u' t touch t' from (inr later) = inr (inr later)

  -- A choice that has been made is kept, or a later candidate of as good a class takes its place.
  try_candidates-moves :
      (candidates : List (FaviconUrl Gurl)) (url : Gurl) (d : ℕ) (touch : Bool)
      → (url' : Gurl) × (d' : ℕ) × (touch' : Bool) × (try_candidates candidates (chosen url d touch)
          ≡ chosen url' d' touch')
        × (((url' ≡ url) × (touch' ≡ touch)) ⊎ Any (Offers url' touch') candidates)
        × (touch ≡ true → touch' ≡ true)
        × (Any Touch candidates → touch' ≡ true)
  unfolding try_candidates Moves
  try_candidates-moves [] url d touch =
      (url, d, touch, refl, inl (refl, refl), λ e. e, λ none. absurd none)
  try_candidates-moves (f ∷ candidates) url d touch =
      let (u, d1, t, e1, (from1, up1, touch1)) = try_candidate-Moves f url d touch in
      let (u', d2, t', e2, from2, up2, touch2) = try_candidates-moves candidates u d1 t in
      (
        u',
        d2,
        t',
        ap (try_candidates candidates) e1 ∙ e2,
        carry f candidates u url u' t touch t' from1 from2,
        λ e. up2 (up1 e),
        λ any. elim any [ inl this ↦ up2 (touch1 this) | inr that ↦ touch2 that ],
      )

  abbrev undecided : Best Gurl
  undecided = record { candidate = none; size_diff = int_max; is_touch = false }

  abbrev pub Invalid : FaviconUrl Gurl → Type 0
  Invalid f = is_invalid f.icon_type ≡ true

  first_choice :
      (candidates : List (FaviconUrl Gurl))
      → (All Invalid candidates × (try_candidates candidates undecided ≡ undecided))
        ⊎ ((url : Gurl) × (d : ℕ) × (touch : Bool) × (try_candidates candidates undecided
              ≡ chosen url d touch)
            × Any (Offers url touch) candidates
            × (Any Touch candidates → touch ≡ true))
  unfolding try_candidates try_candidate try_valid
  first_choice [] = inl (tt, refl)
  first_choice (f ∷ candidates) = elim (Bool-cases (is_invalid f.icon_type)) [
    | inl invalid ↦ rw invalid (elim (first_choice candidates) [
      | inl (all, e) ↦ inl ((refl, all), e)
      | inr (url, d, touch, e, any, up) ↦ inr (
        url,
        d,
        touch,
        e,
        inr any,
        λ t. elim t [ inl this ↦ not_both f.icon_type invalid this | inr that ↦ up that ],
      )
    ])
    | inr valid ↦ rw valid (
        let current : Bool = is_touch_icon f.icon_type in
        let (url, d, touch, e, from, up, touches) =
          try_candidates-moves candidates f.icon_url int_max current in
        inr (
          url,
          d,
          touch,
          e,
          (elim from [
            | inl (same, class) ↦ inl (refl, sym same, sym class)
            | inr later ↦ inr later
          ]),
          λ t. elim t [ inl this ↦ up this | inr that ↦ touches that ],
        ))
  ]

  -- `s'` is what the shell `s` becomes when its new candidate is the address of `f`.
  abbrev pub Picks : List (FaviconUrl Gurl) → Shell Gurl → Shell Gurl → FaviconUrl Gurl → Type 0
  Picks candidates s s' f =
      (is_invalid f.icon_type ≡ false)
      × (s' ≡ record s { favicon_candidate = some f.icon_url })
      × (Any Touch candidates → Touch f)

  picks :
      (candidates : List (FaviconUrl Gurl)) (s s' : Shell Gurl) (url : Gurl) (touch : Bool)
      → s' ≡ record s { favicon_candidate = some url }
      → (Any Touch candidates → touch ≡ true)
      → (fs : List (FaviconUrl Gurl)) → Any (Offers url touch) fs
      → Any (Picks candidates s s') fs
  picks candidates s s' url touch e up [] any = elim any [ ]
  picks candidates s s' url touch e up (f ∷ fs) (inl (valid, same, class)) =
      inl
        (valid, e ∙ ap (λ u. record s { favicon_candidate = some u }) (sym same), λ t. class ∙ up t)
  picks candidates s s' url touch e up (f ∷ fs) (inr later) =
      inr (picks candidates s s' url touch e up fs later)

  -- After the page's icons are announced, the shell is as before if none of them is a valid icon, and
  -- otherwise its favicon candidate is the address of a valid one, which is a touch icon if there is
  -- any touch icon.
  did_update_favicon_url-Picks :
      (candidates : List (FaviconUrl Gurl)) (s : Shell Gurl)
      → (All Invalid candidates × (did_update_favicon_url candidates s ≡ s))
        ⊎ Any (Picks candidates s (did_update_favicon_url candidates s)) candidates
  unfolding did_update_favicon_url best_favicon
  did_update_favicon_url-Picks candidates s = elim (first_choice candidates) [
    | inl (all, e) ↦ inl (all, ap (λ b. adopt b.candidate s) e)
    | inr (url, d, touch, e, any, up) ↦ inr (
        picks candidates s (did_update_favicon_url candidates s) url touch
          (ap (λ b. adopt b.candidate s) e) up candidates any)
  ]

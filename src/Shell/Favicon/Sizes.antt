-- ===== src/Shell/Favicon/Sizes.antt =====
-- Which sizes the choice of a favicon looks at, among icons of one class.
use seaturtle.Common.{
  ℕ, ◌+◌, ◌-◌, ◌/◌, ◌<◌, ◌≤◌, ◌≡◌, refl, sym, ap, subst, ◌∙◌, ◌⊎◌, inl, inr, Bool, true, false,
  some, List, [], ◌∷◌, ◌++◌, map, arith, ltb, if◌then◌else◌, Bool-cases, Any, All,
}
use seaturtle.Shell.Favicon.{
  FaviconUrl, Best, ideal_favicon_size, int_max, is_invalid, is_touch_icon, size_diff_of, try_sizes,
  try_valid, try_candidate, try_candidates, best_favicon,
}

-- How far the mean of width and height is from the ideal.
abbrev pub distance : ℕ × ℕ → ℕ
distance (width, height) =
    let mean = (width + height) / 2 in (ideal_favicon_size - mean) + (mean - ideal_favicon_size)

-- The sum of width and height is an int.
abbrev pub FitsInt : ℕ × ℕ → Type 0
FitsInt s = s.0 + s.1 ≤ int_max

size_diff-distance : (s : ℕ × ℕ) → FitsInt s → size_diff_of s ≡ distance s
size_diff-distance (width, height) fits = ground arith

distance-below : (s : ℕ × ℕ) → FitsInt s → distance s < int_max
distance-below (width, height) fits = omega arith

module _ {Gurl : Type 0} where
  -- Every size of the icons, with the address of its icon and its distance from the ideal.
  abbrev pub sized : List (FaviconUrl Gurl) → List (Gurl × ℕ)
  sized [] = []
  sized (f ∷ fs) = map (λ s. (f.icon_url, distance s)) f.icon_sizes ++ sized fs

  abbrev pub SizesFit : FaviconUrl Gurl → Type 0
  SizesFit f = All FitsInt f.icon_sizes

  -- The same with the distances as the code computes them.
  abbrev computed : List (FaviconUrl Gurl) → List (Gurl × ℕ)
  computed [] = []
  computed (f ∷ fs) = map (λ s. (f.icon_url, size_diff_of s)) f.icon_sizes ++ computed fs

  map-distance :
      (url : Gurl) (sizes : List (ℕ × ℕ))
      → All FitsInt sizes
      → map {B = Gurl × ℕ} (λ s. (url, size_diff_of s)) sizes ≡ map (λ s. (url, distance s)) sizes
  map-distance url [] fit = refl
  map-distance url (s ∷ sizes) (this, fit) =
      rw (size_diff-distance s this, map-distance url sizes fit) refl

  computed-sized : (fs : List (FaviconUrl Gurl)) → All SizesFit fs → computed fs ≡ sized fs
  computed-sized [] fit = refl
  computed-sized (f ∷ fs) (this, fit) =
      rw (map-distance f.icon_url f.icon_sizes this, computed-sized fs fit) refl

  none_far :
      (url : Gurl) (rest : List (Gurl × ℕ)) (sizes : List (ℕ × ℕ))
      → All FitsInt sizes
      → All (λ y. int_max ≤ y.1) (map (λ s. (url, distance s)) sizes ++ rest)
      → (map (λ s. (url, distance s)) sizes ++ rest ≡ rest) × All (λ y. int_max ≤ y.1) rest
  none_far url rest [] fit far = (refl, far)
  none_far url rest (s ∷ sizes) fit far = absurd (omega (arith, distance-below s fit.0, far.0))

  -- No entry is as far as INT_MAX, so a list whose entries are has none.
  far_is_empty :
      (fs : List (FaviconUrl Gurl))
      → All SizesFit fs
      → All (λ y. int_max ≤ y.1) (sized fs)
      → sized fs ≡ []
  far_is_empty [] fit far = refl
  far_is_empty (f ∷ fs) (this, fit) far =
      let (e, later) = none_far f.icon_url (sized fs) f.icon_sizes this far in
      e ∙ far_is_empty fs fit later

  -- The icon is valid, and a touch icon or not as `touch` says.
  abbrev pub IsOf : Bool → FaviconUrl Gurl → Type 0
  IsOf touch f = (is_invalid f.icon_type ≡ false) × (is_touch_icon f.icon_type ≡ touch)

  -- The first entry of the smallest distance, if that is below `d`.
  abbrev least : Gurl → ℕ → List (Gurl × ℕ) → Gurl × ℕ
  least url d [] = (url, d)
  least url d (x ∷ xs) = if ltb x.1 d then least x.0 x.1 xs else least url d xs

  abbrev best_of : Bool → Gurl × ℕ → Best Gurl
  best_of touch x = record { candidate = some x.0; size_diff = x.1; is_touch = touch }

  least-append :
      (url : Gurl) (d : ℕ) (xs ys : List (Gurl × ℕ))
      → least url d (xs ++ ys) ≡ least (least url d xs).0 (least url d xs).1 ys
  least-append url d [] ys = refl
  least-append url d (x ∷ xs) ys = elim (Bool-cases (ltb x.1 d)) [
    | inl less ↦ rw less (least-append x.0 x.1 xs ys)
    | inr more ↦ rw more (least-append url d xs ys)
  ]

  try_sizes-least :
      (url : Gurl) (touch : Bool) (sizes : List (ℕ × ℕ)) (x : Gurl × ℕ)
      → try_sizes url touch sizes (best_of touch x)
        ≡ best_of touch (least x.0 x.1 (map (λ s. (url, size_diff_of s)) sizes))
  unfolding try_sizes
  try_sizes-least url touch [] x = refl
  try_sizes-least url touch (s ∷ sizes) x = elim (Bool-cases (ltb (size_diff_of s) x.1)) [
    | inl less ↦ rw less (try_sizes-least url touch sizes (url, size_diff_of s))
    | inr more ↦ rw more (try_sizes-least url touch sizes x)
  ]

  try_candidate-least :
      (touch : Bool) (f : FaviconUrl Gurl) (x : Gurl × ℕ)
      → IsOf touch f
      → try_candidate f (best_of touch x)
        ≡ best_of touch (least x.0 x.1 (map (λ s. (f.icon_url, size_diff_of s)) f.icon_sizes))
  unfolding try_candidate try_valid
  try_candidate-least true f x (valid, class) =
      rw (valid, class) (try_sizes-least f.icon_url true f.icon_sizes x)
  try_candidate-least false f x (valid, class) =
      rw (valid, class) (try_sizes-least f.icon_url false f.icon_sizes x)

  try_candidates-least :
      (touch : Bool) (fs : List (FaviconUrl Gurl)) (x : Gurl × ℕ)
      → All (IsOf touch) fs
      → try_candidates fs (best_of touch x) ≡ best_of touch (least x.0 x.1 (computed fs))
  unfolding try_candidates
  try_candidates-least touch [] x all = refl
  try_candidates-least touch (f ∷ fs) x (this, all) =
      ap (try_candidates fs) (try_candidate-least touch f x this)
      ∙ try_candidates-least touch fs _ all
      ∙ ap (best_of touch) (sym (least-append x.0 x.1 _ (computed fs)))

  -- The entry has the address `url`, and no entry of the list has a smaller distance.
  abbrev pub Nearest : Gurl → List (Gurl × ℕ) → Gurl × ℕ → Type 0
  Nearest url all x = (x.0 ≡ url) × All (λ y. x.1 ≤ y.1) all

  least-found :
      (url : Gurl) (d : ℕ) (xs : List (Gurl × ℕ))
      → (l : Gurl × ℕ) × (least url d xs ≡ l)
        × (l.1 ≤ d)
        × All (λ y. l.1 ≤ y.1) xs
        × ((l ≡ (url, d)) ⊎ Any (λ x. l ≡ x) xs)
  least-found url d [] = ((url, d), refl, omega arith, tt, inl refl)
  least-found url d (x ∷ xs) = elim (Bool-cases (ltb x.1 d)) [
    | inl less ↦
        let (l, e, below, lower, found) = least-found x.0 x.1 xs in
        (l, rw less e, ground (arith, below), (below, lower), inr found)
    | inr more ↦
        let (l, e, below, lower, found) = least-found url d xs in
        (
          l,
          rw more e,
          below,
          (ground (arith, below), lower),
          elim found [ inl start ↦ inl start | inr any ↦ inr (inr any) ],
        )
  ]

  nearest :
      (l : Gurl × ℕ) (all xs : List (Gurl × ℕ))
      → All (λ y. l.1 ≤ y.1) all
      → Any (λ x. l ≡ x) xs
      → Any (Nearest l.0 all) xs
  nearest l all [] lower any = elim any [ ]
  nearest l all (x ∷ xs) lower (inl e) =
      inl (ap (λ z. z.0) (sym e), subst (λ z. All (λ y. z.1 ≤ y.1) all) e lower)
  nearest l all (x ∷ xs) lower (inr any) = inr (nearest l all xs lower any)

  -- Among valid icons of one class, where width and height of each size of the later icons add up to
  -- an int, the one chosen is the first only if no later icon lists a size, and otherwise a later one
  -- that has a size as close to the ideal as any size of the later icons. The sizes of the first icon
  -- play no part, even if one of them is the ideal.
  pub best_favicon-Nearest :
      (touch : Bool) (f : FaviconUrl Gurl) (fs : List (FaviconUrl Gurl))
      → IsOf touch f
      → All (IsOf touch) fs
      → All SizesFit fs
      → (url : Gurl) × ((best_favicon (f ∷ fs)).candidate ≡ some url)
        × (((url ≡ f.icon_url) × (sized fs ≡ [])) ⊎ Any (Nearest url (sized fs)) (sized fs))
  unfolding best_favicon try_candidates try_candidate try_valid
  best_favicon-Nearest touch f fs (valid, class) all fit =
      let (l, e, below, lower, found) = least-found f.icon_url int_max (sized fs) in
      (
        l.0,
        ap (λ b. (try_candidates fs b).candidate) (rw (valid, class) refl)
            ∙ ap (λ b. b.candidate) (try_candidates-least touch fs (f.icon_url, int_max) all)
            ∙ ap (λ xs. some (least f.icon_url int_max xs).0) (computed-sized fs fit)
            ∙ ap (λ x. some x.0) e,
        elim found [
          | inl start ↦ inl (
            ap (λ x. x.0) start,
            far_is_empty fs fit (subst (λ z. All (λ y. z.1 ≤ y.1) (sized fs)) start lower),
          )
          | inr any ↦ inr (nearest l (sized fs) (sized fs) lower any)
        ],
      )

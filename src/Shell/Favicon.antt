-- ===== src/Shell/Favicon.antt =====
-- shell/browser/shell.cc: the choice of a favicon, DidUpdateFaviconURL.
pub mod Choice
pub mod Sizes
use seaturtle.Common.{
  ℕ, ◌+◌, ◌-◌, ◌/◌, ◌%◌, ◌^◌, ◌<◌, Bool, true, false, not, ◌&&◌, Option, none, some, List, [], ◌∷◌,
  ltb, if◌then◌else◌,
}
use seaturtle.Shell.{Shell}

-- content::FaviconURL::IconType
pub data IconType : Type 0 where
  invalid_icon favicon touch_icon touch_precomposed_icon : IconType

-- content::FaviconURL, with the sizes as width and height, ints that are not negative
pub record FaviconUrl (Gurl : Type 0) : Type 0 where
  pub icon_url : Gurl
  pub icon_type : IconType
  pub icon_sizes : List (ℕ × ℕ)

-- The local variables of the loop.
pub record Best (Gurl : Type 0) : Type 0 where
  pub candidate : Option Gurl
  pub size_diff : ℕ
  pub is_touch : Bool

abbrev pub ideal_favicon_size : ℕ
ideal_favicon_size = 48

-- INT_MAX
abbrev pub int_max : ℕ
int_max = 2147483647

abbrev pub is_invalid : IconType → Bool
is_invalid invalid_icon = true
is_invalid favicon = false
is_invalid touch_icon = false
is_invalid touch_precomposed_icon = false

abbrev pub is_touch_icon : IconType → Bool
is_touch_icon invalid_icon = false
is_touch_icon favicon = false
is_touch_icon touch_icon = true
is_touch_icon touch_precomposed_icon = true

-- abs(kIdealFaviconSize - (width + height) / 2) on 32-bit ints, which gfx::Size does not let be
-- negative. A sum above INT_MAX wraps around to `sum - 2 ^ 32`, whose half is rounded towards zero.
abbrev pub size_diff_of : ℕ × ℕ → ℕ
size_diff_of (width, height) =
    let sum = (width + height) % 2 ^ 32 in
    let mean = sum / 2 in
    if ltb int_max sum
    then ideal_favicon_size + (2 ^ 32 - sum) / 2
    else if ltb mean ideal_favicon_size
    then ideal_favicon_size - mean
    else mean - ideal_favicon_size

module _ {Gurl : Type 0} where
  -- The loop over the sizes of one candidate.
  unfoldable pub try_sizes : Gurl → Bool → List (ℕ × ℕ) → Best Gurl → Best Gurl
  try_sizes url current_is_touch [] best = best
  try_sizes url current_is_touch (s ∷ sizes) best = try_sizes url current_is_touch sizes (
      if ltb (size_diff_of s) best.size_diff
      then record { candidate = some url; size_diff = size_diff_of s; is_touch = current_is_touch }
      else best)

  -- The body of the loop over the candidates, for one that is not invalid.
  unfoldable pub try_valid : FaviconUrl Gurl → Bool → Best Gurl → Best Gurl
  unfolding try_sizes
  try_valid f current_is_touch best = elim best.candidate [
    | none ↦ record best { candidate = some f.icon_url; is_touch = current_is_touch }
    | some url ↦
        if not best.is_touch && current_is_touch
        then record best { candidate = some f.icon_url; is_touch = current_is_touch }
        else if best.is_touch && not current_is_touch
        then best
        else try_sizes f.icon_url current_is_touch f.icon_sizes best
  ]

  unfoldable pub try_candidate : FaviconUrl Gurl → Best Gurl → Best Gurl
  unfolding try_valid
  try_candidate f best =
      if is_invalid f.icon_type then best else try_valid f (is_touch_icon f.icon_type) best

  unfoldable pub try_candidates : List (FaviconUrl Gurl) → Best Gurl → Best Gurl
  unfolding try_candidate
  try_candidates [] best = best
  try_candidates (f ∷ candidates) best = try_candidates candidates (try_candidate f best)

  unfoldable pub best_favicon : List (FaviconUrl Gurl) → Best Gurl
  unfolding try_candidates
  best_favicon candidates =
      try_candidates candidates (record { candidate = none; size_diff = int_max; is_touch = false })

  abbrev pub adopt : Option Gurl → Shell Gurl → Shell Gurl
  adopt none s = s
  adopt (some url) s = record s { favicon_candidate = some url }

  -- Shell::DidUpdateFaviconURL; an old candidate stays when there is no new one.
  unfoldable pub did_update_favicon_url : List (FaviconUrl Gurl) → Shell Gurl → Shell Gurl
  unfolding best_favicon
  did_update_favicon_url candidates s = adopt (best_favicon candidates).candidate s

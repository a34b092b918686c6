-- ===== src/Network/Outcomes.antt =====
-- Small facts on the tests and the answers of OnBeforeURLRequest.
use seaturtle.Common.{
  ◌≡◌, refl, ap, ◌↔◌, ◌⊎◌, inl, inr, Bool, true, false, not, ◌&&◌, [], arith, if◌then◌else◌,
}
use seaturtle.Url.{NetError, net_ok, err_blocked_by_client, err_unsafe_redirect, Request}
use seaturtle.Settings.{AllSettings}
use seaturtle.Blocker.Blacklist.{should_clear_referrer}
use seaturtle.Network.{clear_referrer}

pub if_off : {A : Type 0} (c : Bool) (x y : A) → c ≡ false → (if c then x else y) ≡ y
if_off c x y e = rw e refl

pub if_on : {A : Type 0} (c : Bool) (x y : A) → c ≡ true → (if c then x else y) ≡ x
if_on c x y e = rw e refl

pub three_tests :
    (x y z : Bool) → (not x && (not y && z) ≡ true) ↔ ((x ≡ false) × (y ≡ false) × (z ≡ true))
three_tests true y z = ground arith
three_tests false true z = ground arith
three_tests false false z = (λ e. (refl, refl, e), λ (_, _, e). e)

pub not_refused :
    {A : Type 0} (error : NetError)
    → (error ≡ net_ok) ⊎ (error ≡ err_unsafe_redirect)
    → error ≡ err_blocked_by_client
    → A
not_refused error (inl e) h = cc
not_refused error (inr e) h = cc

cleared_if :
    {Gurl : Type 0} (c : Bool) (r : Request Gurl)
    → let q = if c then record r { referrer = [] } else r in
      (q.referrer ≡ (if c then [] else r.referrer)) × (q.url ≡ r.url)
cleared_if true r = (refl, refl)
cleared_if false r = (refl, refl)

pub cleared :
    {Gurl : Type 0} (settings : AllSettings) (r : Request Gurl)
    → ((clear_referrer settings r).referrer
        ≡ (if settings.filters.clear_referrer then [] else r.referrer))
      × ((clear_referrer settings r).url ≡ r.url)
unfolding clear_referrer should_clear_referrer
cleared settings r = cleared_if settings.filters.clear_referrer r

-- Whether the answer is a block.
abbrev pub is_block : NetError → Bool
is_block net_ok = false
is_block err_blocked_by_client = true
is_block err_unsafe_redirect = false

pub is_block_none :
    (error : NetError) → (error ≡ net_ok) ⊎ (error ≡ err_unsafe_redirect) → is_block error ≡ false
is_block_none error (inl e) = ap is_block e
is_block_none error (inr e) = ap is_block e

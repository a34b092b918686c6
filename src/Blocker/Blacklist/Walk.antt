-- ===== src/Blocker/Blacklist/Walk.antt =====
-- What the walk over the parent domains of a host tests, and that it ends.
use seaturtle.Common.{
  ℕ, zero, suc, ◌<◌, ◌≡◌, refl, subst, ◌↔◌, inl, inr, Bool, true, false, none, some, [], ◌∷◌, arith,
  leb, if◌then◌else◌, Bool-cases, Option-cases, length, drop, length-drop, Bytes, find_byte,
  find_byte-lt, to_lower_ascii, Any,
}
use seaturtle.Url.{UrlApi}
use seaturtle.Host.{
  HasDot, IsParent, parents, parents-find_some, Any-visited_iff, drop-eq-nil, not_Any-visited,
}
use seaturtle.Settings.{Filters}
use seaturtle.Blocker.{Blocker}
use seaturtle.Blocker.Blacklist.{
  is_host_evil_third_party, block_loop, should_block_third_party_request,
}

module _ {W : Type 0} (b : Blocker W) where
  -- A domain that the walk would stop at.
  abbrev pub IsEvil : Bytes → Type 0
  IsEvil d = is_host_evil_third_party b d ≡ true

  abbrev Stops : Bytes → Type 0
  Stops d = HasDot d × IsEvil d

  -- One round of the loop at a host that is not evil: the test for the end loses nothing.
  block_round :
      (host next : Bytes) (rest over : Bool)
      → (Stops host → ⊥)
      → (over ≡ true → next ≡ [])
      → (rest ≡ true) ↔ Any Stops (next ∷ parents next)
      → ((if over then false else rest) ≡ true) ↔ Any Stops (host ∷ next ∷ parents next)
  unfolding find_byte
  block_round host next rest true good ends ih = (
    λ h. cc,
    λ a. elim a [
      | inl here ↦ absurd (good here)
      | inr later ↦ absurd (
          not_Any-visited IsEvil [] refl (subst (λ s. Any Stops (s ∷ parents s)) (ends refl) later))
    ],
  )
  block_round host next rest false good ends ih =
      (λ h. inr (ih.0 h), λ a. elim a [ inl here ↦ absurd (good here) | inr later ↦ ih.1 later ])

  block_loop-none :
      (fuel : ℕ) (host : Bytes) → find_byte b'.' host ≡ none → block_loop (suc fuel) b host ≡ false
  unfolding block_loop
  block_loop-none fuel host e = rw (e, block_loop)

  block_loop-evil :
      (fuel : ℕ) (host : Bytes) (pos : ℕ)
      → find_byte b'.' host ≡ some pos
      → IsEvil host
      → block_loop (suc fuel) b host ≡ true
  unfolding block_loop
  block_loop-evil fuel host pos e evil = rw (e, block_loop, evil)

  block_loop-good :
      (fuel : ℕ) (host : Bytes) (pos : ℕ)
      → find_byte b'.' host ≡ some pos
      → is_host_evil_third_party b host ≡ false
      → block_loop (suc fuel) b host
        ≡ (if leb (length host) (suc pos) then false else block_loop fuel b (drop (suc pos) host))
  unfolding block_loop
  block_loop-good fuel host pos e good = rw (e, block_loop, good)

  -- With more fuel than the host has bytes the loop says whether it meets such a domain.
  block_loop_iff :
      (fuel : ℕ) (host : Bytes)
      → length host < fuel
      → (block_loop fuel b host ≡ true) ↔ Any Stops (host ∷ parents host)
  block_loop_iff zero host h = elim h [ ]
  block_loop_iff (suc fuel) host h = elim (Option-cases (find_byte b'.' host)) [
    | inl e ↦
        rw (block_loop-none fuel host e) (λ x. cc, λ a. absurd (not_Any-visited IsEvil host e a))
    | inr (pos, e) ↦ elim (Bool-cases (is_host_evil_third_party b host)) [
      | inl evil ↦ rw (block_loop-evil fuel host pos e evil) (λ _. inl ((pos, e), evil), λ _. refl)
      | inr good ↦
          rw (block_loop-good fuel host pos e good, parents-find_some host pos e)
            (block_round host (drop (suc pos) host) _ _ (λ (_, evil). cc)
              (λ over. drop-eq-nil (suc pos) host (ground (arith, over)))
              (block_loop_iff fuel (drop (suc pos) host)
                (omega (arith, length-drop (suc pos) host, find_byte-lt b'.' host pos e))))
    ]
  ]

-- A request is blocked exactly when the blacklist is switched on and it holds the host, in lower
-- case, or some parent domain of it, that has a dot in it.
pub should_block_iff :
    {Gurl W : Type 0} (api : UrlApi Gurl) (s : Filters) (b : Blocker W) (url : Gurl)
    → (should_block_third_party_request api s b url ≡ true) ↔ (
        (s.blacklist_third_parties ≡ true)
        × ((d : Bytes) × IsParent d (to_lower_ascii (api.host url))
            × HasDot d
            × (is_host_evil_third_party b d ≡ true)))
unfolding should_block_third_party_request
should_block_iff api s b url =
    let host = to_lower_ascii (api.host url) in
    let loop = block_loop_iff b (suc (length host)) host (omega arith) in
    let visited = Any-visited_iff (λ d. HasDot d × (is_host_evil_third_party b d ≡ true)) host in
    elim (Bool-cases s.blacklist_third_parties) [
      | inl on ↦ rw on (
        λ h. (refl, let (d, place, stops) = visited.0 (loop.0 h) in (d, place, stops.0, stops.1)),
        λ (_, (d, place, dot, evil)). loop.1 (visited.1 (d, place, (dot, evil))),
      )
      | inr off ↦ rw off (λ h. cc, λ (h, _). cc)
    ]

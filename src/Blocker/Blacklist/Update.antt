-- ===== src/Blocker/Blacklist/Update.antt =====
-- What an update of the rules leaves in the blacklist, and which strings its keys point into.
use seaturtle.Common.{
  ℕ, suc, ◌≤◌, ◌<◌, ◌≡◌, refl, ◌↔◌, ◌⊎◌, inl, inr, Bool, true, ◌&&◌, Option, none, some, List, [],
  ◌∷◌, arith, if◌then◌else◌, Bool-cases, Option-cases, is_some, Bytes, ◌==◌, ==_iff, bytes_eq,
  bytes_eq_iff, lookup, lookup-insert, Any,
}
use seaturtle.Blocker.{Rule, Backing, DomainBlacklist, Blocker}
use seaturtle.Blocker.Blacklist.{
  add_domain, add_rules, update_rules_for_browser_process, is_host_evil_third_party,
}

-- The rule blocks this domain as a third party.
abbrev pub Blocks : Bytes → Rule → Type 0
Blocks domain rule = (rule.block_third_party ≡ true) × (rule.domain ≡ domain)

abbrev blocks : Bytes → Rule → Bool
blocks domain rule = rule.block_third_party && bytes_eq rule.domain domain

-- How many rules of the list block the domain.
abbrev pub count_blocking : Bytes → List Rule → ℕ
count_blocking domain [] = 0
count_blocking domain (rule ∷ rl) =
    let rest = count_blocking domain rl in
    if rule.block_third_party && bytes_eq rule.domain domain then suc rest else rest

abbrev touch : ℕ → Option Backing → Option Backing
touch i none = some (record { key_in = i; held = i })
touch i (some slot) = some (record slot { held = i })

-- The slot of one domain, followed through the loop.
follow : Bytes → ℕ → List Rule → Option Backing → Option Backing
follow domain i [] o = o
follow domain i (rule ∷ rl) o =
    follow domain (suc i) rl (if blocks domain rule then touch i o else o)

lookup-add_domain :
    (domain : Bytes) (i : ℕ) (d : Bytes) (m : DomainBlacklist)
    → lookup domain (add_domain i d m)
      ≡ (if bytes_eq d domain then touch i (lookup domain m) else lookup domain m)
unfolding add_domain
lookup-add_domain domain i d m = elim (Option-cases (lookup d m)) [
  | inl e ↦
      ground (
        arith,
        e,
        bytes_eq_iff d domain,
        lookup-insert d domain (record { key_in = i; held = i }) m,
      )
  | inr (slot, e) ↦
      ground (arith, e, bytes_eq_iff d domain, lookup-insert d domain (record slot { held = i }) m)
]

lookup-add_rules :
    (domain : Bytes) (i : ℕ) (rl : List Rule) (m : DomainBlacklist)
    → lookup domain (add_rules i rl m) ≡ follow domain i rl (lookup domain m)
unfolding add_rules follow
lookup-add_rules domain i [] m = refl
lookup-add_rules domain i (rule ∷ rl) m = elim (Bool-cases rule.block_third_party) [
  | inl on ↦ rw (
    on,
    lookup-add_rules domain (suc i) rl (add_domain i rule.domain m),
    lookup-add_domain domain i rule.domain m,
  )
  | inr off ↦ rw (off, lookup-add_rules domain (suc i) rl m)
]

is_some-touch : (i : ℕ) (o : Option Backing) → is_some (touch i o) ≡ true
is_some-touch i none = refl
is_some-touch i (some slot) = refl

follow-is_some :
    (domain : Bytes) (i : ℕ) (rl : List Rule) (o : Option Backing)
    → (is_some (follow domain i rl o) ≡ true) ↔ ((is_some o ≡ true) ⊎ Any (Blocks domain) rl)
unfolding follow
follow-is_some domain i [] o = (λ h. inl h, λ h. elim h [ inl e ↦ e | inr e ↦ absurd e ])
follow-is_some domain i (rule ∷ rl) o = ground (
  arith,
  bytes_eq_iff rule.domain domain,
  is_some-touch i o,
  follow-is_some domain (suc i) rl o,
  follow-is_some domain (suc i) rl (touch i o),
)

-- The number of the last rule that blocks the domain, `held` if none does.
last_blocking : Bytes → ℕ → List Rule → ℕ → ℕ
last_blocking domain i [] held = held
last_blocking domain i (rule ∷ rl) held =
    last_blocking domain (suc i) rl (if blocks domain rule then i else held)

follow-some :
    (domain : Bytes) (i : ℕ) (rl : List Rule) (slot : Backing)
    → follow domain i rl (some slot)
      ≡ some (record slot { held = last_blocking domain i rl slot.held })
unfolding follow last_blocking
follow-some domain i [] slot = refl
follow-some domain i (rule ∷ rl) slot = elim (Bool-cases (blocks domain rule)) [
  | inl on ↦ rw on (follow-some domain (suc i) rl (record slot { held = i }))
  | inr off ↦ rw off (follow-some domain (suc i) rl slot)
]

last_blocking_bounds :
    (domain : Bytes) (i : ℕ) (rl : List Rule) (held : ℕ)
    → ((count_blocking domain rl ≡ 0) → last_blocking domain i rl held ≡ held)
      × (1 ≤ count_blocking domain rl → i ≤ last_blocking domain i rl held)
unfolding last_blocking
last_blocking_bounds domain i [] held = (λ _. refl, λ l. absurd (omega arith))
last_blocking_bounds domain i (rule ∷ rl) held =
    ground
      (arith, last_blocking_bounds domain (suc i) rl i, last_blocking_bounds domain (suc i) rl held)

follow-none_bounds :
    (domain : Bytes) (i : ℕ) (rl : List Rule) (slot : Backing)
    → follow domain i rl none ≡ some slot
    → (slot.key_in ≤ slot.held) × ((slot.key_in < slot.held) ↔ (2 ≤ count_blocking domain rl))
unfolding follow
follow-none_bounds domain i [] slot h = cc
follow-none_bounds domain i (rule ∷ rl) slot h = elim (Bool-cases (blocks domain rule)) [
  | inl on ↦ ground (
    arith,
    on,
    follow-some domain (suc i) rl (record { key_in = i; held = i }),
    last_blocking_bounds domain (suc i) rl i,
  )
  | inr off ↦ rw off (follow-none_bounds domain (suc i) rl slot (rw off at h))
]

-- In the slot of a domain after an update, the string that the key points into is never younger
-- than the string that the slot keeps alive, and it is an older one, which has been freed, exactly
-- when two rules of the list or more block the domain.
pub key-dangles_iff :
    {W : Type 0} (b : Blocker W) (rl : List Rule) (domain : Bytes) (slot : Backing)
    → lookup domain (update_rules_for_browser_process b rl).domain_blacklist ≡ some slot
    → (slot.key_in ≤ slot.held) × ((slot.key_in < slot.held) ↔ (2 ≤ count_blocking domain rl))
unfolding update_rules_for_browser_process lookup
key-dangles_iff b rl domain slot h =
    follow-none_bounds domain 0 rl slot (rw (lookup-add_rules domain 0 rl []) at h)

-- The string that the key of the slot points into is the one that the slot keeps alive.
abbrev pub key_is_alive : Option Backing → Bool
key_is_alive none = true
key_is_alive (some slot) = slot.key_in == slot.held

keys_alive :
    {W : Type 0} (b : Blocker W) (rl : List Rule) (domain : Bytes)
    → count_blocking domain rl ≤ 1
    → key_is_alive (lookup domain (update_rules_for_browser_process b rl).domain_blacklist) ≡ true
keys_alive b rl domain once =
    elim (Option-cases (lookup domain (update_rules_for_browser_process b rl).domain_blacklist)) [
      | inl e ↦ rw e refl
      | inr (slot, e) ↦
          let (older, freed) = key-dangles_iff b rl domain slot e in
          rw e ((==_iff slot.key_in slot.held).1 (ground (arith, older, freed, once)))
    ]

-- After an update by rules that block no domain twice, no key of the blacklist points into a string
-- that has been freed, and a host counts as an evil third party exactly when some rule with
-- `block_third_party` names it, byte for byte.
pub is_host_evil_third_party-update_iff :
    {W : Type 0} (b : Blocker W) (rl : List Rule)
    → ((domain : Bytes) → count_blocking domain rl ≤ 1)
    → let b' = update_rules_for_browser_process b rl in
      ((domain : Bytes) → key_is_alive (lookup domain b'.domain_blacklist) ≡ true)
      × ((host : Bytes) → (is_host_evil_third_party b' host ≡ true) ↔ Any (Blocks host) rl)
unfolding is_host_evil_third_party update_rules_for_browser_process lookup
is_host_evil_third_party-update_iff b rl once = (
  λ domain. keys_alive b rl domain (once domain),
  λ host. rw (lookup-add_rules host 0 rl []) (
    λ h. elim ((follow-is_some host 0 rl none).0 h) [ inl e ↦ cc | inr a ↦ a ],
    λ a. (follow-is_some host 0 rl none).1 (inr a),
  ),
)

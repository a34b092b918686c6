-- ===== src/Blocker/Blacklist.antt =====
-- block/blocker.cc: UpdateRulesForBrowserProcess, IsHostEvilThirdParty, ShouldBlockThirdPartyRequest
-- and ShouldClearReferrer.
pub mod Update
pub mod Walk
use seaturtle.Common.{
  ℕ, zero, suc, ◌+◌, Bool, true, false, Option, none, some, List, [], ◌∷◌, leb, if◌then◌else◌,
  is_some, length, drop, Bytes, to_lower_ascii, find_byte, lookup, insert,
}
use seaturtle.Url.{UrlApi}
use seaturtle.Settings.{Filters}
use seaturtle.Blocker.{Rule, Backing, DomainBlacklist, Blocker}

-- `domain_blacklist_[StringPiece(*host)] = host` for the string that rule number `i` allocates: a
-- slot that is there keeps its key, and its linked_ptr is replaced.
unfoldable pub add_domain : ℕ → Bytes → DomainBlacklist → DomainBlacklist
add_domain i domain m = elim (lookup domain m) [
  | none ↦ insert domain (record { key_in = i; held = i }) m
  | some slot ↦ insert domain (record slot { held = i }) m
]

-- The loop over the rules, from rule number `i` on.
unfoldable pub add_rules : ℕ → List Rule → DomainBlacklist → DomainBlacklist
add_rules i [] m = m
add_rules i (rule ∷ rl) m =
    add_rules (suc i) rl (if rule.block_third_party then add_domain i rule.domain m else m)

unfoldable pub update_rules_for_browser_process : {W : Type 0} → Blocker W → List Rule → Blocker W
unfolding add_rules add_domain
update_rules_for_browser_process b rl = record b { domain_blacklist = add_rules 0 rl [] }

-- `domain_blacklist_.find(host) != domain_blacklist_.end()`. The keys are compared as the strings that
-- they pointed into when they were made. That is what the code does as long as no key dangles: see
-- `key_in` and `held` of Backing, and Update for when they differ.
unfoldable pub is_host_evil_third_party : {W : Type 0} → Blocker W → Bytes → Bool
is_host_evil_third_party b host = is_some (lookup host b.domain_blacklist)

-- The `while (true)` loop, on fuel.
unfoldable pub block_loop : {W : Type 0} → ℕ → Blocker W → Bytes → Bool
block_loop zero b host = false
block_loop (suc fuel) b host = elim (find_byte b'.' host) [
  | none ↦ false
  | some pos ↦
      let rest = block_loop fuel b (drop (suc pos) host) in
      if is_host_evil_third_party b host
      then true
      else if leb (length host) (suc pos)
      then false
      else rest
]

unfoldable pub should_block_third_party_request :
    {Gurl W : Type 0} → UrlApi Gurl → Filters → Blocker W → Gurl → Bool
unfolding block_loop
should_block_third_party_request api s b url =
    let host = to_lower_ascii (api.host url) in
    if s.blacklist_third_parties then block_loop (suc (length host)) b host else false

unfoldable pub should_clear_referrer : Filters → Bool
should_clear_referrer s = s.clear_referrer

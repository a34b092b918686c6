-- ===== src/Blocker/Tests.antt =====
-- Runs of the blocker on small inputs, and its theorems at concrete arguments.
use seaturtle.Common.{
  ◌≤◌, ◌<◌, ◌≡◌, ◌≢◌, refl, sym, ◌∙◌, ◌↔◌, inl, inr, true, false, List, [], ◌∷◌, ◌++◌, arith, Bytes,
  lit, to_lower_ascii, find_byte, bytes_eq, bytes_eq_iff, Bool-cases, lookup, insert, contains,
}
use seaturtle.Fixtures.{plain_api}
use seaturtle.Settings.{Filters}
use seaturtle.Blocker.{Rule, Backing, Blocker}
use seaturtle.Blocker.Whitelist.{update_whitelist, is_whitelisted}
use seaturtle.Blocker.Blacklist.{
  update_rules_for_browser_process, is_host_evil_third_party, should_block_third_party_request,
}
use seaturtle.Blocker.Blacklist.Update.{
  count_blocking, is_host_evil_third_party-update_iff, key-dangles_iff,
}
use seaturtle.Blocker.Blacklist.Walk.{should_block_iff}
use seaturtle.Blocker.Stylesheets.{
  display_none, render_state, update_rules_for_render_process, inject_style_sheets,
}
use seaturtle.Blocker.Stylesheets.Chunks.{Sheets, render_state-Sheets}
use seaturtle.Blocker.Stylesheets.Inject.{inject-update}

abbrev empty_blocker : Blocker Bytes
empty_blocker = record {
  file_path = [];
  domain_blacklist = [];
  global_stylesheets = [];
  domain_stylesheets = [];
  whitelist = [];
}

abbrev block_rule : Bytes → Rule
block_rule domain = record { domain = domain; selector = []; block_third_party = true }

abbrev hide_rule : Bytes → Bytes → Rule
hide_rule domain selector = record {
  domain = domain;
  selector = selector;
  block_third_party = false;
}

abbrev ad_rules : List Rule
ad_rules = block_rule (lit "ads.com") ∷ block_rule (lit "com") ∷ hide_rule [] (lit ".ad") ∷ []

abbrev all_on : Filters
all_on = record {
  clear_referrer = true;
  inject_js = true;
  blacklist_third_parties = true;
  inject_css = true;
}

ad_blocker : Blocker Bytes
unfolding update_rules_for_browser_process
ad_blocker = update_rules_for_browser_process empty_blocker ad_rules

abbrev ad_url : Bytes
ad_url = lit "http://X.Ads.com/banner"

blocks_parent : should_block_third_party_request plain_api all_on ad_blocker ad_url ≡ true
unfolding ad_blocker should_block_third_party_request is_host_evil_third_party lookup insert
    bytes_eq to_lower_ascii find_byte
blocks_parent = refl

-- The rule for "com" is never tried, since it has no dot.
passes_tld :
    should_block_third_party_request plain_api all_on ad_blocker (lit "http://shop.com/") ≡ false
unfolding ad_blocker should_block_third_party_request is_host_evil_third_party lookup insert
    bytes_eq to_lower_ascii find_byte
passes_tld = refl

should_block_example : should_block_third_party_request plain_api all_on ad_blocker ad_url ≡ true
unfolding ad_blocker is_host_evil_third_party lookup insert bytes_eq to_lower_ascii find_byte
should_block_example =
    (should_block_iff plain_api all_on ad_blocker ad_url).1
      (refl, (lit "ads.com", inr (lit "x", refl), (3, refl), refl))

ads_not_com : ◌≢◌ {A = Bytes} (lit "ads.com") (lit "com")
ads_not_com e = cc

blocked_once : (domain : Bytes) → count_blocking domain ad_rules ≤ 1
blocked_once domain = elim (Bool-cases (bytes_eq (lit "ads.com") domain)) [
  | inl e ↦ elim (Bool-cases (bytes_eq (lit "com") domain)) [
    | inl f ↦ absurd (
        ads_not_com
          ((bytes_eq_iff (lit "ads.com") domain).0 e ∙ sym ((bytes_eq_iff (lit "com") domain).0 f)))
    | inr f ↦ rw (e, f) (omega arith)
  ]
  | inr e ↦ elim (Bool-cases (bytes_eq (lit "com") domain)) [
    | inl f ↦ rw (e, f) (omega arith)
    | inr f ↦ rw (e, f) (omega arith)
  ]
]

is_evil_example :
    is_host_evil_third_party
      (update_rules_for_browser_process empty_blocker ad_rules)
      (lit "ads.com")
    ≡ true
is_evil_example =
    ((is_host_evil_third_party-update_iff empty_blocker ad_rules blocked_once).1 (lit "ads.com")).1
      (inl (refl, refl))

abbrev twice_rules : List Rule
twice_rules = block_rule (lit "a.b") ∷ block_rule (lit "a.b") ∷ []

abbrev dangling_slot : Backing
dangling_slot = record { key_in = 0; held = 1 }

key-dangles_example :
    (dangling_slot.key_in ≤ dangling_slot.held)
    × ((dangling_slot.key_in < dangling_slot.held) ↔ (2 ≤ count_blocking (lit "a.b") twice_rules))
unfolding update_rules_for_browser_process lookup insert bytes_eq
key-dangles_example = key-dangles_iff empty_blocker twice_rules (lit "a.b") dangling_slot refl

-- A second entry that lists a path takes the whole host off the list again.
merged_entries :
    is_whitelisted plain_api
      (update_whitelist empty_blocker (
        record { host = lit "a.org"; paths = [] }
        ∷ record { host = lit "A.org"; paths = lit "/x" ∷ [] }
        ∷ []))
      (lit "http://a.org/y")
    ≡ false
unfolding is_whitelisted update_whitelist lookup insert contains bytes_eq to_lower_ascii
merged_entries = refl

abbrev hide_rules : List Rule
hide_rules =
    hide_rule [] (lit ".ad")
    ∷ hide_rule [] (lit "#top")
    ∷ hide_rule (lit "a.com") (lit ".x")
    ∷ hide_rule [] (lit "p")
    ∷ []

render_state_run :
    (render_state (λ x. x) 2 hide_rules).global_stylesheets
    ≡ (lit ".ad,#top" ++ display_none) ∷ (lit "p" ++ display_none) ∷ []
unfolding render_state lookup insert bytes_eq
render_state_run = refl

render_state-Sheets_example :
    Sheets
      (λ x. x)
      2
      (lit ".ad" ∷ lit "#top" ∷ lit "p" ∷ [])
      (render_state (λ x. x) 2 hide_rules).global_stylesheets
render_state-Sheets_example = render_state-Sheets (λ x. x) 2 hide_rules (omega arith)

inject-update_example :
    let b' = update_rules_for_render_process (λ x. x) empty_blocker hide_rules in
    inject_style_sheets (λ x. x) plain_api b' (lit "http://w.A.com/")
    ≡ b'.global_stylesheets ++ (lit ".x" ++ display_none) ∷ []
unfolding bytes_eq to_lower_ascii find_byte
inject-update_example =
    inject-update (λ x. x) plain_api empty_blocker hide_rules (lit "http://w.A.com/")

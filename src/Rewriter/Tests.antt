-- ===== src/Rewriter/Tests.antt =====
-- Runs of the rewriter on small inputs, and its theorems at concrete arguments. The regular
-- expressions of the tests are plain prefixes.
use seaturtle.Common.{
  ◌≤◌, arith, Bool, false, List, ◌≡◌, refl, bytes_eq_refl, ◌⊎◌, true, false, none, some, [], ◌∷◌,
  ◌++◌, if◌then◌else◌, length, drop, Bytes, lit, to_lower_ascii, bytes_eq, find_byte, lookup,
  insert, contains, set_insert, ok, crash, take, is_empty,
}
use seaturtle.Url.{UrlApi, net_ok, err_unsafe_redirect, Request}
use seaturtle.Fixtures.{plain_api, url_scheme, schemes_differ}
use seaturtle.Settings.{HttpsRewrite}
use seaturtle.Rewriter.{RuleSet, Re2Api, HttpsRewriter, update_rules, maybe_rewrite}
use seaturtle.Rewriter.Update.{is_ok, lists_exact, lists_super, is_ok-update_rules}
use seaturtle.Rewriter.Keys.{count_listing, owner_is_held, owner_is_lost_iff, lookup-update_rules}
use seaturtle.Rewriter.Applies.{maybe_rewrite_lem}
use seaturtle.Rewriter.Redirects.{
  IsDistinct, here, next, Chain-IsDistinct, maybe_rewrite-https_only,
}

-- A pattern is the text that it matches in front; the replacement stands in its place.
abbrev prefixes : Re2Api Bytes
prefixes = record {
  compile = λ p. if is_empty p then none else some p;
  replace = λ p to text.
      if bytes_eq (take (length p) text) p then some (to ++ drop (length p) text) else none;
}

abbrev https_api : UrlApi Bytes
https_api = record plain_api { is_valid = λ u. bytes_eq (url_scheme u) (lit "https") }

abbrev a_set : RuleSet
a_set = record {
  hosts = lit "a.com" ∷ lit "*.b.org" ∷ [];
  rules = record { from = lit "http:"; to = lit "https:" } ∷ [];
}

abbrev a_rules : HttpsRewriter Bytes
a_rules = record {
  exact_host = (lit "a.com", (lit "http:", lit "https:") ∷ []) ∷ [];
  super_host = (lit "b.org", (lit "http:", lit "https:") ∷ []) ∷ [];
  exact_owners = (lit "a.com", record { key_in = 0; held = 0 }) ∷ [];
  super_owners = (lit "b.org", record { key_in = 0; held = 0 }) ∷ [];
}

a_update : update_rules prefixes (a_set ∷ []) ≡ ok a_rules
unfolding update_rules insert lookup bytes_eq find_byte
a_update = refl

abbrev get : Bytes → Request Bytes
get url = record {
  url = url;
  first_party_for_cookies = url;
  prev_rewrites = none;
  is_autocomplete = false;
  view = none;
  referrer = [];
}

abbrev plain_settings : HttpsRewrite
plain_settings = record { enabled = true; https_only = false }

abbrev strict_settings : HttpsRewrite
strict_settings = record { enabled = true; https_only = true }

abbrev marked : Bytes → Request Bytes
marked url = record (get url) { prev_rewrites = some (url ∷ []) }

super_host_run :
    maybe_rewrite https_api prefixes plain_settings a_rules (get (lit "http://w.B.org/x"))
    ≡ ok (net_ok, (some (lit "https://w.B.org/x"), marked (lit "http://w.B.org/x")))
unfolding maybe_rewrite lookup set_insert bytes_eq find_byte to_lower_ascii
super_host_run = refl

forced_run :
    maybe_rewrite https_api prefixes strict_settings a_rules (get (lit "http://c.net/"))
    ≡ ok (net_ok, (some (lit "https://c.net/"), marked (lit "http://c.net/")))
unfolding maybe_rewrite lookup set_insert bytes_eq find_byte to_lower_ascii
forced_run = refl

-- A star in front must have a byte behind it; the constructor of the rest of the string throws.
lone_star : update_rules prefixes (record a_set { hosts = lit "*" ∷ [] } ∷ []) ≡ crash
unfolding update_rules find_byte
lone_star = refl

listed_once :
    (lists : Bytes → List Bytes → Bool) (h : Bytes) → count_listing lists h (a_set ∷ []) ≤ 1
listed_once lists h = ground arith

lookup-update_rules_example :
    lookup (lit "a.com") a_rules.exact_host ≡ some ((lit "http:", lit "https:") ∷ [])
unfolding find_byte bytes_eq
lookup-update_rules_example =
    (lookup-update_rules prefixes (a_set ∷ []) a_rules (listed_once lists_exact)
      (listed_once lists_super) a_update (lit "a.com")).0.1

-- Two rule sets list the same hosts: the slots keep the second alive, their keys are of the first.
abbrev twice : HttpsRewriter Bytes
twice = record a_rules {
  exact_owners = (lit "a.com", record { key_in = 0; held = 1 }) ∷ [];
  super_owners = (lit "b.org", record { key_in = 0; held = 1 }) ∷ [];
}

twice_update : update_rules prefixes (a_set ∷ a_set ∷ []) ≡ ok twice
unfolding update_rules insert lookup bytes_eq find_byte
twice_update = refl

owner_is_lost_run : owner_is_held (lookup (lit "a.com") twice.exact_owners) ≡ false
unfolding bytes_eq find_byte
owner_is_lost_run =
    (owner_is_lost_iff prefixes (a_set ∷ a_set ∷ []) twice (lit "a.com") twice_update).0.1
      (omega arith)

is_ok-update_rules_example : is_ok (update_rules prefixes (a_set ∷ [])) ≡ true
unfolding find_byte
is_ok-update_rules_example = is_ok-update_rules prefixes (a_set ∷ [])

maybe_rewrite_example :
    maybe_rewrite https_api prefixes plain_settings a_rules (get (lit "http://c.net/"))
    ≡ ok (net_ok, (none, get (lit "http://c.net/")))
unfolding lookup bytes_eq find_byte to_lower_ascii contains
maybe_rewrite_example =
    maybe_rewrite_lem https_api prefixes plain_settings a_rules (get (lit "http://c.net/"))
      (schemes_differ (lit "http://c.net/"))

Chain-IsDistinct_example :
    (length (lit "http://c.net/" ∷ []) ≡ 1) × IsDistinct (lit "http://c.net/" ∷ [])
Chain-IsDistinct_example =
    Chain-IsDistinct https_api prefixes strict_settings a_rules schemes_differ
      (get (lit "http://c.net/")) refl (next here forced_run)

maybe_rewrite-https_only_example :
    ((net_ok ≡ net_ok)
      × (some (lit "https://c.net/") ≡ some (lit "https://c.net/"))
      × (https_api.is_valid (lit "https://c.net/") ≡ true))
    ⊎ ((net_ok ≡ err_unsafe_redirect)
        × (some (lit "https://c.net/") ≡ none)
        × (contains (lit "http://c.net/") [] ≡ true))
unfolding lookup bytes_eq find_byte to_lower_ascii
maybe_rewrite-https_only_example =
    maybe_rewrite-https_only https_api prefixes strict_settings a_rules schemes_differ
      (get (lit "http://c.net/")) (marked (lit "http://c.net/")) net_ok
      (some (lit "https://c.net/")) refl refl (bytes_eq_refl (lit "http")) forced_run

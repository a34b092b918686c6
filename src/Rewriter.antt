-- ===== src/Rewriter.antt =====
-- extra/https_rewriter.h and extra/https_rewriter.cc: rewriting http requests to https by rules of
-- regular expressions. RE2 and GURL are parameters.
pub mod Update
pub mod Keys
pub mod FirstMatch
pub mod Applies
pub mod Redirects
pub mod Keeps
pub mod Loading
mod Tests
use seaturtle.Common.{
  ℕ, zero, suc, ◌+◌, Bool, true, false, ◌&&◌, not, Option, none, some, List, [], ◌∷◌, ◌++◌, leb,
  ltb, if◌then◌else◌, is_some, is_empty, length, drop, Bytes, lit, to_lower_ascii, find_byte,
  lookup, insert, contains, set_insert, Abort, ok, crash, ◌>>=◌, ◌>>◌, check,
}
use seaturtle.Url.{UrlApi, NetError, net_ok, err_unsafe_redirect, Request}
use seaturtle.Settings.{HttpsRewrite}

-- https::Rule and https::RuleSet
pub record HttpsRule : Type 0 where
  pub from : Bytes
  pub to : Bytes

pub record RuleSet : Type 0 where
  pub hosts : List Bytes
  pub rules : List HttpsRule

-- `compile` is RE2's constructor, `none` where the result is not ok(). `replace` is RE2::Replace:
-- the text with its first match replaced, `none` where nothing matches.
pub record Re2Api (Re : Type 0) : Type 0 where
  pub compile : Bytes → Option Re
  pub replace : Re → Bytes → Bytes → Option Bytes

-- The rules of a CompiledRuleSet: RewriteRule pairs.
abbrev pub CompiledRuleSet : Type 0 → Type 0
CompiledRuleSet Re = List (Re × Bytes)

-- Whose strings a slot of the hash maps rests on, by the places of the rule sets in their list: the
-- key (a StringPiece) points into `hosts_` of the CompiledRuleSet `key_in`, and the slot's linked_ptr
-- keeps `held` alive.
pub record KeyOwner : Type 0 where
  pub key_in : ℕ
  pub held : ℕ

abbrev pub KeyOwners : Type 0
KeyOwners = List (Bytes × KeyOwner)

-- class HttpsRewriter: `exact_host_` and `super_host_`, each with the owners of its keys beside it. A
-- look-up compares the keys as the strings that they pointed into when they were made, which is what
-- the code does as long as every slot keeps the owner of its key alive.
pub record HttpsRewriter (Re : Type 0) : Type 0 where
  pub exact_host : List (Bytes × CompiledRuleSet Re)
  pub super_host : List (Bytes × CompiledRuleSet Re)
  pub exact_owners : KeyOwners
  pub super_owners : KeyOwners

-- The owner of a key after `map[StringPiece(*host)] = crs` for the rule set number `i`: a slot that
-- is there keeps its key, and its linked_ptr is replaced.
abbrev pub next_owner : ℕ → Option KeyOwner → KeyOwner
next_owner i none = record { key_in = i; held = i }
next_owner i (some owner) = record owner { held = i }

unfoldable pub own_key : ℕ → Bytes → KeyOwners → KeyOwners
own_key i host m = insert host (next_owner i (lookup host m)) m

-- The constructor of CompiledRuleSet.
module _ {Re : Type 0} (re2 : Re2Api Re) where
  unfoldable pub compile_rules : List HttpsRule → Abort (CompiledRuleSet Re)
  compile_rules [] = ok []
  compile_rules (r ∷ rs) = elim (re2.compile r.from) [
    | none ↦ crash
    | some re ↦ compile_rules rs >>= λ rest. ok ((re, r.to) ∷ rest)
  ]

  -- The loop over the hosts of rule set number `i`: `std::string(host, 2)` throws on a shorter host,
  -- and a star that is not the first byte is STNOTREACHED.
  unfoldable pub add_host :
      ℕ → Bytes → CompiledRuleSet Re → HttpsRewriter Re → Abort (HttpsRewriter Re)
  unfolding own_key
  add_host i host crs r = elim (find_byte b'*' host) [
    | none ↦ ok (record r {
      exact_host = insert host crs r.exact_host;
      exact_owners = own_key i host r.exact_owners;
    })
    | some zero ↦
        if leb 2 (length host)
        then ok (record r {
          super_host = insert (drop 2 host) crs r.super_host;
          super_owners = own_key i (drop 2 host) r.super_owners;
        })
        else crash
    | some (suc pos) ↦ crash
  ]

  unfoldable pub add_hosts :
      ℕ → List Bytes → CompiledRuleSet Re → HttpsRewriter Re → Abort (HttpsRewriter Re)
  add_hosts i [] crs r = ok r
  add_hosts i (host ∷ hosts) crs r = add_host i host crs r >>= add_hosts i hosts crs

  unfoldable pub add_rule_sets : ℕ → List RuleSet → HttpsRewriter Re → Abort (HttpsRewriter Re)
  add_rule_sets i [] r = ok r
  add_rule_sets i (rs ∷ rl) r = do
    crs ← compile_rules rs.rules
    check (not (is_empty crs))
    r' ← add_hosts i rs.hosts crs r
    add_rule_sets (suc i) rl r'

  -- UpdateRules, which clears both maps first.
  unfoldable pub update_rules : List RuleSet → Abort (HttpsRewriter Re)
  unfolding compile_rules add_host add_hosts add_rule_sets
  update_rules rl =
      add_rule_sets 0 rl
        (record { exact_host = []; super_host = []; exact_owners = []; super_owners = [] })

-- A new URL where the request was rewritten, and the request with its user data.
abbrev pub Rewritten : Type 0 → Type 0
Rewritten Gurl = Option Gurl × Request Gurl

abbrev pub rewrites_so_far : Option (List Bytes) → List Bytes
rewrites_so_far none = []
rewrites_so_far (some prev) = prev

module _ {Gurl : Type 0} where
  -- `rewrote = it->second->MaybeRewrite(request, new_url)`, and `next` if it did not.
  abbrev pub or_else : Abort (Rewritten Gurl) → Abort (Rewritten Gurl) → Abort (Rewritten Gurl)
  or_else crash next = crash
  or_else (ok (some new_url, request)) next = ok (some new_url, request)
  or_else (ok (none, request)) next = next

  -- `return net::OK`
  abbrev pub with_ok : Abort (Rewritten Gurl) → Abort (NetError × Rewritten Gurl)
  with_ok crash = crash
  with_ok (ok out) = ok (net_ok, out)

module _ {Gurl : Type 0} (api : UrlApi Gurl) where
  -- DoRewrite
  unfoldable pub do_rewrite : Bytes → Request Gurl → Abort (Rewritten Gurl)
  do_rewrite rewrite request = do
    let new_url = api.parse rewrite
    check (api.is_valid new_url)
    ok (
      some new_url,
      record request {
        prev_rewrites =
            some (set_insert (api.spec request.url) (rewrites_so_far request.prev_rewrites));
      },
    )

  -- `rewrite("https"); rewrite.append(spec, 4, npos)`, which throws on a spec of fewer bytes.
  unfoldable pub force_https : Request Gurl → Abort (Rewritten Gurl)
  unfolding do_rewrite
  force_https request = do
    check (leb 4 (length (api.spec request.url)))
    do_rewrite (lit "https" ++ drop 4 (api.spec request.url)) request

module _ {Gurl Re : Type 0} (api : UrlApi Gurl) (re2 : Re2Api Re) where
  -- The loop of CompiledRuleSet::MaybeRewrite over the rules.
  unfoldable pub try_rules : CompiledRuleSet Re → Request Gurl → Abort (Rewritten Gurl)
  unfolding do_rewrite
  try_rules [] request = ok (none, request)
  try_rules ((re, to) ∷ rules) request =
      let rest = try_rules rules request in
      elim (re2.replace re to (api.spec request.url)) [
        | some rewrite ↦ do_rewrite api rewrite request
        | none ↦ rest
      ]

  unfoldable pub compiled_maybe_rewrite : CompiledRuleSet Re → Request Gurl → Abort (Rewritten Gurl)
  unfolding try_rules
  compiled_maybe_rewrite crs request = do
    check (not (api.scheme_is request.url (lit "https")))
    try_rules crs request

  abbrev pub rewrite_found : Option (CompiledRuleSet Re) → Request Gurl → Abort (Rewritten Gurl)
  rewrite_found none request = ok (none, request)
  rewrite_found (some crs) request = compiled_maybe_rewrite crs request

  -- The `while (true)` loop of MaybeRewriteForSuperHost, on fuel.
  unfoldable pub super_loop : ℕ → HttpsRewriter Re → Bytes → Request Gurl → Abort (Rewritten Gurl)
  super_loop zero r host request = ok (none, request)
  super_loop (suc fuel) r host request = elim (find_byte b'.' host) [
    | none ↦ ok (none, request)
    | some pos ↦
        let rest = super_loop fuel r (drop (suc pos) host) request in
        or_else (rewrite_found (lookup host r.super_host) request)
          (if leb (length host) (suc pos) then ok (none, request) else rest)
  ]

  unfoldable pub maybe_rewrite_for_super_host :
      HttpsRewriter Re → Bytes → Request Gurl → Abort (Rewritten Gurl)
  unfolding super_loop
  maybe_rewrite_for_super_host r host request = do
    check (not (api.scheme_is request.url (lit "https")))
    super_loop (suc (length host)) r host request

  -- The part of MaybeRewrite behind the test for an earlier rewrite.
  unfoldable pub rewrite_by_rules :
      HttpsRewrite → HttpsRewriter Re → Request Gurl → Abort (Rewritten Gurl)
  unfolding maybe_rewrite_for_super_host compiled_maybe_rewrite force_https
  rewrite_by_rules settings r request =
      let host = to_lower_ascii (api.host request.url) in
      or_else
        (or_else (rewrite_found (lookup host r.exact_host) request)
          (maybe_rewrite_for_super_host r host request))
        (if settings.https_only then force_https api request else ok (none, request))

  unfoldable pub maybe_rewrite :
      HttpsRewrite → HttpsRewriter Re → Request Gurl → Abort (NetError × Rewritten Gurl)
  unfolding rewrite_by_rules
  maybe_rewrite settings r request =
      let seen = contains (api.spec request.url) (rewrites_so_far request.prev_rewrites) in
      let again = if settings.https_only then err_unsafe_redirect else net_ok in
      let by_rules = with_ok (rewrite_by_rules settings r request) in
      if settings.enabled && api.scheme_is request.url (lit "http")
      then if seen then ok (again, (none, request)) else by_rules
      else ok (net_ok, (none, request))

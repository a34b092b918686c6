-- ===== src/Rewriter/Applies.antt =====
-- Which rules apply to a request, in which order, and what a request under https_only becomes.
use mathlib.Core.Path.{ap₂}
use seaturtle.Common.{
  ℕ, zero, suc, ◌<◌, ◌≡◌, refl, sym, ap, ◌∙◌, inl, inr, Bool, true, false, ◌&&◌, Option, none, some,
  List, [], ◌∷◌, ◌++◌, arith, leb, if◌then◌else◌, Bool-cases, Option-cases, length, drop,
  length-drop, Bytes, lit, to_lower_ascii, find_byte, find_byte-lt, lookup, contains, Abort, ok,
}
use seaturtle.Url.{UrlApi, net_ok, err_unsafe_redirect, Request}
use seaturtle.Host.{parents, parents-find_none, parents-find_some, drop-eq-nil}
use seaturtle.Settings.{HttpsRewrite}
use seaturtle.Rewriter.{
  Re2Api, CompiledRuleSet, HttpsRewriter, Rewritten, rewrites_so_far, compiled_maybe_rewrite,
  or_else, with_ok, rewrite_found, super_loop, maybe_rewrite_for_super_host, force_https,
  rewrite_by_rules, maybe_rewrite,
}
use seaturtle.Rewriter.FirstMatch.{
  no_rules, super_rules, rules_for, first_match, chosen, by_first, try_rules-first, or_else-chosen,
  or_else-by_first,
}

module _ {Gurl Re : Type 0} (api : UrlApi Gurl) (re2 : Re2Api Re) where
  rewrite_found-first :
      (o : Option (CompiledRuleSet Re)) (request : Request Gurl)
      → api.scheme_is request.url (lit "https") ≡ false
      → rewrite_found api re2 o request ≡ by_first api re2 (no_rules o) request
  unfolding compiled_maybe_rewrite
  rewrite_found-first none request h = refl
  rewrite_found-first (some crs) request h = rw h (try_rules-first api re2 crs request)

  super_rules-none :
      (m : List (Bytes × CompiledRuleSet Re)) (host : Bytes)
      → find_byte b'.' host ≡ none
      → super_rules m (host ∷ parents host) ≡ []
  super_rules-none m host e = rw (e, parents-find_none host e)

  super_rules-some :
      (m : List (Bytes × CompiledRuleSet Re)) (host : Bytes) (pos : ℕ)
      → find_byte b'.' host ≡ some pos
      → super_rules m (host ∷ parents host)
        ≡ no_rules (lookup host m)
          ++ super_rules m (drop (suc pos) host ∷ parents (drop (suc pos) host))
  super_rules-some m host pos e = rw (e, parents-find_some host pos e)

  super_loop-none :
      (fuel : ℕ) (r : HttpsRewriter Re) (host : Bytes) (request : Request Gurl)
      → find_byte b'.' host ≡ none
      → super_loop api re2 (suc fuel) r host request ≡ ok (none, request)
  unfolding super_loop
  super_loop-none fuel r host request e = rw (e, super_loop)

  super_loop-some :
      (fuel : ℕ) (r : HttpsRewriter Re) (host : Bytes) (request : Request Gurl) (pos : ℕ)
      → find_byte b'.' host ≡ some pos
      → super_loop api re2 (suc fuel) r host request
        ≡ or_else (rewrite_found api re2 (lookup host r.super_host) request) (
            if leb (length host) (suc pos)
            then ok (none, request)
            else super_loop api re2 fuel r (drop (suc pos) host) request)
  unfolding super_loop
  super_loop-some fuel r host request pos e = rw (e, super_loop)

  -- The test for the end of the host loses nothing: nothing is tried on an empty host.
  super_round :
      (m : List (Bytes × CompiledRuleSet Re)) (next : Bytes) (over : Bool)
      (rest : Abort (Rewritten Gurl)) (request : Request Gurl)
      → (over ≡ true → next ≡ [])
      → rest ≡ by_first api re2 (super_rules m (next ∷ parents next)) request
      → (if over then ok (none, request) else rest)
        ≡ by_first api re2 (super_rules m (next ∷ parents next)) request
  unfolding find_byte
  super_round m next true rest request ends ih = rw (ends refl)
  super_round m next false rest request ends ih = ih

  super_loop-first :
      (fuel : ℕ) (r : HttpsRewriter Re) (host : Bytes) (request : Request Gurl)
      → api.scheme_is request.url (lit "https") ≡ false
      → length host < fuel
      → super_loop api re2 fuel r host request
        ≡ by_first api re2 (super_rules r.super_host (host ∷ parents host)) request
  super_loop-first zero r host request s h = elim h [ ]
  super_loop-first (suc fuel) r host request s h = elim (Option-cases (find_byte b'.' host)) [
    | inl e ↦
        super_loop-none fuel r host request e
        ∙ ap (λ rules. by_first api re2 rules request) (sym (super_rules-none r.super_host host e))
    | inr (pos, e) ↦
        let next = drop (suc pos) host in
        super_loop-some fuel r host request pos e
        ∙ ap₂ or_else (rewrite_found-first (lookup host r.super_host) request s) (
            super_round r.super_host next (leb (length host) (suc pos)) _ request
              (λ over. drop-eq-nil (suc pos) host (ground (arith, over)))
              (super_loop-first fuel r next request s
                (omega (arith, length-drop (suc pos) host, find_byte-lt b'.' host pos e))))
        ∙ or_else-by_first api re2 (no_rules (lookup host r.super_host))
            (super_rules r.super_host (next ∷ parents next)) request
        ∙ ap (λ rules. by_first api re2 rules request)
            (sym (super_rules-some r.super_host host pos e))
  ]

  rewrite_by_rules-first :
      (settings : HttpsRewrite) (r : HttpsRewriter Re) (request : Request Gurl)
      → api.scheme_is request.url (lit "https") ≡ false
      → rewrite_by_rules api re2 settings r request
        ≡ or_else
            (by_first api re2 (rules_for r (to_lower_ascii (api.host request.url))) request)
            (if settings.https_only then force_https api request else ok (none, request))
  unfolding rewrite_by_rules maybe_rewrite_for_super_host
  rewrite_by_rules-first settings r request s =
      let host = to_lower_ascii (api.host request.url) in
      rw (
        s,
        super_loop-first (suc (length host)) r host request s (omega arith),
        rewrite_found-first (lookup host r.exact_host) request s,
        or_else-by_first api re2 (no_rules (lookup host r.exact_host))
            (super_rules r.super_host (host ∷ parents host)) request,
      )

-- The same for the rules of the request's host, in lower case.
abbrev pub rewrite_spec :
    {Gurl Re : Type 0}
    → UrlApi Gurl
    → Re2Api Re
    → HttpsRewrite
    → HttpsRewriter Re
    → Request Gurl
    → Abort (Rewritten Gurl)
rewrite_spec api re2 settings r request =
    chosen api settings
      (first_match re2 (rules_for r (to_lower_ascii (api.host request.url))) (api.spec request.url))
      request

rewrite_by_rules-spec :
    {Gurl Re : Type 0} (api : UrlApi Gurl) (re2 : Re2Api Re) (settings : HttpsRewrite)
    (r : HttpsRewriter Re) (request : Request Gurl)
    → api.scheme_is request.url (lit "https") ≡ false
    → rewrite_by_rules api re2 settings r request ≡ rewrite_spec api re2 settings r request
rewrite_by_rules-spec api re2 settings r request s =
    let rules = rules_for r (to_lower_ascii (api.host request.url)) in
    rewrite_by_rules-first api re2 settings r request s
    ∙ or_else-chosen api re2 settings (first_match re2 rules (api.spec request.url)) request

-- A request is rewritten only if rewriting is enabled and its scheme is http. One whose text was
-- rewritten before is left alone, and refused as an unsafe redirect under https_only. Any other is
-- rewritten by the first rule that matches, in the order: the rules of its host, then those of the
-- super hosts that its host and the host's parents with a dot are; where none matches, https_only
-- forces the scheme. A URL whose scheme is http is taken not to have the scheme https.
pub maybe_rewrite_lem :
    {Gurl Re : Type 0} (api : UrlApi Gurl) (re2 : Re2Api Re) (settings : HttpsRewrite)
    (r : HttpsRewriter Re) (request : Request Gurl)
    → (api.scheme_is request.url (lit "http") ≡ true
        → api.scheme_is request.url (lit "https") ≡ false)
    → maybe_rewrite api re2 settings r request ≡ (
        if settings.enabled && api.scheme_is request.url (lit "http")
        then if contains (api.spec request.url) (rewrites_so_far request.prev_rewrites)
          then ok (if settings.https_only then err_unsafe_redirect else net_ok, (none, request))
          else with_ok (rewrite_spec api re2 settings r request)
        else ok (net_ok, (none, request)))
unfolding maybe_rewrite
maybe_rewrite_lem api re2 settings r request one =
    elim (Bool-cases (settings.enabled && api.scheme_is request.url (lit "http"))) [
      | inl on ↦
          rw (on, ← rewrite_by_rules-spec api re2 settings r request (one (ground (arith, on))))
            refl
      | inr off ↦ rw off
    ]

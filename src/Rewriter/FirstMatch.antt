-- ===== src/Rewriter/FirstMatch.antt =====
-- The rules for a request in one row, and what the first of them that matches makes of it.
use seaturtle.Common.{
  ◌≡◌, refl, inl, inr, Option, none, some, List, [], ◌∷◌, ◌++◌, arith, if◌then◌else◌, Bool-cases,
  Option-cases, is_some, Bytes, find_byte, lookup, Abort, ok,
}
use seaturtle.Url.{UrlApi, Request}
use seaturtle.Host.{parents}
use seaturtle.Settings.{HttpsRewrite}
use seaturtle.Rewriter.{
  Re2Api, CompiledRuleSet, HttpsRewriter, Rewritten, do_rewrite, try_rules, or_else, force_https,
}

abbrev pub no_rules {ℓ} : {A : Type ℓ} → Option (List A) → List A
no_rules none = []
no_rules (some rules) = rules

-- The rules that a map of super hosts gives for some domains, of those alone that hold a dot.
abbrev pub super_rules :
    {Re : Type 0} → List (Bytes × CompiledRuleSet Re) → List Bytes → CompiledRuleSet Re
super_rules m [] = []
super_rules m (d ∷ ds) =
    (if is_some (find_byte b'.' d) then no_rules (lookup d m) else []) ++ super_rules m ds

-- All rules for a host, in the order in which they are tried: those of the host itself, then those
-- of the super hosts that the host and its parents are.
abbrev pub rules_for : {Re : Type 0} → HttpsRewriter Re → Bytes → CompiledRuleSet Re
rules_for r host =
    no_rules (lookup host r.exact_host) ++ super_rules r.super_host (host ∷ parents host)

-- The text that the first matching rule makes.
abbrev pub first_match : {Re : Type 0} → Re2Api Re → CompiledRuleSet Re → Bytes → Option Bytes
first_match re2 [] text = none
first_match re2 ((re, to) ∷ rules) text =
    let rest = first_match re2 rules text in
    elim (re2.replace re to text) [ some rewrite ↦ some rewrite | none ↦ rest ]

-- What becomes of the request when the first match makes this text; where nothing matches, the
-- scheme is forced under https_only, and else nothing is done.
abbrev pub chosen :
    {Gurl : Type 0}
    → UrlApi Gurl
    → HttpsRewrite
    → Option Bytes
    → Request Gurl
    → Abort (Rewritten Gurl)
chosen api settings none request =
    if settings.https_only then force_https api request else ok (none, request)
chosen api settings (some rewrite) request = do_rewrite api rewrite request

module _ {Gurl Re : Type 0} (api : UrlApi Gurl) (re2 : Re2Api Re) where
  abbrev pub rewrite_with : Option Bytes → Request Gurl → Abort (Rewritten Gurl)
  rewrite_with none request = ok (none, request)
  rewrite_with (some rewrite) request = do_rewrite api rewrite request

  abbrev pub by_first : CompiledRuleSet Re → Request Gurl → Abort (Rewritten Gurl)
  by_first rules request = rewrite_with (first_match re2 rules (api.spec request.url)) request

  pub try_rules-first :
      (rules : CompiledRuleSet Re) (request : Request Gurl)
      → try_rules api re2 rules request ≡ by_first rules request
  unfolding try_rules
  try_rules-first [] request = refl
  try_rules-first ((re, to) ∷ rules) request =
      elim (Option-cases (re2.replace re to (api.spec request.url))) [
        | inl e ↦ ground (arith, e, try_rules-first rules request)
        | inr (t, e) ↦ ground (arith, e)
      ]

  or_else-do_rewrite :
      (t : Bytes) (request : Request Gurl) (next : Abort (Rewritten Gurl))
      → or_else (do_rewrite api t request) next ≡ do_rewrite api t request
  unfolding do_rewrite
  or_else-do_rewrite t request next = elim (Bool-cases (api.is_valid (api.parse t))) [
    | inl e ↦ rw e
    | inr e ↦ rw e
  ]

  pub or_else-chosen :
      (settings : HttpsRewrite) (o : Option Bytes) (request : Request Gurl)
      → or_else
          (rewrite_with o request)
          (if settings.https_only then force_https api request else ok (none, request))
        ≡ chosen api settings o request
  or_else-chosen settings none request = refl
  or_else-chosen settings (some t) request = or_else-do_rewrite t request _

  first_match-append :
      (xs ys : CompiledRuleSet Re) (text : Bytes)
      → first_match re2 (xs ++ ys) text
        ≡ (elim (first_match re2 xs text) [ some t ↦ some t | none ↦ first_match re2 ys text ])
  first_match-append [] ys text = refl
  first_match-append ((re, to) ∷ xs) ys text = elim (Option-cases (re2.replace re to text)) [
    | inl e ↦ rw e (first_match-append xs ys text)
    | inr (t, e) ↦ rw e
  ]

  -- Trying one list of rules and then another is trying both in a row.
  pub or_else-by_first :
      (xs ys : CompiledRuleSet Re) (request : Request Gurl)
      → or_else (by_first xs request) (by_first ys request) ≡ by_first (xs ++ ys) request
  or_else-by_first xs ys request = elim (Option-cases (first_match re2 xs (api.spec request.url))) [
    | inl e ↦ rw (first_match-append xs ys (api.spec request.url), e)
    | inr (t, e) ↦
        rw (first_match-append xs ys (api.spec request.url), e)
          (or_else-do_rewrite t request (by_first ys request))
  ]

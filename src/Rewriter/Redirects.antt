-- ===== src/Rewriter/Redirects.antt =====
-- What a rewrite leaves in the request, and why a chain of rewrites makes no loop.
use seaturtle.Common.{
  ℕ, suc, ◌≡◌, refl, sym, ap, ◌∙◌, ◌⊎◌, inl, inr, Bool, true, false, ◌&&◌, Option, none, some, List,
  [], ◌∷◌, ◌++◌, arith, leb, Bool-cases, length, drop, Bytes, lit, to_lower_ascii, contains,
  set_insert, Abort, ok, crash,
}
use seaturtle.Url.{UrlApi, NetError, net_ok, err_unsafe_redirect, Request}
use seaturtle.Settings.{HttpsRewrite}
use seaturtle.Rewriter.{
  Re2Api, HttpsRewriter, Rewritten, rewrites_so_far, with_ok, do_rewrite, force_https,
  maybe_rewrite,
}
use seaturtle.Rewriter.FirstMatch.{rules_for, first_match, chosen}
use seaturtle.Rewriter.Applies.{maybe_rewrite_lem}

-- No text stands twice in the list.
abbrev pub IsDistinct : List Bytes → Type 0
IsDistinct [] = Unit
IsDistinct (k ∷ s) = (contains k s ≡ false) × IsDistinct s

module _ {Gurl Re : Type 0} (api : UrlApi Gurl) (re2 : Re2Api Re) (settings : HttpsRewrite)
    (r : HttpsRewriter Re)
    (one_scheme : (u : Gurl)
      → api.scheme_is u (lit "http") ≡ true
      → api.scheme_is u (lit "https") ≡ false) where
  abbrev is_http : Request Gurl → Bool
  is_http request = api.scheme_is request.url (lit "http")

  abbrev was_rewritten : Request Gurl → Bool
  was_rewritten request = contains (api.spec request.url) (rewrites_so_far request.prev_rewrites)

  -- The request with its own text among those that were rewritten.
  abbrev mark : Request Gurl → Request Gurl
  mark request = record request {
    prev_rewrites =
        some (set_insert (api.spec request.url) (rewrites_so_far request.prev_rewrites));
  }

  -- A new URL is valid and the request is marked; without one the request is as it was.
  abbrev Marks : Request Gurl → Abort (Rewritten Gurl) → Type 0
  Marks request crash = Unit
  Marks request (ok (none, q)) = q ≡ request
  Marks request (ok (some u, q)) = (q ≡ mark request) × (api.is_valid u ≡ true)

  do_rewrite-Marks : (t : Bytes) (request : Request Gurl) → Marks request (do_rewrite api t request)
  unfolding do_rewrite
  do_rewrite-Marks t request = elim (Bool-cases (api.is_valid (api.parse t))) [
    | inl e ↦ rw e (refl, e)
    | inr e ↦ rw e tt
  ]

  force_https-Marks : (request : Request Gurl) → Marks request (force_https api request)
  unfolding force_https
  force_https-Marks request = elim (Bool-cases (leb 4 (length (api.spec request.url)))) [
    | inl e ↦ rw e (do_rewrite-Marks _ request)
    | inr e ↦ rw e tt
  ]

  chosen-Marks :
      (o : Option Bytes) (request : Request Gurl) → Marks request (chosen api settings o request)
  chosen-Marks none request = elim (Bool-cases settings.https_only) [
    | inl only ↦ rw only (force_https-Marks request)
    | inr any ↦ rw any refl
  ]
  chosen-Marks (some t) request = do_rewrite-Marks t request

  some_of_Marks :
      (request q : Request Gurl) (error : NetError) (u : Gurl) (out : Abort (Rewritten Gurl))
      → Marks request out
      → with_ok out ≡ ok (error, (some u, q))
      → q ≡ mark request
  some_of_Marks request q error u crash m h = cc
  some_of_Marks request q error u (ok (none, q')) m h = cc
  some_of_Marks request q error u (ok (some u', q')) (marked, valid) h = cc

  -- What a result with a new URL says of the request that was rewritten.
  maybe_rewrite-some :
      (request q : Request Gurl) (error : NetError) (u : Gurl)
      → maybe_rewrite api re2 settings r request ≡ ok (error, (some u, q))
      → (was_rewritten request ≡ false) × (q ≡ mark request)
  maybe_rewrite-some request q error u h =
      let h' = sym (maybe_rewrite_lem api re2 settings r request (one_scheme request.url)) ∙ h in
      elim (Bool-cases (settings.enabled && is_http request)) [
        | inr off ↦ absurd (cc (rw off at h'))
        | inl on ↦ elim (Bool-cases (was_rewritten request)) [
          | inl seen ↦ absurd (cc (rw (on, seen) at h'))
          | inr new ↦
              (new, some_of_Marks request q error u _ (chosen-Marks _ request) (rw (on, new) at h'))
        ]
      ]

  -- `Chain start n q`: from the request `start`, `n` rewrites one after another have led to `q`. The
  -- network stack starts the request again at the new URL, with its user data.
  pub data Chain (start : Request Gurl) : ℕ → Request Gurl → Type 0 where
    here : Chain start 0 start
    next :
        {n : ℕ} {p q : Request Gurl} {error : NetError} {u : Gurl}
        → Chain start n p
        → maybe_rewrite api re2 settings r p ≡ ok (error, (some u, q))
        → Chain start (suc n) (record q { url = u })

  length-mark :
      (request : Request Gurl)
      → was_rewritten request ≡ false
      → length (rewrites_so_far (mark request).prev_rewrites)
        ≡ suc (length (rewrites_so_far request.prev_rewrites))
  unfolding set_insert
  length-mark request new = rw new

  IsDistinct-mark :
      (request : Request Gurl)
      → was_rewritten request ≡ false
      → IsDistinct (rewrites_so_far request.prev_rewrites)
      → IsDistinct (rewrites_so_far (mark request).prev_rewrites)
  unfolding set_insert
  IsDistinct-mark request new h = rw new (new, h)

-- Along a chain of `n` rewrites of one request, which started with no rewrites recorded, the request
-- records `n` URL texts, and they are all different: no URL is rewritten twice. A URL whose scheme
-- is http is taken not to have the scheme https.
pub Chain-IsDistinct :
    {Gurl Re : Type 0} (api : UrlApi Gurl) (re2 : Re2Api Re) (settings : HttpsRewrite)
    (r : HttpsRewriter Re)
    (one_scheme : (u : Gurl)
      → api.scheme_is u (lit "http") ≡ true
      → api.scheme_is u (lit "https") ≡ false)
    (start : Request Gurl) {n : ℕ} {q : Request Gurl}
    → start.prev_rewrites ≡ none
    → Chain api re2 settings r one_scheme start n q
    → (length (rewrites_so_far q.prev_rewrites) ≡ n) × IsDistinct (rewrites_so_far q.prev_rewrites)
Chain-IsDistinct api re2 settings r one start e here = rw e (refl, tt)
Chain-IsDistinct api re2 settings r one start e (next {p = p} c h) =
    let (new, marked) = maybe_rewrite-some api re2 settings r one p _ _ _ h in
    let (count, distinct) = Chain-IsDistinct api re2 settings r one start e c in
    rw marked (
      length-mark api re2 settings r one p new ∙ ap suc count,
      IsDistinct-mark api re2 settings r one p new distinct,
    )

-- The text that a request with this spec is sent on to: what the first match makes, and else its own
-- text with the scheme https.
abbrev pub sent_text : Option Bytes → Bytes → Bytes
sent_text none spec = lit "https" ++ drop 4 spec
sent_text (some rewrite) spec = rewrite

module _ {Gurl : Type 0} (api : UrlApi Gurl) where
  -- The new URL is that of the text, and it is valid.
  abbrev IsSentOn : Bytes → Abort (Rewritten Gurl) → Type 0
  IsSentOn t crash = Unit
  IsSentOn t (ok (none, q)) = ⊥
  IsSentOn t (ok (some u, q)) = (u ≡ api.parse t) × (api.is_valid (api.parse t) ≡ true)

  do_rewrite-IsSentOn : (t : Bytes) (request : Request Gurl) → IsSentOn t (do_rewrite api t request)
  unfolding do_rewrite
  do_rewrite-IsSentOn t request = elim (Bool-cases (api.is_valid (api.parse t))) [
    | inl e ↦ rw e (refl, e)
    | inr e ↦ rw e tt
  ]

  chosen-IsSentOn :
      (settings : HttpsRewrite)
      → settings.https_only ≡ true
      → (o : Option Bytes) (request : Request Gurl)
      → IsSentOn (sent_text o (api.spec request.url)) (chosen api settings o request)
  unfolding force_https
  chosen-IsSentOn settings only none request =
      elim (Bool-cases (leb 4 (length (api.spec request.url)))) [
        | inl e ↦ rw (only, e) (do_rewrite-IsSentOn _ request)
        | inr e ↦ rw (only, e) tt
      ]
  chosen-IsSentOn settings only (some t) request = do_rewrite-IsSentOn t request

  sent_on :
      (q : Request Gurl) (error : NetError) (new_url : Option Gurl) (t : Bytes)
      (out : Abort (Rewritten Gurl))
      → IsSentOn t out
      → with_ok out ≡ ok (error, (new_url, q))
      → (error ≡ net_ok) × (new_url ≡ some (api.parse t)) × (api.is_valid (api.parse t) ≡ true)
  sent_on q error new_url t crash s h = cc
  sent_on q error new_url t (ok (none, q')) s h = absurd s
  sent_on q error new_url t (ok (some u, q')) (same, valid) h = (cc, cc, valid)

-- With rewriting enabled and https_only, a request over http that does not abort the process either
-- was rewritten before and is refused as an unsafe redirect, or it is sent on to a valid URL: that of
-- the text that the first matching rule makes, and, where no rule matches, that of its own text with
-- the scheme https. A URL whose scheme is http is taken not to have the scheme https.
pub maybe_rewrite-https_only :
    {Gurl Re : Type 0} (api : UrlApi Gurl) (re2 : Re2Api Re) (settings : HttpsRewrite)
    (r : HttpsRewriter Re)
    (one_scheme : (u : Gurl)
      → api.scheme_is u (lit "http") ≡ true
      → api.scheme_is u (lit "https") ≡ false)
    (request q : Request Gurl) (error : NetError) (new_url : Option Gurl)
    → settings.enabled ≡ true
    → settings.https_only ≡ true
    → api.scheme_is request.url (lit "http") ≡ true
    → maybe_rewrite api re2 settings r request ≡ ok (error, (new_url, q))
    → let spec = api.spec request.url in
      let rules = rules_for r (to_lower_ascii (api.host request.url)) in
      let u = api.parse (sent_text (first_match re2 rules spec) spec) in
      ((error ≡ net_ok) × (new_url ≡ some u) × (api.is_valid u ≡ true))
      ⊎ ((error ≡ err_unsafe_redirect)
          × (new_url ≡ none)
          × (contains spec (rewrites_so_far request.prev_rewrites) ≡ true))
maybe_rewrite-https_only api re2 settings r one request q error new_url on only http h =
    let h' = sym (maybe_rewrite_lem api re2 settings r request (one request.url)) ∙ h in
    let rules = rules_for r (to_lower_ascii (api.host request.url)) in
    let o = first_match re2 rules (api.spec request.url) in
    elim (Bool-cases (contains (api.spec request.url) (rewrites_so_far request.prev_rewrites))) [
      | inl seen ↦
          let e = rw (on, http, seen, only) at h' in
          inr (ground (arith, e), ground (arith, e), seen)
      | inr new ↦ inl (
          sent_on api q error new_url (sent_text o (api.spec request.url)) _
            (chosen-IsSentOn api settings only o request) (rw (on, http, new) at h'))
    ]

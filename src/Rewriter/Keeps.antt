-- ===== src/Rewriter/Keeps.antt =====
-- What the rewriter leaves alone in a request, whatever it answers.
use seaturtle.Common.{
  ◌≡◌, refl, sym, ◌∙◌, ◌⊎◌, inl, inr, true, false, ◌&&◌, Option, none, some, leb, Bool-cases,
  length, Bytes, lit, contains, Abort, ok, crash,
}
use seaturtle.Url.{UrlApi, NetError, net_ok, err_unsafe_redirect, Request}
use seaturtle.Settings.{HttpsRewrite}
use seaturtle.Rewriter.{
  Re2Api, HttpsRewriter, Rewritten, rewrites_so_far, with_ok, do_rewrite, force_https,
  maybe_rewrite,
}
use seaturtle.Rewriter.FirstMatch.{chosen}
use seaturtle.Rewriter.Applies.{maybe_rewrite_lem}

module _ {Gurl : Type 0} (api : UrlApi Gurl) where
  -- The request of the result has the referrer and the URL of the one that was asked about.
  abbrev Keeps : Request Gurl → Abort (Rewritten Gurl) → Type 0
  Keeps request crash = Unit
  Keeps request (ok (u, q)) = (q.referrer ≡ request.referrer) × (q.url ≡ request.url)

  do_rewrite-Keeps : (t : Bytes) (request : Request Gurl) → Keeps request (do_rewrite api t request)
  unfolding do_rewrite
  do_rewrite-Keeps t request = elim (Bool-cases (api.is_valid (api.parse t))) [
    | inl e ↦ rw e (refl, refl)
    | inr e ↦ rw e tt
  ]

  chosen-Keeps :
      (settings : HttpsRewrite) (o : Option Bytes) (request : Request Gurl)
      → Keeps request (chosen api settings o request)
  unfolding force_https
  chosen-Keeps settings (some t) request = do_rewrite-Keeps t request
  chosen-Keeps settings none request = elim (Bool-cases settings.https_only) [
    | inl only ↦ elim (Bool-cases (leb 4 (length (api.spec request.url)))) [
      | inl e ↦ rw (only, e) (do_rewrite-Keeps _ request)
      | inr e ↦ rw (only, e) tt
    ]
    | inr any ↦ rw any (refl, refl)
  ]

  -- What a result says.
  abbrev pub Unharmed : Request Gurl → NetError → Request Gurl → Type 0
  Unharmed request error q =
      ((error ≡ net_ok) ⊎ (error ≡ err_unsafe_redirect))
      × (q.referrer ≡ request.referrer)
      × (q.url ≡ request.url)

  answer_from :
      (request q : Request Gurl) (error : NetError) (new_url : Option Gurl)
      (out : Abort (Rewritten Gurl))
      → Keeps request out
      → with_ok out ≡ ok (error, (new_url, q))
      → Unharmed request error q
  answer_from request q error new_url crash k h = cc
  answer_from request q error new_url (ok (u, q')) (referrer, url) h = (inl cc, cc, cc)

  answer_of :
      (request q : Request Gurl) (error again : NetError) (new_url : Option Gurl)
      → (again ≡ net_ok) ⊎ (again ≡ err_unsafe_redirect)
      → ◌≡◌ {A = Abort (NetError × Rewritten Gurl)}
          (ok (again, (none, request)))
          (ok (error, (new_url, q)))
      → Unharmed request error q
  answer_of request q error again new_url (inl e) h = (inl cc, cc, cc)
  answer_of request q error again new_url (inr e) h = (inr cc, cc, cc)

pub maybe_rewrite-Unharmed :
    {Gurl Re : Type 0} (api : UrlApi Gurl) (re2 : Re2Api Re) (settings : HttpsRewrite)
    (r : HttpsRewriter Re) (request q : Request Gurl) (error : NetError) (new_url : Option Gurl)
    → (api.scheme_is request.url (lit "http") ≡ true
        → api.scheme_is request.url (lit "https") ≡ false)
    → maybe_rewrite api re2 settings r request ≡ ok (error, (new_url, q))
    → Unharmed api request error q
maybe_rewrite-Unharmed api re2 settings r request q error new_url one h =
    let h' = sym (maybe_rewrite_lem api re2 settings r request one) ∙ h in
    elim (Bool-cases (settings.enabled && api.scheme_is request.url (lit "http"))) [
      | inr off ↦ answer_of api request q error net_ok new_url (inl refl) (rw off at h')
      | inl on ↦
          elim (Bool-cases
            (contains (api.spec request.url) (rewrites_so_far request.prev_rewrites))) [
              | inl seen ↦ elim (Bool-cases settings.https_only) [
                | inl only ↦
                    answer_of api request q error err_unsafe_redirect new_url (inr refl)
                      (rw (on, seen, only) at h')
                | inr any ↦
                    answer_of api request q error net_ok new_url (inl refl)
                      (rw (on, seen, any) at h')
              ]
              | inr new ↦
                  answer_from api request q error new_url _ (chosen-Keeps api settings _ request)
                    (rw (on, new) at h')
            ]
    ]

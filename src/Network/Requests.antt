-- ===== src/Network/Requests.antt =====
-- OnBeforeURLRequest: which requests are blocked, what the request that goes on carries, and what the
-- tab hears.
use seaturtle.Common.{
  ℕ, ◌≡◌, refl, sym, ap, ◌∙◌, ◌↔◌, ◌⊎◌, inl, inr, Bool, true, false, Option, none, some, List, [],
  ◌++◌, if◌then◌else◌, Bool-cases, Bytes, lit, to_lower_ascii, Abort, ok, crash,
}
use seaturtle.Url.{UrlApi, NetError, net_ok, err_blocked_by_client, err_unsafe_redirect, Request}
use seaturtle.Settings.{AllSettings}
use seaturtle.Host.{IsParent, HasDot}
use seaturtle.Blocker.{Blocker}
use seaturtle.Blocker.Whitelist.{is_whitelisted}
use seaturtle.Blocker.Blacklist.{is_host_evil_third_party, should_block_third_party_request}
use seaturtle.Blocker.Blacklist.Walk.{should_block_iff}
use seaturtle.Rewriter.{Re2Api, HttpsRewriter, Rewritten, maybe_rewrite}
use seaturtle.Rewriter.Keeps.{maybe_rewrite-Unharmed}
use seaturtle.Shell.{Browser, LogEntry, request}
use seaturtle.Shell.Registry.{for_url_request}
use seaturtle.Shell.Log.{get_log}
use seaturtle.Network.Reports.{reported, get_log-log_for_request}
use seaturtle.Network.{
  log_for_request, is_blocked, clear_referrer, with_browser, on_before_url_request,
}
use seaturtle.Network.Outcomes.{
  if_off, if_on, three_tests, not_refused, cleared, is_block, is_block_none,
}

module _ {Gurl W Re : Type 0} (api : UrlApi Gurl) (re2 : Re2Api Re) (from_id : ℕ → ℕ → Option ℕ)
    (settings : AllSettings) (b : Blocker W) (rewriter : HttpsRewriter Re) where
  abbrev Answer : Type 0
  Answer = NetError × Rewritten Gurl × Browser Gurl

  -- How a run with an answer went: by the blocker, or by the rewriter.
  abbrev Course :
      Request Gurl → Browser Gurl → NetError → Option Gurl → Request Gurl → Browser Gurl → Type 0
  Course r browser error new_url q browser' =
      (browser'
        ≡ log_for_request from_id r request (is_blocked api settings b r) (api.spec r.url) browser)
      × (((is_blocked api settings b r ≡ true)
            × (error ≡ err_blocked_by_client)
            × (new_url ≡ none)
            × (q ≡ r))
          ⊎ ((is_blocked api settings b r ≡ false)
              × (maybe_rewrite api re2 settings.https_rewrite rewriter (clear_referrer settings r)
                  ≡ ok (error, (new_url, q)))))

  split_answer :
      (browser browser' : Browser Gurl) (error : NetError) (new_url : Option Gurl)
      (q : Request Gurl) (out : Abort (NetError × Rewritten Gurl))
      → with_browser browser out ≡ ok (error, (new_url, q), browser')
      → (browser' ≡ browser) × (out ≡ ok (error, (new_url, q)))
  split_answer browser browser' error new_url q crash h = cc
  split_answer browser browser' error new_url q (ok (e, out)) h = (cc, cc)

  course :
      (r q : Request Gurl) (browser browser' : Browser Gurl) (error : NetError)
      (new_url : Option Gurl)
      → r.is_autocomplete ≡ false
      → on_before_url_request api re2 from_id settings b rewriter r browser
        ≡ ok (error, (new_url, q), browser')
      → Course r browser error new_url q browser'
  unfolding on_before_url_request
  course r q browser browser' error new_url own h =
      let blocked : Bool = is_blocked api settings b r in
      let h1 = sym (if_off r.is_autocomplete _ _ own) ∙ h in
      elim (Bool-cases blocked) [
        | inl e ↦
            let h2 : ◌≡◌ {A = Abort Answer}
                (ok (
                  err_blocked_by_client,
                  (none, r),
                  log_for_request from_id r request blocked (api.spec r.url) browser,
                ))
                (ok (error, (new_url, q), browser')) =
              sym (if_on {A = Abort Answer} blocked _ _ e) ∙ h1 in
            (cc, inl (e, cc, cc, cc))
        | inr e ↦
            let (same, out) =
              split_answer _ browser' error new_url q _ (sym (if_off blocked _ _ e) ∙ h1) in
            (same, inr (e, out))
      ]

  -- The conditions for a block, with the blacklist's walk over the host.
  abbrev pub IsUnwanted : Request Gurl → Type 0
  IsUnwanted r =
      (is_whitelisted api b r.first_party_for_cookies ≡ false)
      × (api.domain_is r.url (api.host r.first_party_for_cookies) ≡ false)
      × (settings.filters.blacklist_third_parties ≡ true)
      × ((d : Bytes) × IsParent d (to_lower_ascii (api.host r.url))
          × HasDot d
          × (is_host_evil_third_party b d ≡ true))

  is_blocked_iff : (r : Request Gurl) → (is_blocked api settings b r ≡ true) ↔ IsUnwanted r
  unfolding is_blocked
  is_blocked_iff r =
      let tests =
        three_tests (is_whitelisted api b r.first_party_for_cookies)
          (api.domain_is r.url (api.host r.first_party_for_cookies))
          (should_block_third_party_request api settings.filters b r.url) in
      let walk = should_block_iff api settings.filters b r.url in
      (
        λ e. let (x, y, z) = tests.0 e in let (on, evil) = walk.0 z in (x, y, on, evil),
        λ (x, y, on, evil). tests.1 (x, y, walk.1 (on, evil)),
      )

  autocomplete_goes_on :
      (r q : Request Gurl) (browser browser' : Browser Gurl) (error : NetError)
      (new_url : Option Gurl)
      → r.is_autocomplete ≡ true
      → on_before_url_request api re2 from_id settings b rewriter r browser
        ≡ ok (error, (new_url, q), browser')
      → error ≡ net_ok
  unfolding on_before_url_request
  autocomplete_goes_on r q browser browser' error new_url auto h =
      let h' : ◌≡◌ {A = Abort Answer} (ok (net_ok, (none, r), browser))
          (ok (error, (new_url, q), browser')) =
        sym (if_on {A = Abort Answer} r.is_autocomplete _ _ auto) ∙ h in
      cc

  unwanted_run :
      (r : Request Gurl) (browser : Browser Gurl)
      → r.is_autocomplete ≡ false
      → is_blocked api settings b r ≡ true
      → on_before_url_request api re2 from_id settings b rewriter r browser
        ≡ ok (
          err_blocked_by_client,
          (none, r),
          log_for_request from_id r request (is_blocked api settings b r) (api.spec r.url) browser,
        )
  unfolding on_before_url_request
  unwanted_run r browser own e =
      if_off {A = Abort Answer} r.is_autocomplete _ _ own
      ∙ if_on {A = Abort Answer} (is_blocked api settings b r) _ _ e

  module _
      (one_scheme : (u : Gurl)
        → api.scheme_is u (lit "http") ≡ true
        → api.scheme_is u (lit "https") ≡ false) where
    -- A request is blocked exactly when it is not an autocomplete request, the page it is for is not
    -- whitelisted, its host is not in the domain of that page, the blacklist is switched on, and the
    -- blacklist holds its host in lower case or a parent domain of it that has a dot. A URL whose
    -- scheme is http is taken not to have the scheme https.
    pub on_before_url_request-blocks_iff :
        (r : Request Gurl) (browser : Browser Gurl)
        → ((new_url : Option Gurl) × (q : Request Gurl) × (browser' : Browser Gurl)
            × (on_before_url_request api re2 from_id settings b rewriter r browser
                ≡ ok (err_blocked_by_client, (new_url, q), browser')))
          ↔ ((r.is_autocomplete ≡ false) × IsUnwanted r)
    on_before_url_request-blocks_iff r browser = (
      λ (new_url, q, browser', h). elim (Bool-cases r.is_autocomplete) [
        | inl auto ↦ absurd (cc (autocomplete_goes_on r q browser browser' _ new_url auto h))
        | inr own ↦ elim (course r q browser browser' _ new_url own h).1 [
          | inl (blocked, _, _, _) ↦ (own, (is_blocked_iff r).0 blocked)
          | inr (passes, out) ↦
              not_refused _
                (maybe_rewrite-Unharmed api re2 settings.https_rewrite rewriter
                  (clear_referrer settings r) q _ new_url (one_scheme _) out).0
                refl
        ]
      ],
      λ (own, unwanted). (_, _, _, unwanted_run r browser own ((is_blocked_iff r).1 unwanted)),
    )

    -- A request that a page makes and that is answered either is blocked, and then it is as it was and
    -- is not sent elsewhere, or it goes on to the same URL or a new one, or is refused as an unsafe
    -- redirect, and then its referrer is empty if the setting says so and untouched otherwise. A URL
    -- whose scheme is http is taken not to have the scheme https.
    pub on_before_url_request-goes_on :
        (r q : Request Gurl) (browser browser' : Browser Gurl) (error : NetError)
        (new_url : Option Gurl)
        → r.is_autocomplete ≡ false
        → on_before_url_request api re2 from_id settings b rewriter r browser
          ≡ ok (error, (new_url, q), browser')
        → ((error ≡ err_blocked_by_client) × (new_url ≡ none) × (q ≡ r))
          ⊎ (((error ≡ net_ok) ⊎ (error ≡ err_unsafe_redirect))
              × (q.referrer ≡ (if settings.filters.clear_referrer then [] else r.referrer))
              × (q.url ≡ r.url))
    on_before_url_request-goes_on r q browser browser' error new_url own h =
        elim (course r q browser browser' error new_url own h).1 [
          | inl (_, refused, nowhere, same) ↦ inl (refused, nowhere, same)
          | inr (_, out) ↦
              let (how, referrer, url) =
                maybe_rewrite-Unharmed api re2 settings.https_rewrite rewriter
                  (clear_referrer settings r) q error new_url (one_scheme _) out in
              inr (how, referrer ∙ (cleared settings r).0, url ∙ (cleared settings r).1)
        ]

    -- When a request that a page makes is answered, its tab gets one log entry with the request's URL,
    -- marked as blocked exactly if the answer is a block, and no other tab's log changes. A URL whose
    -- scheme is http is taken not to have the scheme https.
    pub on_before_url_request-reports :
        (r q : Request Gurl) (browser browser' : Browser Gurl) (error : NetError)
        (new_url : Option Gurl) (p : ℕ) {l : List LogEntry}
        → r.is_autocomplete ≡ false
        → on_before_url_request api re2 from_id settings b rewriter r browser
          ≡ ok (error, (new_url, q), browser')
        → get_log p browser ≡ some l
        → get_log p browser'
          ≡ some (
              l
              ++ reported
                  (for_url_request from_id r.view browser.all_shells)
                  p
                  request
                  (is_block error)
                  (api.spec r.url))
    on_before_url_request-reports r q browser browser' error new_url p {l = l} own h found =
        let (same, way) = course r q browser browser' error new_url own h in
        let tab = for_url_request from_id r.view browser.all_shells in
        let marked : is_blocked api settings b r ≡ is_block error = elim way [
          | inl (blocked, refused, _, _) ↦ blocked ∙ sym (ap is_block refused)
          | inr (passes, out) ↦
              passes
              ∙ sym (
                  is_block_none error
                    (maybe_rewrite-Unharmed api re2 settings.https_rewrite rewriter
                      (clear_referrer settings r) q error new_url (one_scheme _) out).0)
        ] in
        ap (get_log p) same
        ∙ get_log-log_for_request from_id r p request (is_blocked api settings b r) (api.spec r.url)
            browser found
        ∙ ap (λ c. some (l ++ reported tab p request c (api.spec r.url))) marked

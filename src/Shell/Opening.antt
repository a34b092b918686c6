-- ===== src/Shell/Opening.antt =====
-- shell/browser/shell.cc: OpenURLFromTab, by which a page opens another one.
mod Tests
use seaturtle.Common.{
  ℕ, ◌≡◌, refl, ap, Bool, true, false, Bool-cases, inl, inr, Option, none, some, if◌then◌else◌,
  Bytes, Abort, ok, crash,
}

-- WindowOpenDisposition, with one constructor for all but the current tab.
pub data Disposition : Type 0 where
  current_tab other_disposition : Disposition

-- content::OpenURLParams; `none` is the GlobalRequestID without a request.
pub record OpenUrlParams (Gurl : Type 0) : Type 0 where
  pub url : Gurl
  pub referrer : Bytes
  pub frame_tree_node_id : ℕ
  pub disposition : Disposition
  pub transition : ℕ
  pub is_renderer_initiated : Bool
  pub should_replace_current_entry : Bool
  pub extra_headers : Bytes
  pub transferred_global_request_id : Option (ℕ × ℕ)

-- NavigationController::LoadURLParams
pub record LoadUrlParams (Gurl : Type 0) : Type 0 where
  pub url : Gurl
  pub referrer : Bytes
  pub frame_tree_node_id : ℕ
  pub transition_type : ℕ
  pub is_renderer_initiated : Bool
  pub should_replace_current_entry : Bool
  pub extra_headers : Bytes
  pub transferred_global_request_id : Option (ℕ × ℕ)

module _ {Gurl : Type 0} where
  -- The parameters before the test for a transferred request: LoadURLParams starts with a load that
  -- the browser initiated.
  abbrev pub copied : OpenUrlParams Gurl → LoadUrlParams Gurl
  copied params = record {
    url = params.url;
    referrer = params.referrer;
    frame_tree_node_id = params.frame_tree_node_id;
    transition_type = params.transition;
    is_renderer_initiated = false;
    should_replace_current_entry = params.should_replace_current_entry;
    extra_headers = params.extra_headers;
    transferred_global_request_id = none;
  }

  abbrev pub with_request : Option (ℕ × ℕ) → OpenUrlParams Gurl → LoadUrlParams Gurl
  with_request (some id) params = record (copied params) {
    is_renderer_initiated = params.is_renderer_initiated;
    transferred_global_request_id = some id;
  }
  with_request none params =
      if params.is_renderer_initiated
      then record (copied params) { is_renderer_initiated = true }
      else copied params

  abbrev pub open_as : Disposition → OpenUrlParams Gurl → Abort (LoadUrlParams Gurl)
  open_as current_tab params = ok (with_request params.transferred_global_request_id params)
  open_as other_disposition params = crash

  -- Shell::OpenURLFromTab: what the controller of the source is asked to load.
  unfoldable pub open_url_from_tab : OpenUrlParams Gurl → Abort (LoadUrlParams Gurl)
  open_url_from_tab params = open_as params.disposition params

  with_request_lem :
      (id : Option (ℕ × ℕ)) (params : OpenUrlParams Gurl)
      → with_request id params ≡ record (copied params) {
        is_renderer_initiated = params.is_renderer_initiated;
        transferred_global_request_id = id;
      }
  with_request_lem (some id) params = refl
  with_request_lem none params = elim (Bool-cases params.is_renderer_initiated) [
    | inl renderer ↦ rw renderer refl
    | inr browser ↦ rw browser refl
  ]

  -- A load for the current tab has the same effect whichever branch is taken: every parameter of the
  -- request goes on to the controller as it is, with or without a transferred request, and so does
  -- whether the renderer initiated it. A load for any other place ends the process.
  open_url_from_tab_lem :
      (params : OpenUrlParams Gurl)
      → open_url_from_tab params ≡ elim params.disposition [
        | current_tab ↦ ok (record {
          url = params.url;
          referrer = params.referrer;
          frame_tree_node_id = params.frame_tree_node_id;
          transition_type = params.transition;
          is_renderer_initiated = params.is_renderer_initiated;
          should_replace_current_entry = params.should_replace_current_entry;
          extra_headers = params.extra_headers;
          transferred_global_request_id = params.transferred_global_request_id;
        })
        | other_disposition ↦ crash
      ]
  unfolding open_url_from_tab
  open_url_from_tab_lem params = opened params.disposition
    where
      opened :
          (d : Disposition)
          → open_as d params ≡ elim d [
            | current_tab ↦ ok (record (copied params) {
              is_renderer_initiated = params.is_renderer_initiated;
              transferred_global_request_id = params.transferred_global_request_id;
            })
            | other_disposition ↦ crash
          ]
      opened current_tab = ap ok (with_request_lem params.transferred_global_request_id params)
      opened other_disposition = refl

-- ===== src/Renderer/StyleSheets.antt =====
-- What the exchange of messages between a renderer and the browser inserts into a frame.
use seaturtle.Common.{
  ℕ, ◌≡◌, refl, inl, inr, Bool, true, false, not, ◌&&◌, List, [], ◌∷◌, ◌++◌, ◌==◌, if◌then◌else◌,
  Bool-cases, append-nil, Bytes,
}
use seaturtle.Url.{UrlApi}
use seaturtle.Settings.{Filters}
use seaturtle.Blocker.{Blocker}
use seaturtle.Blocker.Whitelist.{is_whitelisted}
use seaturtle.Blocker.Stylesheets.{inject_style_sheets}
use seaturtle.Renderer.{
  MessageType, Routed, did_create_document_element, on_message_received, frame_on_message_received,
}

module _ {Gurl W : Type 0} (api : UrlApi Gurl) (from_utf8 : Bytes → W) where
  -- The messages reach the frame of their routing id.
  abbrev pub inserted_into : ℕ → List Routed → Blocker W → Gurl → List W
  inserted_into frame [] b document_url = []
  inserted_into frame (m ∷ ms) b document_url =
      (if m.routing_id == frame
        then (frame_on_message_received api from_utf8 b m.type document_url).1
        else [])
      ++ inserted_into frame ms b document_url

  -- A document element is created in the frame `sender`; the shell of the browser process receives
  -- that; the frame `frame`, of a renderer with the blocker `br`, receives what the shell sends.
  abbrev pub after_creation : Filters → Blocker W → Blocker W → ℕ → Gurl → ℕ → Gurl → List W
  after_creation s b br sender last_committed_url frame document_url =
      let m = did_create_document_element sender in
      inserted_into frame (on_message_received api s b m.type m.routing_id last_committed_url).1 br
        document_url

  sent_once :
      (sends : Bool) (br : Blocker W) (sender frame : ℕ) (document_url : Gurl)
      → inserted_into frame
          (if sends
            then record { routing_id = sender; type = MessageType.inject_css_in_frame } ∷ []
            else [])
          br
          document_url
        ≡ (if sends && (sender == frame)
            then inject_style_sheets from_utf8 api br document_url
            else [])
  unfolding frame_on_message_received
  sent_once false br sender frame document_url = refl
  sent_once true br sender frame document_url = elim (Bool-cases (sender == frame)) [
    | inl same ↦ rw same (append-nil (inject_style_sheets from_utf8 api br document_url))
    | inr other ↦ rw other refl
  ]

  -- When a document element is created in a frame, the browser process handles the message, and that
  -- very frame, no other, gets the style sheets of its renderer for the URL of its document, if the
  -- settings have them injected and the browser's whitelist has not the URL that the frame committed
  -- last; else no frame gets any.
  pub after_creation_lem :
      (s : Filters) (b br : Blocker W) (sender : ℕ) (last_committed_url : Gurl) (frame : ℕ)
      (document_url : Gurl)
      → let m = did_create_document_element sender in
        ((on_message_received api s b m.type m.routing_id last_committed_url).0 ≡ true)
        × (after_creation s b br sender last_committed_url frame document_url ≡ (
            if (s.inject_css && not (is_whitelisted api b last_committed_url)) && (sender == frame)
            then inject_style_sheets from_utf8 api br document_url
            else []))
  unfolding on_message_received did_create_document_element
  after_creation_lem s b br sender last_committed_url frame document_url = (
    refl,
    elim (Bool-cases s.inject_css) [
      | inl on ↦
          rw on
            (sent_once (not (is_whitelisted api b last_committed_url)) br sender frame document_url)
      | inr off ↦ rw off refl
    ],
  )

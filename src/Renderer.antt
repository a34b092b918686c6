-- ===== src/Renderer.antt =====
-- shell/renderer/*.cc and Shell::OnMessageReceived of shell/browser/shell.cc: the two messages by which
-- a renderer asks the browser for style sheets, and the error pages.
pub mod StyleSheets
mod Tests
use seaturtle.Common.{
  ℕ, Bool, true, false, not, Option, none, some, List, [], ◌∷◌, if◌then◌else◌, Bytes, lit, Abort,
  ok, crash,
}
use seaturtle.Url.{UrlApi}
use seaturtle.Settings.{Filters}
use seaturtle.Blocker.{Blocker}
use seaturtle.Blocker.Stylesheets.{inject_style_sheets}
use seaturtle.Client.{sends_inject_css}

-- extra/shell_messages.h, with a constructor for all messages of others.
pub data MessageType : Type 0 where
  notify_did_create_document_element inject_css_in_frame other_message : MessageType

-- An IPC::Message, which goes to the frame with the routing id.
pub record Routed : Type 0 where
  pub routing_id : ℕ
  pub type : MessageType

-- ShellRenderViewObserver::DidCreateDocumentElement
unfoldable pub did_create_document_element : ℕ → Routed
did_create_document_element routing_id = record {
  routing_id = routing_id;
  type = notify_did_create_document_element;
}

module _ {Gurl W : Type 0} (api : UrlApi Gurl) where
  -- Shell::OnMessageReceived for the frame of the routing id, with Shell::OnNotifyDidCreateDocumentElement:
  -- whether the message is handled, and what is sent to the frame.
  unfoldable pub on_message_received :
      Filters → Blocker W → MessageType → ℕ → Gurl → Bool × List Routed
  unfolding sends_inject_css
  on_message_received s b notify_did_create_document_element rfh last_committed_url = (
    true,
    if sends_inject_css api s b last_committed_url
        then record { routing_id = rfh; type = inject_css_in_frame } ∷ []
        else [],
  )
  on_message_received s b inject_css_in_frame rfh last_committed_url = (false, [])
  on_message_received s b other_message rfh last_committed_url = (false, [])

  -- ShellRenderFrameObserver::OnMessageReceived, with OnInjectCssInFrame: whether the message is
  -- handled, and the sheets that are inserted into the document.
  unfoldable pub frame_on_message_received :
      (Bytes → W) → Blocker W → MessageType → Gurl → Bool × List W
  unfolding inject_style_sheets
  frame_on_message_received from_utf8 b inject_css_in_frame document_url =
      (true, inject_style_sheets from_utf8 api b document_url)
  frame_on_message_received from_utf8 b notify_did_create_document_element document_url =
      (false, [])
  frame_on_message_received from_utf8 b other_message document_url = (false, [])

-- ShellContentRendererClient::HasErrorPage, with the domain
unfoldable pub has_error_page : ℕ → Bool × Bytes
has_error_page http_status_code = (true, lit "seaturtle-error")

-- What Java answers when it is asked to render: a page, or a message of another type.
pub data RenderAnswer : Type 0 where
  render_response : Bytes → RenderAnswer
  other_answer : RenderAnswer

-- ShellContentRendererClient::GetNavigationErrorStrings: the page, where the caller wants one.
unfoldable pub get_navigation_error_strings : Bool → RenderAnswer → Abort (Option Bytes)
get_navigation_error_strings false answer = ok none
get_navigation_error_strings true (render_response page) = ok (some page)
get_navigation_error_strings true other_answer = crash

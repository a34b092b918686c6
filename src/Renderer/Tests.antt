-- ===== src/Renderer/Tests.antt =====
-- A frame whose document is created, and the theorem on its style sheets.
use seaturtle.Common.{
  ◌≡◌, refl, true, not, ◌&&◌, [], ◌∷◌, ◌==◌, if◌then◌else◌, Bytes, lit, lookup, bytes_eq,
  to_lower_ascii, find_byte, some, ok, crash,
}
use seaturtle.Fixtures.{plain_api}
use seaturtle.Settings.{default_settings}
use seaturtle.Blocker.{Blocker}
use seaturtle.Blocker.Whitelist.{is_whitelisted}
use seaturtle.Blocker.Stylesheets.{inject_style_sheets}
use seaturtle.Renderer.{
  did_create_document_element, on_message_received, frame_on_message_received, render_response,
  other_answer, get_navigation_error_strings,
}
use seaturtle.Renderer.StyleSheets.{after_creation, after_creation_lem}

abbrev quiet : Blocker Bytes
quiet = record {
  file_path = [];
  domain_blacklist = [];
  global_stylesheets = [];
  domain_stylesheets = [];
  whitelist = [];
}

abbrev hides_ads : Blocker Bytes
hides_ads = record quiet { global_stylesheets = lit ".ad{}" ∷ [] }

created :
    after_creation plain_api
      (λ x. x)
      default_settings.filters
      quiet
      hides_ads
      5
      (lit "s://a.com")
      5
      (lit "s://a.com")
    ≡ lit ".ad{}" ∷ []
unfolding did_create_document_element on_message_received frame_on_message_received is_whitelisted
    lookup to_lower_ascii find_byte bytes_eq
created = refl

no_page : get_navigation_error_strings true other_answer ≡ crash
unfolding get_navigation_error_strings
no_page = refl

error_page : get_navigation_error_strings true (render_response (lit "<p>")) ≡ ok (some (lit "<p>"))
unfolding get_navigation_error_strings
error_page = refl

after_creation_example :
    let m = did_create_document_element 5 in
    let filters = default_settings.filters in
    ((on_message_received plain_api filters quiet m.type m.routing_id (lit "s://a.com")).0 ≡ true)
    × (after_creation plain_api
          (λ x. x)
          filters
          quiet
          hides_ads
          5
          (lit "s://a.com")
          5
          (lit "s://a.com")
        ≡ (if (true && not (is_whitelisted plain_api quiet (lit "s://a.com"))) && (5 == 5)
            then inject_style_sheets (λ x. x) plain_api hides_ads (lit "s://a.com")
            else []))
after_creation_example =
    after_creation_lem plain_api (λ x. x) default_settings.filters quiet hides_ads 5
      (lit "s://a.com") 5 (lit "s://a.com")

-- ===== src/Shell/Icons/Tests.antt =====
-- Icons and menus on small inputs.
use seaturtle.Common.{◌≡◌, refl, true, false, none, some, [], ◌∷◌, lit}
use seaturtle.Shell.Icons.{
  SkBitmap, n32_sk_color_type, other_sk_color_type, argb_8888, empty_image, favicon_downloaded,
  paste_popup, show_context_menu,
}

abbrev dot : SkBitmap
dot = record {
  is_null = false;
  color_type = n32_sk_color_type;
  height = 1;
  width = 1;
  pixels = 0 ∷ 0 ∷ 0 ∷ 255 ∷ [];
}

dot_sent :
    favicon_downloaded (lit "http://a.com/") (dot ∷ [])
    ≡ some (record {
      url = lit "http://a.com/";
      image = record {
        height = some 1;
        width = some 1;
        config = some argb_8888;
        pixels = some dot.pixels;
      };
    })
unfolding favicon_downloaded
dot_sent = refl

-- An icon of another type is sent as an empty image.
unknown_sent :
    favicon_downloaded [] (record dot { color_type = other_sk_color_type } ∷ [])
    ≡ some (record { url = []; image = empty_image })
unfolding favicon_downloaded
unknown_sent = refl

nothing_sent : favicon_downloaded (lit "http://a.com/") [] ≡ none
unfolding favicon_downloaded
nothing_sent = refl

popup_shown :
    show_context_menu true (record {
      is_editable = true;
      selection_text = [];
      selection_start = (3, 4);
      link_url = [];
      src_url = [];
    })
    ≡ paste_popup 3 4
unfolding show_context_menu
popup_shown = refl

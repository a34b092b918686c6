-- ===== src/Shell/Icons.antt =====
-- extra/gfx_util.cc and Shell::FaviconDownloaded of shell/browser/shell.cc: the icon of a page on its
-- way to Java; and the menu of shell/browser/shell_web_contents_view_delegate.cc.
mod Tests
use seaturtle.Common.{
  ℕ, Bool, true, false, ◌&&◌, Option, none, some, List, [], ◌∷◌, if◌then◌else◌, is_empty, Bytes,
}

-- SkColorType, with one constructor for the types that Java cannot be told.
pub data ColorType : Type 0 where
  alpha_8_sk_color_type argb_4444_sk_color_type n32_sk_color_type : ColorType
  rgb_565_sk_color_type other_sk_color_type : ColorType

-- SkBitmap; `pixels` are those of getPixels, as many bytes as getSafeSize says.
pub record SkBitmap : Type 0 where
  pub is_null : Bool
  pub color_type : ColorType
  pub height : ℕ
  pub width : ℕ
  pub pixels : Bytes

-- jni::Image.Config
pub data Config : Type 0 where
  alpha_8 argb_4444 argb_8888 rgb_565 : Config

-- jni::Image; a field that is not set is `none`.
pub record Image : Type 0 where
  pub height : Option ℕ
  pub width : Option ℕ
  pub config : Option Config
  pub pixels : Option Bytes

abbrev pub empty_image : Image
empty_image = record { height = none; width = none; config = none; pixels = none }

abbrev pub config_of : ColorType → Option Config
config_of alpha_8_sk_color_type = some alpha_8
config_of argb_4444_sk_color_type = some argb_4444
config_of n32_sk_color_type = some argb_8888
config_of rgb_565_sk_color_type = some rgb_565
config_of other_sk_color_type = none

abbrev pub image_with : SkBitmap → Option Config → Image → Bool × Image
image_with bitmap none proto = (false, proto)
image_with bitmap (some config) proto = (
  true,
  record {
    height = some bitmap.height;
    width = some bitmap.width;
    config = some config;
    pixels = some bitmap.pixels;
  },
)

-- SkBitmapToProto: whether the bitmap could be converted, and the message after it.
unfoldable pub sk_bitmap_to_proto : SkBitmap → Image → Bool × Image
sk_bitmap_to_proto bitmap proto =
    if bitmap.is_null then (false, proto) else image_with bitmap (config_of bitmap.color_type) proto

-- jni::FaviconDownloaded
pub record FaviconDownloaded : Type 0 where
  pub url : Bytes
  pub image : Image

-- Shell::FaviconDownloaded: what Java is told, if anything. The message has an image in every case,
-- an empty one where the bitmap could not be converted.
unfoldable pub favicon_downloaded : Bytes → List SkBitmap → Option FaviconDownloaded
unfolding sk_bitmap_to_proto
favicon_downloaded site_url [] = none
favicon_downloaded site_url (bitmap ∷ images) =
    some (record { url = site_url; image = (sk_bitmap_to_proto bitmap empty_image).1 })

-- What a long press leads to: the popup at a place of the text, or a menu of Java for a link and an
-- image, or nothing.
pub data Menu : Type 0 where
  paste_popup : ℕ → ℕ → Menu
  context_menu : Bytes → Bytes → Menu
  no_menu : Menu

-- content::ContextMenuParams
pub record ContextMenuParams : Type 0 where
  pub is_editable : Bool
  pub selection_text : Bytes
  pub selection_start : ℕ × ℕ
  pub link_url : Bytes
  pub src_url : Bytes

-- ShellWebContentsViewDelegate::ShowContextMenu; `has_view` says that there is a ContentViewCore.
unfoldable pub show_context_menu : Bool → ContextMenuParams → Menu
show_context_menu has_view params =
    if params.is_editable && is_empty params.selection_text
    then (if has_view
        then paste_popup params.selection_start.0 params.selection_start.1
        else no_menu)
    else context_menu params.link_url params.src_url

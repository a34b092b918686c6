-- ===== src/Cookies/Tests.antt =====
-- Runs of the split cookie store on small inputs, and its theorems at concrete arguments. A store of
-- the tests is the list of the cookie lines that were set.
use seaturtle.Common.{
  Bool, ◌⊎◌, ◌≡◌, refl, ◌↔◌, true, List, [], ◌∷◌, length, Bytes, lit, bytes_eq, contains,
  set_insert, Any, ok,
}
use seaturtle.Fixtures.{plain_api, test_sites}
use seaturtle.Cookies.{
  CookieApi, SplitCookieStore, update_favorites, is_persistant, set_cookie_with_options,
  get_site_for_url, site_host,
}
use seaturtle.Cookies.Favorites.{IsOfSite, is_persistant-update_iff}
use seaturtle.Cookies.Split.{IsFavorite, IsOnDisk, IsInMemory, Reads, set_cookie-update_favorites}

abbrev last_line : List Bytes → Bytes
last_line [] = []
last_line (line ∷ lines) = line

abbrev list_cookies : CookieApi Bytes (List Bytes)
list_cookies = record {
  set_cookie = λ url line lines. (true, line ∷ lines);
  get_cookies = λ url lines. last_line lines;
  get_all_cookies = λ url lines. lines;
  delete = λ what lines. (length lines, []);
}

abbrev no_cookies : SplitCookieStore (List Bytes)
no_cookies = record { persistant = []; transient = lit "t" ∷ []; favorites = [] }

abbrev a_is_favorite : SplitCookieStore (List Bytes)
a_is_favorite = record no_cookies { favorites = lit "a.com" ∷ [] }

abbrev a_page : Bytes
a_page = lit "s://w.a.com"

updated :
    update_favorites plain_api test_sites (lit "s://x.a.com" ∷ []) no_cookies ≡ ok a_is_favorite
unfolding update_favorites get_site_for_url set_insert contains bytes_eq
updated = refl

is_persistant-update_example :
    ((is_persistant plain_api test_sites a_page a_is_favorite ≡ true)
      ↔ Any
          (IsOfSite plain_api test_sites (site_host plain_api test_sites a_page))
          (lit "s://x.a.com" ∷ []))
    × (a_is_favorite.persistant ≡ no_cookies.persistant)
    × (a_is_favorite.transient ≡ no_cookies.transient)
is_persistant-update_example =
    is_persistant-update_iff plain_api test_sites (lit "s://x.a.com" ∷ []) no_cookies a_is_favorite
      a_page updated

abbrev after_cookie : Bool × SplitCookieStore (List Bytes)
after_cookie =
    set_cookie_with_options plain_api test_sites list_cookies a_page (lit "c") a_is_favorite

-- The cookie of the favorite goes to the disk, and the other site reads the store in memory.
set_cookie-update_example :
    let urls = lit "s://x.a.com" ∷ [] in
    ((IsFavorite plain_api test_sites list_cookies urls a_page
        × IsOnDisk plain_api test_sites list_cookies a_page (lit "c") a_is_favorite after_cookie)
      ⊎ ((¬ IsFavorite plain_api test_sites list_cookies urls a_page)
          × IsInMemory plain_api test_sites list_cookies a_page
              (lit "c")
              a_is_favorite
              after_cookie))
    × ((IsFavorite plain_api test_sites list_cookies urls (lit "s://b.org")
          × Reads plain_api test_sites list_cookies
              (lit "s://b.org")
              after_cookie.1
              after_cookie.1.persistant)
        ⊎ ((¬ IsFavorite plain_api test_sites list_cookies urls (lit "s://b.org"))
            × Reads plain_api test_sites list_cookies
                (lit "s://b.org")
                after_cookie.1
                after_cookie.1.transient))
set_cookie-update_example =
    set_cookie-update_favorites plain_api test_sites list_cookies (lit "s://x.a.com" ∷ [])
      no_cookies a_is_favorite a_page (lit "s://b.org") (lit "c") updated

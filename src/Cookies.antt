-- ===== src/Cookies.antt =====
-- extra/split_cookie_store.h and extra/split_cookie_store.cc: two cookie stores, one on disk for the
-- user's favorite sites and one in memory for all others. `net::CookieStore` and the list of public
-- suffixes are parameters. A callback is run at once with the result of its operation.
pub mod Favorites
pub mod Split
mod Tests
use seaturtle.Common.{
  ℕ, ◌+◌, Bool, true, false, Option, none, some, List, [], ◌∷◌, if◌then◌else◌, is_empty, Bytes,
  contains, set_insert, Abort, ok, crash,
}
use seaturtle.Url.{UrlApi}

-- The accessors of GURL that only this component uses. `clear_port` and `set_host` are
-- ReplaceComponents, `no_url` is the default constructor, and `domain_and_registry` is
-- GetDomainAndRegistry with private registries.
pub record SiteApi (Gurl : Type 0) : Type 0 where
  pub has_host : Gurl → Bool
  pub get_origin : Gurl → Gurl
  pub has_port : Gurl → Bool
  pub clear_port : Gurl → Gurl
  pub set_host : Bytes → Gurl → Gurl
  pub domain_and_registry : Gurl → Bytes
  pub no_url : Gurl

-- What is deleted: one cookie by its name, a span of creation times, with a host or without, or the
-- session cookies.
pub data Selection (Gurl : Type 0) : Type 0 where
  named : Gurl → Bytes → Selection Gurl
  created_between : ℕ → ℕ → Selection Gurl
  created_between_for_host : ℕ → ℕ → Gurl → Selection Gurl
  session_cookies : Selection Gurl

-- net::CookieStore with the state `Store`. `delete` also says how many cookies it took out, a count
-- far below 2^31; a deletion by name does not report it.
pub record CookieApi (Gurl Store : Type 0) : Type 0 where
  pub set_cookie : Gurl → Bytes → Store → Bool × Store
  pub get_cookies : Gurl → Store → Bytes
  pub get_all_cookies : Gurl → Store → List Bytes
  pub delete : Selection Gurl → Store → ℕ × Store

-- class SplitCookieStore
pub record SplitCookieStore (Store : Type 0) : Type 0 where
  pub persistant : Store
  pub transient : Store
  pub favorites : List Bytes

module _ {Gurl : Type 0} (api : UrlApi Gurl) (sites : SiteApi Gurl) where
  abbrev pub without_port : Gurl → Gurl
  without_port site = if sites.has_port site then sites.clear_port site else site

  abbrev pub at_domain : Bytes → Gurl → Gurl
  at_domain domain site = if is_empty domain then site else sites.set_host domain site

  -- SplitCookieStore::GetSiteForURL
  unfoldable pub get_site_for_url : Gurl → Gurl
  get_site_for_url url =
      if sites.has_host url
      then at_domain (sites.domain_and_registry url) (without_port (sites.get_origin url))
      else sites.no_url

  abbrev pub site_host : Gurl → Bytes
  site_host url = api.host (get_site_for_url url)

  -- The loop of UpdateFavorites; STNOTREACHED ends the process.
  unfoldable pub add_favorites : List Bytes → List Bytes → Abort (List Bytes)
  add_favorites [] favorites = ok favorites
  add_favorites (url ∷ urls) favorites =
      let rest = add_favorites urls (set_insert (site_host (api.parse url)) favorites) in
      if api.is_valid (api.parse url) then rest else crash

module _ {Gurl Store : Type 0} (api : UrlApi Gurl) (sites : SiteApi Gurl) where
  abbrev pub with_favorites :
      SplitCookieStore Store → Abort (List Bytes) → Abort (SplitCookieStore Store)
  with_favorites s crash = crash
  with_favorites s (ok favorites) = ok (record s { favorites = favorites })

  -- SplitCookieStore::UpdateFavorites
  unfoldable pub update_favorites :
      List Bytes → SplitCookieStore Store → Abort (SplitCookieStore Store)
  unfolding add_favorites
  update_favorites urls s = with_favorites s (add_favorites api sites urls [])

  -- The constructor, with the two stores that CreateCookieStore made and Java's list of favorites.
  unfoldable pub new_split_cookie_store :
      Store → Store → List Bytes → Abort (SplitCookieStore Store)
  unfolding update_favorites
  new_split_cookie_store persistant transient urls =
      update_favorites urls
        (record { persistant = persistant; transient = transient; favorites = [] })

  -- The test of ForURL.
  unfoldable pub is_persistant : Gurl → SplitCookieStore Store → Bool
  is_persistant url s = contains (site_host api sites url) s.favorites

  -- SplitCookieStore::ForURL, the store that is read.
  unfoldable pub for_url : Gurl → SplitCookieStore Store → Store
  unfolding is_persistant
  for_url url s = if is_persistant url s then s.persistant else s.transient

  -- ForURL, where the store is written.
  abbrev pub put_for_url : Gurl → Store → SplitCookieStore Store → SplitCookieStore Store
  put_for_url url store s =
      if is_persistant url s
      then record s { persistant = store }
      else record s { transient = store }

module _ {Gurl Store : Type 0} (api : UrlApi Gurl) (sites : SiteApi Gurl)
    (cookies : CookieApi Gurl Store) where
  -- SetCookieWithOptionsAsync
  unfoldable pub set_cookie_with_options :
      Gurl → Bytes → SplitCookieStore Store → Bool × SplitCookieStore Store
  unfolding for_url
  set_cookie_with_options url cookie_line s =
      let (done, store) = cookies.set_cookie url cookie_line (for_url api sites url s) in
      (done, put_for_url api sites url store s)

  -- GetCookiesWithOptionsAsync
  unfoldable pub get_cookies_with_options : Gurl → SplitCookieStore Store → Bytes
  unfolding for_url
  get_cookies_with_options url s = cookies.get_cookies url (for_url api sites url s)

  -- GetAllCookiesForURLAsync
  unfoldable pub get_all_cookies_for_url : Gurl → SplitCookieStore Store → List Bytes
  unfolding for_url
  get_all_cookies_for_url url s = cookies.get_all_cookies url (for_url api sites url s)

module _ {Gurl Store : Type 0} (cookies : CookieApi Gurl Store) where
  -- The Persistant...Async halves of the deletions, with DeleteComplete.
  unfoldable pub persistant_delete :
      Selection Gurl → ℕ → SplitCookieStore Store → ℕ × SplitCookieStore Store
  persistant_delete what already_deleted s =
      let (deleted, store) = cookies.delete what s.persistant in
      (already_deleted + deleted, record s { persistant = store })

  -- DeleteCookieAsync, DeleteAllCreatedBetweenAsync, DeleteAllCreatedBetweenForHostAsync and
  -- DeleteSessionCookiesAsync: the transient store first, and then the other as its callback.
  unfoldable pub delete_cookies :
      Selection Gurl → SplitCookieStore Store → ℕ × SplitCookieStore Store
  unfolding persistant_delete
  delete_cookies what s =
      let (deleted, store) = cookies.delete what s.transient in
      persistant_delete what deleted (record s { transient = store })

-- ===== src/Cookies/Split.antt =====
-- The two stores behind one: where a cookie goes, and what a page reads after it is set or after
-- cookies are deleted.
use seaturtle.Common.{
  ◌+◌, ◌≡◌, refl, sym, ◌∙◌, ap, ◌⊎◌, inl, inr, Bool, true, false, List, Any, ok, arith,
  if◌then◌else◌, Bool-cases, Bytes,
}
use seaturtle.Url.{UrlApi}
use seaturtle.Cookies.Favorites.{IsOfSite, is_persistant-update_iff}
use seaturtle.Cookies.{
  SiteApi, CookieApi, Selection, SplitCookieStore, site_host, update_favorites, is_persistant,
  for_url, set_cookie_with_options, get_cookies_with_options, get_all_cookies_for_url,
  delete_cookies,
}

pick :
    {A : Type 0} (c : Bool) (f : A → A) (x y : A)
    → (if c then f x else f y) ≡ f (if c then x else y)
pick true f x y = refl
pick false f x y = refl

module _ {Gurl Store : Type 0} (api : UrlApi Gurl) (sites : SiteApi Gurl)
    (cookies : CookieApi Gurl Store) where
  -- Some text of the list is a favorite of the site of the URL.
  abbrev pub IsFavorite : List Bytes → Gurl → Type 0
  IsFavorite urls url = Any (IsOfSite api sites (site_host api sites url)) urls

  -- The cookie went into the store on disk, or into that in memory, and nothing else changed.
  abbrev pub IsOnDisk :
      Gurl → Bytes → SplitCookieStore Store → Bool × SplitCookieStore Store → Type 0
  IsOnDisk url line s out =
      let (done, store) = cookies.set_cookie url line s.persistant in
      out ≡ (done, record s { persistant = store })

  abbrev pub IsInMemory :
      Gurl → Bytes → SplitCookieStore Store → Bool × SplitCookieStore Store → Type 0
  IsInMemory url line s out =
      let (done, store) = cookies.set_cookie url line s.transient in
      out ≡ (done, record s { transient = store })

  -- What is read for the URL are the cookies of this store.
  abbrev pub Reads : Gurl → SplitCookieStore Store → Store → Type 0
  Reads url s store =
      (get_cookies_with_options api sites cookies url s ≡ cookies.get_cookies url store)
      × (get_all_cookies_for_url api sites cookies url s ≡ cookies.get_all_cookies url store)

  IsFavorite-cases :
      (urls : List Bytes) (s0 s : SplitCookieStore Store) (url : Gurl)
      → update_favorites api sites urls s0 ≡ ok s
      → (IsFavorite urls url × (is_persistant api sites url s ≡ true))
        ⊎ ((¬ IsFavorite urls url) × (is_persistant api sites url s ≡ false))
  IsFavorite-cases urls s0 s url e =
      let (iff, disk, memory) = is_persistant-update_iff api sites urls s0 s url e in
      elim (Bool-cases (is_persistant api sites url s)) [
        | inl on ↦ inl (iff.0 on, on)
        | inr off ↦ inr (λ any. absurd (cc (sym off ∙ iff.1 any)), off)
      ]

  set_cookie-favorites :
      (url : Gurl) (cookie_line : Bytes) (s : SplitCookieStore Store)
      → (set_cookie_with_options api sites cookies url cookie_line s).1.favorites ≡ s.favorites
  unfolding set_cookie_with_options
  set_cookie-favorites url cookie_line s = elim (Bool-cases (is_persistant api sites url s)) [
    | inl on ↦ rw on refl
    | inr off ↦ rw off refl
  ]

  writes_persistant :
      (url : Gurl) (cookie_line : Bytes) (s : SplitCookieStore Store)
      → is_persistant api sites url s ≡ true
      → IsOnDisk url cookie_line s (set_cookie_with_options api sites cookies url cookie_line s)
  unfolding set_cookie_with_options for_url
  writes_persistant url cookie_line s on = rw on refl

  writes_transient :
      (url : Gurl) (cookie_line : Bytes) (s : SplitCookieStore Store)
      → is_persistant api sites url s ≡ false
      → IsInMemory url cookie_line s (set_cookie_with_options api sites cookies url cookie_line s)
  unfolding set_cookie_with_options for_url
  writes_transient url cookie_line s off = rw off refl

  reads :
      (url : Gurl) (s : SplitCookieStore Store) {store : Store}
      → for_url api sites url s ≡ store
      → Reads url s store
  unfolding get_cookies_with_options get_all_cookies_for_url
  reads url s e = (ap (cookies.get_cookies url) e, ap (cookies.get_all_cookies url) e)

  for_url-persistant :
      (url : Gurl) (s : SplitCookieStore Store)
      → is_persistant api sites url s ≡ true
      → for_url api sites url s ≡ s.persistant
  unfolding for_url
  for_url-persistant url s on = rw on refl

  for_url-transient :
      (url : Gurl) (s : SplitCookieStore Store)
      → is_persistant api sites url s ≡ false
      → for_url api sites url s ≡ s.transient
  unfolding for_url
  for_url-transient url s off = rw off refl

  is_persistant-same :
      (other : Gurl) (s s' : SplitCookieStore Store)
      → s'.favorites ≡ s.favorites
      → is_persistant api sites other s' ≡ is_persistant api sites other s
  unfolding is_persistant
  is_persistant-same other s s' e = rw e refl

  -- Let the favorites be updated and then a cookie be set for a URL. If some favorite is of the site
  -- of that URL, the cookie goes into the store on disk, and else into the one in memory, and nothing
  -- else changes. What is then read for a URL, the same or another, are the cookies of the store on
  -- disk if some favorite is of its site, and else those of the store in memory.
  pub set_cookie-update_favorites :
      (urls : List Bytes) (s0 s : SplitCookieStore Store) (url other : Gurl) (cookie_line : Bytes)
      → update_favorites api sites urls s0 ≡ ok s
      → let out = set_cookie_with_options api sites cookies url cookie_line s in
        ((IsFavorite urls url × IsOnDisk url cookie_line s out)
          ⊎ ((¬ IsFavorite urls url) × IsInMemory url cookie_line s out))
        × ((IsFavorite urls other × Reads other out.1 out.1.persistant)
            ⊎ ((¬ IsFavorite urls other) × Reads other out.1 out.1.transient))
  set_cookie-update_favorites urls s0 s url other cookie_line e =
      let s' = (set_cookie_with_options api sites cookies url cookie_line s).1 in
      let kept = is_persistant-same other s s' (set_cookie-favorites url cookie_line s) in
      (
        elim (IsFavorite-cases urls s0 s url e) [
          | inl (any, on) ↦ inl (any, writes_persistant url cookie_line s on)
          | inr (none, off) ↦ inr (none, writes_transient url cookie_line s off)
        ],
        elim (IsFavorite-cases urls s0 s other e) [
          | inl (any, on) ↦ inl (any, reads other s' (for_url-persistant other s' (kept ∙ on)))
          | inr (none, off) ↦ inr (none, reads other s' (for_url-transient other s' (kept ∙ off)))
        ],
      )

  -- Whatever is deleted goes from the store that any URL reads, of a favorite site or not, the callers
  -- hear of the number of cookies that went from both stores together, and the favorites stay.
  get_cookies-delete_cookies :
      (what : Selection Gurl) (url : Gurl) (s : SplitCookieStore Store)
      → let (deleted, s') = delete_cookies cookies what s in
        (get_cookies_with_options api sites cookies url s'
          ≡ cookies.get_cookies url (cookies.delete what (for_url api sites url s)).1)
        × (deleted ≡ (cookies.delete what s.persistant).0 + (cookies.delete what s.transient).0)
        × (is_persistant api sites url s' ≡ is_persistant api sites url s)
  unfolding delete_cookies get_cookies_with_options for_url is_persistant
  get_cookies-delete_cookies what url s = (
    ap (cookies.get_cookies url) (
        pick (is_persistant api sites url s) (λ x. (cookies.delete what x).1) s.persistant
          s.transient),
    omega arith,
    refl,
  )

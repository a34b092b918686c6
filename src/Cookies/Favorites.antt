-- ===== src/Cookies/Favorites.antt =====
-- Which URLs have the persistent cookies after the favorites are updated.
use seaturtle.Common.{
  ◌≡◌, refl, sym, ap, ◌∙◌, ◌↔◌, ◌⊎◌, inl, inr, Bool, true, false, ◌||◌, List, [], ◌∷◌, Bool-cases,
  Bytes, bytes_eq, bytes_eq_iff, contains, set_insert, contains-set_insert, Any, Abort, ok, crash,
}
use seaturtle.Url.{UrlApi}
use seaturtle.Cookies.{
  SiteApi, SplitCookieStore, site_host, add_favorites, with_favorites, update_favorites,
  is_persistant,
}

module _ {Gurl : Type 0} (api : UrlApi Gurl) (sites : SiteApi Gurl) where
  -- The text of a favorite of the site of this host.
  abbrev pub IsOfSite : Bytes → Bytes → Type 0
  IsOfSite host text = site_host api sites (api.parse text) ≡ host

  abbrev pub IsBad : Bytes → Type 0
  IsBad text = api.is_valid (api.parse text) ≡ false

  add_favorites-bad :
      (text : Bytes) (urls favorites : List Bytes)
      → api.is_valid (api.parse text) ≡ false
      → add_favorites api sites (text ∷ urls) favorites ≡ crash
  unfolding add_favorites
  add_favorites-bad text urls favorites bad = rw bad refl

  add_favorites-good :
      (text : Bytes) (urls favorites : List Bytes)
      → api.is_valid (api.parse text) ≡ true
      → add_favorites api sites (text ∷ urls) favorites
        ≡ add_favorites api sites urls (set_insert (site_host api sites (api.parse text)) favorites)
  unfolding add_favorites
  add_favorites-good text urls favorites good = rw good refl

  or_iff : (x y : Bool) → (x || y ≡ true) ↔ ((x ≡ true) ⊎ (y ≡ true))
  or_iff true y = (λ e. inl refl, λ e. refl)
  or_iff false y = (λ e. inr e, λ e. elim e [ inl f ↦ absurd (cc f) | inr t ↦ t ])

  added_iff :
      (site host : Bytes) (favorites : List Bytes)
      → (contains host (set_insert site favorites) ≡ true)
        ↔ ((site ≡ host) ⊎ (contains host favorites ≡ true))
  added_iff site host favorites =
      let set = contains-set_insert site host favorites in
      let either = or_iff (bytes_eq site host) (contains host favorites) in
      let same = bytes_eq_iff site host in
      (
        λ e. elim (either.0 (sym set ∙ e)) [ inl x ↦ inl (same.0 x) | inr y ↦ inr y ],
        λ e. set ∙ either.1 (elim e [ inl x ↦ inl (same.1 x) | inr y ↦ inr y ]),
      )

  contains-add_favorites_iff :
      (urls favorites favorites' : List Bytes) (host : Bytes)
      → add_favorites api sites urls favorites ≡ ok favorites'
      → (contains host favorites' ≡ true)
        ↔ (Any (IsOfSite host) urls ⊎ (contains host favorites ≡ true))
  unfolding add_favorites
  contains-add_favorites_iff [] favorites favorites' host h =
      let same : favorites ≡ favorites' = cc in
      (
        λ e. inr (ap (contains host) same ∙ e),
        λ e. elim e [ inl none ↦ absurd none | inr y ↦ ap (contains host) (sym same) ∙ y ],
      )
  contains-add_favorites_iff (text ∷ urls) favorites favorites' host h =
      elim (Bool-cases (api.is_valid (api.parse text))) [
        | inr bad ↦ absurd (cc (sym (add_favorites-bad text urls favorites bad) ∙ h))
        | inl good ↦
            let site : Bytes = site_host api sites (api.parse text) in
            let rest =
              contains-add_favorites_iff urls (set_insert site favorites) favorites' host
                (sym (add_favorites-good text urls favorites good) ∙ h) in
            let added = added_iff site host favorites in
            (
              λ e. elim (rest.0 e) [
                | inl later ↦ inl (inr later)
                | inr now ↦ elim (added.0 now) [ inl this ↦ inl (inl this) | inr old ↦ inr old ]
              ],
              λ e. rest.1 (elim e [
                | inl any ↦ elim any [ inl this ↦ inr (added.1 (inl this)) | inr later ↦ inl later ]
                | inr old ↦ inr (added.1 (inr old))
              ]),
            )
      ]

  add_favorites-crash_iff :
      (urls favorites : List Bytes)
      → (add_favorites api sites urls favorites ≡ crash) ↔ Any IsBad urls
  unfolding add_favorites
  add_favorites-crash_iff [] favorites = (λ e. cc, λ none. absurd none)
  add_favorites-crash_iff (text ∷ urls) favorites =
      elim (Bool-cases (api.is_valid (api.parse text))) [
        | inr bad ↦ (λ e. inl bad, λ e. add_favorites-bad text urls favorites bad)
        | inl good ↦
            let step = add_favorites-good text urls favorites good in
            let rest =
              add_favorites-crash_iff urls
                (set_insert (site_host api sites (api.parse text)) favorites) in
            (
              λ e. inr (rest.0 (sym step ∙ e)),
              λ e.
                  step
                  ∙ rest.1 (elim e [ inl bad ↦ absurd (cc (sym good ∙ bad)) | inr later ↦ later ]),
            )
      ]

  module _ {Store : Type 0} where
    with_favorites-ok :
        (s s' : SplitCookieStore Store) (o : Abort (List Bytes))
        → with_favorites api sites s o ≡ ok s'
        → (o ≡ ok s'.favorites) × (s'.persistant ≡ s.persistant) × (s'.transient ≡ s.transient)
    with_favorites-ok s s' crash h = cc
    with_favorites-ok s s' (ok favorites) h =
        let e : record s { favorites = favorites } ≡ s' = cc in
        (ap (λ x. ok x.favorites) e, sym (ap (λ x. x.persistant) e), sym (ap (λ x. x.transient) e))

    with_favorites-crash_iff :
        (s : SplitCookieStore Store) (o : Abort (List Bytes))
        → (with_favorites api sites s o ≡ crash) ↔ (o ≡ crash)
    with_favorites-crash_iff s crash = (λ e. refl, λ e. refl)
    with_favorites-crash_iff s (ok favorites) = (λ e. cc, λ e. cc)

    -- After the favorites are updated, a URL has the persistent cookies exactly when some favorite
    -- is of the same site as that URL, whatever the favorites were before, and no cookie has moved.
    pub is_persistant-update_iff :
        (urls : List Bytes) (s s' : SplitCookieStore Store) (url : Gurl)
        → update_favorites api sites urls s ≡ ok s'
        → ((is_persistant api sites url s' ≡ true) ↔ Any (IsOfSite (site_host api sites url)) urls)
          × (s'.persistant ≡ s.persistant)
          × (s'.transient ≡ s.transient)
    unfolding update_favorites is_persistant contains
    is_persistant-update_iff urls s s' url h =
        let (favorites, persistant, transient) =
          with_favorites-ok s s' (add_favorites api sites urls []) h in
        let all =
          contains-add_favorites_iff urls [] s'.favorites (site_host api sites url) favorites in
        (
          (
            λ e. elim (all.0 e) [ inl any ↦ any | inr empty ↦ absurd (cc empty) ],
            λ any. all.1 (inl any),
          ),
          persistant,
          transient,
        )

    -- The update ends the process exactly when some favorite is not a valid URL.
    update_favorites-crash_iff :
        (urls : List Bytes) (s : SplitCookieStore Store)
        → (update_favorites api sites urls s ≡ crash) ↔ Any IsBad urls
    unfolding update_favorites
    update_favorites-crash_iff urls s =
        let list = add_favorites-crash_iff urls [] in
        let store = with_favorites-crash_iff s (add_favorites api sites urls []) in
        (λ e. list.0 (store.0 e), λ any. store.1 (list.1 any))

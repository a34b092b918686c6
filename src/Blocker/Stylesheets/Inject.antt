-- ===== src/Blocker/Stylesheets/Inject.antt =====
-- What is injected into a document after an update of the rules.
use seaturtle.Common.{
  ℕ, zero, suc, ◌<◌, ◌≡◌, refl, sym, ap, ◌∙◌, inl, inr, Bool, true, false, none, some, List, [],
  ◌∷◌, ◌++◌, append-nil, append_assoc, arith, leb, if◌then◌else◌, Bool-cases, Option-cases, is_some,
  length, drop, length-drop, Bytes, is_empty, to_lower_ascii, find_byte, find_byte-lt, lookup,
}
use seaturtle.Url.{UrlApi}
use seaturtle.Host.{parents, parents-find_none, parents-find_some, drop-eq-nil}
use seaturtle.Blocker.{Rule, DomainStylesheets, Blocker}
use seaturtle.Blocker.Stylesheets.Join.{join_comma, comma_tail, NoneEmpty}
use seaturtle.Blocker.Stylesheets.DomainSheets.{domain_selectors, lookup-domain_stylesheets}
use seaturtle.Blocker.Stylesheets.{
  display_none, append_found, update_rules_for_render_process, inject_loop, inject_style_sheets,
}

abbrev has_dot : Bytes → Bool
has_dot d = is_some (find_byte b'.' d)

-- The selectors of the rules for some domains, of those alone that hold a dot.
abbrev pub selectors_for : List Rule → List Bytes → List Bytes
selectors_for rl [] = []
selectors_for rl (d ∷ ds) =
    (if is_some (find_byte b'.' d) then domain_selectors d rl else []) ++ selectors_for rl ds

domain_selectors-NoneEmpty : (d : Bytes) (rl : List Rule) → NoneEmpty (domain_selectors d rl)
domain_selectors-NoneEmpty d [] = tt
domain_selectors-NoneEmpty d (rule ∷ rl) = ground (arith, domain_selectors-NoneEmpty d rl)

NoneEmpty-append : (xs ys : List Bytes) → NoneEmpty xs → NoneEmpty ys → NoneEmpty (xs ++ ys)
NoneEmpty-append [] ys h k = k
NoneEmpty-append (x ∷ xs) ys (here, later) k = (here, NoneEmpty-append xs ys later k)

comma_tail-append : (xs ys : List Bytes) → comma_tail (xs ++ ys) ≡ comma_tail xs ++ comma_tail ys
comma_tail-append [] ys = refl
comma_tail-append (x ∷ xs) ys = simp (comma_tail-append xs ys, append_assoc)

append_joined :
    (xs ys : List Bytes)
    → NoneEmpty xs
    → append_found (join_comma xs) (if is_empty ys then none else some (join_comma ys))
      ≡ join_comma (xs ++ ys)
append_joined xs [] h = rw (append-nil xs)
append_joined [] (y ∷ ys) h = refl
append_joined ([] ∷ xs) (y ∷ ys) h = cc
append_joined ((c ∷ x) ∷ xs) (y ∷ ys) h = simp (comma_tail-append xs (y ∷ ys), append_assoc)

module _ (rl : List Rule) (sheets : DomainStylesheets)
    (found : (d : Bytes)
      → lookup d sheets ≡ (
          if is_empty (domain_selectors d rl)
          then none
          else some (join_comma (domain_selectors d rl)))) where
  selectors-none :
      (host : Bytes) → find_byte b'.' host ≡ none → selectors_for rl (host ∷ parents host) ≡ []
  selectors-none host e = rw (e, parents-find_none host e)

  inject_loop-none :
      (fuel : ℕ) (host acc : Bytes)
      → find_byte b'.' host ≡ none
      → inject_loop (suc fuel) sheets host acc ≡ acc
  unfolding inject_loop
  inject_loop-none fuel host acc e = rw (e, inject_loop)

  inject_loop-some :
      (fuel : ℕ) (host acc : Bytes) (pos : ℕ)
      → find_byte b'.' host ≡ some pos
      → inject_loop (suc fuel) sheets host acc ≡ (
          if leb (length host) (suc pos)
          then append_found acc (lookup host sheets)
          else inject_loop fuel sheets
              (drop (suc pos) host)
              (append_found acc (lookup host sheets)))
  unfolding inject_loop
  inject_loop-some fuel host acc pos e = rw (e, inject_loop)

  selectors-step :
      (host : Bytes) (pos : ℕ) (xs : List Bytes)
      → find_byte b'.' host ≡ some pos
      → (xs ++ domain_selectors host rl)
          ++ selectors_for rl (drop (suc pos) host ∷ parents (drop (suc pos) host))
        ≡ xs ++ selectors_for rl (host ∷ parents host)
  selectors-step host pos xs e = rw (e, parents-find_some host pos e) (append_assoc xs _ _)

  inject_round :
      (fuel : ℕ) (host : Bytes) (pos : ℕ) (xs : List Bytes) (over : Bool)
      → find_byte b'.' host ≡ some pos
      → (over ≡ true → drop (suc pos) host ≡ [])
      → inject_loop fuel sheets (drop (suc pos) host) (join_comma (xs ++ domain_selectors host rl))
        ≡ join_comma (
            (xs ++ domain_selectors host rl)
            ++ selectors_for rl (drop (suc pos) host ∷ parents (drop (suc pos) host)))
      → (if over
          then join_comma (xs ++ domain_selectors host rl)
          else inject_loop fuel sheets
              (drop (suc pos) host)
              (join_comma (xs ++ domain_selectors host rl)))
        ≡ join_comma (xs ++ selectors_for rl (host ∷ parents host))
  unfolding find_byte
  inject_round fuel host pos xs true e ends ih = ap join_comma (
      sym (append-nil (xs ++ domain_selectors host rl))
      ∙ ap (λ d. (xs ++ domain_selectors host rl) ++ selectors_for rl (d ∷ parents d))
          (sym (ends refl))
      ∙ selectors-step host pos xs e)
  inject_round fuel host pos xs false e ends ih = ih ∙ ap join_comma (selectors-step host pos xs e)

  -- With more fuel than the host has bytes the loop joins what it has with the selectors of the
  -- host and its parents.
  inject_loop-join :
      (fuel : ℕ) (host : Bytes) (xs : List Bytes)
      → length host < fuel
      → NoneEmpty xs
      → inject_loop fuel sheets host (join_comma xs)
        ≡ join_comma (xs ++ selectors_for rl (host ∷ parents host))
  inject_loop-join zero host xs h n = elim h [ ]
  inject_loop-join (suc fuel) host xs h n = elim (Option-cases (find_byte b'.' host)) [
    | inl e ↦
        inject_loop-none fuel host (join_comma xs) e
        ∙ ap join_comma (sym (append-nil xs) ∙ ap (λ ys. xs ++ ys) (sym (selectors-none host e)))
    | inr (pos, e) ↦
        let here : Bytes = append_found (join_comma xs) (lookup host sheets) in
        let joined : here ≡ join_comma (xs ++ domain_selectors host rl) =
          ap (append_found (join_comma xs)) (found host)
          ∙ append_joined xs (domain_selectors host rl) n in
        inject_loop-some fuel host (join_comma xs) pos e
        ∙ ap
            (λ acc.
              if leb (length host) (suc pos)
              then acc
              else inject_loop fuel sheets (drop (suc pos) host) acc)
            joined
        ∙ inject_round fuel host pos xs (leb (length host) (suc pos)) e
            (λ over. drop-eq-nil (suc pos) host (ground (arith, over)))
            (inject_loop-join fuel (drop (suc pos) host) (xs ++ domain_selectors host rl)
              (omega (arith, length-drop (suc pos) host, find_byte-lt b'.' host pos e))
              (NoneEmpty-append xs _ n (domain_selectors-NoneEmpty host rl)))
  ]

NoneEmpty-selectors_for : (rl : List Rule) (ds : List Bytes) → NoneEmpty (selectors_for rl ds)
NoneEmpty-selectors_for rl [] = tt
NoneEmpty-selectors_for rl (d ∷ ds) = elim (Bool-cases (is_some (find_byte b'.' d))) [
  | inl dot ↦
      rw dot
        (NoneEmpty-append _ _ (domain_selectors-NoneEmpty d rl) (NoneEmpty-selectors_for rl ds))
  | inr bare ↦ rw bare (NoneEmpty-selectors_for rl ds)
]

is_empty-join_comma : (ss : List Bytes) → NoneEmpty ss → is_empty (join_comma ss) ≡ is_empty ss
is_empty-join_comma [] h = refl
is_empty-join_comma ([] ∷ ss) h = cc
is_empty-join_comma ((c ∷ s) ∷ ss) h = refl

-- After an update by the rules `rl` a document gets all global sheets and then one sheet more, made
-- of the selectors of the rules for its host in lower case and for the parents of that host, the
-- host's first, each domain with a dot in it; there is no such sheet where there are no such
-- selectors.
pub inject-update :
    {Gurl W : Type 0} (from_utf8 : Bytes → W) (api : UrlApi Gurl) (b : Blocker W) (rl : List Rule)
    (document_url : Gurl)
    → let host = to_lower_ascii (api.host document_url) in
      let selectors = selectors_for rl (host ∷ parents host) in
      let b' = update_rules_for_render_process from_utf8 b rl in
      inject_style_sheets from_utf8 api b' document_url
      ≡ b'.global_stylesheets
        ++ (if is_empty selectors
            then []
            else from_utf8 (join_comma selectors ++ display_none) ∷ [])
unfolding inject_style_sheets
inject-update from_utf8 api b rl document_url =
    let host = to_lower_ascii (api.host document_url) in
    let ds = host ∷ parents host in
    rw (
      inject_loop-join rl _ (lookup-domain_stylesheets from_utf8 b rl) (suc (length host)) host []
          (omega arith) tt,
      is_empty-join_comma (selectors_for rl ds) (NoneEmpty-selectors_for rl ds),
    )

-- ===== src/Blocker/Stylesheets/DomainSheets.antt =====
-- What the render process's update makes of the rules that name a domain.
use seaturtle.Common.{
  ℕ, ◌+◌, ◌%◌, ◌==◌, append-nil, ◌≡◌, refl, sym, ap, ◌∙◌, inl, inr, ◌&&◌, not, Option, none, some,
  List, [], ◌∷◌, ◌++◌, append_assoc, arith, if◌then◌else◌, Bool-cases, Option-cases, Bytes, lit,
  is_empty, bytes_eq, bytes_eq_iff, lookup, lookup-insert,
}
use seaturtle.Blocker.{Rule, DomainStylesheets, Blocker}
use seaturtle.Blocker.Stylesheets.Join.{join_comma, comma_tail}
use seaturtle.Blocker.Stylesheets.{
  RenderState, add_domain_selector, add_global_selector, render_rule, render_rules, no_sheets,
  finish_render, render_state, max_selectors_per_stylesheet, update_rules_for_render_process,
}

-- The selectors of the rules that name this domain.
abbrev pub domain_selectors : Bytes → List Rule → List Bytes
domain_selectors domain [] = []
domain_selectors domain (rule ∷ rl) =
    let rest = domain_selectors domain rl in
    if not (is_empty rule.selector) && not (is_empty rule.domain) && bytes_eq rule.domain domain
    then rule.selector ∷ rest
    else rest

abbrev put : Option Bytes → Bytes → Bytes
put none s = s
put (some sheet) s = (sheet ++ lit ",") ++ s

-- The slot of one domain, followed through its selectors.
extend : Option Bytes → List Bytes → Option Bytes
extend o [] = o
extend o (s ∷ ss) = extend (some (put o s)) ss

extend-some :
    (sheet : Bytes) (ss : List Bytes) → extend (some sheet) ss ≡ some (sheet ++ comma_tail ss)
unfolding extend
extend-some sheet [] = ap some (sym (append-nil sheet))
extend-some sheet (s ∷ ss) =
    extend-some ((sheet ++ lit ",") ++ s) ss
    ∙ ap some (
        append_assoc (sheet ++ lit ",") s (comma_tail ss)
        ∙ append_assoc sheet (lit ",") (s ++ comma_tail ss))

lookup-add_domain_selector :
    (domain d s : Bytes) (m : DomainStylesheets)
    → lookup domain (add_domain_selector d s m)
      ≡ (if bytes_eq d domain then some (put (lookup domain m) s) else lookup domain m)
unfolding add_domain_selector
lookup-add_domain_selector domain d s m = elim (Option-cases (lookup d m)) [
  | inl e ↦ ground (arith, e, bytes_eq_iff d domain, lookup-insert d domain s m)
  | inr (sheet, e) ↦
      ground (arith, e, bytes_eq_iff d domain, lookup-insert d domain ((sheet ++ lit ",") ++ s) m)
]

put_round :
    (domain : Bytes) (rule : Rule) (m : DomainStylesheets) (ss : List Bytes)
    → extend (lookup domain (add_domain_selector rule.domain rule.selector m)) ss
      ≡ extend (lookup domain m) (if bytes_eq rule.domain domain then rule.selector ∷ ss else ss)
unfolding extend
put_round domain rule m ss = elim (Bool-cases (bytes_eq rule.domain domain)) [
  | inl same ↦ rw (lookup-add_domain_selector domain rule.domain rule.selector m, same)
  | inr other ↦ rw (lookup-add_domain_selector domain rule.domain rule.selector m, other)
]

module _ {W : Type 0} (from_utf8 : Bytes → W) (limit : ℕ) where
  domain_stylesheets-add_global :
      (s : Bytes) (st : RenderState W)
      → (add_global_selector from_utf8 limit s st).domain_stylesheets ≡ st.domain_stylesheets
  unfolding add_global_selector
  domain_stylesheets-add_global s st =
      elim (Bool-cases ((st.num_global_selectors + 1) % limit == 0)) [ inl e ↦ rw e | inr e ↦ rw e ]

  render_round :
      (domain : Bytes) (rule : Rule) (st : RenderState W) (ss : List Bytes)
      → extend (lookup domain (render_rule from_utf8 limit rule st).domain_stylesheets) ss
        ≡ extend (lookup domain st.domain_stylesheets) (
            if not (is_empty rule.selector)
              && not (is_empty rule.domain)
              && bytes_eq rule.domain domain
            then rule.selector ∷ ss
            else ss)
  unfolding render_rule
  render_round domain rule st ss = elim (Bool-cases (is_empty rule.selector)) [
    | inl bare ↦ rw bare
    | inr selector ↦ elim (Bool-cases (is_empty rule.domain)) [
      | inl global ↦ rw (selector, global, domain_stylesheets-add_global rule.selector st)
      | inr named ↦ rw (selector, named) (put_round domain rule st.domain_stylesheets ss)
    ]
  ]

  lookup-render_rules :
      (domain : Bytes) (rl : List Rule) (st : RenderState W)
      → lookup domain (render_rules from_utf8 limit rl st).domain_stylesheets
        ≡ extend (lookup domain st.domain_stylesheets) (domain_selectors domain rl)
  unfolding render_rules extend
  lookup-render_rules domain [] st = refl
  lookup-render_rules domain (rule ∷ rl) st =
      lookup-render_rules domain rl (render_rule from_utf8 limit rule st)
      ∙ render_round domain rule st (domain_selectors domain rl)

  domain_stylesheets-finish :
      (st : RenderState W) → (finish_render from_utf8 st).domain_stylesheets ≡ st.domain_stylesheets
  unfolding finish_render
  domain_stylesheets-finish st = elim (Bool-cases (is_empty st.stylesheet)) [
    | inl e ↦ rw e
    | inr e ↦ rw e
  ]

  lookup-render_state :
      (domain : Bytes) (rl : List Rule)
      → lookup domain (render_state from_utf8 limit rl).domain_stylesheets
        ≡ extend none (domain_selectors domain rl)
  unfolding render_state lookup
  lookup-render_state domain rl =
      rw (domain_stylesheets-finish (render_rules from_utf8 limit rl (no_sheets from_utf8)))
        (lookup-render_rules domain rl (no_sheets from_utf8))

extend-none :
    (ss : List Bytes) → extend none ss ≡ (if is_empty ss then none else some (join_comma ss))
unfolding extend
extend-none [] = refl
extend-none (s ∷ ss) = extend-some s ss

-- The sheet that a domain has after an update is the selectors of the rules that name it, in order,
-- with commas between them; it has none exactly when there are no such selectors.
pub lookup-domain_stylesheets :
    {W : Type 0} (from_utf8 : Bytes → W) (b : Blocker W) (rl : List Rule) (domain : Bytes)
    → lookup domain (update_rules_for_render_process from_utf8 b rl).domain_stylesheets ≡ (
        if is_empty (domain_selectors domain rl)
        then none
        else some (join_comma (domain_selectors domain rl)))
unfolding update_rules_for_render_process
lookup-domain_stylesheets from_utf8 b rl domain =
    lookup-render_state from_utf8 max_selectors_per_stylesheet domain rl
    ∙ extend-none (domain_selectors domain rl)

-- ===== src/Blocker/Stylesheets/Chunks.antt =====
-- What the render process's update makes of the rules that name no domain: global sheets of a
-- limited number of selectors each.
use mathlib.Core.List.{map-append}
use native.Mathlib.Decide.{dec_lt}
use native.Mathlib.Nat.{mod-eq_of_lt, mul-add-mod_self_left, mod_self}
use seaturtle.Common.{
  ℕ, ◌+◌, ◌*◌, ◌%◌, ◌<◌, ◌≡◌, refl, sym, ap, ◌∙◌, true, false, ◌&&◌, not, List, [], ◌∷◌, ◌++◌, map,
  append-nil, append_assoc, arith, ◌==◌, if◌then◌else◌, Bool-cases, length, length-append, Bytes,
  is_empty, ◌⊎◌, inl, inr,
}
use seaturtle.Blocker.{Rule}
use seaturtle.Blocker.Stylesheets.Join.{
  join_comma, NoneEmpty, append_selector-join, NoneEmpty-concat, is_empty-join, concat, concat-snoc,
  IsFilled, IsFull, IsFull-snoc, IsFilled-snoc, IsFilled-of_IsFull, length-pos_of_join,
}
use seaturtle.Blocker.Stylesheets.{
  RenderState, display_none, add_global_selector, render_rule, render_rules, no_sheets,
  finish_render, render_state,
}

-- The selectors of the rules that name no domain.
abbrev pub global_selectors : List Rule → List Bytes
global_selectors [] = []
global_selectors (rule ∷ rl) =
    let rest = global_selectors rl in
    if not (is_empty rule.selector) && is_empty rule.domain then rule.selector ∷ rest else rest

module _ {W : Type 0} (from_utf8 : Bytes → W) where
  -- The sheet made of some selectors.
  abbrev pub sheet_of : List Bytes → W
  sheet_of ss = from_utf8 (join_comma ss ++ display_none)

  -- What the cut promises once the update is over.
  abbrev pub Sheets : ℕ → List Bytes → List W → Type 0
  Sheets limit selectors sheets =
      (parts : List (List Bytes)) × (concat parts ≡ selectors)
      × IsFilled limit parts
      × (sheets ≡ map sheet_of parts)

-- The test of the count against the limit is the test whether the open sheet has room.
round_test :
    (n k q r : ℕ)
    → n ≡ k * q + r
    → r < k
    → ((((n + 1) % k == 0) ≡ true) × (r + 1 ≡ k)) ⊎ ((((n + 1) % k == 0) ≡ false) × (r + 1 < k))
round_test n k q r e h = elim (dec_lt (r + 1) k) [
  | yes room ↦
      let m : (n + 1) % k ≡ r + 1 =
        ap (λ x. x % k) (omega (arith, e))
        ∙ mul-add-mod_self_left k q (r + 1)
        ∙ mod-eq_of_lt room in
      inr (ground (arith, m), room)
  | no full ↦
      let last : r + 1 ≡ k = omega arith in
      let m : (n + 1) % k ≡ 0 =
        ap (λ x. x % k) (omega (arith, e)) ∙ mul-add-mod_self_left k q k ∙ mod_self k in
      inl (ground (arith, m), last)
]

module _ {W : Type 0} (from_utf8 : Bytes → W) (limit : ℕ) (pos : 0 < limit) where
  -- The loop's invariant: `seen` are the global selectors met so far, in full sheets and an open one.
  record Cut (seen : List Bytes) (st : RenderState W) : Type 0 where
    full : List (List Bytes)
    open_sheet : List Bytes
    all_seen : concat full ++ open_sheet ≡ seen
    are_full : IsFull limit full
    is_open : length open_sheet < limit
    none_empty : NoneEmpty open_sheet
    sheets : st.global_stylesheets ≡ map (sheet_of from_utf8) full
    current : st.stylesheet ≡ join_comma open_sheet
    number : st.num_global_selectors ≡ limit * length full + length open_sheet

  Cut-nil : Cut [] (no_sheets from_utf8)
  Cut-nil = record {
    full = [];
    open_sheet = [];
    all_seen = refl;
    are_full = tt;
    is_open = pos;
    none_empty = tt;
    sheets = refl;
    current = refl;
    number = omega arith;
  }

  Cut-add_global :
      (seen : List Bytes) (st : RenderState W) (s : Bytes)
      → is_empty s ≡ false
      → Cut seen st
      → Cut (seen ++ s ∷ []) (add_global_selector from_utf8 limit s st)
  unfolding add_global_selector
  Cut-add_global seen st s e c =
      let grown = length-append open_sheet (s ∷ []) in
      elim (round_test st.num_global_selectors limit (length full) (length open_sheet) number
        is_open) [
          | inl (test, last) ↦ rw test (record {
            full = full ++ (open_sheet ++ s ∷ []) ∷ [];
            open_sheet = [];
            all_seen = simp (append-nil, concat-snoc, ← append_assoc, all_seen);
            are_full = IsFull-snoc limit full _ are_full (omega (arith, grown));
            is_open = pos;
            none_empty = tt;
            sheets =
                rw (sheets, current, append_selector-join open_sheet s none_empty)
                  (sym (map-append (sheet_of from_utf8) full _));
            current = refl;
            number =
                omega
                  (arith, ap (λ n. limit * n) (length-append full ((open_sheet ++ s ∷ []) ∷ [])));
          })
          | inr (test, room) ↦ rw test (record {
            full = full;
            open_sheet = open_sheet ++ s ∷ [];
            all_seen =
                sym (append_assoc (concat full) open_sheet (s ∷ []))
                ∙ ap (λ x. x ++ s ∷ []) all_seen;
            are_full = are_full;
            is_open = omega (arith, grown);
            none_empty = NoneEmpty-concat open_sheet s none_empty e;
            sheets = sheets;
            current = rw current (append_selector-join open_sheet s none_empty);
            number = omega (arith, grown);
          })
        ]
    where
      open c use {
        full, open_sheet, all_seen, are_full, is_open, none_empty, sheets, current, number,
      }

  -- A rule without a selector or with a domain leaves the global sheets alone.
  Cut-same :
      (seen : List Bytes) (st st' : RenderState W)
      → st'.global_stylesheets ≡ st.global_stylesheets
      → st'.stylesheet ≡ st.stylesheet
      → st'.num_global_selectors ≡ st.num_global_selectors
      → Cut seen st
      → Cut seen st'
  Cut-same seen st st' g s n c = record {
    full = c.full;
    open_sheet = c.open_sheet;
    all_seen = c.all_seen;
    are_full = c.are_full;
    is_open = c.is_open;
    none_empty = c.none_empty;
    sheets = g ∙ c.sheets;
    current = s ∙ c.current;
    number = n ∙ c.number;
  }

  Cut-render_rules :
      (rl : List Rule) (seen : List Bytes) (st : RenderState W)
      → Cut seen st
      → Cut (seen ++ global_selectors rl) (render_rules from_utf8 limit rl st)
  unfolding render_rules render_rule
  Cut-render_rules [] seen st c = rw (append-nil seen) c
  Cut-render_rules (rule ∷ rl) seen st c = elim (Bool-cases (is_empty rule.selector)) [
    | inl bare ↦ rw bare (Cut-render_rules rl seen st c)
    | inr selector ↦ elim (Bool-cases (is_empty rule.domain)) [
      | inl global ↦
          rw (selector, global, ← append_assoc seen (rule.selector ∷ []) (global_selectors rl))
            (Cut-render_rules rl (seen ++ rule.selector ∷ []) _
              (Cut-add_global seen st rule.selector selector c))
      | inr domain ↦
          rw (selector, domain) (Cut-render_rules rl seen _ (Cut-same seen st _ refl refl refl c))
    ]
  ]

  finish-Sheets :
      (seen : List Bytes) (st : RenderState W)
      → Cut seen st
      → Sheets from_utf8 limit seen (finish_render from_utf8 st).global_stylesheets
  unfolding finish_render
  finish-Sheets seen st c = elim (Bool-cases (is_empty st.stylesheet)) [
    | inl done ↦
        let none_open = is_empty-join c.open_sheet c.none_empty (rw c.current at done) in
        rw done (
          c.full,
          sym (append-nil (concat c.full))
              ∙ ap (λ x. concat c.full ++ x) (sym none_open)
              ∙ c.all_seen,
          IsFilled-of_IsFull limit c.full pos c.are_full,
          c.sheets,
        )
    | inr more ↦ rw more (
      c.full ++ c.open_sheet ∷ [],
      concat-snoc c.full c.open_sheet ∙ c.all_seen,
      IsFilled-snoc limit c.full c.open_sheet c.are_full
          (length-pos_of_join c.open_sheet (rw c.current at more)) (omega (arith, c.is_open)),
      rw (c.sheets, c.current) (sym (map-append (sheet_of from_utf8) c.full _)),
    )
  ]

-- The global style sheets after an update are made of the selectors of the rules that name no
-- domain, in order, cut into sheets that all have `limit` selectors but the last, which has one at
-- least and `limit` at most; a sheet is its selectors with commas between them and the text that
-- hides what they select.
pub render_state-Sheets :
    {W : Type 0} (from_utf8 : Bytes → W) (limit : ℕ) (rl : List Rule)
    → 0 < limit
    → Sheets from_utf8 limit
        (global_selectors rl)
        (render_state from_utf8 limit rl).global_stylesheets
unfolding render_state
render_state-Sheets from_utf8 limit rl pos =
    finish-Sheets from_utf8 limit pos (global_selectors rl) _
      (Cut-render_rules from_utf8 limit pos rl [] _ (Cut-nil from_utf8 limit pos))

-- ===== src/Blocker/Stylesheets.antt =====
-- block/blocker.cc: UpdateRulesForRenderProcess and InjectStyleSheets.
pub mod Join
pub mod Chunks
pub mod DomainSheets
pub mod Inject
use seaturtle.Common.{
  ℕ, zero, suc, ◌+◌, ◌%◌, ◌^◌, Bool, true, false, Option, none, some, List, [], ◌∷◌, ◌++◌, leb,
  ◌==◌, if◌then◌else◌, length, drop, Bytes, lit, is_empty, to_lower_ascii, find_byte, lookup,
  insert,
}
use seaturtle.Url.{UrlApi}
use seaturtle.Blocker.{Rule, DomainStylesheets, Blocker}

abbrev pub display_none : Bytes
display_none = lit " {display:none !important;}"

abbrev pub max_selectors_per_stylesheet : ℕ
max_selectors_per_stylesheet = 4096

-- The fields that the update fills and its local variables. The byte count is a uint32.
pub record RenderState (W : Type 0) : Type 0 where
  pub global_stylesheets : List W
  pub domain_stylesheets : DomainStylesheets
  pub num_global_selectors : ℕ
  pub stylesheet_bytes : ℕ
  pub stylesheet : Bytes

-- `if (!sheet.empty()) sheet.append(","); sheet.append(selector)`
abbrev pub append_selector : Bytes → Bytes → Bytes
append_selector sheet selector = (if is_empty sheet then sheet else sheet ++ lit ",") ++ selector

abbrev pub append_found : Bytes → Option Bytes → Bytes
append_found stylesheet none = stylesheet
append_found stylesheet (some sheet) = append_selector stylesheet sheet

-- The domain's branch: `find`, then a new slot or `append(",")` and `append(selector)`.
unfoldable pub add_domain_selector : Bytes → Bytes → DomainStylesheets → DomainStylesheets
add_domain_selector domain selector m = elim (lookup domain m) [
  | none ↦ insert domain selector m
  | some sheet ↦ insert domain ((sheet ++ lit ",") ++ selector) m
]

-- The `while (true)` loop of InjectStyleSheets, on fuel.
unfoldable pub inject_loop : ℕ → DomainStylesheets → Bytes → Bytes → Bytes
inject_loop zero sheets host stylesheet = stylesheet
inject_loop (suc fuel) sheets host stylesheet = elim (find_byte b'.' host) [
  | none ↦ stylesheet
  | some pos ↦
      let joined = append_found stylesheet (lookup host sheets) in
      let rest = inject_loop fuel sheets (drop (suc pos) host) joined in
      if leb (length host) (suc pos) then joined else rest
]

module _ {W : Type 0} (from_utf8 : Bytes → W) where
  -- Close the current global sheet.
  abbrev pub flush : RenderState W → RenderState W
  flush st =
      let sheet = st.stylesheet ++ display_none in
      record st {
        global_stylesheets = st.global_stylesheets ++ from_utf8 sheet ∷ [];
        stylesheet_bytes = (st.stylesheet_bytes + length sheet) % 2 ^ 32;
        stylesheet = [];
      }

  unfoldable pub add_global_selector : ℕ → Bytes → RenderState W → RenderState W
  add_global_selector limit selector st =
      let added = record st {
        stylesheet = append_selector st.stylesheet selector;
        num_global_selectors = st.num_global_selectors + 1;
      } in
      if added.num_global_selectors % limit == 0 then flush added else added

  -- One round of the loop.
  unfoldable pub render_rule : ℕ → Rule → RenderState W → RenderState W
  unfolding add_global_selector
  render_rule limit rule st =
      if is_empty rule.selector
      then st
      else if is_empty rule.domain
      then add_global_selector limit rule.selector st
      else record st {
        domain_stylesheets = add_domain_selector rule.domain rule.selector st.domain_stylesheets;
      }

  unfoldable pub render_rules : ℕ → List Rule → RenderState W → RenderState W
  render_rules limit [] st = st
  render_rules limit (rule ∷ rl) st = render_rules limit rl (render_rule limit rule st)

  abbrev pub no_sheets : RenderState W
  no_sheets = record {
    global_stylesheets = [];
    domain_stylesheets = [];
    num_global_selectors = 0;
    stylesheet_bytes = 0;
    stylesheet = [];
  }

  -- The end of the update: a last sheet for what is left over.
  unfoldable pub finish_render : RenderState W → RenderState W
  finish_render st = if is_empty st.stylesheet then st else flush st

  -- The whole update, for a limit on the selectors of a sheet; the code's limit is 4096.
  unfoldable pub render_state : ℕ → List Rule → RenderState W
  unfolding render_rules render_rule finish_render
  render_state limit rl = finish_render (render_rules limit rl no_sheets)

  unfoldable pub update_rules_for_render_process : Blocker W → List Rule → Blocker W
  unfolding render_state
  update_rules_for_render_process b rl =
      let st = render_state max_selectors_per_stylesheet rl in
      record b {
        global_stylesheets = st.global_stylesheets;
        domain_stylesheets = st.domain_stylesheets;
      }

  -- The sheets that are inserted into the document of the frame, in order.
  unfoldable pub inject_style_sheets : {Gurl : Type 0} → UrlApi Gurl → Blocker W → Gurl → List W
  unfolding inject_loop
  inject_style_sheets api b document_url =
      let host = to_lower_ascii (api.host document_url) in
      let stylesheet = inject_loop (suc (length host)) b.domain_stylesheets host [] in
      b.global_stylesheets
      ++ (if is_empty stylesheet then [] else from_utf8 (stylesheet ++ display_none) ∷ [])

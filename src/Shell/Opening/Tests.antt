-- ===== src/Shell/Opening/Tests.antt =====
-- A page that opens another in its tab.
use seaturtle.Common.{◌≡◌, refl, true, false, none, [], Bytes, lit, crash}
use seaturtle.Shell.Opening.{OpenUrlParams, current_tab, other_disposition, open_url_from_tab}

abbrev a_link : OpenUrlParams Bytes
a_link = record {
  url = lit "http://a.com/";
  referrer = lit "http://b.com/";
  frame_tree_node_id = 1;
  disposition = current_tab;
  transition = 0;
  is_renderer_initiated = true;
  should_replace_current_entry = false;
  extra_headers = [];
  transferred_global_request_id = none;
}

in_new_tab : open_url_from_tab (record a_link { disposition = other_disposition }) ≡ crash
unfolding open_url_from_tab
in_new_tab = refl

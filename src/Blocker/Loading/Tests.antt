-- ===== src/Blocker/Loading/Tests.antt =====
-- A rule file that the browser process loads, one that is missing, and a descriptor asked for too early.
use seaturtle.Common.{
  ◌≡◌, refl, true, Option, none, some, List, [], ◌∷◌, Bytes, lit, ok, crash, bytes_eq, lookup,
  insert,
}
use seaturtle.Files.{OpenFile, got}
use seaturtle.Blocker.{Blocker, Rule}
use seaturtle.Blocker.Blacklist.{update_rules_for_browser_process}
use seaturtle.Blocker.Stylesheets.{update_rules_for_render_process}
use seaturtle.Blocker.Loading.{update_rules_with_path, get_blocking_data_fd}

abbrev unloaded : Blocker Bytes
unloaded = record {
  file_path = [];
  domain_blacklist = [];
  global_stylesheets = [];
  domain_stylesheets = [];
  whitelist = [];
}

-- Every line of a rule file of the tests blocks the domain "ads.com".
abbrev parse_lines : Bytes → Option (List Rule)
parse_lines raw =
    some (record { domain = lit "ads.com"; selector = lit ".ad"; block_third_party = true } ∷ [])

abbrev rule_file : OpenFile
rule_file = got (lit "rules") ∷ []

abbrev on_disk : Bytes → Option OpenFile
on_disk path = some rule_file

abbrev loaded : Blocker Bytes
loaded = record unloaded {
  file_path = lit "/rules";
  domain_blacklist = (lit "ads.com", record { key_in = 0; held = 0 }) ∷ [];
}

is_loaded : update_rules_with_path parse_lines (λ x. x) on_disk (lit "/rules") unloaded ≡ ok loaded
unfolding update_rules_with_path update_rules_for_browser_process update_rules_for_render_process
    lookup insert bytes_eq
is_loaded = refl

not_there : update_rules_with_path parse_lines (λ x. x) (λ p. none) (lit "/rules") unloaded ≡ crash
unfolding update_rules_with_path
not_there = refl

before_any_path : get_blocking_data_fd on_disk unloaded ≡ crash
unfolding get_blocking_data_fd
before_any_path = refl

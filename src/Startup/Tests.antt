-- ===== src/Startup/Tests.antt =====
-- A child process that is launched after the rules were loaded, and the theorem on it.
use seaturtle.Common.{
  ◌≡◌, refl, true, Option, none, some, List, [], ◌∷◌, ◌++◌, Bytes, lit, ok, crash, bytes_eq, lookup,
  insert,
}
use seaturtle.Files.{OpenFile, got}
use seaturtle.Blocker.{Blocker, Rule}
use seaturtle.Blocker.Blacklist.{update_rules_for_browser_process}
use seaturtle.Blocker.Stylesheets.{update_rules_for_render_process}
use seaturtle.Blocker.Loading.{update_rules_with_path, get_blocking_data_fd}
use seaturtle.Startup.{
  Mappings, Starting, with_pak_file_region, with_pak_path, pak_file_in, get_additional_mapped_files,
  initialize_resource_bundle,
}
use seaturtle.Startup.Children.{children-have_rules}

abbrev fresh_blocker : Blocker Bytes
fresh_blocker = record {
  file_path = [];
  domain_blacklist = [];
  global_stylesheets = [];
  domain_stylesheets = [];
  whitelist = [];
}

-- Every rule file of the tests blocks the domain "ads.com".
abbrev parse_one : Bytes → Option (List Rule)
parse_one raw =
    some (record { domain = lit "ads.com"; selector = lit ".ad"; block_third_party = true } ∷ [])

abbrev text_of_path : Bytes → Option OpenFile
text_of_path path = some (got path ∷ [])

abbrev with_slash : Bytes → Bytes → Bytes
with_slash dir name = dir ++ lit "/" ++ name

abbrev browser_blocker : Blocker Bytes
browser_blocker = record fresh_blocker {
  file_path = lit "/rules";
  domain_blacklist = (lit "ads.com", record { key_in = 0; held = 0 }) ∷ [];
}

abbrev for_child : Mappings
for_child = (11, got (lit "/app/paks/seaturtle.pak") ∷ []) ∷ (12, got (lit "/rules") ∷ []) ∷ []

abbrev starting : Starting Bytes
starting = record { blocker = fresh_blocker; bundle = none }

is_loaded :
    update_rules_with_path parse_one (λ x. x) text_of_path (lit "/rules") fresh_blocker
    ≡ ok browser_blocker
unfolding update_rules_with_path update_rules_for_browser_process update_rules_for_render_process
    lookup insert bytes_eq
is_loaded = refl

is_mapped :
    get_additional_mapped_files with_slash (some (lit "/app")) 10 text_of_path browser_blocker
    ≡ ok for_child
unfolding get_additional_mapped_files get_blocking_data_fd
is_mapped = refl

-- The browser process itself starts without descriptors.
browser_starts :
    initialize_resource_bundle with_slash (some (lit "/app")) 10 parse_one (λ x. x) [] starting
    ≡ ok (record starting { bundle = some (with_pak_path (lit "/app/paks/seaturtle.pak")) })
unfolding initialize_resource_bundle
browser_starts = refl

no_directory : initialize_resource_bundle with_slash none 10 parse_one (λ x. x) [] starting ≡ crash
unfolding initialize_resource_bundle
no_directory = refl

children-have_rules_example :
    (rl : List Rule) × (dir : Bytes) × (pak : OpenFile) × (browser_blocker
      ≡ update_rules_for_browser_process (record fresh_blocker { file_path = lit "/rules" }) rl)
    × (some (lit "/app") ≡ some dir)
    × (text_of_path (pak_file_in with_slash dir) ≡ some pak)
    × (initialize_resource_bundle with_slash none 10 parse_one (λ x. x) for_child starting
        ≡ ok (record {
          blocker = update_rules_for_render_process (λ x. x) fresh_blocker rl;
          bundle = some (with_pak_file_region pak);
        }))
children-have_rules_example =
    children-have_rules with_slash 10 parse_one (λ x. x) (some (lit "/app")) none text_of_path
      (lit "/rules") fresh_blocker starting refl is_loaded is_mapped

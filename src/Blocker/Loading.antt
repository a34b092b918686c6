-- ===== src/Blocker/Loading.antt =====
-- block/blocker.cc: the rule file. The browser process reads it by its path and hands an open
-- descriptor of it to each renderer process, which reads it by that descriptor. The file system and
-- the parser of the protocol buffer are parameters.
pub mod Handover
mod Tests
use seaturtle.Common.{
  Bool, Option, none, some, List, [], true, false, if◌then◌else◌, is_empty, not, Bytes, Abort, ok,
  crash, ◌>>=◌, ◌>>◌, check,
}
use seaturtle.Files.{OpenFile, read_file_to_string}
use seaturtle.Blocker.{Blocker, Rule}
use seaturtle.Blocker.Blacklist.{update_rules_for_browser_process}
use seaturtle.Blocker.Stylesheets.{update_rules_for_render_process}

-- `CHECK(file.IsValid())`
abbrev pub valid_file : Option OpenFile → Abort OpenFile
valid_file none = crash
valid_file (some file) = ok file

-- `CHECK(rl.ParseFromString(raw_rules))`
abbrev pub checked_rules : Option (List Rule) → Abort (List Rule)
checked_rules none = crash
checked_rules (some rules) = ok rules

-- `parse` is RuleList::ParseFromString.
module _ (parse : Bytes → Option (List Rule)) where
  abbrev pub rules_of : Bytes → Abort (List Rule)
  rules_of raw_rules = if is_empty raw_rules then ok [] else checked_rules (parse raw_rules)

  -- The first half of Blocker::UpdateRules.
  unfoldable pub read_rules : OpenFile → Abort (List Rule)
  unfolding read_file_to_string
  read_rules f = read_file_to_string f [] >>= λ read. check read.0 >> rules_of read.1

  module _ {W : Type 0} (from_utf8 : Bytes → W) where
    abbrev pub apply_rules : Bool → Blocker W → List Rule → Blocker W
    apply_rules is_browser_process b rl =
        if is_browser_process
        then update_rules_for_browser_process b rl
        else update_rules_for_render_process from_utf8 b rl

    -- Blocker::UpdateRules
    unfoldable pub update_rules : OpenFile → Bool → Blocker W → Abort (Blocker W)
    unfolding read_rules
    update_rules f is_browser_process b =
        read_rules f >>= λ rl. ok (apply_rules is_browser_process b rl)

    -- Blocker::UpdateRulesWithPath; `open_file` is base::File::Initialize for reading.
    unfoldable pub update_rules_with_path :
        (Bytes → Option OpenFile) → Bytes → Blocker W → Abort (Blocker W)
    unfolding update_rules
    update_rules_with_path open_file path b = valid_file (open_file path) >>= λ file.
        update_rules file true (record b { file_path = path })

    -- Blocker::UpdateRulesWithFd
    unfoldable pub update_rules_with_fd : Option OpenFile → Blocker W → Abort (Blocker W)
    unfolding update_rules
    update_rules_with_fd fd b = valid_file fd >>= λ file. update_rules file false b

-- Blocker::GetBlockingDataFd
unfoldable pub get_blocking_data_fd :
    {W : Type 0} → (Bytes → Option OpenFile) → Blocker W → Abort OpenFile
get_blocking_data_fd open_file b =
    check (not (is_empty b.file_path)) >> valid_file (open_file b.file_path)

-- ===== src/Rewriter/Loading.antt =====
-- extra/https_rewriter.cc: UpdateRulesWithPath, which reads the rule file. The file system and the
-- parser of the protocol buffer are parameters.
use seaturtle.Common.{
  Option, none, some, List, [], if◌then◌else◌, is_empty, Bytes, Abort, ok, crash, ◌>>=◌, ◌>>◌,
  check,
}
use seaturtle.Files.{OpenFile, read_file_to_string}
use seaturtle.Rewriter.{Re2Api, RuleSet, HttpsRewriter, update_rules}

-- `CHECK(f.IsValid())`
abbrev pub checked_file : Option OpenFile → Abort OpenFile
checked_file none = crash
checked_file (some file) = ok file

-- `CHECK(rl.ParseFromString(raw))`
abbrev pub checked_sets : Option (List RuleSet) → Abort (List RuleSet)
checked_sets none = crash
checked_sets (some rl) = ok rl

module _ {Re : Type 0} (re2 : Re2Api Re) (open_file : Bytes → Option OpenFile)
    (parse : Bytes → Option (List RuleSet)) where
  abbrev pub sets_of : Bytes → Abort (List RuleSet)
  sets_of raw = if is_empty raw then ok [] else checked_sets (parse raw)

  -- HttpsRewriter::UpdateRulesWithPath
  unfoldable pub update_rules_with_path : Bytes → Abort (HttpsRewriter Re)
  unfolding read_file_to_string
  update_rules_with_path path = checked_file (open_file path) >>= λ f.
      read_file_to_string f [] >>= λ read. check read.0 >> (sets_of read.1 >>= update_rules re2)

-- ===== src/Blocker/Loading/Handover.antt =====
-- The rules that the browser process loads are those that its renderer processes load.
use seaturtle.Common.{
  ◌≡◌, refl, ap, true, false, Option, none, some, List, is_empty, Bytes, Abort, ok, crash, ◌>>=◌,
}
use seaturtle.Files.{OpenFile}
use seaturtle.Blocker.{Blocker, Rule}
use seaturtle.Blocker.Blacklist.{update_rules_for_browser_process}
use seaturtle.Blocker.Stylesheets.{update_rules_for_render_process}
use seaturtle.Blocker.Loading.{
  valid_file, read_rules, update_rules, update_rules_with_path, update_rules_with_fd,
  get_blocking_data_fd, apply_rules,
}

module _ (open_file : Bytes → Option OpenFile) (parse : Bytes → Option (List Rule)) {W : Type 0}
    (from_utf8 : Bytes → W) where
  abbrev Handed : Bytes → Blocker W → Blocker W → Blocker W → Type 0
  Handed path b c b' =
      (file : OpenFile) × (rl : List Rule) × (open_file path ≡ some file)
      × (b' ≡ update_rules_for_browser_process (record b { file_path = path }) rl)
      × (get_blocking_data_fd open_file b' ≡ ok file)
      × (update_rules_with_fd parse from_utf8 (some file) c
          ≡ ok (update_rules_for_render_process from_utf8 c rl))

  reopened :
      (path : Bytes) (b : Blocker W) {b' : Blocker W} (file : OpenFile) (rl : List Rule)
      → is_empty path ≡ false
      → open_file path ≡ some file
      → b' ≡ update_rules_for_browser_process (record b { file_path = path }) rl
      → get_blocking_data_fd open_file b' ≡ ok file
  unfolding get_blocking_data_fd update_rules_for_browser_process
  reopened path b file rl e opened same = rw (ap (λ x. x.file_path) same, e, opened) refl

  Handed-rules :
      (path : Bytes) (b c : Blocker W) {b' : Blocker W} (file : OpenFile) (run : Abort (List Rule))
      → is_empty path ≡ false
      → open_file path ≡ some file
      → read_rules parse file ≡ run
      → (run >>= λ rl. ok (apply_rules parse from_utf8 true (record b { file_path = path }) rl))
        ≡ ok b'
      → Handed path b c b'
  unfolding update_rules_with_fd
  Handed-rules path b c file crash e opened reads h = cc
  Handed-rules path b c {b' = b'} file (ok rl) e opened reads h =
      let same : b' ≡ update_rules_for_browser_process (record b { file_path = path }) rl = cc in
      (file, rl, opened, same, reopened path b file rl e opened same, rw reads refl)

  Handed-file :
      (path : Bytes) (b c : Blocker W) {b' : Blocker W} (found : Option OpenFile)
      → is_empty path ≡ false
      → open_file path ≡ found
      → (valid_file found >>= λ file.
          update_rules parse from_utf8 file true (record b { file_path = path }))
        ≡ ok b'
      → Handed path b c b'
  unfolding update_rules
  Handed-file path b c none e opened h = cc
  Handed-file path b c (some file) e opened h =
      Handed-rules path b c file (read_rules parse file) e opened refl h

  -- If the browser process loads the rules by a path that is not empty, then its blacklist is that
  -- of some rules; the descriptor that it then opens is that of the same path; and a renderer that
  -- is given it, as long as the file reads as before, ends up with the style sheets of the very
  -- same rules. Neither process changes anything else but the path that the browser process keeps.
  pub update_rules-handed_over :
      (path : Bytes) (b c : Blocker W) {b' : Blocker W}
      → is_empty path ≡ false
      → update_rules_with_path parse from_utf8 open_file path b ≡ ok b'
      → (file : OpenFile) × (rl : List Rule) × (open_file path ≡ some file)
        × (b' ≡ update_rules_for_browser_process (record b { file_path = path }) rl)
        × (get_blocking_data_fd open_file b' ≡ ok file)
        × (update_rules_with_fd parse from_utf8 (some file) c
            ≡ ok (update_rules_for_render_process from_utf8 c rl))
  unfolding update_rules_with_path
  update_rules-handed_over path b c e h = Handed-file path b c (open_file path) e refl h

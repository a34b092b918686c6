-- ===== src/Startup.antt =====
-- shell/app/shell_main_delegate.cc and shell/browser/shell_content_browser_client.cc: the files that a
-- child process is given when it is launched, and what it makes of them when it starts.
pub mod Children
mod Tests
use seaturtle.Common.{
  ℕ, suc, Bool, true, false, Option, none, some, List, [], ◌∷◌, ◌==◌, if◌then◌else◌, lit, Bytes,
  Abort, ok, crash, ◌>>=◌, is_some,
}
use seaturtle.Files.{OpenFile}
use seaturtle.Blocker.{Blocker, Rule}
use seaturtle.Blocker.Loading.{valid_file, get_blocking_data_fd, update_rules_with_fd}

-- extra/shell_descriptors.h; the parameter is kContentIPCDescriptorMax.
abbrev pub pak_descriptor : ℕ → ℕ
pak_descriptor content_ipc_descriptor_max = suc content_ipc_descriptor_max

abbrev pub blocking_data_descriptor : ℕ → ℕ
blocking_data_descriptor content_ipc_descriptor_max =
    suc (pak_descriptor content_ipc_descriptor_max)

-- content::FileDescriptorInfo: the key and the file.
abbrev pub Mappings : Type 0
Mappings = List (ℕ × OpenFile)

-- base::GlobalDescriptors::MaybeGet of a process that was launched with the files.
abbrev pub maybe_get : ℕ → Mappings → Option OpenFile
maybe_get key [] = none
maybe_get key (m ∷ mappings) = if m.0 == key then some m.1 else maybe_get key mappings

-- What ui::ResourceBundle is initialised with: an open pak file, which is also added as a data pack, or
-- the path of one.
pub data Bundle : Type 0 where
  with_pak_file_region : OpenFile → Bundle
  with_pak_path : Bytes → Bundle

-- The state of a starting process: its blocker, and its resources, if there are any yet.
pub record Starting (W : Type 0) : Type 0 where
  pub blocker : Blocker W
  pub bundle : Option Bundle

-- `CHECK(PathService::Get(base::DIR_ANDROID_APP_DATA, &dir))`
abbrev pub got_path : Option Bytes → Abort Bytes
got_path none = crash
got_path (some dir) = ok dir

-- The pak file in the app's directory; the parameter is FilePath::Append.
abbrev pub pak_file_in : (Bytes → Bytes → Bytes) → Bytes → Bytes
pak_file_in append_path dir = append_path (append_path dir (lit "paks")) (lit "seaturtle.pak")

-- FilePath::Append, DIR_ANDROID_APP_DATA and the largest descriptor of content.
module _ (append_path : Bytes → Bytes → Bytes) (app_data : Option Bytes)
    (content_ipc_descriptor_max : ℕ) where
  -- ShellContentBrowserClient::GetAdditionalMappedFilesForChildProcess, which is given no mappings yet
  unfoldable pub get_additional_mapped_files :
      {W : Type 0} → (Bytes → Option OpenFile) → Blocker W → Abort Mappings
  get_additional_mapped_files open_file b = do
    dir ← got_path app_data
    pak ← valid_file (open_file (pak_file_in append_path dir))
    blocking_data ← get_blocking_data_fd open_file b
    let files =
        (pak_descriptor content_ipc_descriptor_max, pak)
        ∷ (blocking_data_descriptor content_ipc_descriptor_max, blocking_data)
        ∷ []
    ok files

  module _ {W : Type 0} (parse : Bytes → Option (List Rule)) (from_utf8 : Bytes → W) where
    abbrev pub take_blocking_data : Option OpenFile → Starting W → Abort (Starting W)
    take_blocking_data none st = ok st
    take_blocking_data (some fd) st =
        update_rules_with_fd parse from_utf8 (some fd) st.blocker >>= λ b.
        ok (record st { blocker = b })

    abbrev pub take_pak : Option OpenFile → Bool → Starting W → Abort (Starting W)
    take_pak (some fd) had_blocking_data st =
        ok (record st { bundle = some (with_pak_file_region fd) })
    take_pak none true st = ok st
    take_pak none false st = got_path app_data >>= λ dir.
        ok (record st { bundle = some (with_pak_path (pak_file_in append_path dir)) })

    -- ShellMainDelegate::InitializeResourceBundle, of PreSandboxStartup
    unfoldable pub initialize_resource_bundle : Mappings → Starting W → Abort (Starting W)
    initialize_resource_bundle mappings st =
        let blocking_data =
          maybe_get (blocking_data_descriptor content_ipc_descriptor_max) mappings in
        take_blocking_data blocking_data st
        >>= take_pak (maybe_get (pak_descriptor content_ipc_descriptor_max) mappings)
            (is_some blocking_data)

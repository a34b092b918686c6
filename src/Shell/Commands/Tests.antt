-- ===== src/Shell/Commands/Tests.antt =====
-- Commands to a shell on small inputs, and the theorems on them at concrete arguments.
use seaturtle.Common.{
  ℕ, ◌≡◌, refl, inr, true, false, none, some, [], ◌∷◌, arith, Bytes, lit, bytes_eq, ok,
}
use seaturtle.Fixtures.{plain_api, one_tab}
use seaturtle.Shell.Commands.{
  Page, load_url, CipherNames, ssl_status, loads, get_ssl_status_of, dispatch_shell_command,
}
use seaturtle.Shell.Commands.Security.{get_ssl_status-IsTrusted_iff}

abbrev empty_page : Page Bytes
empty_page = record { last_committed = none; visible = none; active = none }

abbrev bad_url : Bytes → Bytes
bad_url text = lit "krypton://bad-url"

abbrev no_names : ℕ → ℕ → CipherNames
no_names version suite = record {
  version_name = none;
  key_exchange = none;
  cipher = none;
  mac = none;
  is_aead = false;
}

abbrev tls_page : Page Bytes
tls_page = record empty_page {
  last_committed = some (record {
    entry_ptr = 7;
    entry_url = lit "https://a.com";
    ssl = record {
      is_authenticated = true;
      security_bits = some 128;
      cipher_suite = 49199;
      ssl_version = 5;
    };
  });
}

get_ssl_status-IsTrusted_example : get_ssl_status_of plain_api 3 tls_page ≡ ssl_status false
unfolding bytes_eq
get_ssl_status-IsTrusted_example =
    (get_ssl_status-IsTrusted_iff plain_api 3 tls_page).1
      (inr (refl, (128, refl, omega arith), (λ e. omega (arith, e)), omega arith))

abbrev typed_text : Bytes
typed_text = lit "no url"

load_run :
    dispatch_shell_command plain_api bad_url no_names 3 100
      (load_url typed_text false)
      (λ wc. empty_page)
      one_tab
    ≡ ok (none, loads (bad_url typed_text) false ∷ [], one_tab)
unfolding dispatch_shell_command bytes_eq
load_run = refl

bad_url-valid : (text : Bytes) → plain_api.is_valid (bad_url text) ≡ true
unfolding bytes_eq
bad_url-valid text = refl

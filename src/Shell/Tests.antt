-- ===== src/Shell/Tests.antt =====
-- Runs of the shells on small inputs, and their theorems at concrete arguments.
use seaturtle.Common.{
  ℕ, ◌≡◌, refl, ◌⊎◌, true, false, none, some, [], ◌∷◌, ◌++◌, arith, Bytes, lit, Any,
}
use seaturtle.Shell.{Shell, Browser, LogEntry, request, cookie, popup}
use seaturtle.Shell.Registry.{for_ptr, add_new_contents, close_shell}
use seaturtle.Shell.Registry.Runs.{Reach, here, next, opens, closes, for_ptr-Reach}
use seaturtle.Shell.Log.{get_log}
use seaturtle.Shell.Log.Events.{logs, navigates, loads}
use seaturtle.Shell.Log.Since.{run_events, get_log-since}
use seaturtle.Shell.Favicon.{FaviconUrl, favicon, touch_icon, best_favicon}
use seaturtle.Shell.Favicon.Sizes.{sized, Nearest, best_favicon-Nearest}

abbrev first_shell : Shell Bytes
first_shell = record {
  self = 100;
  wc = 1;
  sbc = some 7;
  parent_shell = 0;
  is_fullscreen = false;
  favicon_candidate = none;
  log = [];
}

abbrev one_shell : Browser Bytes
one_shell = record { all_shells = first_shell ∷ []; sent = [] }

abbrev popup_open : Browser Bytes
popup_open = add_new_contents false first_shell 101 2 one_shell

abbrev popup_left : Reach one_shell (close_shell 100 popup_open)
popup_left =
    next
      (next here (opens false first_shell 101 2 (λ e. omega (arith, e), λ e. omega (arith, e), tt)))
      (closes 100)

for_ptr-Reach_example : for_ptr 100 (close_shell 100 popup_open).all_shells ≡ none
for_ptr-Reach_example = for_ptr-Reach 100 (tt, tt) popup_left

abbrev opened_popup : LogEntry
opened_popup = record { type = popup; is_blocked = true; description = lit "p" }

get_log-since_example :
    get_log 100 (
      run_events
        ((logs 100 request false (lit "old") ∷ [])
          ++ navigates 100 true (lit "http://a/")
            ∷ logs 100 popup true (lit "p")
            ∷ logs 101 cookie false (lit "c")
            ∷ navigates 100 false (lit "http://a/#b")
            ∷ loads 100 false
            ∷ [])
        one_shell)
    ≡ some (opened_popup ∷ [])
unfolding get_log
get_log-since_example =
    get_log-since 100 (logs 100 request false (lit "old") ∷ [])
      (logs 100 popup true (lit "p")
        ∷ logs 101 cookie false (lit "c")
        ∷ navigates 100 false (lit "http://a/#b")
        ∷ loads 100 false
        ∷ [])
      (lit "http://a/") one_shell {l = []} refl (refl, tt)

abbrev icon_of_size : Bytes → ℕ → FaviconUrl Bytes
icon_of_size url n = record { icon_url = url; icon_type = favicon; icon_sizes = (n, n) ∷ [] }

abbrev touch_candidate : FaviconUrl Bytes
touch_candidate = record { icon_url = lit "t"; icon_type = touch_icon; icon_sizes = [] }

-- An icon of 16 pixels takes the place of one of 48 pixels that comes first.
ideal_first :
    (best_favicon (icon_of_size (lit "a") 48 ∷ icon_of_size (lit "b") 16 ∷ [])).candidate
    ≡ some (lit "b")
unfolding best_favicon
ideal_first = refl

best_favicon-Nearest_example :
    let later = icon_of_size (lit "b") 16 ∷ [] in
    (url : Bytes) × ((best_favicon (icon_of_size (lit "a") 48 ∷ later)).candidate ≡ some url)
    × (((url ≡ lit "a") × (sized later ≡ [])) ⊎ Any (Nearest url (sized later)) (sized later))
best_favicon-Nearest_example =
    best_favicon-Nearest false (icon_of_size (lit "a") 48) (icon_of_size (lit "b") 16 ∷ [])
      (refl, refl) ((refl, refl), tt) ((omega arith, tt), tt)

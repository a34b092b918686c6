-- ===== src/Client/Permissions/Tests.antt =====
-- A few questions of the page of one tab, and the theorem on them.
use seaturtle.Common.{◌≡◌, refl, true, false, some, List, [], ◌∷◌, ◌++◌, All, lit, length}
use seaturtle.Fixtures.{one_tab}
use seaturtle.Shell.{location}
use seaturtle.Shell.Registry.{for_web_contents}
use seaturtle.Shell.Log.{get_log}
use seaturtle.Client.Permissions.{Permission, geolocation, save_local_state, camera_access, ask_all}
use seaturtle.Client.Permissions.Refusals.{tab_of, locations, ask_all-refused}

abbrev questions : List Permission
questions =
    geolocation 1 (lit "http://a.com/")
    ∷ save_local_state
    ∷ geolocation 2 (lit "http://b.com/")
    ∷ camera_access (lit "http://a.com/")
    ∷ []

has_log : get_log 100 one_tab ≡ some []
unfolding get_log
has_log = refl

-- The WebContents 2 is in no tab.
one_entry :
    locations 100 (tab_of one_tab) questions
    ≡ record { type = location; is_blocked = true; description = lit "http://a.com/" } ∷ []
unfolding get_log for_web_contents
one_entry = refl

ask_all-refused_example :
    let (answers, b) = ask_all questions one_tab in
    (length answers ≡ 4)
    × All (λ a. a ≡ false) answers
    × (get_log 100 b ≡ some ([] ++ locations 100 (tab_of one_tab) questions))
ask_all-refused_example = ask_all-refused questions 100 one_tab has_log

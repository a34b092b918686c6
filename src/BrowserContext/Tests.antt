-- ===== src/BrowserContext/Tests.antt =====
-- The browser context on its thread and on another.
use seaturtle.Common.{◌≡◌, refl, false, none, some, [], ◌∷◌, ◌++◌, Bytes, lit, ok, crash, ui, io}
use seaturtle.BrowserContext.{
  BrowserContext, new_browser_context, get_path, get_download_manager_delegate,
}

abbrev with_slash : Bytes → Bytes → Bytes
with_slash dir name = dir ++ lit "/" ++ name

abbrev made : BrowserContext
made = record { path = lit "/app/seaturtle"; download_manager_delegate = none }

is_made :
    new_browser_context ui with_slash (some (lit "/app")) (λ path. false)
    ≡ ok (made, lit "/app/seaturtle" ∷ [])
unfolding new_browser_context
is_made = refl

not_on_io : get_path io made ≡ crash
unfolding get_path
not_on_io = refl

-- The second call gets the delegate of the first.
one_delegate :
    get_download_manager_delegate ui 5 made
    ≡ ok (5, record made { download_manager_delegate = some 5 })
unfolding get_download_manager_delegate
one_delegate = refl

same_delegate :
    get_download_manager_delegate ui 6 (record made { download_manager_delegate = some 5 })
    ≡ ok (5, record made { download_manager_delegate = some 5 })
unfolding get_download_manager_delegate
same_delegate = refl

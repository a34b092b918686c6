-- ===== src/Blocker/Whitelist.antt =====
-- block/blocker.cc: UpdateWhitelist and IsWhitelisted.
pub mod Laws
use seaturtle.Common.{
  Bool, true, false, Option, none, some, List, [], ◌∷◌, ◌++◌, map, if◌then◌else◌, Bytes,
  to_lower_ascii, lookup, insert, contains,
}
use seaturtle.Url.{UrlApi, krypton_scheme}
use seaturtle.Blocker.{WhitelistedHost, WhitelistMap, Blocker}

-- One round of the loop: a host that is there already gets the new paths behind its old ones.
unfoldable pub add_host : WhitelistedHost → WhitelistMap → WhitelistMap
add_host wh m =
    let paths = map to_lower_ascii wh.paths in
    let host = to_lower_ascii wh.host in
    elim (lookup host m) [
      | none ↦ insert host paths m
      | some current_paths ↦ insert host (current_paths ++ paths) m
    ]

unfoldable pub add_hosts : List WhitelistedHost → WhitelistMap → WhitelistMap
add_hosts [] m = m
add_hosts (wh ∷ ubw) m = add_hosts ubw (add_host wh m)

unfoldable pub update_whitelist : {W : Type 0} → Blocker W → List WhitelistedHost → Blocker W
unfolding add_hosts add_host
update_whitelist b ubw = record b { whitelist = add_hosts ubw [] }

-- The tests on the paths that the map gives for the host.
abbrev pub allows_path : Option (List Bytes) → Bytes → Bool
allows_path none path = false
allows_path (some []) path = true
allows_path (some (p ∷ paths)) path = contains path (p ∷ paths)

unfoldable pub is_whitelisted : {Gurl W : Type 0} → UrlApi Gurl → Blocker W → Gurl → Bool
is_whitelisted api b url =
    if api.scheme_is url krypton_scheme
    then true
    else allows_path (lookup (to_lower_ascii (api.host url)) b.whitelist)
        (to_lower_ascii (api.path url))

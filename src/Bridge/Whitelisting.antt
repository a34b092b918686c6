-- ===== src/Bridge/Whitelisting.antt =====
-- What Java whitelists stays whitelisted, for the requests of the network stack, until Java says
-- otherwise.
use seaturtle.Common.{
  ◌≡◌, refl, sym, ◌∙◌, ap, subst, ◌↔◌, ◌⊎◌, inl, inr, true, false, Option, none, some, List, [],
  ◌∷◌, Bytes, to_lower_ascii, Any, All, Abort, ok, crash, ◌>>=◌, Runs, done, then_runs,
}
use seaturtle.Url.{UrlApi, krypton_scheme}
use seaturtle.Files.{OpenFile}
use seaturtle.Blocker.{Blocker, Rule, WhitelistedHost, WhitelistMap}
use seaturtle.Blocker.Whitelist.{update_whitelist, is_whitelisted}
use seaturtle.Blocker.Whitelist.Laws.{IsFor, Lists, is_whitelisted-update_iff}
use seaturtle.Blocker.Blacklist.{update_rules_for_browser_process}
use seaturtle.Blocker.Loading.{
  update_rules_with_path, valid_file, update_rules, read_rules, apply_rules,
}
use seaturtle.Bridge.{
  Params, update_blocking_whitelist, update_blocking_rules, Reply, App, Outside, java_to_native,
}
use seaturtle.Bridge.Parts.{blocking, touches}
use seaturtle.Bridge.Frame.{java_to_native-frame, through}

-- The message is not about the whitelist.
abbrev pub IsOther : Params → Type 0
IsOther (update_blocking_whitelist hosts) = ⊥
IsOther _ = Unit

module _ {Gurl W Re Store R : Type 0} (o : Outside Gurl W Re) where
  abbrev pub state_of : Abort (App Gurl W Re Store R × Option Reply) → Abort (App Gurl W Re Store R)
  state_of crash = crash
  state_of (ok (app, r)) = ok app

  -- One message of Java, whose answer goes back.
  abbrev pub receive : Params → App Gurl W Re Store R → Abort (App Gurl W Re Store R)
  receive m app = state_of (java_to_native o m app)

-- The addresses that the entries are about.
abbrev pub IsListed : {Gurl : Type 0} → UrlApi Gurl → List WhitelistedHost → Gurl → Type 0
IsListed api hosts url =
    (api.scheme_is url krypton_scheme ≡ true)
    ⊎ (Any (IsFor (to_lower_ascii (api.host url))) hosts
        × (All (λ wh. IsFor (to_lower_ascii (api.host url)) wh → wh.paths ≡ []) hosts
            ⊎ Any (Lists (to_lower_ascii (api.host url)) (to_lower_ascii (api.path url))) hosts))

ok-injective : {V : Type 0} {a b : V} → Abort.ok a ≡ ok b → a ≡ b
ok-injective e = cc

abbrev whitelist_of : {W : Type 0} → Blocker W → WhitelistMap
whitelist_of b = b.whitelist

is_whitelisted-same :
    {Gurl W : Type 0} (api : UrlApi Gurl) (url : Gurl) (b b' : Blocker W)
    → b'.whitelist ≡ b.whitelist
    → is_whitelisted api b' url ≡ is_whitelisted api b url
unfolding is_whitelisted
is_whitelisted-same api url b b' e = rw e refl

-- A new rule file leaves the whitelist.
loaded-whitelist :
    {W : Type 0} (parse : Bytes → Option (List Rule)) (from_utf8 : Bytes → W)
    (found : Option OpenFile) (path : Bytes) (b : Blocker W) {b' : Blocker W}
    → (valid_file found >>= λ file.
        update_rules parse from_utf8 file true (record b { file_path = path }))
      ≡ ok b'
    → b'.whitelist ≡ b.whitelist
unfolding update_rules update_rules_for_browser_process
loaded-whitelist parse from_utf8 none path b h = cc
loaded-whitelist parse from_utf8 (some file) path b {b' = b'} h = run (read_rules parse file) h
  where
    run :
        (rules : Abort (List Rule))
        → (rules >>= λ rl. ok (apply_rules parse from_utf8 true (record b { file_path = path }) rl))
          ≡ ok b'
        → b'.whitelist ≡ b.whitelist
    run crash e = cc
    run (ok rl) e = sym (ap whitelist_of (ok-injective e))

-- Another message either leaves the blocker or gives it a rule file.
is_apart :
    (m : Params)
    → IsOther m
    → (touches m blocking ≡ false) ⊎ ((path : Bytes) × (m ≡ update_blocking_rules path))
is_apart m =
    elim m
      as (λ m.
        IsOther m
        → (touches m blocking ≡ false) ⊎ ((path : Bytes) × (m ≡ update_blocking_rules path))) [
          | update_blocking_rules path ↦ λ _. inr (path, refl)
          | update_blocking_whitelist hosts ↦ λ i. elim i [ ]
          | _ ↦ λ _. inl refl
        ]

module _ {Gurl W Re Store R : Type 0} (o : Outside Gurl W Re) where
  abbrev KeepsList : App Gurl W Re Store R → App Gurl W Re Store R → Type 0
  KeepsList app app' = app'.blocker.whitelist ≡ app.blocker.whitelist

  rules-keeps :
      (path : Bytes) (app : App Gurl W Re Store R) {app' : App Gurl W Re Store R} {r : Option Reply}
      → java_to_native o (update_blocking_rules path) app ≡ ok (app', r)
      → KeepsList app app'
  unfolding java_to_native update_rules_with_path
  rules-keeps path app h =
      through (KeepsList app)
        (update_rules_with_path o.parse_rules o.from_utf8 o.open_file path app.blocker) _ h
        (λ b e. loaded-whitelist o.parse_rules o.from_utf8 (o.open_file path) path app.blocker e)

  java_to_native-keeps :
      (m : Params) (app : App Gurl W Re Store R) {app' : App Gurl W Re Store R} {r : Option Reply}
      → IsOther m
      → java_to_native o m app ≡ ok (app', r)
      → KeepsList app app'
  java_to_native-keeps m app {app' = app'} {r = r} i h = elim (is_apart m i) [
    | inl spared ↦ ap whitelist_of (java_to_native-frame o m app h blocking spared)
    | inr (path, e) ↦ rules-keeps path app (subst (λ m. java_to_native o m app ≡ ok (app', r)) e h)
  ]

  receive-keeps :
      (m : Params) (app : App Gurl W Re Store R) {app' : App Gurl W Re Store R}
      → IsOther m
      → receive o m app ≡ ok app'
      → KeepsList app app'
  receive-keeps m app {app' = app'} i h = ran (java_to_native o m app) refl h
    where
      ran :
          (out : Abort (App Gurl W Re Store R × Option Reply))
          → java_to_native o m app ≡ out
          → state_of o out ≡ ok app'
          → KeepsList app app'
      ran crash e h = cc
      ran (ok (a, r)) e h = subst (KeepsList app) (ok-injective h) (java_to_native-keeps m app i e)

  Runs-keeps :
      {es : List Params} {app app' : App Gurl W Re Store R}
      → All IsOther es
      → Runs (receive o) es app app'
      → KeepsList app app'
  Runs-keeps others done = refl
  Runs-keeps others (then_runs {e = m} {st = app} e h) =
      Runs-keeps others.1 h ∙ receive-keeps m app others.0 e

  listed-by :
      (hosts : List WhitelistedHost) (app : App Gurl W Re Store R) {st : App Gurl W Re Store R}
      → receive o (update_blocking_whitelist hosts) app ≡ ok st
      → (update_whitelist app.blocker hosts).whitelist ≡ st.blocker.whitelist
  unfolding java_to_native
  listed-by hosts app e = ap (λ (a : App Gurl W Re Store R). a.blocker.whitelist) (ok-injective e)

  -- Once Java has sent the entries `hosts` of the whitelist, and as long as the process then runs on
  -- messages of all other kinds, rule files among them, the URLs that the network stack finds
  -- whitelisted are exactly those of the krypton scheme and those that the entries are about: some
  -- entry is for the host, and either no entry for the host lists a path or one of them lists the path.
  pub is_whitelisted-after_iff :
      (hosts : List WhitelistedHost) (es : List Params) (app app' : App Gurl W Re Store R)
      → All IsOther es
      → Runs (receive o) (update_blocking_whitelist hosts ∷ es) app app'
      → (url : Gurl) → (is_whitelisted o.api app'.blocker url ≡ true) ↔ IsListed o.api hosts url
  is_whitelisted-after_iff hosts es app app' others (then_runs e h) url =
      subst (λ listed. (listed ≡ true) ↔ IsListed o.api hosts url)
        (sym (
          is_whitelisted-same o.api url (update_whitelist app.blocker hosts) app'.blocker
            (Runs-keeps others h ∙ sym (listed-by hosts app e))))
        (is_whitelisted-update_iff o.api app.blocker hosts url)

-- ===== src/Client/Permissions/Refusals.antt =====
-- No permission is ever given, and which questions a tab's log shows.
use seaturtle.Common.{
  ℕ, suc, ◌≡◌, refl, sym, ap, ◌∙◌, true, false, Bool-cases, inl, inr, Option, none, some, List, [],
  ◌∷◌, ◌++◌, ◌==◌, All, append-nil, append_assoc, if◌then◌else◌, Bytes, length,
}
use mathlib.Core.Path.{fun_ext}
use seaturtle.Shell.{Browser, LogEntry, Shell, location}
use seaturtle.Shell.Registry.{for_web_contents}
use seaturtle.Shell.Log.{get_log, log_event, update_shell}
use seaturtle.Shell.Log.Since.{get_log-logs}
use seaturtle.Client.{request_geolocation_permission, log_location}
use seaturtle.Client.Permissions.{
  Permission, geolocation, ask, ask_all, request_midi_sys_ex_permission,
  request_protected_media_identifier_permission, allow_app_cache, allow_save_local_state,
  allow_worker_database, allow_worker_file_system, allow_worker_indexed_db,
  request_quota_permission, allow_mic_access, allow_camera_access,
}

module _ {Gurl : Type 0} where
  -- The address of the tab that shows a WebContents.
  abbrev pub self_of : Option (Shell Gurl) → Option ℕ
  self_of none = none
  self_of (some s) = some s.self

  abbrev pub tab_of : Browser Gurl → ℕ → Option ℕ
  tab_of b wc = self_of (for_web_contents wc b.all_shells)

-- The entry for a frame that asked for the location, in the log of one tab.
abbrev pub entry_in : ℕ → Option ℕ → Bytes → List LogEntry
entry_in p none url = []
entry_in p (some q) url =
    if q == p then record { type = location; is_blocked = true; description = url } ∷ [] else []

abbrev pub locations : ℕ → (ℕ → Option ℕ) → List Permission → List LogEntry
locations p tab [] = []
locations p tab (geolocation wc url ∷ ps) = entry_in p (tab wc) url ++ locations p tab ps
locations p tab (_ ∷ ps) = locations p tab ps

locations-cons :
    (p : ℕ) (tab : ℕ → Option ℕ) (q : Permission) (qs : List Permission)
    → locations p tab (q ∷ []) ++ locations p tab qs ≡ locations p tab (q ∷ qs)
locations-cons p tab q qs =
    elim q as (λ q. locations p tab (q ∷ []) ++ locations p tab qs ≡ locations p tab (q ∷ qs)) [
      | geolocation wc url ↦
          ap (λ x. x ++ locations p tab qs) (append-nil (entry_in p (tab wc) url))
      | _ ↦ refl
    ]

module _ {Gurl : Type 0} where
  self_of-update :
      (wc q : ℕ) (f : Shell Gurl → Shell Gurl) (shells : List (Shell Gurl))
      → ((s : Shell Gurl) → ((f s).self ≡ s.self) × ((f s).wc ≡ s.wc))
      → self_of (for_web_contents wc (update_shell q f shells))
        ≡ self_of (for_web_contents wc shells)
  unfolding for_web_contents update_shell
  self_of-update wc q f [] keeps = refl
  self_of-update wc q f (s ∷ shells) keeps =
      let ih = self_of-update wc q f shells keeps in
      let kept = keeps s in
      elim (Bool-cases (s.self == q)) [
        | inl here ↦ elim (Bool-cases (s.wc == wc)) [
          | inl same ↦ rw (here, kept.1, same) (ap some kept.0)
          | inr other ↦ rw (here, kept.1, other) refl
        ]
        | inr there ↦ elim (Bool-cases (s.wc == wc)) [
          | inl same ↦ rw (there, same) refl
          | inr other ↦ rw (there, other) ih
        ]
      ]

  log_location-tab :
      (found : Option (Shell Gurl)) (url : Bytes) (b : Browser Gurl) (wc : ℕ)
      → tab_of (log_location found url b) wc ≡ tab_of b wc
  unfolding log_event
  log_location-tab none url b wc = refl
  log_location-tab (some s) url b wc = self_of-update wc s.self _ b.all_shells (λ t. (refl, refl))

  get_log-log_location :
      (p : ℕ) (found : Option (Shell Gurl)) (url : Bytes) (b : Browser Gurl) {l : List LogEntry}
      → get_log p b ≡ some l
      → get_log p (log_location found url b) ≡ some (l ++ entry_in p (self_of found) url)
  get_log-log_location p none url b {l = l} e = e ∙ ap some (sym (append-nil l))
  get_log-log_location p (some s) url b e = get_log-logs p s.self location true url b e

  -- What one question does.
  record Asked (p : ℕ) (b : Browser Gurl) (l : List LogEntry) (q : Permission) : Type 0 where
    refused : (ask q b).0 ≡ false
    tabs : tab_of (ask q b).1 ≡ tab_of b
    logged : get_log p (ask q b).1 ≡ some (l ++ locations p (tab_of b) (q ∷ []))

  nothing_logged :
      (p : ℕ) (b : Browser Gurl) {l : List LogEntry}
      → get_log p b ≡ some l
      → get_log p b ≡ some (l ++ [])
  nothing_logged p b {l = l} e = e ∙ ap some (sym (append-nil l))

  ask-Asked :
      (q : Permission) (p : ℕ) (b : Browser Gurl) {l : List LogEntry}
      → get_log p b ≡ some l
      → Asked p b l q
  unfolding request_geolocation_permission request_midi_sys_ex_permission
      request_protected_media_identifier_permission allow_app_cache allow_save_local_state
      allow_worker_database allow_worker_file_system allow_worker_indexed_db
      request_quota_permission allow_mic_access allow_camera_access
  ask-Asked q p b {l = l} e = elim q as (λ q. Asked p b l q) [
    | geolocation wc url ↦ record {
      refused = refl;
      tabs = fun_ext (log_location-tab (for_web_contents wc b.all_shells) url b);
      logged =
          get_log-log_location p (for_web_contents wc b.all_shells) url b e
          ∙ ap (λ x. some (l ++ x)) (sym (append-nil _));
    }
    | _ ↦ record { refused = refl; tabs = refl; logged = nothing_logged p b e }
  ]

  -- Whatever is asked, and in whatever order, no permission is given; and the log of a tab grows by
  -- one entry for each time that a frame of its WebContents asked for the location, in this order, and
  -- by nothing else.
  pub ask_all-refused :
      (qs : List Permission) (p : ℕ) (b : Browser Gurl) {l : List LogEntry}
      → get_log p b ≡ some l
      → let (answers, b') = ask_all qs b in
        (length answers ≡ length qs)
        × All (λ a. a ≡ false) answers
        × (get_log p b' ≡ some (l ++ locations p (tab_of b) qs))
  ask_all-refused [] p b {l = l} e = (refl, tt, nothing_logged p b e)
  ask_all-refused (q ∷ qs) p b {l = l} e =
      let one = ask-Asked q p b e in
      let (len, refused, logged) = ask_all-refused qs p (ask q b).1 one.logged in
      (
        ap suc len,
        (one.refused, refused),
        logged
            ∙ rw one.tabs (
                ap some (
                  append_assoc l (locations p (tab_of b) (q ∷ [])) (locations p (tab_of b) qs)
                  ∙ ap (λ x. l ++ x) (locations-cons p (tab_of b) q qs))),
      )

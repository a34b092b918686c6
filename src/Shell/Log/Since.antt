-- ===== src/Shell/Log/Since.antt =====
-- The log of a shell is what was logged for it since its last navigation to a different page.
use seaturtle.Common.{
  ℕ, ◌≡◌, refl, sym, ap, ◌∙◌, Bool, true, false, Option, none, some, List, [], ◌∷◌, ◌++◌, arith,
  ◌==◌, if◌then◌else◌, Bytes, append-nil, append_assoc,
}
use seaturtle.Shell.{Shell, Browser, LogType, LogEntry}
use seaturtle.Shell.Registry.{for_ptr}
use seaturtle.Shell.Log.{
  update_shell, clear_log, log_event, log_of, get_log, did_navigate_main_frame,
  loading_state_changed, did_finish_load_in, toggle_fullscreen_mode,
}
use seaturtle.Shell.Log.Events.{
  Event, logs, navigates, loads, finishes, goes_fullscreen, entries_of, Stays, Stays-head,
  entries_of-cons,
}

module _ {Gurl : Type 0} where
  abbrev pub run_event : Event → Browser Gurl → Browser Gurl
  run_event (logs p t is_blocked desc) b = log_event p t is_blocked desc b
  run_event (navigates p d url) b = did_navigate_main_frame p d url b
  run_event (loads p l) b = loading_state_changed p l b
  run_event (finishes p m f u t) b = did_finish_load_in p m f u t b
  run_event (goes_fullscreen p e) b = toggle_fullscreen_mode p e b

  abbrev pub run_events : List Event → Browser Gurl → Browser Gurl
  run_events [] b = b
  run_events (e ∷ es) b = run_events es (run_event e b)

  for_ptr-update :
      (p q : ℕ) (f : Shell Gurl → Shell Gurl) (shells : List (Shell Gurl)) {s : Shell Gurl}
      → ((t : Shell Gurl) → (f t).self ≡ t.self)
      → for_ptr p shells ≡ some s
      → for_ptr p (update_shell q f shells) ≡ some (if q == p then f s else s)
  unfolding for_ptr update_shell
  for_ptr-update p q f [] keeps e = cc
  for_ptr-update p q f (t ∷ shells) {s = s} keeps e =
      let rest : for_ptr p shells ≡ some s
          → for_ptr p (update_shell q f shells) ≡ some (if q == p then f s else s) =
        for_ptr-update p q f shells {s = s} keeps in
      let kept : (f t).self ≡ t.self = keeps t in grind arith

  log_of-some :
      (o : Option (Shell Gurl)) {l : List LogEntry}
      → log_of o ≡ some l
      → (s : Shell Gurl) × (o ≡ some s) × (s.log ≡ l)
  log_of-some none e = cc
  log_of-some (some s) e = (s, refl, cc)

  get_log-eq :
      (p : ℕ) (b : Browser Gurl) {s : Shell Gurl}
      → for_ptr p b.all_shells ≡ some s
      → get_log p b ≡ some s.log
  unfolding get_log
  get_log-eq p b e = ap log_of e

  -- A change of one shell, and what the log of `p` is afterwards.
  get_log-update :
      (p q : ℕ) (f : Shell Gurl → Shell Gurl) (b b' : Browser Gurl) {l : List LogEntry}
      → ((t : Shell Gurl) → (f t).self ≡ t.self)
      → b'.all_shells ≡ update_shell q f b.all_shells
      → get_log p b ≡ some l
      → ((s : Shell Gurl) × (s.log ≡ l) × (get_log p b' ≡ some (if q == p then f s else s).log))
  unfolding get_log
  get_log-update p q f b b' keeps e found =
      let (s, here, log) = log_of-some (for_ptr p b.all_shells) found in
      (s, log, get_log-eq p b' (ap (for_ptr p) e ∙ for_ptr-update p q f b.all_shells keeps here))

  get_log-same :
      (p : ℕ) (b b' : Browser Gurl) → b'.all_shells ≡ b.all_shells → get_log p b' ≡ get_log p b
  unfolding get_log
  get_log-same p b b' e = ap (λ shells. log_of (for_ptr p shells)) e

  pub get_log-logs :
      (p q : ℕ) (t : LogType) (is_blocked : Bool) (desc : Bytes) (b : Browser Gurl)
      {l : List LogEntry}
      → get_log p b ≡ some l
      → get_log p (log_event q t is_blocked desc b)
        ≡ some (l ++ entries_of p (logs q t is_blocked desc ∷ []))
  unfolding log_event
  get_log-logs p q t is_blocked desc b {l = l} found =
      let le : LogEntry = record { type = t; is_blocked = is_blocked; description = desc } in
      let b' : Browser Gurl = log_event q t is_blocked desc b in
      let (s, log, e) =
        get_log-update p q (λ s. record s { log = s.log ++ le ∷ [] }) b b' (λ t. refl) refl found in
      e ∙ ground (arith, log, append-nil l)

  -- The callbacks that leave all logs alone.
  get_log-other :
      (p q : ℕ) (f : Shell Gurl → Shell Gurl) (b b' : Browser Gurl) {l : List LogEntry}
      → ((t : Shell Gurl) → (f t).self ≡ t.self)
      → ((t : Shell Gurl) → (f t).log ≡ t.log)
      → b'.all_shells ≡ update_shell q f b.all_shells
      → get_log p b ≡ some l
      → get_log p b' ≡ some l
  get_log-other p q f b b' {l = l} keeps quiet e found =
      let (s, log, eq) = get_log-update p q f b b' keeps e found in
      let silent : (f s).log ≡ s.log = quiet s in eq ∙ ground (arith, log, silent)

  get_log-navigates :
      (p q : ℕ) (d : Bool) (url : Bytes) (b : Browser Gurl) {l : List LogEntry}
      → get_log p b ≡ some l
      → get_log p (did_navigate_main_frame q d url b)
        ≡ some (if (if d then q == p else false) then [] else l)
  unfolding did_navigate_main_frame clear_log
  get_log-navigates p q true url b found =
      let b1 : Browser Gurl = record b {
        all_shells = update_shell q (clear_log true) b.all_shells;
      } in
      let (s, log, e) = get_log-update p q (clear_log true) b b1 (λ t. refl) refl found in
      get_log-other p q (λ s. record s { favicon_candidate = none }) b1
        (did_navigate_main_frame q true url b) (λ t. refl) (λ t. refl) refl
        (e ∙ ground (arith, log))
  get_log-navigates p q false url b found =
      let b1 : Browser Gurl = record b {
        all_shells = update_shell q (clear_log false) b.all_shells;
      } in
      get_log-other p q (λ s. record s { favicon_candidate = none }) b1
        (did_navigate_main_frame q false url b) (λ t. refl) (λ t. refl) refl
        (get_log-other p q (clear_log false) b b1 (λ t. refl) (λ t. refl) refl found)

  get_log-step :
      (p : ℕ) (e : Event) (b : Browser Gurl) {l : List LogEntry}
      → Stays p (e ∷ [])
      → get_log p b ≡ some l
      → get_log p (run_event e b) ≡ some (l ++ entries_of p (e ∷ []))
  unfolding loading_state_changed did_finish_load_in toggle_fullscreen_mode
  get_log-step p (logs q t is_blocked desc) b st found = get_log-logs p q t is_blocked desc b found
  get_log-step p (navigates q d url) b {l = l} st found =
      get_log-navigates p q d url b found ∙ ground (arith, st.0, append-nil l)
  get_log-step p (loads q loading) b {l = l} st found =
      get_log-same p b (run_event (loads q loading) b) refl ∙ found ∙ ap some (sym (append-nil l))
  get_log-step p (finishes q m f u t) b {l = l} st found =
      get_log-same p b (run_event (finishes q m f u t) b) (ground arith)
      ∙ found
      ∙ ap some (sym (append-nil l))
  get_log-step p (goes_fullscreen q enter) b {l = l} st found =
      get_log-other p q (λ s. record s { is_fullscreen = enter }) b
        (run_event (goes_fullscreen q enter) b) (λ t. refl) (λ t. refl) (ground arith) found
      ∙ ap some (sym (append-nil l))

  -- While a shell stays on its page, its log only grows, by what is logged for it.
  get_log-Stays :
      (p : ℕ) (es : List Event) (b : Browser Gurl) {l : List LogEntry}
      → Stays p es
      → get_log p b ≡ some l
      → get_log p (run_events es b) ≡ some (l ++ entries_of p es)
  get_log-Stays p [] b {l = l} st found = found ∙ ap some (sym (append-nil l))
  get_log-Stays p (e ∷ es) b {l = l} st found =
      let (first, rest) = Stays-head p e es st in
      get_log-Stays p es (run_event e b) rest (get_log-step p e b first found)
      ∙ ap some (append_assoc l _ _ ∙ ap (λ m. l ++ m) (entries_of-cons p e es))

  get_log-alive_step :
      (p : ℕ) (e : Event) (b : Browser Gurl) {l : List LogEntry}
      → get_log p b ≡ some l
      → (l' : List LogEntry) × (get_log p (run_event e b) ≡ some l')
  get_log-alive_step p (logs q t is_blocked desc) b found =
      (_, get_log-step p (logs q t is_blocked desc) b tt found)
  get_log-alive_step p (navigates q d url) b found = (_, get_log-navigates p q d url b found)
  get_log-alive_step p (loads q l) b found = (_, get_log-step p (loads q l) b tt found)
  get_log-alive_step p (finishes q m f u t) b found =
      (_, get_log-step p (finishes q m f u t) b tt found)
  get_log-alive_step p (goes_fullscreen q enter) b found =
      (_, get_log-step p (goes_fullscreen q enter) b tt found)

  run_events-append :
      (before after : List Event) (b : Browser Gurl)
      → run_events (before ++ after) b ≡ run_events after (run_events before b)
  run_events-append [] after b = refl
  run_events-append (e ∷ before) after b = run_events-append before after (run_event e b)

  get_log-alive :
      (p : ℕ) (es : List Event) (b : Browser Gurl) {l : List LogEntry}
      → get_log p b ≡ some l
      → (l' : List LogEntry) × (get_log p (run_events es b) ≡ some l')
  get_log-alive p [] b found = (_, found)
  get_log-alive p (e ∷ es) b found =
      get_log-alive p es (run_event e b) (get_log-alive_step p e b found).1

  -- The log that Java gets from a live shell holds, in order, exactly what was logged for that shell
  -- since it last went to a different page, with blocked and allowed events alike, whatever happened
  -- before, on other shells, and by navigations within the page.
  pub get_log-since :
      (p : ℕ) (before after : List Event) (url : Bytes) (b : Browser Gurl) {l : List LogEntry}
      → get_log p b ≡ some l
      → Stays p after
      → get_log p (run_events (before ++ navigates p true url ∷ after) b)
        ≡ some (entries_of p after)
  get_log-since p before after url b found st =
      let b' : Browser Gurl = run_events before b in
      ap (get_log p) (run_events-append before (navigates p true url ∷ after) b)
      ∙ get_log-Stays p after (did_navigate_main_frame p true url b') {l = []} st
          (get_log-navigates p p true url b' (get_log-alive p before b found).1 ∙ ground arith)

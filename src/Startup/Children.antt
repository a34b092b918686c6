-- ===== src/Startup/Children.antt =====
-- What a child process has after its start: the rules and the resources of the browser process.
use seaturtle.Common.{
  ℕ, suc, ◌==◌, ◌≡◌, refl, sym, ◌∙◌, subst, true, false, Option, none, some, List, [], ◌∷◌, arith,
  is_empty, Bytes, Abort, ok, crash, ◌>>=◌,
}
use seaturtle.Files.{OpenFile}
use seaturtle.Blocker.{Blocker, Rule}
use seaturtle.Blocker.Blacklist.{update_rules_for_browser_process}
use seaturtle.Blocker.Stylesheets.{update_rules_for_render_process}
use seaturtle.Blocker.Loading.{
  update_rules_with_path, update_rules_with_fd, get_blocking_data_fd, valid_file,
}
use seaturtle.Blocker.Loading.Handover.{update_rules-handed_over}
use seaturtle.Startup.{
  Mappings, Starting, with_pak_file_region, pak_file_in, get_additional_mapped_files,
  initialize_resource_bundle, maybe_get, pak_descriptor, blocking_data_descriptor,
}

ok-injective : {V : Type 0} {a b : V} → Abort.ok a ≡ ok b → a ≡ b
ok-injective e = cc

same_key : (n : ℕ) → (n == n) ≡ true
same_key n = ground arith

other_key : (n : ℕ) → (suc n == suc (suc n)) ≡ false
other_key n = ground arith

maybe_get-pak :
    (max : ℕ) (pak blocking_data : OpenFile)
    → maybe_get
        (pak_descriptor max)
        ((pak_descriptor max, pak) ∷ (blocking_data_descriptor max, blocking_data) ∷ [])
      ≡ some pak
maybe_get-pak max pak blocking_data = rw (same_key (suc max)) refl

maybe_get-blocking_data :
    (max : ℕ) (pak blocking_data : OpenFile)
    → maybe_get
        (blocking_data_descriptor max)
        ((pak_descriptor max, pak) ∷ (blocking_data_descriptor max, blocking_data) ∷ [])
      ≡ some blocking_data
maybe_get-blocking_data max pak blocking_data = rw (other_key max, same_key (suc (suc max))) refl

module _ (append_path : Bytes → Bytes → Bytes) (max : ℕ) (parse : Bytes → Option (List Rule))
    {W : Type 0} (from_utf8 : Bytes → W) where
  started_with :
      (app_data : Option Bytes) (pak blocking_data : OpenFile) (rl : List Rule) (st : Starting W)
      → update_rules_with_fd parse from_utf8 (some blocking_data) st.blocker
        ≡ ok (update_rules_for_render_process from_utf8 st.blocker rl)
      → initialize_resource_bundle append_path app_data max parse from_utf8
          ((pak_descriptor max, pak) ∷ (blocking_data_descriptor max, blocking_data) ∷ [])
          st
        ≡ ok (record {
          blocker = update_rules_for_render_process from_utf8 st.blocker rl;
          bundle = some (with_pak_file_region pak);
        })
  unfolding initialize_resource_bundle
  started_with app_data pak blocking_data rl st e =
      rw (maybe_get-pak max pak blocking_data, maybe_get-blocking_data max pak blocking_data, e)
        refl

  -- The files that a child is given are those that the two look-ups of the browser process find.
  Given : Option Bytes → (Bytes → Option OpenFile) → Mappings → Abort OpenFile → Type 0
  Given app_data open_file mappings blocking_data =
      (dir : Bytes) × (pak : OpenFile) × (rules : OpenFile) × (app_data ≡ some dir)
      × (open_file (pak_file_in append_path dir) ≡ some pak)
      × (blocking_data ≡ ok rules)
      × (mappings ≡ ((pak_descriptor max, pak) ∷ (blocking_data_descriptor max, rules) ∷ []))

  mapped-Given :
      (app_data : Option Bytes) (open_file : Bytes → Option OpenFile) (b : Blocker W)
      {mappings : Mappings}
      → get_additional_mapped_files append_path app_data max open_file b ≡ ok mappings
      → Given app_data open_file mappings (get_blocking_data_fd open_file b)
  unfolding get_additional_mapped_files Given
  mapped-Given none open_file b h = cc
  mapped-Given (some dir) open_file b {mappings = mappings} h =
      found (open_file (pak_file_in append_path dir)) refl (get_blocking_data_fd open_file b) refl h
    where
      found :
          (pak : Option OpenFile)
          → open_file (pak_file_in append_path dir) ≡ pak
          → (rules : Abort OpenFile) → get_blocking_data_fd open_file b ≡ rules
          → (valid_file pak >>= λ pak. rules >>= λ file.
              ok ((pak_descriptor max, pak) ∷ (blocking_data_descriptor max, file) ∷ []))
            ≡ ok mappings
          → Given (some dir) open_file mappings (get_blocking_data_fd open_file b)
      found none e rules e' h = cc
      found (some pak) e crash e' h = cc
      found (some pak) e (ok rules) e' h = (dir, pak, rules, refl, e, e', cc)

  -- Let the browser process load rules from a path that is not empty, and then find the files for a
  -- child process. Then the rules are those of some list, and a child that starts with these files,
  -- whatever its directories are, gets the style sheets of the very same rules, and its resources from
  -- the open pak file of the browser's directory.
  pub children-have_rules :
      (app_data app_data' : Option Bytes) (open_file : Bytes → Option OpenFile) (path : Bytes)
      (b : Blocker W) {b' : Blocker W} {mappings : Mappings} (st : Starting W)
      → is_empty path ≡ false
      → update_rules_with_path parse from_utf8 open_file path b ≡ ok b'
      → get_additional_mapped_files append_path app_data max open_file b' ≡ ok mappings
      → (rl : List Rule) × (dir : Bytes) × (pak : OpenFile) × (b'
          ≡ update_rules_for_browser_process (record b { file_path = path }) rl)
        × (app_data ≡ some dir)
        × (open_file (pak_file_in append_path dir) ≡ some pak)
        × (initialize_resource_bundle append_path app_data' max parse from_utf8 mappings st
            ≡ ok (record {
              blocker = update_rules_for_render_process from_utf8 st.blocker rl;
              bundle = some (with_pak_file_region pak);
            }))
  unfolding Given
  children-have_rules app_data app_data' open_file path b {b' = b'} st e loads maps =
      let (file, rl, _, same, fd, taken) =
        update_rules-handed_over open_file parse from_utf8 path b st.blocker e loads in
      let (dir, pak, rules, at, opened, fd', are) = mapped-Given app_data open_file b' maps in
      (
        rl,
        dir,
        pak,
        same,
        at,
        opened,
        subst
            (λ m.
              initialize_resource_bundle append_path app_data' max parse from_utf8 m st
              ≡ ok (record {
                blocker = update_rules_for_render_process from_utf8 st.blocker rl;
                bundle = some (with_pak_file_region pak);
              }))
            (sym are)
            (started_with app_data' pak rules rl st (
              subst
                (λ f.
                  update_rules_with_fd parse from_utf8 (some f) st.blocker
                  ≡ ok (update_rules_for_render_process from_utf8 st.blocker rl))
                (ok-injective (sym fd ∙ fd')) taken)),
      )

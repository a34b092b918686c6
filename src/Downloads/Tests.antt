-- ===== src/Downloads/Tests.antt =====
-- A few downloads and links, and the theorem on the ids.
use seaturtle.Common.{
  ◌<◌, ◌^◌, ◌≡◌, refl, ◌↔◌, true, List, [], ◌∷◌, arith, Bytes, lit, length, bytes_eq,
}
use seaturtle.Fixtures.{plain_api}
use seaturtle.Downloads.{
  new_downloads, start_download, intent_url, get_next_id, determine_download_target,
  handle_external_protocol,
}
use seaturtle.Downloads.Ids.{
  Event, gets_next_id, determines_target, handles_external, run_events, AllDiffer,
  get_next_id-AllDiffer_iff,
}

abbrev some_events : List (Event Bytes)
some_events =
    gets_next_id
    ∷ determines_target (lit "http://a.com/f")
    ∷ handles_external (lit "tel://1") true
    ∷ handles_external (lit "http://a.com/") true
    ∷ gets_next_id
    ∷ []

after_events : run_events plain_api some_events (new_downloads 0) ≡ record {
  next_id = 3;
  given = 1 ∷ 2 ∷ [];
  targets = record { target_path = []; intermediate_path = [] } ∷ [];
  asked = start_download (lit "http://a.com/f") ∷ intent_url (lit "tel://1") ∷ [];
}
unfolding get_next_id determine_download_target handle_external_protocol bytes_eq
after_events = refl

get_next_id-AllDiffer_example :
    let given = (run_events plain_api some_events (new_downloads 0)).given in
    (length given ≡ 2) × (AllDiffer (0 ∷ given) ↔ (2 < 2 ^ 32))
get_next_id-AllDiffer_example = get_next_id-AllDiffer_iff plain_api 0 some_events (omega arith)

-- ===== src/ProcessCache/Tests.antt =====
-- Calls of the process cache on small inputs.
use seaturtle.Common.{◌≡◌, refl, List, [], ◌∷◌, Bytes, lit}
use seaturtle.ProcessCache.{
  Question, locale_type, accept_langs_type, new_process_cache, get_application_locale,
  get_accept_langs,
}
use seaturtle.ProcessCache.Once.{replies}

abbrev three_calls : List (Question × Bytes)
three_calls =
    (locale_type, lit "de") ∷ (accept_langs_type, lit "de,en") ∷ (locale_type, lit "fr") ∷ []

all_replies :
    replies three_calls new_process_cache
    ≡ (locale_type, lit "de") ∷ (accept_langs_type, lit "de,en") ∷ (locale_type, lit "de") ∷ []
unfolding get_application_locale get_accept_langs
all_replies = refl

-- An empty answer is not kept, and Java is asked again.
empty_answer :
    (get_application_locale [] (get_application_locale [] new_process_cache).1).1.asked
    ≡ locale_type ∷ locale_type ∷ []
unfolding get_application_locale
empty_answer = refl

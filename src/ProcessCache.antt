-- ===== src/ProcessCache.antt =====
-- extra/process_cache.h and extra/process_cache.cc: what Java is asked once and then kept.
pub mod Once
mod Tests
use seaturtle.Common.{ℕ, List, [], ◌∷◌, ◌++◌, if◌then◌else◌, is_empty, Bytes}

-- jni::Params::LOCALE and jni::Params::ACCEPT_LANGS
pub data Question : Type 0 where
  locale_type accept_langs_type : Question

-- class ProcessCache, with the questions that went to Java, the oldest first.
pub record ProcessCache : Type 0 where
  pub locale : Bytes
  pub accept_langs : Bytes
  pub asked : List Question

abbrev pub new_process_cache : ProcessCache
new_process_cache = record { locale = []; accept_langs = []; asked = [] }

-- ProcessCache::GetApplicationLocale; `answer` is what Java answers if it is asked.
unfoldable pub get_application_locale : Bytes → ProcessCache → Bytes × ProcessCache
get_application_locale answer c =
    if is_empty c.locale
    then (answer, record c { locale = answer; asked = c.asked ++ locale_type ∷ [] })
    else (c.locale, c)

-- ProcessCache::GetAcceptLangs
unfoldable pub get_accept_langs : Bytes → ProcessCache → Bytes × ProcessCache
get_accept_langs answer c =
    if is_empty c.accept_langs
    then (answer, record c { accept_langs = answer; asked = c.asked ++ accept_langs_type ∷ [] })
    else (c.accept_langs, c)

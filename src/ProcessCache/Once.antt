-- ===== src/ProcessCache/Once.antt =====
-- Java is asked each question once, and all later calls get its answer.
use seaturtle.Common.{
  ℕ, ◌+◌, ◌≤◌, ◌≡◌, refl, sym, ◌∙◌, ap, Bool, true, false, List, [], ◌∷◌, ◌++◌, arith,
  if◌then◌else◌, is_empty, Bytes, All,
}
use seaturtle.ProcessCache.{
  Question, locale_type, accept_langs_type, ProcessCache, new_process_cache, get_application_locale,
  get_accept_langs,
}

-- The method that asks a question, with what it keeps.
abbrev pub get : Question → Bytes → ProcessCache → Bytes × ProcessCache
get locale_type answer c = get_application_locale answer c
get accept_langs_type answer c = get_accept_langs answer c

abbrev pub kept : Question → ProcessCache → Bytes
kept locale_type c = c.locale
kept accept_langs_type c = c.accept_langs

-- A series of calls, each with the answer that Java has ready: what the calls return, and the state
-- after them.
abbrev pub replies : List (Question × Bytes) → ProcessCache → List (Question × Bytes)
replies [] c = []
replies (call ∷ calls) c = (call.0, (get call.0 call.1 c).0) ∷ replies calls (get call.0 call.1 c).1

abbrev pub after_calls : List (Question × Bytes) → ProcessCache → ProcessCache
after_calls [] c = c
after_calls (call ∷ calls) c = after_calls calls (get call.0 call.1 c).1

abbrev same : Question → Question → Bool
same locale_type locale_type = true
same locale_type accept_langs_type = false
same accept_langs_type locale_type = false
same accept_langs_type accept_langs_type = true

abbrev pub times_asked : Question → List Question → ℕ
times_asked q [] = 0
times_asked q (q' ∷ asked) = (if same q q' then 1 else 0) + times_asked q asked

times_asked-snoc :
    (q q' : Question) (asked : List Question)
    → times_asked q (asked ++ q' ∷ []) ≡ times_asked q asked + (if same q q' then 1 else 0)
times_asked-snoc q q' [] = omega arith
times_asked-snoc q q' (x ∷ asked) = omega (arith, times_asked-snoc q q' asked)

-- A question has been asked as often as it has an answer that is kept: never, or once.
abbrev IsAskedOnce : Question → ProcessCache → Type 0
IsAskedOnce q c = times_asked q c.asked ≡ (if is_empty (kept q c) then 0 else 1)

get-IsAskedOnce :
    (q q' : Question) (answer : Bytes) (c : ProcessCache)
    → is_empty answer ≡ false
    → IsAskedOnce q c
    → IsAskedOnce q (get q' answer c).1
unfolding get_application_locale get_accept_langs
get-IsAskedOnce locale_type locale_type answer c e h =
    ground (arith, times_asked-snoc locale_type locale_type c.asked)
get-IsAskedOnce locale_type accept_langs_type answer c e h =
    ground (arith, times_asked-snoc locale_type accept_langs_type c.asked)
get-IsAskedOnce accept_langs_type locale_type answer c e h =
    ground (arith, times_asked-snoc accept_langs_type locale_type c.asked)
get-IsAskedOnce accept_langs_type accept_langs_type answer c e h =
    ground (arith, times_asked-snoc accept_langs_type accept_langs_type c.asked)

abbrev pub HasAnswer : Question × Bytes → Type 0
HasAnswer call = is_empty call.1 ≡ false

after_calls-IsAskedOnce :
    (q : Question) (calls : List (Question × Bytes)) (c : ProcessCache)
    → All HasAnswer calls
    → IsAskedOnce q c
    → IsAskedOnce q (after_calls calls c)
after_calls-IsAskedOnce q [] c hs h = h
after_calls-IsAskedOnce q (call ∷ calls) c hs h =
    after_calls-IsAskedOnce q calls (get call.0 call.1 c).1 hs.1
      (get-IsAskedOnce q call.0 call.1 c hs.0 h)

-- The reply is what is kept from then on.
get-kept :
    (q : Question) (answer : Bytes) (c : ProcessCache)
    → (get q answer c).0 ≡ kept q (get q answer c).1
unfolding get_application_locale get_accept_langs
get-kept locale_type answer c = ground arith
get-kept accept_langs_type answer c = ground arith

kept-get :
    (q q' : Question) (answer : Bytes) (c : ProcessCache)
    → is_empty (kept q c) ≡ false
    → kept q (get q' answer c).1 ≡ kept q c
unfolding get_application_locale get_accept_langs
kept-get locale_type locale_type answer c h = ground arith
kept-get locale_type accept_langs_type answer c h = ground arith
kept-get accept_langs_type locale_type answer c h = ground arith
kept-get accept_langs_type accept_langs_type answer c h = ground arith

after_calls-kept :
    (q : Question) (calls : List (Question × Bytes)) (c : ProcessCache)
    → is_empty (kept q c) ≡ false
    → kept q (after_calls calls c) ≡ kept q c
after_calls-kept q [] c h = refl
after_calls-kept q (call ∷ calls) c h =
    let e = kept-get q call.0 call.1 c h in
    after_calls-kept q calls (get call.0 call.1 c).1 (ap is_empty e ∙ h) ∙ e

get_nonempty :
    (q : Question) (answer : Bytes) (c : ProcessCache)
    → is_empty answer ≡ false
    → is_empty (kept q (get q answer c).1) ≡ false
unfolding get_application_locale get_accept_langs
get_nonempty locale_type answer c h = ground arith
get_nonempty accept_langs_type answer c h = ground arith

-- A reply is the text that is kept in the end.
abbrev pub IsLasting : ProcessCache → Question × Bytes → Type 0
IsLasting c reply = reply.1 ≡ kept reply.0 c

replies-IsLasting :
    (calls : List (Question × Bytes)) (c : ProcessCache)
    → All HasAnswer calls
    → All (IsLasting (after_calls calls c)) (replies calls c)
replies-IsLasting [] c hs = tt
replies-IsLasting (call ∷ calls) c hs = (
  get-kept call.0 call.1 c
      ∙ sym (
          after_calls-kept call.0 calls (get call.0 call.1 c).1
            (get_nonempty call.0 call.1 c hs.0)),
  replies-IsLasting calls (get call.0 call.1 c).1 hs.1,
)

-- Whatever calls of the two methods are made from the start, in any order and with any answers that
-- Java has ready, as long as none of these is empty: each of the two questions goes to Java at most
-- once, and every call returns the one text that is kept for its question in the end.
times_asked-le_one :
    (calls : List (Question × Bytes)) (q : Question)
    → All HasAnswer calls
    → (times_asked q (after_calls calls new_process_cache).asked ≤ 1)
      × All (IsLasting (after_calls calls new_process_cache)) (replies calls new_process_cache)
times_asked-le_one calls q hs = (
  ground (arith, after_calls-IsAskedOnce q calls new_process_cache hs (start q)),
  replies-IsLasting calls new_process_cache hs,
)
  where
    start : (p : Question) → IsAskedOnce p new_process_cache
    start locale_type = refl
    start accept_langs_type = refl

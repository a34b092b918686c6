-- ===== src/Scheme/Tests.antt =====
-- Reads of small pages, and the theorems on them at concrete arguments.
use seaturtle.Common.{ℕ, suc, ◌*◌, ◌≤◌, ◌<◌, ◌≡◌, refl, some, min, arith, take, lit, ok}
use seaturtle.Scheme.{Job, new_job, start_async, read_page}
use seaturtle.Scheme.Reads.{copies, read_all, read_all-copies}

abbrev page_job : Job
page_job = record { resp = some (lit "abc"); bytes_already_read = 0 }

started : start_async (λ url. some (lit "abc")) (lit "krypton://p") new_job ≡ ok page_job
unfolding start_async
started = refl

-- A buffer of two bytes gives "abab" for the page "abc".
short_buffer : read_all 4 2 (lit "abc") page_job ≡ some (lit "abab")
unfolding read_page
short_buffer = refl

read_all-copies_example :
    (rounds : ℕ) × (3 ≤ rounds * min 2 3)
    × ((n : ℕ) → rounds ≡ suc n → n * min 2 3 < 3)
    × (read_all 4 2 (lit "abc") page_job ≡ some (copies rounds (take (min 2 3) (lit "abc"))))
read_all-copies_example =
    read_all-copies 2 (lit "abc") page_job (refl, (refl, (refl, tt))) (omega arith) refl

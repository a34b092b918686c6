-- ===== src/Scheme.antt =====
-- extra/seaturtle_protocol_handler.cc: the job that answers a krypton:// request with a page that
-- Java renders.
pub mod Reads
mod Tests
use seaturtle.Common.{
  ℕ, zero, suc, ◌+◌, ◌-◌, min, Bool, true, false, Option, none, some, List, [], ◌∷◌, ◌++◌, ltb,
  ◌==◌, if◌then◌else◌, length, Bytes, Abort, ok, crash, ◌>>=◌, ◌>>◌, check, is_some,
}

-- class URLRequestSeaturtleJob: the rendered page once StartAsync has it, and the count of what was
-- read. The page has fewer than 2^30 bytes, so that no count passes INT_MAX.
pub record Job : Type 0 where
  pub resp : Option Bytes
  pub bytes_already_read : ℕ

abbrev pub new_job : Job
new_job = record { resp = none; bytes_already_read = 0 }

-- StartAsync: `render url` is what Java answers, `none` for a message of another type.
unfoldable pub start_async : (Bytes → Option Bytes) → Bytes → Job → Abort Job
start_async render url job = do check (is_some (render url)); ok (record job { resp = render url })

abbrev pub zeros : ℕ → Bytes
zeros zero = []
zeros (suc n) = 0 ∷ zeros n

-- The bytes that `strncpy(to, from, n)` writes: it stops at a NUL and fills up with NULs.
unfoldable pub strncpy : ℕ → Bytes → Bytes
strncpy zero from = []
strncpy (suc n) [] = 0 ∷ zeros n
strncpy (suc n) (c ∷ from) = let rest = strncpy n from in if c == 0 then 0 ∷ zeros n else c ∷ rest

-- ReadRawData with a buffer of `buf_size` bytes: what it writes, whose length is `*bytes_read`.
unfoldable pub read_page : ℕ → Bytes → Job → Bytes × Job
unfolding strncpy
read_page buf_size page job =
    let resp_length = length page in
    let bytes_read = min buf_size resp_length in
    if ltb job.bytes_already_read resp_length
    then (
      strncpy bytes_read page,
      record job { bytes_already_read = job.bytes_already_read + bytes_read },
    )
    else ([], job)

unfoldable pub read_raw_data : ℕ → Job → Abort (Bytes × Job)
unfolding read_page
read_raw_data buf_size job = do
  check (ltb 0 buf_size)
  elim job.resp [ none ↦ crash | some page ↦ ok (read_page buf_size page job) ]

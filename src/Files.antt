-- ===== src/Files.antt =====
-- extra/file_util.cc: ReadFileToString, the loop that reads a whole file.
pub mod Reads
mod Tests
use seaturtle.Common.{ℕ, Bool, true, List, [], ◌∷◌, ◌++◌, Bytes, Abort, ok, crash}

-- What one call of base::File::ReadAtCurrentPos gives: the bytes that it put into the buffer, none at
-- the end of the file, or -1.
pub data ReadResult : Type 0 where
  got : Bytes → ReadResult
  failed : ReadResult

-- A file that is open, as the results that its reads will give, of which at most the last is the end
-- of the file; after the list there is only the end.
abbrev pub OpenFile : Type 0
OpenFile = List ReadResult

-- The loop of ReadFileToString. `len` is a size_t, so that -1 is taken for a length, and the append
-- of so many bytes ends the process.
unfoldable pub read_loop : OpenFile → Bytes → Abort Bytes
read_loop [] contents = ok contents
read_loop (failed ∷ file) contents = crash
read_loop (got [] ∷ file) contents = ok contents
read_loop (got (c ∷ buf) ∷ file) contents = read_loop file (contents ++ c ∷ buf)

abbrev pub with_success : Abort Bytes → Abort (Bool × Bytes)
with_success crash = crash
with_success (ok contents) = ok (true, contents)

-- ReadFileToString: `len >= 0` is true of every size_t.
unfoldable pub read_file_to_string : OpenFile → Bytes → Abort (Bool × Bytes)
unfolding read_loop
read_file_to_string file contents = with_success (read_loop file contents)

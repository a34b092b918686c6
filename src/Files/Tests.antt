-- ===== src/Files/Tests.antt =====
-- Files of the tests, and the theorem on them.
use seaturtle.Common.{◌≡◌, refl, ◌↔◌, true, [], ◌∷◌, ok, crash, lit}
use seaturtle.Files.{got, failed, read_file_to_string}
use seaturtle.Files.Reads.{Delivers, Breaks, read_file_to_string-Delivers_iff}

two_parts : read_file_to_string (got (lit "ab") ∷ got (lit "c") ∷ []) [] ≡ ok (true, lit "abc")
unfolding read_file_to_string
two_parts = refl

breaks_off : read_file_to_string (got (lit "ab") ∷ failed ∷ []) [] ≡ crash
unfolding read_file_to_string
breaks_off = refl

Delivers_example :
    ((read_file_to_string (got (lit "ab") ∷ got [] ∷ []) [] ≡ ok (true, lit "ab"))
      ↔ Delivers (lit "ab") (got (lit "ab") ∷ got [] ∷ []))
    × ((read_file_to_string (got (lit "ab") ∷ got [] ∷ []) [] ≡ crash)
        ↔ Breaks (got (lit "ab") ∷ got [] ∷ []))
Delivers_example = read_file_to_string-Delivers_iff (got (lit "ab") ∷ got [] ∷ []) (lit "ab")

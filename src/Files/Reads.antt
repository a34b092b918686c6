-- ===== src/Files/Reads.antt =====
-- Which files ReadFileToString reads, and what it makes of them.
use seaturtle.Common.{
  ℕ, ◌≡◌, refl, sym, ◌∙◌, ap, subst, ◌↔◌, true, [], ◌∷◌, ◌++◌, append-nil, append_assoc, Bytes,
  Abort, ok, crash,
}
use seaturtle.Files.{got, failed, OpenFile, read_loop, with_success, read_file_to_string}

-- The reads bring the whole content, in parts that are not empty, and then the end of the file.
pub data Delivers : Bytes → OpenFile → Type 0 where
  no_more : Delivers [] []
  at_end : {file : OpenFile} → Delivers [] (got [] ∷ file)
  part :
      {c : ℕ} {buf content : Bytes} {file : OpenFile}
      → Delivers content file
      → Delivers ((c ∷ buf) ++ content) (got (c ∷ buf) ∷ file)

-- After some parts a read fails, with the end not reached.
pub data Breaks : OpenFile → Type 0 where
  broken : {file : OpenFile} → Breaks (failed ∷ file)
  after_part : {c : ℕ} {buf : Bytes} {file : OpenFile} → Breaks file → Breaks (got (c ∷ buf) ∷ file)

read_loop-Delivers :
    {content : Bytes} {file : OpenFile} (contents : Bytes)
    → Delivers content file
    → read_loop file contents ≡ ok (contents ++ content)
unfolding read_loop
read_loop-Delivers contents no_more = rw (append-nil contents) refl
read_loop-Delivers contents at_end = rw (append-nil contents) refl
read_loop-Delivers contents (part {c} {buf} {content} more) =
    read_loop-Delivers (contents ++ c ∷ buf) more ∙ ap ok (append_assoc contents (c ∷ buf) content)

read_loop-Breaks :
    {file : OpenFile} (contents : Bytes) → Breaks file → read_loop file contents ≡ crash
unfolding read_loop
read_loop-Breaks contents broken = refl
read_loop-Breaks contents (after_part {c} {buf} more) = read_loop-Breaks (contents ++ c ∷ buf) more

-- What the loop gives decides how the file behaves.
abbrev Fate : OpenFile → Bytes → Abort Bytes → Type 0
Fate file contents crash = Breaks file
Fate file contents (ok r) = (content : Bytes) × Delivers content file × (r ≡ contents ++ content)

Fate-part :
    (c : ℕ) (buf : Bytes) (file : OpenFile) (contents : Bytes) (run : Abort Bytes)
    → Fate file (contents ++ c ∷ buf) run
    → Fate (got (c ∷ buf) ∷ file) contents run
Fate-part c buf file contents crash f = after_part f
Fate-part c buf file contents (ok r) f =
    ((c ∷ buf) ++ f.0, part f.1, f.2 ∙ append_assoc contents (c ∷ buf) f.0)

read_loop-Fate : (file : OpenFile) (contents : Bytes) → Fate file contents (read_loop file contents)
unfolding read_loop
read_loop-Fate [] contents = ([], no_more, sym (append-nil contents))
read_loop-Fate (failed ∷ file) contents = broken
read_loop-Fate (got [] ∷ file) contents = ([], at_end, sym (append-nil contents))
read_loop-Fate (got (c ∷ buf) ∷ file) contents =
    Fate-part c buf file contents (read_loop file (contents ++ c ∷ buf))
      (read_loop-Fate file (contents ++ c ∷ buf))

delivered_of :
    (file : OpenFile) (run : Abort Bytes) (content : Bytes)
    → Fate file [] run
    → with_success run ≡ ok (true, content)
    → Delivers content file
delivered_of file crash content f e = cc
delivered_of file (ok r) content f e =
    subst (λ s. Delivers s file) (let e' : f.0 ≡ content = cc (f.2) in e') f.1

broken_of :
    (file : OpenFile) (run : Abort Bytes)
    → Fate file [] run
    → with_success run ≡ crash
    → Breaks file
broken_of file crash f e = f
broken_of file (ok r) f e = cc

-- Into an empty string ReadFileToString gives true and some content exactly when the reads bring that
-- content whole, part by part up to the end of the file; and the process ends exactly when a read
-- fails before the end. So it never gives false.
pub read_file_to_string-Delivers_iff :
    (file : OpenFile) (content : Bytes)
    → ((read_file_to_string file [] ≡ ok (true, content)) ↔ Delivers content file)
      × ((read_file_to_string file [] ≡ crash) ↔ Breaks file)
unfolding read_file_to_string
read_file_to_string-Delivers_iff file content = (
  (
    delivered_of file (read_loop file []) content (read_loop-Fate file []),
    λ d. ap with_success (read_loop-Delivers [] d),
  ),
  (
    broken_of file (read_loop file []) (read_loop-Fate file []),
    λ b. ap with_success (read_loop-Breaks [] b),
  ),
)

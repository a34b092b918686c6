-- ===== src/Blocker/Stylesheets/Join.antt =====
-- Selectors joined by commas, and lists of selectors cut into sheets of a limited length.
use seaturtle.Common.{
  ℕ, ◌≤◌, ◌<◌, ◌≡◌, refl, sym, true, false, List, [], ◌∷◌, ◌++◌, append-nil, append_assoc, arith,
  length, Bytes, lit, is_empty, All,
}
use seaturtle.Blocker.Stylesheets.{append_selector}

abbrev pub comma_tail : List Bytes → Bytes
comma_tail [] = []
comma_tail (s ∷ ss) = lit "," ++ s ++ comma_tail ss

-- The texts with commas between them.
abbrev pub join_comma : List Bytes → Bytes
join_comma [] = []
join_comma (s ∷ ss) = s ++ comma_tail ss

comma_tail-concat :
    (ss : List Bytes) (s : Bytes) → comma_tail (ss ++ s ∷ []) ≡ comma_tail ss ++ lit "," ++ s
comma_tail-concat [] s = simp append-nil
comma_tail-concat (t ∷ ss) s = simp (comma_tail-concat ss s, append_assoc)

-- Texts to be joined, none of them empty.
abbrev pub NoneEmpty : List Bytes → Type 0
NoneEmpty = All (λ s. is_empty s ≡ false)

pub append_selector-join :
    (ss : List Bytes) (s : Bytes)
    → NoneEmpty ss
    → append_selector (join_comma ss) s ≡ join_comma (ss ++ s ∷ [])
append_selector-join [] s h = simp append-nil
append_selector-join ([] ∷ ss) s h = cc
append_selector-join ((c ∷ t) ∷ ss) s h = simp (comma_tail-concat ss s, append_assoc)

pub NoneEmpty-concat :
    (ss : List Bytes) (s : Bytes) → NoneEmpty ss → is_empty s ≡ false → NoneEmpty (ss ++ s ∷ [])
NoneEmpty-concat [] s h e = (e, tt)
NoneEmpty-concat (t ∷ ss) s (here, later) e = (here, NoneEmpty-concat ss s later e)

pub is_empty-join : (ss : List Bytes) → NoneEmpty ss → is_empty (join_comma ss) ≡ true → ss ≡ []
is_empty-join [] h e = refl
is_empty-join ([] ∷ ss) h e = cc
is_empty-join ((c ∷ t) ∷ ss) h e = cc

abbrev pub concat : List (List Bytes) → List Bytes
concat [] = []
concat (ss ∷ sss) = ss ++ concat sss

pub concat-snoc :
    (sss : List (List Bytes)) (ss : List Bytes) → concat (sss ++ ss ∷ []) ≡ concat sss ++ ss
concat-snoc [] ss = append-nil ss
concat-snoc (x ∷ sss) ss = rw (concat-snoc sss ss) (sym (append_assoc x (concat sss) ss))

-- Every list but the last has exactly `limit` texts, and the last has one at least and `limit` at most.
abbrev pub IsFilled : ℕ → List (List Bytes) → Type 0
IsFilled limit [] = Unit
IsFilled limit (ss ∷ []) = (1 ≤ length ss) × (length ss ≤ limit)
IsFilled limit (ss ∷ sss) = (length ss ≡ limit) × IsFilled limit sss

-- Every list has exactly `limit` texts.
abbrev pub IsFull : ℕ → List (List Bytes) → Type 0
IsFull limit = All (λ ss. length ss ≡ limit)

pub IsFull-snoc :
    (limit : ℕ) (sss : List (List Bytes)) (ss : List Bytes)
    → IsFull limit sss
    → length ss ≡ limit
    → IsFull limit (sss ++ ss ∷ [])
IsFull-snoc limit [] ss h e = (e, tt)
IsFull-snoc limit (x ∷ sss) ss (here, later) e = (here, IsFull-snoc limit sss ss later e)

pub IsFilled-snoc :
    (limit : ℕ) (sss : List (List Bytes)) (ss : List Bytes)
    → IsFull limit sss
    → 1 ≤ length ss
    → length ss ≤ limit
    → IsFilled limit (sss ++ ss ∷ [])
IsFilled-snoc limit [] ss h l u = (l, u)
IsFilled-snoc limit (x ∷ []) ss (here, later) l u = (here, (l, u))
IsFilled-snoc limit (x ∷ y ∷ sss) ss (here, later) l u =
    (here, IsFilled-snoc limit (y ∷ sss) ss later l u)

pub IsFilled-of_IsFull :
    (limit : ℕ) (sss : List (List Bytes)) → 0 < limit → IsFull limit sss → IsFilled limit sss
IsFilled-of_IsFull limit [] k h = tt
IsFilled-of_IsFull limit (x ∷ []) k h = (omega arith, omega arith)
IsFilled-of_IsFull limit (x ∷ y ∷ sss) k (here, later) =
    (here, IsFilled-of_IsFull limit (y ∷ sss) k later)

pub length-pos_of_join : (ss : List Bytes) → is_empty (join_comma ss) ≡ false → 1 ≤ length ss
length-pos_of_join [] e = cc
length-pos_of_join (s ∷ ss) e = omega arith

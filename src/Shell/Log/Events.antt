-- ===== src/Shell/Log/Events.antt =====
-- The events that the log of a shell hears of, and what they add to it.
use seaturtle.Common.{
  ℕ, ◌≡◌, refl, Bool, false, List, [], ◌∷◌, ◌++◌, arith, ◌==◌, if◌then◌else◌, Bytes,
}
use seaturtle.Shell.{LogType, LogEntry}

-- What happens to the shells between two looks at a log; the first number is the shell's address.
pub data Event : Type 0 where
  logs : ℕ → LogType → Bool → Bytes → Event
  navigates : ℕ → Bool → Bytes → Event
  loads : ℕ → Bool → Event
  finishes : ℕ → ℕ → ℕ → Bytes → Bytes → Event
  goes_fullscreen : ℕ → Bool → Event

-- What the event adds to the log of the shell `self`.
abbrev pub entries_of : ℕ → List Event → List LogEntry
entries_of self [] = []
entries_of self (logs p t is_blocked desc ∷ es) =
    let rest = entries_of self es in
    let le : LogEntry = record { type = t; is_blocked = is_blocked; description = desc } in
    if p == self then le ∷ rest else rest
entries_of self (navigates p d url ∷ es) = entries_of self es
entries_of self (loads p l ∷ es) = entries_of self es
entries_of self (finishes p m f u t ∷ es) = entries_of self es
entries_of self (goes_fullscreen p e ∷ es) = entries_of self es

-- No event takes the shell `self` to a different page.
abbrev pub Stays : ℕ → List Event → Type 0
Stays self [] = Unit
Stays self (logs p t is_blocked desc ∷ es) = Stays self es
Stays self (navigates p d url ∷ es) = ((if d then p == self else false) ≡ false) × Stays self es
Stays self (loads p l ∷ es) = Stays self es
Stays self (finishes p m f u t ∷ es) = Stays self es
Stays self (goes_fullscreen p e ∷ es) = Stays self es

pub Stays-head :
    (p : ℕ) (e : Event) (es : List Event) → Stays p (e ∷ es) → Stays p (e ∷ []) × Stays p es
Stays-head p (logs q t is_blocked desc) es st = (tt, st)
Stays-head p (navigates q d url) es (stays, st) = ((stays, tt), st)
Stays-head p (loads q l) es st = (tt, st)
Stays-head p (finishes q m f u t) es st = (tt, st)
Stays-head p (goes_fullscreen q enter) es st = (tt, st)

pub entries_of-cons :
    (p : ℕ) (e : Event) (es : List Event)
    → entries_of p (e ∷ []) ++ entries_of p es ≡ entries_of p (e ∷ es)
entries_of-cons p (logs q t is_blocked desc) es = ground arith
entries_of-cons p (navigates q d url) es = refl
entries_of-cons p (loads q l) es = refl
entries_of-cons p (finishes q m f u t) es = refl
entries_of-cons p (goes_fullscreen q enter) es = refl

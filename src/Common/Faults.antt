-- ===== src/Common/Faults.antt =====
-- Code that may abort the process: CHECK, STDCHECK and STNOTREACHED.
use mathlib.Core.Path.{◌≡◌, refl}
use mathlib.Core.Bool.{Bool, true, false}
use mathlib.Core.List.{List, [], ◌∷◌}

-- `crash` is a CHECK that failed, or an uncaught exception.
pub data Abort {ℓ} (Value : Type ℓ) : Type ℓ where
  crash : Abort Value
  ok : Value → Abort Value

infixl 5 ◌>>=◌ ◌>>◌
abbrev pub ◌>>=◌ {ℓ κ} : {V : Type ℓ} {W : Type κ} → Abort V → (V → Abort W) → Abort W
crash >>= rest = crash
ok v >>= rest = rest v

abbrev pub ◌>>◌ {ℓ} : {W : Type ℓ} → Abort (Unit {0}) → Abort W → Abort W
run >> rest = run >>= λ _. rest

abbrev pub check : Bool → Abort (Unit {0})
check false = crash
check true = ok tt

pub >>=-eq-ok {ℓ κ} :
    {V : Type ℓ} {W : Type κ} (run : Abort V) (rest : V → Abort W) {w : W}
    → (run >>= rest) ≡ ok w
    → (v : V) × (run ≡ ok v) × (rest v ≡ ok w)
>>=-eq-ok crash rest e = cc
>>=-eq-ok (ok v) rest e = (v, refl, e)

-- A run of steps on a state, one event after another, that no step ends.
pub data Runs {Event State : Type 0} (step : Event → State → Abort State)
    : List Event → State → State → Type 0 where
  done : {st : State} → Runs step [] st st
  then_runs :
      {e : Event} {es : List Event} {st st1 st2 : State}
      → step e st ≡ ok st1
      → Runs step es st1 st2
      → Runs step (e ∷ es) st st2

-- content::BrowserThread, and STDCHECK_ON_THREAD.
pub data Thread : Type 0 where
  ui io other_thread : Thread

abbrev pub check_on_io : Thread → Abort (Unit {0})
check_on_io io = ok tt
check_on_io ui = crash
check_on_io other_thread = crash

abbrev pub check_on_ui : Thread → Abort (Unit {0})
check_on_ui ui = ok tt
check_on_ui io = crash
check_on_ui other_thread = crash

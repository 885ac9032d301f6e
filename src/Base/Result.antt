-- ===== src/Base/Result.antt =====
-- Results of C code: a value, or a fault, which is undefined behaviour, a failed `assert` or a
-- loop that has used up its fuel. Stateful code passes its state explicitly.
use mathlib.Core.Bool.{Bool, true, false}
use mathlib.Core.Option.{Option, none, some}

pub data Fault : Type 0 where
  null_deref : Fault
  out_of_bounds : Fault
  use_after_free : Fault
  wild_pointer : Fault
  no_value : Fault
  assertion : Fault
  out_of_fuel : Fault

pub data Result {ℓ} (A : Type ℓ) : Type ℓ where
  ok : A → Result A
  fault : Fault → Result A

-- There is no value.
abbrev pub NotOk {ℓ} : {A : Type ℓ} → Result A → Type 0
NotOk (ok a) = ⊥
NotOk (fault e) = Unit

-- A command on a state `S`.
abbrev pub Cmd : Type 0 → Type 0 → Type 0
Cmd S A = S → Result (A × S)

module _ {S A : Type 0} where
  abbrev pub pure : A → Cmd S A
  pure a s = ok (a, s)

  abbrev pub raise : Fault → Cmd S A
  raise e s = fault e

  -- The code asks for a value that may be missing.
  abbrev pub need : Option A → Fault → Cmd S A
  need none e s = fault e
  need (some a) e s = ok (a, s)

abbrev pub get_state : {S : Type 0} → Cmd S S
get_state s = ok (s, s)

abbrev pub put_state : {S : Type 0} → S → Cmd S (Unit {0})
put_state t s = ok (tt, t)

-- What must hold for the code to go on.
abbrev pub guard : {S : Type 0} → Bool → Fault → Cmd S (Unit {0})
guard true e s = ok (tt, s)
guard false e s = fault e

module _ {S A B : Type 0} where
  abbrev pub and_then : Result (A × S) → (A → Cmd S B) → Result (B × S)
  and_then (ok r) k = k r.0 r.1
  and_then (fault e) k = fault e

  infixl 5 ◌>>=◌ ◌>>◌
  abbrev pub ◌>>=◌ : Cmd S A → (A → Cmd S B) → Cmd S B
  ◌>>=◌ m k s = and_then (m s) k

  abbrev pub ◌>>◌ : Cmd S A → Cmd S B → Cmd S B
  ◌>>◌ m k s = and_then (m s) (λ _. k)

  -- Where the rest never returns, neither does the whole.
  pub NotOk-then :
      (m : Cmd S A) (k : Cmd S B) (s : S) → ((t : S) → NotOk (k t)) → NotOk ((m >> k) s)
  NotOk-then m k s h = elim (m s) as (λ r. NotOk (and_then r (λ _. k))) [
    | ok r ↦ h r.1
    | fault e ↦ tt
  ]

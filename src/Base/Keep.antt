-- ===== src/Base/Keep.antt =====
-- What every run of a command keeps: a reflexive and transitive relation of the states before and
-- after, with a rule for each way to build a command.
use mathlib.Core.Bool.{Bool, true, false}
use mathlib.Core.Option.{Option, none, some}
use internet_course.Base.Tests.{if◌then◌else◌}
use internet_course.Base.Result.{
  Fault, Result, ok, fault, Cmd, pure, raise, need, guard, get_state, and_then, ◌>>=◌, ◌>>◌,
}

pub record Order (S : Type 0) : Type 1 where
  pub Keeps : S → S → Type 0
  pub keeps_refl : (s : S) → Keeps s s
  pub keeps_trans : (s t u : S) → Keeps s t → Keeps t u → Keeps s u

module _ {S : Type 0} (o : Order S) where
  -- A fault keeps everything: the program is gone.
  abbrev pub After {ℓ} : {A : Type ℓ} → S → Result (A × S) → Type 0
  After s (ok r) = o.Keeps s r.1
  After s (fault e) = Unit

  -- Wherever the command returns, it has kept these things.
  pub record Keeping {A : Type 0} (m : Cmd S A) : Type 0 where
    pub run : (s : S) → After s (m s)

  pub After-if :
      {A : Type 0} (b : Bool) (s : S) (x y : Result (A × S))
      → After s x
      → After s y
      → After s (if b then x else y)
  After-if true s x y p q = p
  After-if false s x y p q = q

  module _ {A B : Type 0} (m : Cmd S A) where
    keep_result :
        (k : A → Cmd S B) (s : S) (r : Result (A × S))
        → After s r
        → ((a : A) → Keeping (k a))
        → After s (and_then r k)
    keep_result k s (fault e) h g = tt
    keep_result k s (ok r) h g =
        (elim (k r.0 r.1) as (λ x. After r.1 x → After s x) [
          | ok b ↦ λ p. o.keeps_trans s r.1 b.1 h p
          | fault e ↦ λ p. tt
        ])
          ((g r.0).run r.1)

    pub keep_bind : (k : A → Cmd S B) → Keeping m → ((a : A) → Keeping (k a)) → Keeping (m >>= k)
    keep_bind k p q = record { run = λ s. keep_result k s (m s) (p.run s) q }

    pub keep_then : (k : Cmd S B) → Keeping m → Keeping k → Keeping (m >> k)
    keep_then k p q = record { run = λ s. keep_result (λ _. k) s (m s) (p.run s) (λ _. q) }

  module _ {A : Type 0} where
    pub keep_pure : (a : A) → Keeping (pure {S = S} a)
    keep_pure a = record { run = o.keeps_refl }

    pub keep_raise : (e : Fault) → Keeping (raise {S = S} {A = A} e)
    keep_raise e = record { run = λ s. tt }

    pub keep_need : (x : Option A) (e : Fault) → Keeping (need {S = S} x e)
    keep_need none e = record { run = λ s. tt }
    keep_need (some a) e = record { run = o.keeps_refl }

    pub keep_if : (b : Bool) (m k : Cmd S A) → Keeping m → Keeping k → Keeping (if b then m else k)
    keep_if true m k p q = p
    keep_if false m k p q = q

  pub keep_guard : (b : Bool) (e : Fault) → Keeping (guard {S = S} b e)
  keep_guard true e = record { run = o.keeps_refl }
  keep_guard false e = record { run = λ s. tt }

  pub keep_state : Keeping (get_state {S = S})
  keep_state = record { run = o.keeps_refl }

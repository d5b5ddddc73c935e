-- ===== src/Base/Outcomes.antt =====
-- Results of fallible code and their sequence.
use mathlib.Core.Path.{◌≡◌, refl}

-- The result of an awaited call: the value that it resolves to, or what it throws.
pub data Result (E A : Type 0) : Type 0 where
  ok : A → Result E A
  err : E → Result E A

-- `await` of a call on a state: what it throws ends the function.
infixl 5 ◌then◌
abbrev pub ◌then◌ : {W E A B : Type 0} → W × Result E A → (A → W → W × Result E B) → W × Result E B
(w, err e) then k = (w, err e)
(w, ok a) then k = k a w

pub err-ok : {E A P : Type 0} (e : E) (a : A) → err e ≡ ok a → P
err-ok e a h = cc

pub ok-inj : {E A : Type 0} (a b : A) → ◌≡◌ {A = Result E A} (ok a) (ok b) → a ≡ b
ok-inj a b h = cc

-- What a sequence that succeeded went through.
pub then-ok :
    {W E A B : Type 0} (a : W × Result E A) (k : A → W → W × Result E B) (b : B)
    → (a then k).1 ≡ ok b
    → (x : A) × (a.1 ≡ ok x) × ((a then k) ≡ k x a.0)
then-ok (w, err e) k b h = err-ok e b h
then-ok (w, ok x) k b h = (x, refl, refl)

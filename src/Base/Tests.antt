-- ===== src/Base/Tests.antt =====
-- Boolean tests on numbers and texts, the conditional, and splits on a computed value.
use Prim.Native.Nat.{ℕ, ◌+◌, ◌≤◌, ◌<◌, compare, Ordering}
use Prim.Native.String.{String}
use mathlib.Core.Path.{◌≡◌, refl, sym, ◌∙◌}
use mathlib.Core.Logic.{◌⊎◌, inl, inr}
use mathlib.Core.Bool.{Bool, true, false}
use mathlib.Core.Option.{Option, none, some}
use mathlib.Core.Path.{subst}
use native.Mathlib.Omega.{arith}
use native.Mathlib.Decide.{dec_lt}
use text.Mathlib.Text.{◌==◌ as text_eq}
use text.Mathlib.TextEquality.{eq_iff}

abbrev pub ltb : ℕ → ℕ → Bool
ltb a b = elim (compare a b) [ Ordering.lt ↦ true | _ ↦ false ]

abbrev pub leb : ℕ → ℕ → Bool
leb a b = elim (compare a b) [ Ordering.gt ↦ false | _ ↦ true ]

infix 50 ◌==◌
abbrev pub ◌==◌ : ℕ → ℕ → Bool
a == b = elim (compare a b) [ Ordering.eq ↦ true | _ ↦ false ]

infix 1 if◌then◌else◌
abbrev pub if◌then◌else◌ {ℓ} : {A : Type ℓ} → Bool → A → A → A
if true then x else y = x
if false then x else y = y

abbrev pub str_eq : String → String → Bool
str_eq a b = text_eq a b

pub Bool-cases : (b : Bool) → (b ≡ true) ⊎ (b ≡ false)
Bool-cases true = inl refl
Bool-cases false = inr refl

pub Option-cases {ℓ} : {A : Type ℓ} (o : Option A) → (o ≡ none) ⊎ ((a : A) × (o ≡ some a))
Option-cases none = inl refl
Option-cases (some a) = inr (a, refl)

pub ltb→lt : (a b : ℕ) → ltb a b ≡ true → a < b
ltb→lt a b h = ground arith

pub ltb→le : (a b : ℕ) → ltb a b ≡ false → b ≤ a
ltb→le a b h = ground arith

pub leb→le : (a b : ℕ) → leb a b ≡ true → a ≤ b
leb→le a b h = ground arith

-- What holds at the first number of a range and at the others holds in the range.
pub range_step {ℓ} :
    (P : ℕ → Type ℓ) (first last : ℕ)
    → P first
    → ((k : ℕ) → first + 1 ≤ k → k < last → P k)
    → (k : ℕ) → first ≤ k
    → k < last
    → P k
range_step P first last p rest k a b = elim (dec_lt first k) [
  | yes h ↦ rest k (omega arith) b
  | no h ↦ subst P (let e : first ≡ k = omega arith in e) p
]

pub leb→lt : (a b : ℕ) → leb a b ≡ false → b < a
leb→lt a b h = ground arith

pub str_eq→eq : (a b : String) → str_eq a b ≡ true → a ≡ b
str_eq→eq a b h = (eq_iff a b).0 h

pub str_eq_self : (a : String) → str_eq a a ≡ true
str_eq_self a = (eq_iff a a).1 refl

pub le→leb : (a b : ℕ) → a ≤ b → leb a b ≡ true
le→leb a b h = ground arith

pub lt→leb : (a b : ℕ) → b < a → leb a b ≡ false
lt→leb a b h = ground arith

pub some-inj : {A : Type 0} (a b : A) → some a ≡ some b → a ≡ b
some-inj a b h = cc

pub none-some : {A : Type 0} (a : A) (P : Type 0) → none ≡ some a → P
none-some a P h = cc

pub none-ne-some : {A : Type 0} (a : A) (P : Type 0) (o : Option A) → o ≡ none → o ≡ some a → P
none-ne-some a P o gone here = none-some a P (sym gone ∙ here)

-- What a conditional entry holds.
pub put-some :
    {A : Type 0} (hit : Bool) (a b : A) (o : Option A)
    → (if hit then some a else o) ≡ some b
    → ((hit ≡ true) × (a ≡ b)) ⊎ ((hit ≡ false) × (o ≡ some b))
put-some true a b o h = inl (refl, some-inj a b h)
put-some false a b o h = inr (refl, h)

-- What an entry holds that is taken away under a condition.
pub drop-some :
    {A : Type 0} (hit : Bool) (b : A) (o : Option A)
    → (if hit then none else o) ≡ some b
    → (hit ≡ false) × (o ≡ some b)
drop-some true b o h = none-some b _ h
drop-some false b o h = (refl, h)

pub lt→ltb : (a b : ℕ) → a < b → ltb a b ≡ true
lt→ltb a b h = ground arith

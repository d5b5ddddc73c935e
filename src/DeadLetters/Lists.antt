-- ===== src/DeadLetters/Lists.antt =====
-- Lists cut by a number or a test.
use nexus_commerce.Base.{
  ℕ, zero, suc, ◌≡◌, ◌≤◌, ◌<◌, refl, ap, Bool, true, false, ◌&&◌, List, [], ◌∷◌, ◌++◌, All, length,
  if◌then◌else◌, Bool-cases, inl, inr, arith,
}

abbrev pub take {ℓ} : {A : Type ℓ} → ℕ → List A → List A
take zero xs = []
take (suc n) [] = []
take (suc n) (x ∷ xs) = x ∷ take n xs

abbrev pub filter {ℓ} : {A : Type ℓ} → (A → Bool) → List A → List A
filter p [] = []
filter p (x ∷ xs) = if p x then x ∷ filter p xs else filter p xs

pub filter-All :
    {A : Type 0} (p : A → Bool) (xs : List A) → All (λ x. p x ≡ true) xs → filter p xs ≡ xs
filter-All p [] h = refl
filter-All p (x ∷ xs) h = let here = h.0 in rw here (ap (λ ys. x ∷ ys) (filter-All p xs h.1))

-- What a test lets through of a list that it splits.
pub filter-cut :
    {A : Type 0} (p : A → Bool) (xs ys : List A)
    → All (λ x. p x ≡ false) xs
    → All (λ y. p y ≡ true) ys
    → filter p (xs ++ ys) ≡ ys
filter-cut p [] ys out in' = filter-All p ys in'
filter-cut p (x ∷ xs) ys out in' = let here = out.0 in rw here (filter-cut p xs ys out.1 in')

pub filter-filter :
    {A : Type 0} (p q : A → Bool) (xs : List A)
    → filter (λ x. p x && q x) xs ≡ filter q (filter p xs)
filter-filter p q [] = refl
filter-filter p q (x ∷ xs) = elim (Bool-cases (p x)) [
  | inr no' ↦ rw no' (filter-filter p q xs)
  | inl yes' ↦ elim (Bool-cases (q x)) [
    | inl yes'' ↦ rw (yes', yes'') (ap (λ ys. x ∷ ys) (filter-filter p q xs))
    | inr no'' ↦ rw (yes', no'') (filter-filter p q xs)
  ]
]

pub All-filter :
    {A : Type 0} (P : A → Type 0) (p : A → Bool) (xs : List A) → All P xs → All P (filter p xs)
All-filter P p [] h = tt
All-filter P p (x ∷ xs) h = elim (Bool-cases (p x)) [
  | inl yes' ↦ rw yes' (h.0, All-filter P p xs h.1)
  | inr no' ↦ rw no' (All-filter P p xs h.1)
]

pub take-le : {A : Type 0} (n : ℕ) (xs : List A) → length xs ≤ n → take n xs ≡ xs
take-le zero [] h = refl
take-le zero (x ∷ xs) h = (let e : suc (length xs) ≤ 0 = h in absurd (let f : ⊥ = omega arith in f))
take-le (suc n) [] h = refl
take-le (suc n) (x ∷ xs) h = ap (λ ys. x ∷ ys) (take-le n xs (omega arith))

pub length-take : {A : Type 0} (n : ℕ) (xs : List A) → n ≤ length xs → length (take n xs) ≡ n
length-take zero xs h = refl
length-take (suc n) [] h = omega arith
length-take (suc n) (x ∷ xs) h = ap suc (length-take n xs (omega arith))

pub take-take : {A : Type 0} (n : ℕ) (xs : List A) → take n (take (suc n) xs) ≡ take n xs
take-take zero xs = refl
take-take (suc n) [] = refl
take-take (suc n) (x ∷ xs) = ap (λ ys. x ∷ ys) (take-take n xs)

-- A list that is longer than a number, cut after so many of its elements.
pub take-cut :
    {A : Type 0} (n : ℕ) (xs : List A)
    → n < length xs
    → (ds : List A) × (r : A) × (es : List A) × (take (suc n) xs ≡ ds ++ r ∷ [])
      × (xs ≡ ds ++ r ∷ es)
      × (length es < length xs)
take-cut n [] h = absurd (let f : ⊥ = omega arith in f)
take-cut zero (x ∷ xs) h = ([], x, xs, refl, refl, omega arith)
take-cut (suc n) (x ∷ xs) h =
    let (ds, r, es, taken, whole, shorter) = take-cut n xs (omega arith) in
    (x ∷ ds, r, es, ap (λ ys. x ∷ ys) taken, ap (λ ys. x ∷ ys) whole, omega (arith, shorter))

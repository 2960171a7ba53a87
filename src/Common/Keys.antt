-- ===== src/Common/Keys.antt =====
-- Tables whose rows have distinct keys, under the verbs that change rows.
use Prim.Native.Nat.{ℕ}
use mathlib.Core.Path.{◌≡◌, refl, sym, ap, ◌∙◌}
use mathlib.Core.Logic.{inl, inr}
use mathlib.Core.Bool.{Bool, true, false, ◌||◌}
use mathlib.Core.Option.{some}
use mathlib.Core.List.{List, [], ◌∷◌, ◌++◌}
use native.Mathlib.Omega.{arith}
use mentos_backend.Common.Tests.{if◌then◌else◌, ◌==◌, Bool-cases}
use mentos_backend.Common.Lists.{All, any, first, change}

-- A predicate of all rows after a change, from what held of them before it.
pub All-change {ℓ κ μ} :
    {A : Type ℓ} (P : A → Type κ) (Q : A → Type μ) (p : A → Bool) (f : A → A) (xs : List A)
    → ((x : A) → P x → p x ≡ true → Q (f x))
    → ((x : A) → P x → p x ≡ false → Q x)
    → All P xs
    → All Q (change p f xs)
All-change P Q p f [] changed kept h = tt
All-change {A} P Q p f (x ∷ xs) changed kept h =
    (at_head (p x) refl, All-change P Q p f xs changed kept h.1)
  where
    at_head : (b : Bool) → p x ≡ b → Q (if b then f x else x)
    at_head true e = changed x h.0 e
    at_head false e = kept x h.0 e

pub All-map {ℓ κ μ} :
    {A : Type ℓ} (P : A → Type κ) (Q : A → Type μ) (xs : List A)
    → ((x : A) → P x → Q x)
    → All P xs
    → All Q xs
All-map P Q [] f h = tt
All-map P Q (x ∷ xs) f h = (f x h.0, All-map P Q xs f h.1)

pub All-both {ℓ κ μ} :
    {A : Type ℓ} (P : A → Type κ) (Q : A → Type μ) (xs : List A)
    → All P xs
    → All Q xs
    → All (λ x. P x × Q x) xs
All-both P Q [] h k = tt
All-both P Q (x ∷ xs) h k = ((h.0, k.0), All-both P Q xs h.1 k.1)

pub any-append {ℓ} :
    {A : Type ℓ} (p : A → Bool) (xs ys : List A) → any p (xs ++ ys) ≡ (any p xs || any p ys)
any-append p [] ys = refl
any-append p (x ∷ xs) ys = ground (arith, any-append p xs ys)

module _ {ℓ} {A : Type ℓ} (key : A → ℕ) where
  -- No two rows have the same key.
  abbrev pub Distinct : List A → Type 0
  Distinct [] = Unit
  Distinct (x ∷ xs) = (any (λ y. key y == key x) xs ≡ false) × Distinct xs

  pub any-of_first :
      (p : A → Bool) (a : A) (xs : List A)
      → first p xs ≡ some a
      → any (λ y. key y == key a) xs ≡ true
  any-of_first p a [] h = cc
  any-of_first p a (x ∷ xs) h = elim (Bool-cases (p x)) [
    | inl t ↦ let e : x ≡ a = ground arith in let e' : key x ≡ key a = ap key e in ground arith
    | inr f ↦ let e : first p xs ≡ some a = ground arith in ground (arith, any-of_first p a xs e)
  ]

  other_rows :
      (a : A) (xs : List A)
      → any (λ y. key y == key a) xs ≡ false
      → All (λ x. (key x == key a) ≡ true → x ≡ a) xs
  other_rows a [] h = tt
  other_rows a (x ∷ xs) h = (λ e. ground arith, other_rows a xs (ground arith))

  -- With distinct keys, the row that was found is the only one with its key.
  pub Distinct-first :
      (p : A → Bool) (a : A) (xs : List A)
      → Distinct xs
      → first p xs ≡ some a
      → All (λ x. (key x == key a) ≡ true → x ≡ a) xs
  Distinct-first p a [] d h = tt
  Distinct-first p a (x ∷ xs) d h = elim (Bool-cases (p x)) [
    | inl t ↦
        let e : x ≡ a = ground arith in
        (λ _. e, other_rows a xs (ap (λ k. any (λ y. key y == key k) xs) (sym e) ∙ d.0))
    | inr f ↦
        let e : first p xs ≡ some a = ground arith in
        let used = any-of_first p a xs e in
        (λ k. absurd (clash k used), Distinct-first p a xs d.1 e)
  ]
    where
      clash : (key x == key a) ≡ true → any (λ y. key y == key a) xs ≡ true → ⊥
      clash k used =
          let e : key x ≡ key a = ground arith in
          let none_left : any (λ y. key y == key a) xs ≡ false =
            ap (λ n. any (λ y. key y == n) xs) (sym e) ∙ d.0 in
          cc

  any-change :
      (p : A → Bool) (f : A → A) (n : ℕ) (xs : List A)
      → ((x : A) → key (f x) ≡ key x)
      → any (λ y. key y == n) (change p f xs) ≡ any (λ y. key y == n) xs
  any-change p f n [] same_key = refl
  any-change p f n (x ∷ xs) same_key = ground (arith, same_key x, any-change p f n xs same_key)

  -- A change that leaves the keys alone leaves them distinct.
  pub Distinct-change :
      (p : A → Bool) (f : A → A) (xs : List A)
      → ((x : A) → key (f x) ≡ key x)
      → Distinct xs
      → Distinct (change p f xs)
  Distinct-change p f [] same_key d = tt
  Distinct-change p f (x ∷ xs) same_key d = (at_head (p x), Distinct-change p f xs same_key d.1)
    where
      at_head : (b : Bool) → any (λ y. key y == key (if b then f x else x)) (change p f xs) ≡ false
      at_head true =
          any-change p f (key (f x)) xs same_key
          ∙ ap (λ n. any (λ y. key y == n) xs) (same_key x)
          ∙ d.0
      at_head false = any-change p f (key x) xs same_key ∙ d.0

  pub Distinct-append :
      (a : A) (xs : List A)
      → any (λ y. key y == key a) xs ≡ false
      → Distinct xs
      → Distinct (xs ++ a ∷ [])
  Distinct-append a [] h d = (refl, tt)
  Distinct-append a (x ∷ xs) h d = (
    ground (arith, any-append (λ y. key y == key x) xs (a ∷ [])),
    Distinct-append a xs (ground arith) d.1,
  )

-- The row that was found is found again after a change that the test does not see.
pub first-change {ℓ} :
    {A : Type ℓ} (p q : A → Bool) (f : A → A) (a : A) (xs : List A)
    → ((x : A) → p (f x) ≡ p x)
    → q a ≡ true
    → first p xs ≡ some a
    → first p (change q f xs) ≡ some (f a)
first-change p q f a [] blind chosen h = cc
first-change p q f a (x ∷ xs) blind chosen h = elim (Bool-cases (p x)) [
  | inl t ↦
      let e : x ≡ a = ground arith in
      let e' : q x ≡ true = ap q e ∙ chosen in
      let e'' : f x ≡ f a = ap f e in ground (arith, blind x)
  | inr no_match ↦
      let e : first p xs ≡ some a = ground arith in
      ground (arith, blind x, first-change p q f a xs blind chosen e)
]

-- The same, when the row need not be among those that change.
pub first-change_if {ℓ} :
    {A : Type ℓ} (p q : A → Bool) (f : A → A) (a : A) (xs : List A)
    → ((x : A) → p (f x) ≡ p x)
    → first p xs ≡ some a
    → first p (change q f xs) ≡ some (if q a then f a else a)
first-change_if p q f a [] blind h = cc
first-change_if p q f a (x ∷ xs) blind h = elim (Bool-cases (p x)) [
  | inl t ↦
      let e : x ≡ a = ground arith in
      let e' : (if q x then f x else x) ≡ (if q a then f a else a) =
        ap (λ y. if q y then f y else y) e in
      ground (arith, blind x)
  | inr no_match ↦
      let e : first p xs ≡ some a = ground arith in
      ground (arith, blind x, first-change_if p q f a xs blind e)
]

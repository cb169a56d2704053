-- ===== src/Base/Counts.antt =====
-- How often a test passes in a list, and which elements it then leaves possible.
use Prim.Native.Nat.{ℕ, zero, suc, ◌+◌, ◌-◌, ◌≤◌}
use mathlib.Core.Path.{◌≡◌, refl, ap, subst}
use mathlib.Core.Logic.{inl, inr}
use mathlib.Core.Bool.{Bool, true, false, ◌&&◌, ◌||◌}
use mathlib.Core.List.{List, [], ◌∷◌, ◌++◌, map}
use mathlib.Core.Option.{some}
use native.Mathlib.Omega.{arith}
use cloud_commitment_portfol.Base.Tests.{if◌then◌else◌, Bool-cases, some_inj}
use cloud_commitment_portfol.Base.Lists.{count, any, find?, take, filter, length, All, All-weaken}

module _ {ℓ κ ι} {A : Type ℓ} (P : A → Type κ) (Q : A → Type ι) where
  pub All-zip : (xs : List A) → All P xs → All Q xs → All (λ x. P x × Q x) xs
  All-zip [] h k = tt
  All-zip (x ∷ xs) (p, h) (q, k) = ((p, q), All-zip xs h k)

module _ {ℓ κ} {A : Type ℓ} {P : A → Type κ} where
  pub All-each : ((x : A) → P x) → (xs : List A) → All P xs
  All-each f [] = tt
  All-each f (x ∷ xs) = (f x, All-each f xs)

module _ {ℓ κ} {A : Type ℓ} (P : A → Type κ) where
  pub All-take : (n : ℕ) (xs : List A) → All P xs → All P (take n xs)
  All-take zero xs h = tt
  All-take (suc n) [] h = tt
  All-take (suc n) (x ∷ xs) (p, h) = (p, All-take n xs h)

  pub All-find? : (p : A → Bool) (xs : List A) {a : A} → All P xs → find? p xs ≡ some a → P a
  All-find? p [] h e = absurd (cc)
  All-find? p (x ∷ xs) (q, h) e = elim (Bool-cases (p x)) [
    | inl t ↦ subst P (some_inj (rw t at e)) q
    | inr t ↦ All-find? p xs h (rw t at e)
  ]

module _ {ℓ κ} {A : Type ℓ} (F : A → A → Type κ) where
  -- Each element satisfies what every value makes of the elements, at itself.
  pub All-diagonal : (xs : List A) → ((a : A) → All (F a) xs) → All (λ a. F a a) xs
  All-diagonal [] f = tt
  All-diagonal (x ∷ xs) f = ((f x).0, All-diagonal xs (λ a. (f a).1))

module _ {ℓ κ ι} {A : Type ℓ} {B : Type κ} (P : B → Type ι) where
  pub All-map : (f : A → B) (xs : List A) → All (λ x. P (f x)) xs → All P (map f xs)
  All-map f [] h = tt
  All-map f (x ∷ xs) (p, h) = (p, All-map f xs h)

module _ {ℓ κ} {A : Type ℓ} {B : Type κ} where
  pub map_congr : (f g : A → B) (xs : List A) → All (λ x. f x ≡ g x) xs → map f xs ≡ map g xs
  map_congr f g [] h = refl
  map_congr f g (x ∷ xs) (e, h) = rw (e, map_congr f g xs h) refl

  pub count-map :
      (q : B → Bool) (f : A → B) (xs : List A) → count q (map f xs) ≡ count (λ x. q (f x)) xs
  count-map q f [] = refl
  count-map q f (x ∷ xs) = ap (λ n. (if q (f x) then 1 else 0) + n) (count-map q f xs)

module _ {ℓ} {A : Type ℓ} where
  pub filter_congr :
      (p q : A → Bool) (xs : List A) → All (λ x. p x ≡ q x) xs → filter p xs ≡ filter q xs
  filter_congr p q [] h = refl
  filter_congr p q (x ∷ xs) (e, h) = rw (e, filter_congr p q xs h) refl

  pub any-find? : (p : A → Bool) (xs : List A) → any p xs ≡ true → (a : A) × (find? p xs ≡ some a)
  any-find? p [] h = absurd (cc)
  any-find? p (x ∷ xs) h = elim (Bool-cases (p x)) [
    | inl e ↦ (x, rw e refl)
    | inr e ↦
        let rest : any p xs ≡ true = ground arith in let (a, f) = any-find? p xs rest in (a, rw e f)
  ]

  -- What a search finds passes every test that it passes itself.
  pub find?-any :
      (p q : A → Bool) (xs : List A) {a : A} → find? p xs ≡ some a → q a ≡ true → any q xs ≡ true
  find?-any p q [] h e = absurd (cc)
  find?-any p q (x ∷ xs) h e = elim (Bool-cases (p x)) [
    | inl t ↦ let first : q x ≡ true = rw (some_inj (rw t at h)) e in ground arith
    | inr t ↦ let rest = find?-any p q xs (rw t at h) e in ground arith
  ]

  pub All-any : (q : A → Bool) (xs : List A) → All (λ x. q x ≡ false) xs → any q xs ≡ false
  All-any q [] h = refl
  All-any q (x ∷ xs) (e, h) = let rest = All-any q xs h in ground arith

  pub any-count : (q : A → Bool) (xs : List A) → any q xs ≡ false → count q xs ≡ 0
  any-count q [] h = refl
  any-count q (x ∷ xs) h = grind (arith, any-count q xs)

  pub count_zero-All : (q : A → Bool) (xs : List A) → count q xs ≡ 0 → All (λ x. q x ≡ false) xs
  count_zero-All q [] h = tt
  count_zero-All q (x ∷ xs) h = (ground arith, count_zero-All q xs (ground arith))

  pub find?-count :
      (p q : A → Bool) (xs : List A) {a : A} → find? p xs ≡ some a → q a ≡ true → 1 ≤ count q xs
  find?-count p q [] h e = absurd (cc)
  find?-count p q (x ∷ xs) h e = elim (Bool-cases (p x)) [
    | inl t ↦ let first : q x ≡ true = rw (some_inj (rw t at h)) e in ground arith
    | inr t ↦ let rest = find?-count p q xs (rw t at h) e in ground arith
  ]

  pub count-append : (q : A → Bool) (xs ys : List A) → count q (xs ++ ys) ≡ count q xs + count q ys
  count-append q [] ys = omega arith
  count-append q (x ∷ xs) ys = omega (arith, count-append q xs ys)

  pub count-le :
      (p q : A → Bool) (xs : List A)
      → All (λ x. p x ≡ true → q x ≡ true) xs
      → count p xs ≤ count q xs
  count-le p q [] h = omega arith
  count-le p q (x ∷ xs) (e, h) = let rest = count-le p q xs h in ground arith

  pub count_congr :
      (p q : A → Bool) (xs : List A) → All (λ x. p x ≡ q x) xs → count p xs ≡ count q xs
  count_congr p q [] h = refl
  count_congr p q (x ∷ xs) (e, h) = rw (e, count_congr p q xs h) refl

  -- Two tests that exclude each other.
  pub count_add :
      (p q : A → Bool) (xs : List A)
      → All (λ x. p x ≡ true → q x ≡ false) xs
      → count (λ x. p x || q x) xs ≡ count p xs + count q xs
  count_add p q [] h = omega arith
  count_add p q (x ∷ xs) (e, h) = let rest = count_add p q xs h in ground arith

  pub count-filter :
      (p q : A → Bool) (xs : List A) → count q (filter p xs) ≡ count (λ x. p x && q x) xs
  count-filter p q [] = refl
  count-filter p q (x ∷ xs) = let rest = count-filter p q xs in ground arith

  pub count-take : (q : A → Bool) (n : ℕ) (xs : List A) → count q (take n xs) ≤ count q xs
  count-take q zero xs = omega arith
  count-take q (suc n) [] = omega arith
  count-take q (suc n) (x ∷ xs) = omega (arith, count-take q n xs)

  -- Where a test passes at most once, the elements that pass it are one.
  pub count_le_one-alike :
      (q : A → Bool) (xs : List A)
      → count q xs ≤ 1
      → All (λ a. q a ≡ true → All (λ b. q b ≡ true → a ≡ b) xs) xs
  count_le_one-alike q [] h = tt
  count_le_one-alike q (x ∷ xs) h = elim (Bool-cases (q x)) [
    | inl e ↦
        let others = count_zero-All q xs (ground arith) in
        (
          (λ _. ((λ _. refl), All-weaken (λ b f t. absurd (cc)) xs others)),
          All-weaken (λ b f t. absurd (cc)) xs others,
        )
    | inr e ↦ (
      (λ t. absurd (cc)),
      All-weaken (λ a f t. ((λ s. absurd (cc)), f t)) xs (count_le_one-alike q xs (ground arith)),
    )
  ]

module _ {ℓ} {A : Type ℓ} where
  -- A test that takes a value beside the element, and passes at most once for each value.
  pub count_le_one-only :
      (q : A → A → Bool) (xs : List A)
      → ((a : A) → count (q a) xs ≤ 1)
      → All (λ a. q a a ≡ true → All (λ b. q a b ≡ true → a ≡ b) xs) xs
  count_le_one-only q xs h =
      All-diagonal (λ a c. q a c ≡ true → All (λ b. q a b ≡ true → c ≡ b) xs) xs
        (λ a. count_le_one-alike (q a) xs (h a))

  pub any-passes : (q : A → Bool) (xs : List A) → All (λ x. q x ≡ true → any q xs ≡ true) xs
  any-passes q [] = tt
  any-passes q (x ∷ xs) =
      ((λ e. rw e refl), All-weaken (λ y f e. let rest = f e in ground arith) xs (any-passes q xs))

  -- An element that passes a test is counted.
  pub count-counts : (q : A → Bool) (xs : List A) → All (λ x. q x ≡ true → 1 ≤ count q xs) xs
  count-counts q [] = tt
  count-counts q (x ∷ xs) =
      ((λ e. ground arith), All-weaken (λ y f e. omega (arith, f e)) xs (count-counts q xs))

  pub sub-length-take : (n : ℕ) (xs : List A) → length xs - length (take n xs) ≡ length xs - n
  sub-length-take zero xs = refl
  sub-length-take (suc n) [] = omega arith
  sub-length-take (suc n) (x ∷ xs) = omega (arith, sub-length-take n xs)

pub implied-eq : (a b : Bool) → (a ≡ true → b ≡ true) → (b ≡ true → a ≡ true) → a ≡ b
implied-eq a b f g = ground arith

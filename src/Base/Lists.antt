-- ===== src/Base/Lists.antt =====
-- Lists measured and indexed by native numbers, and filtered by Boolean tests.
use Prim.Native.Nat.{ℕ, zero, suc, ◌+◌, ◌≤◌}
use mathlib.Core.Path.{◌≡◌, refl, ap, subst}
use mathlib.Core.Logic.{inl, inr}
use mathlib.Core.Bool.{Bool, true, false, ◌&&◌, ◌||◌}
use mathlib.Core.List.{List, [], ◌∷◌, ◌++◌, map}
use mathlib.Core.Option.{Option, none, some}
use native.Mathlib.Omega.{arith}
use cloud_commitment_portfol.Base.Tests.{if◌then◌else◌, Bool-cases, some_inj, ◌>>=◌}

module _ {ℓ} {A : Type ℓ} where
  abbrev pub length : List A → ℕ
  length [] = 0
  length (x ∷ xs) = suc (length xs)

  abbrev pub get_elem? : List A → ℕ → Option A
  get_elem? [] i = none
  get_elem? (x ∷ xs) zero = some x
  get_elem? (x ∷ xs) (suc i) = get_elem? xs i

  abbrev pub get_or : List A → ℕ → A → A
  get_or [] i d = d
  get_or (x ∷ xs) zero d = x
  get_or (x ∷ xs) (suc i) d = get_or xs i d

  abbrev pub take : ℕ → List A → List A
  take zero xs = []
  take (suc n) [] = []
  take (suc n) (x ∷ xs) = x ∷ take n xs

  abbrev pub drop : ℕ → List A → List A
  drop zero xs = xs
  drop (suc n) [] = []
  drop (suc n) (x ∷ xs) = drop n xs

  abbrev pub replicate : ℕ → A → List A
  replicate zero a = []
  replicate (suc n) a = a ∷ replicate n a

  abbrev pub head? : List A → Option A
  head? [] = none
  head? (x ∷ xs) = some x

  -- `xs.at(-1)`
  abbrev pub get_last? : List A → Option A
  get_last? [] = none
  get_last? (x ∷ []) = some x
  get_last? (x ∷ y ∷ xs) = get_last? (y ∷ xs)

  abbrev pub filter : (A → Bool) → List A → List A
  filter p [] = []
  filter p (x ∷ xs) = if p x then x ∷ filter p xs else filter p xs

  abbrev pub count : (A → Bool) → List A → ℕ
  count p [] = 0
  count p (x ∷ xs) = (if p x then 1 else 0) + count p xs

  abbrev pub any : (A → Bool) → List A → Bool
  any p [] = false
  any p (x ∷ xs) = p x || any p xs

  abbrev pub all : (A → Bool) → List A → Bool
  all p [] = true
  all p (x ∷ xs) = p x && all p xs

  abbrev pub find? : (A → Bool) → List A → Option A
  find? p [] = none
  find? p (x ∷ xs) = if p x then some x else find? p xs

  pub length-append : (xs ys : List A) → length (xs ++ ys) ≡ length xs + length ys
  length-append [] ys = omega arith
  length-append (x ∷ xs) ys = omega (arith, length-append xs ys)

  pub filter-cons_true :
      (p : A → Bool) (x : A) (xs : List A) → p x ≡ true → filter p (x ∷ xs) ≡ x ∷ filter p xs
  filter-cons_true p x xs h = rw h

  pub filter-cons_false :
      (p : A → Bool) (x : A) (xs : List A) → p x ≡ false → filter p (x ∷ xs) ≡ filter p xs
  filter-cons_false p x xs h = rw h

  pub length-filter : (p : A → Bool) (xs : List A) → length (filter p xs) ≡ count p xs
  length-filter p [] = refl
  length-filter p (x ∷ xs) = ground (arith, length-filter p xs)

  pub count_le_length : (p : A → Bool) (xs : List A) → count p xs ≤ length xs
  count_le_length p [] = omega arith
  count_le_length p (x ∷ xs) = ground (arith, count_le_length p xs)

-- The elements of a list all satisfy `P`; a computed value that no element is left out of.
module _ {ℓ κ} {A : Type ℓ} where
  abbrev pub All : (A → Type κ) → List A → Type κ
  All P [] = Unit
  All P (x ∷ xs) = P x × All P xs

  pub All-append : (P : A → Type κ) (xs ys : List A) → All P xs → All P ys → All P (xs ++ ys)
  All-append P [] ys _ k = k
  All-append P (x ∷ xs) ys (p, h) k = (p, All-append P xs ys h k)

  pub All-append_back : (P : A → Type κ) (xs ys : List A) → All P (xs ++ ys) → All P xs × All P ys
  All-append_back P [] ys h = (tt, h)
  All-append_back P (x ∷ xs) ys (p, h) =
      let (before, after) = All-append_back P xs ys h in ((p, before), after)

  pub All-head? : (P : A → Type κ) (xs : List A) {x : A} → All P xs → head? xs ≡ some x → P x
  All-head? P [] h e = absurd (cc)
  All-head? P (y ∷ xs) (p, h) e = subst P (some_inj e) p

module _ {ℓ κ ι} {A : Type ℓ} {P : A → Type κ} {Q : A → Type ι} where
  pub All-weaken : ((x : A) → P x → Q x) → (xs : List A) → All P xs → All Q xs
  All-weaken f [] h = tt
  All-weaken f (x ∷ xs) (p, h) = (f x p, All-weaken f xs h)

module _ {ℓ κ} {A : Type ℓ} (P : A → Type κ) (p : A → Bool) where
  -- What holds of every element holds of those that a filter keeps, and these pass its test.
  pub All-filter : (xs : List A) → All P xs → All (λ x. P x × (p x ≡ true)) (filter p xs)
  All-filter [] h = tt
  All-filter (x ∷ xs) (q, h) = elim (Bool-cases (p x)) [
    | inl e ↦ rw e ((q, e), All-filter xs h)
    | inr e ↦ rw e (All-filter xs h)
  ]

  -- What holds of the kept elements holds of every element that passes the test.
  pub All-filter_back : (xs : List A) → All P (filter p xs) → All (λ x. p x ≡ true → P x) xs
  All-filter_back [] h = tt
  All-filter_back (x ∷ xs) h = elim (Bool-cases (p x)) [
    | inl e ↦
        let (q, r) = let h' : P x × All P (filter p xs) = rw e at h in h' in
        ((λ _. q), All-filter_back xs r)
    | inr e ↦ ((λ t. absurd (cc)), All-filter_back xs (rw e at h))
  ]

module _ {ℓ κ} {A : Type ℓ} {B : Type κ} where
  pub length-map : (f : A → B) (xs : List A) → length (map f xs) ≡ length xs
  length-map f [] = refl
  length-map f (x ∷ xs) = ap suc (length-map f xs)

  -- `map` and `flatMap` with a body that may throw.
  abbrev pub map_throws : (A → Option B) → List A → Option (List B)
  map_throws f [] = some []
  map_throws f (x ∷ xs) = do y ← f x; ys ← map_throws f xs; some (y ∷ ys)

  pub length-map_throws :
      (f : A → Option B) (xs : List A) {ys : List B}
      → map_throws f xs ≡ some ys
      → length ys ≡ length xs
  length-map_throws f [] h = ground arith
  length-map_throws f (x ∷ xs) h = grind (arith, length-map_throws f xs)

module _ {ℓ} {A : Type ℓ} where
  pub find?-append :
      (p : A → Bool) (xs ys : List A) {x : A} → find? p xs ≡ some x → find? p (xs ++ ys) ≡ some x
  find?-append p [] ys h = absurd (cc)
  find?-append p (y ∷ xs) ys h = elim (Bool-cases (p y)) [
    | inl e ↦ rw e (rw e at h)
    | inr e ↦ rw e (find?-append p xs ys (rw e at h))
  ]

  -- A change that the test does not see moves through the search.
  pub find?-map :
      (p : A → Bool) (f : A → A)
      → ((x : A) → p (f x) ≡ p x)
      → (xs : List A) {x : A} → find? p xs ≡ some x
      → find? p (map f xs) ≡ some (f x)
  find?-map p f keeps [] h = absurd (cc)
  find?-map p f keeps (y ∷ xs) h = elim (Bool-cases (p y)) [
    | inl e ↦ rw (keeps y, e) (ap some (ap f (some_inj (rw e at h))))
    | inr e ↦ rw (keeps y, e) (find?-map p f keeps xs (rw e at h))
  ]

  pub find?-sound : (p : A → Bool) (xs : List A) {x : A} → find? p xs ≡ some x → p x ≡ true
  find?-sound p [] h = absurd (cc)
  find?-sound p (y ∷ xs) h = elim (Bool-cases (p y)) [
    | inl e ↦ subst (λ x. p x ≡ true) (some_inj (rw e at h)) e
    | inr e ↦ find?-sound p xs (rw e at h)
  ]

-- ===== src/Base/Slices.antt =====
-- Pieces of lists: what `take` and `drop` leave, the last element, and filters that keep all or none.
use Prim.Native.Nat.{ℕ, zero, suc, ◌-◌, ◌≤◌, ◌<◌}
use mathlib.Core.Path.{◌≡◌, refl, sym, ap, ◌∙◌}
use mathlib.Core.Logic.{inl, inr}
use mathlib.Core.Bool.{Bool, true, false, ◌&&◌}
use mathlib.Core.List.{List, [], ◌∷◌, ◌++◌, append_assoc}
use mathlib.Core.Option.{some}
use native.Mathlib.Omega.{arith}
use cloud_commitment_portfol.Base.Tests.{ltb, Bool-cases}
use cloud_commitment_portfol.Base.Lists.{length, take, drop, get_last?, filter, All}

module _ {ℓ} {A : Type ℓ} where
  pub take-append_drop : (n : ℕ) (xs : List A) → take n xs ++ drop n xs ≡ xs
  take-append_drop zero xs = refl
  take-append_drop (suc n) [] = refl
  take-append_drop (suc n) (x ∷ xs) = ap (λ ys. x ∷ ys) (take-append_drop n xs)

  pub length-drop : (n : ℕ) (xs : List A) → length (drop n xs) ≡ length xs - n
  length-drop zero xs = omega arith
  length-drop (suc n) [] = omega arith
  length-drop (suc n) (x ∷ xs) = omega (arith, length-drop n xs)

  pub take-take-suc : (n : ℕ) (xs : List A) → take n (take (suc n) xs) ≡ take n xs
  take-take-suc zero xs = refl
  take-take-suc (suc n) [] = refl
  take-take-suc (suc n) (x ∷ xs) = ap (λ ys. x ∷ ys) (take-take-suc n xs)

  pub take_all : (n : ℕ) (xs : List A) → length xs ≤ n → take n xs ≡ xs
  take_all zero [] h = refl
  take_all zero (x ∷ xs) h = absurd (omega arith)
  take_all (suc n) [] h = refl
  take_all (suc n) (x ∷ xs) h = ap (λ ys. x ∷ ys) (take_all n xs (omega arith))

  -- One element more than `n` is there to be taken exactly if the list is longer than `n`.
  pub ltb-length-take-suc :
      (n : ℕ) (xs : List A) → ltb n (length (take (suc n) xs)) ≡ ltb n (length xs)
  ltb-length-take-suc zero [] = refl
  ltb-length-take-suc zero (x ∷ xs) = ground arith
  ltb-length-take-suc (suc n) [] = refl
  ltb-length-take-suc (suc n) (x ∷ xs) = ground (arith, ltb-length-take-suc n xs)

  -- A list that is not empty ends in its last element.
  get_last?-ends :
      (x : A) (xs : List A)
      → (ys : List A) × (z : A) × (x ∷ xs ≡ ys ++ z ∷ []) × (get_last? (x ∷ xs) ≡ some z)
  get_last?-ends x [] = ([], x, refl, refl)
  get_last?-ends x (y ∷ xs) =
      let (ys, z, e, f) = get_last?-ends y xs in (x ∷ ys, z, ap (λ zs. x ∷ zs) e, f)

  take-not_empty :
      (n : ℕ) (xs : List A) → 1 ≤ n → n < length xs → (x : A) × (ys : List A) × (take n xs ≡ x ∷ ys)
  take-not_empty zero xs h k = absurd (omega arith)
  take-not_empty (suc n) [] h k = absurd (omega arith)
  take-not_empty (suc n) (x ∷ xs) h k = (x, take n xs, refl)

  -- Where more than `n` elements are there, the first `n` end in one, and the rest follows it.
  pub take-ends :
      (n : ℕ) (xs : List A)
      → 1 ≤ n
      → n < length xs
      → (ys : List A) × (z : A) × (xs ≡ ys ++ z ∷ drop n xs) × (get_last? (take n xs) ≡ some z)
  take-ends n xs h k =
      let (x, rest, t) = take-not_empty n xs h k in
      let (ys, z, e, last) = get_last?-ends x rest in
      (
        ys,
        z,
        sym (take-append_drop n xs)
            ∙ ap (λ zs. zs ++ drop n xs) (t ∙ e)
            ∙ append_assoc ys (z ∷ []) (drop n xs),
        ap get_last? t ∙ last,
      )

  pub filter-append :
      (p : A → Bool) (xs ys : List A) → filter p (xs ++ ys) ≡ filter p xs ++ filter p ys
  filter-append p [] ys = refl
  filter-append p (x ∷ xs) ys = elim (Bool-cases (p x)) [
    | inl e ↦ rw (e, filter-append p xs ys) refl
    | inr e ↦ rw (e, filter-append p xs ys) refl
  ]

  pub filter_none : (p : A → Bool) (xs : List A) → All (λ x. p x ≡ false) xs → filter p xs ≡ []
  filter_none p [] h = refl
  filter_none p (x ∷ xs) (e, h) = rw e (filter_none p xs h)

  pub filter_each : (p : A → Bool) (xs : List A) → All (λ x. p x ≡ true) xs → filter p xs ≡ xs
  filter_each p [] h = refl
  filter_each p (x ∷ xs) (e, h) = rw (e, filter_each p xs h) refl

  pub filter-filter :
      (p q : A → Bool) (xs : List A) → filter (λ x. p x && q x) xs ≡ filter q (filter p xs)
  filter-filter p q [] = refl
  filter-filter p q (x ∷ xs) = elim (Bool-cases (p x)) [
    | inl e ↦ elim (Bool-cases (q x)) [
      | inl f ↦ rw (e, f, filter-filter p q xs) refl
      | inr f ↦ rw (e, f, filter-filter p q xs) refl
    ]
    | inr e ↦ rw (e, filter-filter p q xs) refl
  ]

-- ===== src/Base/Sort.antt =====
-- `Array.prototype.sort` with a comparator: a stable sort, here by insertion. What it returns is
-- determined by its laws, so how the engine sorts does not matter.
use Prim.Native.Nat.{suc, ◌+◌}
use mathlib.Core.Path.{◌≡◌, refl, sym, ap, ◌∙◌}
use mathlib.Core.Logic.{◌⊎◌, inl, inr}
use mathlib.Core.Bool.{Bool, true, false}
use mathlib.Core.List.{List, [], ◌∷◌, ◌++◌, map}
use native.Mathlib.Omega.{arith}
use cloud_commitment_portfol.Base.Tests.{if◌then◌else◌, Bool-cases}
use cloud_commitment_portfol.Base.Lists.{
  length, count, filter, filter-cons_true, All, All-weaken, All-filter, All-append_back,
}
use cloud_commitment_portfol.Base.Counts.{All-zip, All-each}
use cloud_commitment_portfol.Base.Int.{
  ℤ, pos, ◌+ℤ◌, sum, int_laws, negsuc, ◌≤ℤ◌, leb_ℤ, ltb_ℤ, eqb_ℤ,
}

module _ {ℓ} {A : Type ℓ} (cmp : A → A → ℤ) where
  -- Among elements that compare equal the earlier one stays first.
  pub insert : A → List A → List A
  insert x [] = x ∷ []
  insert x (y ∷ ys) = if leb_ℤ (cmp x y) (pos 0) then x ∷ y ∷ ys else y ∷ insert x ys

  unfoldable pub sort : List A → List A
  unfolding insert
  sort [] = []
  sort (x ∷ xs) = insert x (sort xs)

  -- `x` may stand before `y`.
  abbrev pub Before : A → A → Type 0
  Before x y = cmp x y ≤ℤ pos 0

  abbrev pub IsSorted : List A → Type 0
  IsSorted [] = Unit
  IsSorted (x ∷ xs) = All (Before x) xs × IsSorted xs

-- What the comparators of the source satisfy.
pub record IsOrder {ℓ} {A : Type ℓ} (cmp : A → A → ℤ) : Type ℓ where
  pub total : (x y : A) → (Before cmp x y) ⊎ (Before cmp y x)
  pub transitive : (x y z : A) → Before cmp x y → Before cmp y z → Before cmp x z

module _ {ℓ} {A : Type ℓ} (cmp : A → A → ℤ) where
  count-insert :
      (p : A → Bool) (x : A) (ys : List A)
      → count p (insert cmp x ys) ≡ (if p x then 1 else 0) + count p ys
  unfolding insert
  count-insert p x [] = omega arith
  count-insert p x (y ∷ ys) = ground (arith, count-insert p x ys)

  -- Sorting keeps how often each test passes: the elements and how often they occur.
  pub count-sort : (p : A → Bool) (xs : List A) → count p (sort cmp xs) ≡ count p xs
  unfolding sort
  count-sort p [] = refl
  count-sort p (x ∷ xs) = omega (arith, count-insert p x (sort cmp xs), count-sort p xs)

  length-insert : (x : A) (ys : List A) → length (insert cmp x ys) ≡ suc (length ys)
  unfolding insert
  length-insert x [] = refl
  length-insert x (y ∷ ys) = ground (arith, length-insert x ys)

  pub length-sort : (xs : List A) → length (sort cmp xs) ≡ length xs
  unfolding sort
  length-sort [] = refl
  length-sort (x ∷ xs) = omega (arith, length-insert x (sort cmp xs), length-sort xs)

  sum-insert :
      (f : A → ℤ) (x : A) (ys : List A) → sum (map f (insert cmp x ys)) ≡ f x +ℤ sum (map f ys)
  unfolding insert
  sum-insert f x [] = refl
  sum-insert f x (y ∷ ys) = elim (Bool-cases (leb_ℤ (cmp x y) (pos 0))) [
    | inl e ↦ rw e refl
    | inr e ↦ rw (e, sum-insert f x ys) (omega int_laws)
  ]

  -- Sorting keeps every sum over the elements.
  pub sum-sort : (f : A → ℤ) (xs : List A) → sum (map f (sort cmp xs)) ≡ sum (map f xs)
  unfolding sort
  sum-sort f [] = refl
  sum-sort f (x ∷ xs) = sum-insert f x (sort cmp xs) ∙ ap (λ s. f x +ℤ s) (sum-sort f xs)

  module _ {κ} (P : A → Type κ) where
    All-insert : (x : A) (ys : List A) → P x → All P ys → All P (insert cmp x ys)
    unfolding insert
    All-insert x [] p h = (p, tt)
    All-insert x (y ∷ ys) p (q, h) = elim (Bool-cases (leb_ℤ (cmp x y) (pos 0))) [
      | inl e ↦ rw e (p, (q, h))
      | inr e ↦ rw e (q, All-insert x ys p h)
    ]

    -- What holds of every element holds after the sort.
    pub All-sort : (xs : List A) → All P xs → All P (sort cmp xs)
    unfolding sort
    All-sort [] h = tt
    All-sort (x ∷ xs) (p, h) = All-insert x (sort cmp xs) p (All-sort xs h)

    All-insert_back : (x : A) (ys : List A) → All P (insert cmp x ys) → P x × All P ys
    unfolding insert
    All-insert_back x [] h = h
    All-insert_back x (y ∷ ys) h = elim (Bool-cases (leb_ℤ (cmp x y) (pos 0))) [
      | inl e ↦ rw e at h
      | inr e ↦
          let (q, r) = let h' : P y × All P (insert cmp x ys) = rw e at h in h' in
          let (p, s) = All-insert_back x ys r in (p, (q, s))
    ]

    pub All-sort_back : (xs : List A) → All P (sort cmp xs) → All P xs
    unfolding sort
    All-sort_back [] h = tt
    All-sort_back (x ∷ xs) h =
        let (p, r) = All-insert_back x (sort cmp xs) h in (p, All-sort_back xs r)

  module _ (order : IsOrder cmp) where
    Before-All :
        (x y : A) (ys : List A) → Before cmp x y → All (Before cmp y) ys → All (Before cmp x) ys
    Before-All x y [] b h = tt
    Before-All x y (z ∷ ys) b (c, h) = (order.transitive x y z b c, Before-All x y ys b h)

    insert-IsSorted : (x : A) (ys : List A) → IsSorted cmp ys → IsSorted cmp (insert cmp x ys)
    unfolding insert
    insert-IsSorted x [] h = (tt, tt)
    insert-IsSorted x (y ∷ ys) (a, h) = elim (Bool-cases (leb_ℤ (cmp x y) (pos 0))) [
      | inl e ↦ rw e ((ground arith, Before-All x y ys (ground arith) a), (a, h))
      | inr e ↦ rw e (All-insert (Before cmp y) x ys (after e) a, insert-IsSorted x ys h)
    ]
      where
        after : leb_ℤ (cmp x y) (pos 0) ≡ false → Before cmp y x
        after e = elim (order.total x y) [ inl b ↦ absurd (ground arith) | inr b ↦ b ]

    pub sort-IsSorted : (xs : List A) → IsSorted cmp (sort cmp xs)
    unfolding sort
    sort-IsSorted [] = tt
    sort-IsSorted (x ∷ xs) = insert-IsSorted x (sort cmp xs) (sort-IsSorted xs)

-- A filter after the sort is the sort after the filter.
module _ {ℓ} {A : Type ℓ} (cmp : A → A → ℤ) (order : IsOrder cmp) (p : A → Bool) where
  insert-first : (x : A) (ys : List A) → All (Before cmp x) ys → insert cmp x ys ≡ x ∷ ys
  unfolding insert
  insert-first x [] h = refl
  insert-first x (y ∷ ys) (b, h) =
      let e : leb_ℤ (cmp x y) (pos 0) ≡ true = ground arith in rw e refl

  All-filtered : (x : A) (ys : List A) → All (Before cmp x) ys → All (Before cmp x) (filter p ys)
  All-filtered x ys h = All-weaken (λ y k. k.0) (filter p ys) (All-filter (Before cmp x) p ys h)

  filter-insert :
      (x : A) (ys : List A)
      → IsSorted cmp ys
      → p x ≡ true
      → filter p (insert cmp x ys) ≡ insert cmp x (filter p ys)
  unfolding insert
  filter-insert x [] h e = rw e refl
  filter-insert x (y ∷ ys) (a, h) e = elim (Bool-cases (leb_ℤ (cmp x y) (pos 0))) [
    | inl t ↦
        let after : All (Before cmp x) (y ∷ ys) =
          (ground arith, Before-All cmp order x y ys (ground arith) a) in
        rw t (
          filter-cons_true p x (y ∷ ys) e
          ∙ sym (insert-first x (filter p (y ∷ ys)) (All-filtered x (y ∷ ys) after)))
    | inr t ↦ elim (Bool-cases (p y)) [
      | inl k ↦ rw (t, k, t, filter-insert x ys h e) refl
      | inr k ↦ rw (t, k) (filter-insert x ys h e)
    ]
  ]

  filter-insert_other :
      (x : A) (ys : List A) → p x ≡ false → filter p (insert cmp x ys) ≡ filter p ys
  unfolding insert
  filter-insert_other x [] e = rw e refl
  filter-insert_other x (y ∷ ys) e = elim (Bool-cases (leb_ℤ (cmp x y) (pos 0))) [
    | inl t ↦ rw (t, e) refl
    | inr t ↦ rw (t, filter-insert_other x ys e) refl
  ]

  pub filter-sort : (xs : List A) → filter p (sort cmp xs) ≡ sort cmp (filter p xs)
  unfolding sort
  filter-sort [] = refl
  filter-sort (x ∷ xs) = elim (Bool-cases (p x)) [
    | inl e ↦
        rw (filter-insert x (sort cmp xs) (sort-IsSorted cmp order xs) e, filter-sort xs, e) refl
    | inr e ↦ rw (filter-insert_other x (sort cmp xs) e, filter-sort xs, e) refl
  ]

-- In a sorted list what stands before an element may, and what stands after it comes after.
module _ {ℓ} {A : Type ℓ} (cmp : A → A → ℤ) where
  pub IsSorted-around :
      (ws : List A) (z : A) (ys : List A)
      → IsSorted cmp (ws ++ z ∷ ys)
      → All (λ w. Before cmp w z) ws × All (Before cmp z) ys
  IsSorted-around [] z ys (a, h) = (tt, a)
  IsSorted-around (w ∷ ws) z ys (a, h) =
      let (before, after) = IsSorted-around ws z ys h in
      let (_, (b, _)) = All-append_back (Before cmp w) ws (z ∷ ys) a in ((b, before), after)

  pub IsSorted-split :
      (xs ys : List A) → IsSorted cmp (xs ++ ys) → All (λ y. All (λ x. Before cmp x y) xs) ys
  IsSorted-split [] ys h = All-each (λ y. tt) ys
  IsSorted-split (x ∷ xs) ys (a, h) =
      All-zip (Before cmp x) (λ y. All (λ x. Before cmp x y) xs) ys
        (All-append_back (Before cmp x) xs ys a).1 (IsSorted-split xs ys h)

-- `sortBigInt` of optimizer-worker.ts.
unfoldable pub sort_big_int : ℤ → ℤ → ℤ
sort_big_int left right =
    if eqb_ℤ left right then pos 0 else if ltb_ℤ right left then pos 1 else negsuc 0

pub sort_big_int-IsOrder : IsOrder sort_big_int
unfolding sort_big_int
sort_big_int-IsOrder = record {
  total = λ x y. ground arith;
  transitive = λ x y z b c. ground arith;
}

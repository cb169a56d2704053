-- ===== src/RateLimit/Window.antt =====
-- The bound of a rolling window, for every limiter that decides by one bucket of times: what a
-- request may do to the bucket, and that the admissions of any sequence of requests stay below
-- the limit in every window.
use cloud_commitment_portfol.Base.{
  ℕ, ◌+◌, ◌≤◌, ◌<◌, ◌≡◌, refl, Bool, true, false, ◌&&◌, List, [], ◌∷◌, ◌++◌, length, count, All,
  leb, if◌then◌else◌, Bool-cases, length-filter, arith, inl, inr,
}
use cloud_commitment_portfol.RateLimit.{live, current}

-- A half-open window: the admissions after `t - window` and up to `t`.
abbrev pub within : ℕ → ℕ → ℕ → Bool
within window t x = live window t x && leb x t

-- What a request at `now` does to a bucket, and whether it is an admission of this bucket.
pub data Effect (window limit now : ℕ) : List ℕ → List ℕ → Bool → Type 0 where
  untouched : (times : List ℕ) → Effect window limit now times times false
  purged : (times : List ℕ) → Effect window limit now times (current window now times) false
  recorded :
      (times : List ℕ)
      → length (current window now times) < limit
      → Effect window limit now times (current window now times ++ now ∷ []) true

-- A limiter as its clients see it: the requests, and the bucket that one of its keys has.
pub record WindowLimiter (S Q : Type 0) (window limit : ℕ) : Type 1 where
  pub time : Q → ℕ
  pub next : Q → S → S
  pub admits : Q → S → Bool
  pub times : S → List ℕ
  pub Fits : Q → Type 0
  pub effect :
      (q : Q) (s : S)
      → Fits q
      → Effect window limit (time q) (times s) (times (next q s)) (admits q s)

-- The clock never goes back.
abbrev pub Ordered : {Q : Type 0} → (Q → ℕ) → ℕ → List Q → Type 0
Ordered time last [] = Unit
Ordered time last (q ∷ qs) = (last ≤ time q) × Ordered time (time q) qs

pub count-append :
    {A : Type 0} (p : A → Bool) (xs ys : List A) → count p (xs ++ ys) ≡ count p xs + count p ys
count-append p [] ys = omega arith
count-append p (x ∷ xs) ys = omega (arith, count-append p xs ys)

-- A count of fewer elements is no more.
pub count_mono :
    {A : Type 0} (p q : A → Bool)
    → ((x : A) → p x ≡ true → q x ≡ true)
    → (xs : List A) → count p xs ≤ count q xs
count_mono p q h [] = omega arith
count_mono p q h (x ∷ xs) = ground (arith, h x, count_mono p q h xs)

-- What the window of `now` has left behind, no later window holds.
pub count-current :
    (window now u : ℕ)
    → now ≤ u
    → (xs : List ℕ) → count (live window u) (current window now xs) ≡ count (live window u) xs
unfolding current
count-current window now u le [] = refl
count-current window now u le (x ∷ xs) = ground (arith, count-current window now u le xs)

-- The bucket counts, now and later, as many live times as the whole history of admissions does, and
-- no window of the history holds more than the limit.
record Accurate (window limit last : ℕ) (times history : List ℕ) : Type 0 where
  same : (u : ℕ) → last ≤ u → count (live window u) times ≡ count (live window u) history
  bounded : (t : ℕ) → count (within window t) history ≤ limit

module _ (window limit last now : ℕ) (le : last ≤ now) where
  Accurate-current :
      (times history : List ℕ)
      → Accurate window limit last times history
      → Accurate window limit now (current window now times) history
  Accurate-current times history h = record {
    same = λ u now_le. omega (arith, count-current window now u now_le times, h.same u);
    bounded = h.bounded;
  }

  Accurate-later :
      (times history : List ℕ)
      → Accurate window limit last times history
      → Accurate window limit now times history
  Accurate-later times history h = record {
    same = λ u now_le. h.same u (omega arith);
    bounded = h.bounded;
  }

  recorded-bounded :
      (times history : List ℕ)
      → Accurate window limit last times history
      → length (current window now times) < limit
      → (t : ℕ) → count (within window t) (now ∷ history) ≤ limit
  unfolding current
  recorded-bounded times history h room t =
      let few : count (live window now) history < limit =
        omega (arith, length-filter (live window now) times, h.same now le) in
      elim (Bool-cases (leb now t)) [
        | inl e ↦
            let bound : count (within window t) history ≤ count (live window now) history =
              count_mono (within window t) (live window now) (λ x p. ground arith) history in
            ground arith
        | inr e ↦ let bound : count (within window t) history ≤ limit = h.bounded t in ground arith
      ]

  Accurate-recorded :
      (times history : List ℕ)
      → Accurate window limit last times history
      → length (current window now times) < limit
      → Accurate window limit now (current window now times ++ now ∷ []) (now ∷ history)
  Accurate-recorded times history h room = record {
    same = λ u now_le. omega (
      arith,
      count-append (live window u) (current window now times) (now ∷ []),
      count-current window now u now_le times,
      h.same u,
    );
    bounded = recorded-bounded times history h room;
  }

  Accurate-Effect :
      {times times' : List ℕ} {admits : Bool} (history : List ℕ)
      → Effect window limit now times times' admits
      → Accurate window limit last times history
      → Accurate window limit now times' (if admits then now ∷ history else history)
  Accurate-Effect history (untouched times) h = Accurate-later times history h
  Accurate-Effect history (purged times) h = Accurate-current times history h
  Accurate-Effect history (recorded times room) h = Accurate-recorded times history h room

module _ {S Q : Type 0} {window limit : ℕ} (limiter : WindowLimiter S Q window limit) where
  -- The times of the admissions that a sequence of requests makes.
  abbrev pub admissions : List Q → S → List ℕ
  admissions [] s = []
  admissions (q ∷ qs) s =
      let rest = admissions qs (limiter.next q s) in
      if limiter.admits q s then limiter.time q ∷ rest else rest

  -- The same, newest first, in front of earlier ones.
  count-admissions :
      (qs : List Q) (s : S) (last : ℕ) (history : List ℕ) (t : ℕ)
      → Accurate window limit last (limiter.times s) history
      → Ordered limiter.time last qs
      → All limiter.Fits qs
      → count (within window t) (admissions qs s) + count (within window t) history ≤ limit
  count-admissions [] s last history t h _ _ = omega (arith, h.bounded t)
  count-admissions (q ∷ qs) s last history t h (le, ordered) (fits, all_fit) =
      let rest =
        count-admissions qs (limiter.next q s) (limiter.time q)
          (if limiter.admits q s then limiter.time q ∷ history else history) t
          (Accurate-Effect window limit last (limiter.time q) le history (limiter.effect q s fits)
            h)
          ordered all_fit in
      elim (Bool-cases (limiter.admits q s)) [
        | inl e ↦ rw e (omega (arith, rw e at rest))
        | inr e ↦ rw e (rw e at rest)
      ]

  -- From an empty bucket, no window holds more admissions than the limit.
  pub admissions-bounded :
      (qs : List Q) (s : S)
      → limiter.times s ≡ []
      → Ordered limiter.time 0 qs
      → All limiter.Fits qs
      → (t : ℕ) → count (within window t) (admissions qs s) ≤ limit
  admissions-bounded qs s empty ordered fits t =
      let start : Accurate window limit 0 (limiter.times s) [] =
        rw empty record { same = λ u le. refl; bounded = λ t'. omega arith } in
      omega (arith, count-admissions qs s 0 [] t start ordered fits)

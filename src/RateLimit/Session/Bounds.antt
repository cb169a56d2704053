-- ===== src/RateLimit/Session/Bounds.antt =====
-- The bounds on logins of an account, and on refreshes of a family, under any mix of requests.
use cloud_commitment_portfol.Base.{
  ℕ, ◌≤◌, ◌≡◌, refl, sym, ◌∙◌, subst, Bool, true, false, ◌&&◌, ◌||◌, List, [], ◌∷◌, ◌++◌, length,
  count, All, leb, Bool-cases, if_cases, inl, inr, arith,
}
use cloud_commitment_portfol.Base.Text.{Text, codes, text_eq, text_eq_iff}
use cloud_commitment_portfol.Base.Action.{Result, ok, throw}
use cloud_commitment_portfol.RateLimit.{
  RollingWindowDecision, Unavailable, Buckets, bucket, set_bucket, current, Limiter, new_limiter,
}
use cloud_commitment_portfol.RateLimit.Buckets.{bucket-set_same, bucket-set_other}
use cloud_commitment_portfol.RateLimit.Window.{
  within, Effect, untouched, recorded, WindowLimiter, Ordered, admissions, admissions-bounded,
}
use cloud_commitment_portfol.RateLimit.Session.{
  login_window, refresh_window, account_key, ip_key, family_key, Request, login, refresh_ip,
  refresh_family, at_time, admit_dual, admit_one, admit_open, admit_request, admitted,
}

-- Whether a decision lets the request through; a throw does not.
abbrev pub lets_through : {S : Type 0} → Result Unavailable RollingWindowDecision × S → Bool
lets_through (ok decision, s) = decision.allowed
lets_through (throw e, s) = false

abbrev pub state_of : {R S : Type 0} → R × S → S
state_of (r, s) = s

abbrev pub decision_of : {S : Type 0} → RollingWindowDecision × S → RollingWindowDecision
decision_of (d, s) = d

-- What a decision on one key does to a bucket.
abbrev Acts : ℕ → ℕ → ℕ → Text → Buckets → Bool → RollingWindowDecision × Buckets → Type 0
Acts window limit now key b mine r =
    Effect window limit now (bucket key b) (bucket key (state_of r))
      ((decision_of r).allowed && mine)

module _ (window limit now : ℕ) (key : Text) (b b' : Buckets) where
  record-Acts :
      bucket key b' ≡ current window now (bucket key b) ++ now ∷ []
      → leb limit (length (current window now (bucket key b))) ≡ false
      → Effect window limit now (bucket key b) (bucket key b') true
  record-Acts written room =
      subst (λ times. Effect window limit now (bucket key b) times true) (sym written)
        (recorded (bucket key b) (ground arith))

  skip-Acts : bucket key b' ≡ bucket key b → Acts window limit now key b false (admitted, b')
  skip-Acts same =
      subst (λ times. Effect window limit now (bucket key b) times false) (sym same)
        (untouched (bucket key b))

module _ (window now : ℕ) (b : Buckets) where
  -- The times of a key with a new one, and the buckets that an admission of one or two keys leaves.
  abbrev grown : Text → List ℕ
  grown key = current window now (bucket key b) ++ now ∷ []

  abbrev set_one : Text → Buckets
  set_one key = set_bucket key (grown key) b

  abbrev set_two : Text → Text → Buckets
  set_two first second = set_bucket second (grown second) (set_one first)

  abbrev full : Text → ℕ → Bool
  full key limit = leb limit (length (current window now (bucket key b)))

  module _ (first second : Text) (first_limit second_limit : ℕ) where
    -- A dual admission and the first of its buckets.
    admit_dual-first :
        text_eq second first ≡ false
        → Acts window first_limit now first b true
            (admit_dual first second first_limit second_limit window now b)
    unfolding admit_dual
    admit_dual-first apart =
        if_cases (Acts window first_limit now first b true)
          (full first first_limit || full second second_limit) (λ e. untouched (bucket first b))
          (λ e.
            record-Acts window first_limit now first b (set_two first second)
              (bucket-set_other first second (grown second) (set_one first) apart
                ∙ bucket-set_same first (grown first) b)
              (ground arith))

    -- A dual admission and a bucket that is none of the two.
    admit_dual-other :
        (key : Text) (window' limit : ℕ)
        → text_eq first key ≡ false
        → text_eq second key ≡ false
        → Acts window' limit now key b false
            (admit_dual first second first_limit second_limit window now b)
    unfolding admit_dual
    admit_dual-other key window' limit apart apart' =
        if_cases (Acts window' limit now key b false)
          (full first first_limit || full second second_limit) (λ e. untouched (bucket key b))
          (λ e. skip-Acts window' limit now key b (set_two first second) (
            bucket-set_other key second (grown second) (set_one first) apart'
            ∙ bucket-set_other key first (grown first) b apart))

  module _ (own : Text) (own_limit : ℕ) where
    admit_one-own : Acts window own_limit now own b true (admit_one own own_limit window now b)
    unfolding admit_one
    admit_one-own =
        if_cases (Acts window own_limit now own b true) (full own own_limit)
          (λ e. untouched (bucket own b))
          (λ e.
            record-Acts window own_limit now own b (set_one own) (bucket-set_same own (grown own) b)
              e)

    admit_one-other :
        (key : Text) (window' limit : ℕ)
        → text_eq own key ≡ false
        → Acts window' limit now key b false (admit_one own own_limit window now b)
    unfolding admit_one
    admit_one-other key window' limit apart =
        if_cases (Acts window' limit now key b false) (full own own_limit)
          (λ e. untouched (bucket key b))
          (λ e.
            skip-Acts window' limit now key b (set_one own)
              (bucket-set_other key own (grown own) b apart))

-- The logins of an account, and the refreshes whose family has this digest.
abbrev pub on_account : Text → Request → Bool
on_account account (login now a ip) = text_eq a account
on_account account (refresh_ip now ip) = false
on_account account (refresh_family now family) = false

abbrev pub on_family : (Text → Text → Text) → Text → Request → Bool
on_family digest family (login now account ip) = false
on_family digest family (refresh_ip now ip) = false
on_family digest family (refresh_family now f) =
    text_eq (digest (codes "family") f) (digest (codes "family") family)

module _ (digest : Text → Text → Text) where
  -- A closed limiter does nothing; an open one does what the decision does.
  pub admit_request-Effect :
      (window limit now : ℕ) (key : Text) (mine : Bool) (q : Request) (s : Limiter)
      → Acts window limit now key s.buckets mine (admit_open digest q s.buckets)
      → Effect window limit now
          (bucket key s.buckets)
          (bucket key (state_of (admit_request digest q s)).buckets)
          (lets_through (admit_request digest q s) && mine)
  unfolding admit_request
  admit_request-Effect window limit now key mine q s acts =
      if_cases
        (λ (r : Result Unavailable RollingWindowDecision × Limiter).
          Effect window limit now (bucket key s.buckets) (bucket key (state_of r).buckets)
            (lets_through r && mine))
        s.closed (λ e. untouched (bucket key s.buckets)) (λ e. acts)

  pub account_effect :
      (account : Text) (q : Request) (s : Limiter)
      → Acts login_window 5
          (at_time q)
          (account_key account)
          s.buckets
          (on_account account q)
          (admit_open digest q s.buckets)
  unfolding admit_open text_eq
  account_effect account (login now a ip) s = elim (Bool-cases (text_eq a account)) [
    | inl e ↦
        let p : a ≡ account = (text_eq_iff a account).0 e in
        rw (e, p)
          (admit_dual-first login_window now s.buckets (account_key account)
            (ip_key digest (codes "login") ip) 5 20 refl)
    | inr e ↦ rw e (
        admit_dual-other login_window now s.buckets (account_key a)
          (ip_key digest (codes "login") ip) 5 20 (account_key account) login_window 5 e refl)
  ]
  account_effect account (refresh_ip now ip) s =
      admit_one-other refresh_window now s.buckets (ip_key digest (codes "refresh") ip) 60
        (account_key account) login_window 5 refl
  account_effect account (refresh_family now family) s =
      admit_one-other refresh_window now s.buckets (family_key digest family) 10
        (account_key account) login_window 5 refl

  pub family_effect :
      (family : Text) (q : Request) (s : Limiter)
      → Acts refresh_window 10
          (at_time q)
          (family_key digest family)
          s.buckets
          (on_family digest family q)
          (admit_open digest q s.buckets)
  unfolding admit_open text_eq
  family_effect family (login now a ip) s =
      admit_dual-other login_window now s.buckets (account_key a) (ip_key digest (codes "login") ip)
        5 20 (family_key digest family) refresh_window 10 refl refl
  family_effect family (refresh_ip now ip) s =
      admit_one-other refresh_window now s.buckets (ip_key digest (codes "refresh") ip) 60
        (family_key digest family) refresh_window 10 refl
  family_effect family (refresh_family now f) s =
      elim (Bool-cases (text_eq (digest (codes "family") f) (digest (codes "family") family))) [
        | inl e ↦
            let p : digest (codes "family") f ≡ digest (codes "family") family =
              (text_eq_iff (digest (codes "family") f) (digest (codes "family") family)).0 e in
            rw (e, p) (admit_one-own refresh_window now s.buckets (family_key digest family) 10)
        | inr e ↦ rw e (
            admit_one-other refresh_window now s.buckets (family_key digest f) 10
              (family_key digest family) refresh_window 10 e)
      ]

  -- The limiter as the logins of one account see it, and as the refreshes of one family do.
  abbrev pub account_limiter : Text → WindowLimiter Limiter Request login_window 5
  account_limiter account = record {
    time = at_time;
    next = λ q s. state_of (admit_request digest q s);
    admits = λ q s. lets_through (admit_request digest q s) && on_account account q;
    times = λ s. bucket (account_key account) s.buckets;
    Fits = λ q. Unit;
    effect = λ q s _.
        admit_request-Effect login_window 5 (at_time q) (account_key account) (on_account account q)
          q s (account_effect account q s);
  }

  abbrev pub family_limiter : Text → WindowLimiter Limiter Request refresh_window 10
  family_limiter family = record {
    time = at_time;
    next = λ q s. state_of (admit_request digest q s);
    admits = λ q s. lets_through (admit_request digest q s) && on_family digest family q;
    times = λ s. bucket (family_key digest family) s.buckets;
    Fits = λ q. Unit;
    effect = λ q s _.
        admit_request-Effect refresh_window 10 (at_time q) (family_key digest family)
          (on_family digest family q) q s (family_effect family q s);
  }

  every : (qs : List Request) → All (λ q. Unit {0}) qs
  every [] = tt
  every (q ∷ qs) = (tt, every qs)

  -- Whatever logins and refreshes come in, in the order of the clock, a new limiter lets through
  -- at most 5 logins of an account in any 15 minutes, and at most 10 refreshes of a family in any
  -- 5 minutes.
  pub admit_request-bounded :
      (account family : Text) (qs : List Request)
      → Ordered at_time 0 qs
      → (t : ℕ)
      → (count (within login_window t) (admissions (account_limiter account) qs new_limiter) ≤ 5)
        × (count (within refresh_window t) (admissions (family_limiter family) qs new_limiter) ≤ 10)
  admit_request-bounded account family qs ordered t = (
    admissions-bounded (account_limiter account) qs new_limiter refl ordered (every qs) t,
    admissions-bounded (family_limiter family) qs new_limiter refl ordered (every qs) t,
  )

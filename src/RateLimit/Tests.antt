-- ===== src/RateLimit/Tests.antt =====
-- Buckets of two keys, a refusal and its wait, and a mix of logins and refreshes.
use cloud_commitment_portfol.Base.{
  ℕ, ◌+◌, ◌*◌, ◌≤◌, ◌<◌, ◌≡◌, ◌⊎◌, refl, true, false, some, List, [], ◌∷◌, count, arith,
}
use cloud_commitment_portfol.Base.Text.{Text, codes, text_eq}
use cloud_commitment_portfol.Base.Action.{ok}
use cloud_commitment_portfol.RateLimit.{
  Limiter, new_limiter, set_bucket, current, retry_seconds, retry_after, admit, admit_current,
  put_bucket, bucket,
}
use cloud_commitment_portfol.RateLimit.Window.{within, admissions}
use cloud_commitment_portfol.RateLimit.Reference.{Call, answers, reference, answers-reference, lets}
use cloud_commitment_portfol.RateLimit.Retry.{IsBucket, admit-retry_exact}
use cloud_commitment_portfol.RateLimit.Session.{
  Request, login, refresh_family, retry, admit_dual, admit_one, admit_open, admit_request,
  login_window, refresh_window,
}
use cloud_commitment_portfol.RateLimit.Session.Bounds.{
  account_limiter, family_limiter, admit_request-bounded,
}

requests : Unit {0}
unfolding set_bucket current retry_seconds retry_after admit admit_current text_eq retry admit_dual
    admit_one admit_open admit_request
requests = tt

abbrev key_a : Text
key_a = codes "a"

abbrev one_minute : Text → ℕ
one_minute key = 60000

abbrev calls : List Call
calls =
    record { at_ms = 1000; key = key_a; limit = 2 }
    ∷ record { at_ms = 2000; key = codes "b"; limit = 1 }
    ∷ record { at_ms = 2500; key = key_a; limit = 2 }
    ∷ record { at_ms = 3000; key = key_a; limit = 2 }
    ∷ record { at_ms = 61000; key = key_a; limit = 2 }
    ∷ []

answered_calls : answers one_minute calls new_limiter ≡ true ∷ true ∷ true ∷ false ∷ true ∷ []
unfolding requests
answered_calls = refl

reference_example : answers one_minute calls new_limiter ≡ reference one_minute calls []
reference_example =
    answers-reference one_minute calls
      (omega arith, (omega arith, (omega arith, (omega arith, (omega arith, tt)))))

-- Two calls of one key at 1000 and 2500, where the limit is 2.
abbrev full_limiter : Limiter
full_limiter = put_bucket key_a (1000 ∷ 2500 ∷ []) new_limiter

full_limiter-IsBucket : IsBucket 2 2500 (bucket key_a full_limiter.buckets)
unfolding requests
full_limiter-IsBucket = record {
  ascending = ((omega arith, tt), (tt, tt));
  past = (omega arith, (omega arith, tt));
  few = omega arith;
}

refused : admit 3000 key_a 2 60000 full_limiter ≡ (
  ok record { allowed = false; retry_after_seconds = some 58 },
  put_bucket key_a (1000 ∷ 2500 ∷ []) full_limiter,
)
unfolding requests
refused = refl

retry_example :
    ((61000 < 3000 + 1000 * 58)
      ⊎ (lets (admit 61000 key_a 2 60000 (put_bucket key_a (1000 ∷ 2500 ∷ []) full_limiter)).0
          ≡ true))
    × ((3000 + 1000 * 58 < 61000 + 1000)
        ⊎ (lets (admit 61000 key_a 2 60000 (put_bucket key_a (1000 ∷ 2500 ∷ []) full_limiter)).0
            ≡ false))
retry_example =
    admit-retry_exact key_a 2 60000 2500 3000 58 61000 full_limiter
      (put_bucket key_a (1000 ∷ 2500 ∷ []) full_limiter) full_limiter-IsBucket (omega arith) refused
      (omega arith)

-- A digest for the tests.
abbrev concat : Text → Text → Text
concat scope value = scope

abbrev logins : List Request
logins =
    login 1 key_a (codes "x")
    ∷ login 2 key_a (codes "y")
    ∷ refresh_family 3 (codes "f")
    ∷ login 4 key_a (codes "x")
    ∷ login 5 key_a (codes "x")
    ∷ login 6 key_a (codes "x")
    ∷ login 7 key_a (codes "x")
    ∷ []

sixth_login_refused :
    admissions (account_limiter concat key_a) logins new_limiter ≡ 1 ∷ 2 ∷ 4 ∷ 5 ∷ 6 ∷ []
unfolding requests
sixth_login_refused = refl

session_example :
    (count (within login_window 7) (admissions (account_limiter concat key_a) logins new_limiter)
      ≤ 5)
    × (count
          (within refresh_window 7)
          (admissions (family_limiter concat (codes "f")) logins new_limiter)
        ≤ 10)
session_example =
    admit_request-bounded concat key_a (codes "f") logins
      (
        omega arith,
        (
          omega arith,
          (omega arith, (omega arith, (omega arith, (omega arith, (omega arith, tt))))),
        ),
      )
      7

-- ===== src/RateLimit/Buckets.antt =====
-- Reading the map of buckets.
use cloud_commitment_portfol.Base.{ℕ, ◌≡◌, refl, false, List}
use cloud_commitment_portfol.Base.Text.{Text, text_eq, text_eq_iff}
use cloud_commitment_portfol.RateLimit.{Buckets, bucket, set_bucket}

-- Reading a bucket after one is set.
pub bucket-set_same :
    (key : Text) (times : List ℕ) (b : Buckets) → bucket key (set_bucket key times b) ≡ times
unfolding set_bucket
bucket-set_same key times b = rw ((text_eq_iff key key).1 refl) refl

pub bucket-set_other :
    (key other : Text) (times : List ℕ) (b : Buckets)
    → text_eq other key ≡ false
    → bucket key (set_bucket other times b) ≡ bucket key b
unfolding set_bucket
bucket-set_other key other times b h = rw h refl

-- ===== src/Approvals/Due/Runs.antt =====
-- How many approvals an expiry takes, and that none stays due for ever.
use cloud_commitment_portfol.Base.{
  ℕ, zero, suc, ◌+◌, ◌-◌, ◌*◌, ◌≤◌, ◌≡◌, refl, ap, ◌∙◌, subst, Bool, true, false, not, ◌&&◌, ◌||◌,
  List, [], ◌∷◌, filter, take, length, count, All, All-weaken, All-each, All-diagonal, All-any,
  any-count, count-counts, count_zero-All, count-map, count_congr, count_add, count-filter,
  count-take, count-le, count_add, length-filter, sub-length-take, Bool-cases, inl, inr, arith,
}
use cloud_commitment_portfol.Base.Sort.{sort, count-sort, length-sort}
use cloud_commitment_portfol.Base.Text.{Text, text_eq, text_eq_iff}
use cloud_commitment_portfol.Approvals.{Approval, Tables}
use cloud_commitment_portfol.Approvals.Pending.{has_id}
use cloud_commitment_portfol.Approvals.Expiry.{
  is_due, due_rows, compare_due, set_expired, expire_due,
}
use cloud_commitment_portfol.Approvals.Updates.{updated}
use cloud_commitment_portfol.Approvals.Agreement.{Consistent, both, text_eq_refl}
use cloud_commitment_portfol.Approvals.Agreement.Expired.{expire_due-Consistent}
use cloud_commitment_portfol.Approvals.Due.{is_among, All-due_rows, among-due, due-by_id}
use cloud_commitment_portfol.Approvals.Due.Takes.{expire_due-takes}

text_eq_sym : (s t : Text) → text_eq s t ≡ false → text_eq t s ≡ false
text_eq_sym s t h = elim (Bool-cases (text_eq t s)) [
  | inl e ↦ let x : text_eq s t ≡ true = rw ((text_eq_iff t s).0 e) (text_eq_refl s) in absurd (cc)
  | inr e ↦ e
]

-- Rows of different ids, each of them once among `rows`, are as many as are among them.
count-is_among :
    (chosen rows : List Approval)
    → ((id : Text) → count (has_id id) chosen ≤ 1)
    → All (λ d. count (has_id d.id) rows ≡ 1) chosen
    → count (is_among chosen) rows ≡ length chosen
count-is_among [] rows unique once =
    any-count (λ _. false) rows (All-any (λ _. false) rows (All-each (λ x. refl) rows))
count-is_among (d ∷ chosen) rows unique (one, once) =
    let itself = text_eq_refl d.id in
    let others : All (λ c. has_id d.id c ≡ false) chosen =
      count_zero-All (has_id d.id) chosen (let u = unique d.id in ground arith) in
    let rest = count-is_among chosen rows (λ i. let u = unique i in omega arith) once in
    let apart : All (λ a. has_id d.id a ≡ true → is_among chosen a ≡ false) rows =
      All-each
        (λ a e.
          All-any (λ c. has_id c.id a) chosen
            (All-weaken (λ c f. rw ((text_eq_iff a.id d.id).0 e) (text_eq_sym c.id d.id f)) chosen
              others))
        rows in
    omega (arith, count_add (has_id d.id) (is_among chosen) rows apart, one, rest)

module _ (locked : Text → Bool) (now limit : ℕ) (w : Tables) (h : Consistent w) where
  abbrev chosen : List Approval
  chosen = due_rows locked now limit w.approvals

  chosen_unique : (id : Text) → count (has_id id) chosen ≤ 1
  unfolding due_rows
  chosen_unique id =
      let waiting = filter (λ a. is_due now a && not (locked a.id)) w.approvals in
      omega (
        arith,
        count-take (has_id id) limit (sort compare_due waiting),
        count-sort compare_due (has_id id) waiting,
        count-filter (λ a. is_due now a && not (locked a.id)) (has_id id) w.approvals,
        count-le (λ a. (is_due now a && not (locked a.id)) && has_id id a) (has_id id) w.approvals
            (All-each (λ a e. (both (is_due now a && not (locked a.id)) (has_id id a) e).1)
              w.approvals),
        h.unique_ids id,
      )

  row_once : All (λ a. count (has_id a.id) w.approvals ≡ 1) w.approvals
  row_once =
      All-weaken (λ a k. omega (arith, k (text_eq_refl a.id), h.unique_ids a.id)) w.approvals
        (All-diagonal (λ a c. has_id a.id c ≡ true → 1 ≤ count (has_id a.id) w.approvals)
          w.approvals (λ a. count-counts (has_id a.id) w.approvals))

  count-chosen : count (is_among chosen) w.approvals ≡ length chosen
  count-chosen = count-is_among chosen w.approvals chosen_unique (
      All-weaken (λ d k. k.0) chosen
        (All-due_rows (λ d. count (has_id d.id) w.approvals ≡ 1) locked now limit w.approvals
          row_once))

  -- What was due is due still, or has been taken.
  count-due_split :
      count (is_due now) w.approvals
      ≡ count (is_due now) (expire_due locked now limit w).1.approvals + length chosen
  count-due_split =
      let taken = is_among chosen in
      let still = λ (a : Approval). is_due now (updated taken (set_expired now) a) in
      let split : count (is_due now) w.approvals ≡ count (λ a. still a || taken a) w.approvals =
        count_congr (is_due now) (λ a. still a || taken a) w.approvals
          (All-weaken
            (λ a k. elim (Bool-cases (taken a)) [
              | inl e ↦ rw (e, among-due now chosen a k e) refl
              | inr e ↦ rw e (ground arith)
            ])
            w.approvals (due-by_id locked now limit w h)) in
      let apart : All (λ a. still a ≡ true → taken a ≡ false) w.approvals =
        All-each
          (λ a t. elim (Bool-cases (taken a)) [
            | inl e ↦ absurd (let c : false ≡ true = rw e at t in cc)
            | inr e ↦ e
          ])
          w.approvals in
      let after : count (is_due now) (expire_due locked now limit w).1.approvals
          ≡ count still w.approvals =
        ap (count (is_due now)) (expire_due-takes locked now limit w h).1
        ∙ count-map (is_due now) (updated taken (set_expired now)) w.approvals in
      omega (arith, split, count_add still taken w.approvals apart, after, count-chosen)

length-due_rows :
    (now limit : ℕ) (rows : List Approval)
    → count (is_due now) rows - length (due_rows (λ _. false) now limit rows)
      ≡ count (is_due now) rows - limit
unfolding due_rows
length-due_rows now limit rows =
    let waiting = filter (λ a. is_due now a && not false) rows in
    let same : count (λ a. is_due now a && not false) rows ≡ count (is_due now) rows =
      count_congr (λ a. is_due now a && not false) (is_due now) rows
        (All-each (λ a. ground arith) rows) in
    let all : length (sort compare_due waiting) ≡ count (is_due now) rows =
      length-sort compare_due waiting
      ∙ length-filter (λ a. is_due now a && not false) rows
      ∙ same in
    subst (λ n. n - length (take limit (sort compare_due waiting)) ≡ n - limit) all
      (sub-length-take limit (sort compare_due waiting))

-- Where no other transaction holds a row, an expiry leaves its limit fewer approvals due.
count-expire_due :
    (now limit : ℕ) (w : Tables)
    → Consistent w
    → count (is_due now) (expire_due (λ _. false) now limit w).1.approvals
      ≡ count (is_due now) w.approvals - limit
count-expire_due now limit w h =
    omega (arith, count-due_split (λ _. false) now limit w h, length-due_rows now limit w.approvals)

-- The worker, run `n` times in a row.
abbrev pub expiry_runs : ℕ → ℕ → ℕ → Tables → Tables
expiry_runs zero now limit w = w
expiry_runs (suc n) now limit w = expiry_runs n now limit (expire_due (λ _. false) now limit w).1

-- No approval stays due for ever: on consistent tables whose rows no other transaction holds,
-- `n` expiries one after the other leave `n` times the limit fewer approvals due, none if that
-- many were.
pub count-expiry_runs :
    (n now limit : ℕ) (w : Tables)
    → Consistent w
    → count (is_due now) (expiry_runs n now limit w).approvals
      ≡ count (is_due now) w.approvals - n * limit
count-expiry_runs zero now limit w h = omega arith
count-expiry_runs (suc n) now limit w h =
    let first = count-expire_due now limit w h in
    let rest =
      count-expiry_runs n now limit (expire_due (λ _. false) now limit w).1
        (expire_due-Consistent (λ _. false) now limit w h) in
    let more : suc n * limit ≡ limit + n * limit = omega arith in omega (arith, first, rest, more)

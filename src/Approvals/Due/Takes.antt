-- ===== src/Approvals/Due/Takes.antt =====
-- What an expiry takes: the rows of its query `due`, each by its id, and these expire the earliest.
use cloud_commitment_portfol.Base.{
  ℕ, ◌≤◌, ◌≡◌, refl, sym, ap, subst, Bool, true, false, not, ◌&&◌, List, map, filter, filter_congr,
  map_congr, take, ltb, length, All, All-weaken, All-diagonal, All-append, All-filter_back,
  any-passes, drop, ◌++◌, ◌≤◌, take-append_drop, if◌then◌else◌, arith,
}
use cloud_commitment_portfol.Base.Sort.{
  sort, IsOrder, IsSorted, sort-IsSorted, IsSorted-split, All-sort_back,
}
use cloud_commitment_portfol.Base.Text.{Text}
use cloud_commitment_portfol.Base.Text.Order.{compare_text_total, compare_text_trans}
use cloud_commitment_portfol.Base.Action.{ok}
use cloud_commitment_portfol.Approvals.{Approval, Tables}
use cloud_commitment_portfol.Approvals.Pending.{has_id}
use cloud_commitment_portfol.Approvals.Expiry.{
  is_due, due_rows, compare_due, joins, set_expired, expire_due,
}
use cloud_commitment_portfol.Approvals.Updates.{updated}
use cloud_commitment_portfol.Approvals.Agreement.{Consistent, text_eq_refl}
use cloud_commitment_portfol.Approvals.Agreement.Expired.{expire_due-updates}
use cloud_commitment_portfol.Approvals.Due.{is_among, joins-is_among}

compare_due-IsOrder : IsOrder compare_due
unfolding compare_due
compare_due-IsOrder = record {
  total = λ x y. ground (arith, compare_text_total x.id y.id);
  transitive = λ x y z b c. ground (arith, compare_text_trans x.id y.id z.id);
}

-- Those that the query leaves, though they are due and not locked, expire no earlier than those that
-- it takes.
module _ (locked : Text → Bool) (now limit : ℕ) (rows : List Approval) where
  abbrev waits_free : Approval → Bool
  waits_free a = is_due now a && not (locked a.id)

  abbrev in_order : List Approval
  in_order = sort compare_due (filter waits_free rows)

  abbrev EarliestFirst : Approval → Type 0
  EarliestFirst a =
      is_among (due_rows locked now limit rows) a ≡ false
      → All (λ d. d.expires_at ≤ a.expires_at) (due_rows locked now limit rows)

  taken-EarliestFirst : All EarliestFirst (take limit in_order)
  unfolding due_rows
  taken-EarliestFirst =
      let taken = take limit in_order in
      All-weaken (λ a itself left. absurd (let e = itself (text_eq_refl a.id) in cc)) taken
        (All-diagonal (λ a c. has_id c.id a ≡ true → is_among taken a ≡ true) taken
          (λ a. any-passes (λ c. has_id c.id a) taken))

  left-EarliestFirst : All EarliestFirst (drop limit in_order)
  unfolding due_rows compare_due
  left-EarliestFirst =
      let sorted : IsSorted compare_due (take limit in_order ++ drop limit in_order) =
        subst (IsSorted compare_due) (sym (take-append_drop limit in_order))
          (sort-IsSorted compare_due compare_due-IsOrder (filter waits_free rows)) in
      All-weaken (λ a before left. All-weaken (λ d b. ground arith) (take limit in_order) before)
        (drop limit in_order)
        (IsSorted-split compare_due (take limit in_order) (drop limit in_order) sorted)

  due_rows-EarliestFirst : All (λ a. waits_free a ≡ true → EarliestFirst a) rows
  due_rows-EarliestFirst = All-filter_back EarliestFirst waits_free rows (
      All-sort_back compare_due EarliestFirst (filter waits_free rows) (
        subst (All EarliestFirst) (take-append_drop limit in_order) (
          All-append EarliestFirst (take limit in_order) (drop limit in_order) taken-EarliestFirst
            left-EarliestFirst)))

-- On consistent tables an expiry does not throw. It expires exactly the approvals that its query
-- `due` selects, by their ids, though its statement joins them through their recommendations; it
-- reports them, and every other approval stays as it is. An approval that it leaves, though it is
-- due and not locked, expires no earlier than any that it takes.
pub expire_due-takes :
    (locked : Text → Bool) (now limit : ℕ) (w : Tables)
    → Consistent w
    → let taken = is_among (due_rows locked now limit w.approvals) in
      let rows = filter taken w.approvals in
      ((expire_due locked now limit w).0
        ≡ ok (record {
          processed = ltb 0 (length rows);
          approval_ids = map (λ a. a.id) rows;
          recommendation_ids = map (λ a. a.recommendation_id) rows;
        }))
      × ((expire_due locked now limit w).1.approvals
          ≡ map (updated taken (set_expired now)) w.approvals)
      × All
          (λ a.
            is_due now a && not (locked a.id) ≡ true
            → taken a ≡ false
            → All (λ d. d.expires_at ≤ a.expires_at) (due_rows locked now limit w.approvals))
          w.approvals
expire_due-takes locked now limit w h =
    let same = joins-is_among locked now limit w h in
    let due = due_rows locked now limit w.approvals in
    rw
      (
        expire_due-updates locked now limit w due refl,
        filter_congr (joins due w.recommendations) (is_among due) w.approvals same,
      )
      (
        refl,
        map_congr (updated (joins due w.recommendations) (set_expired now))
            (updated (is_among due) (set_expired now)) w.approvals
            (All-weaken (λ a e. ap (λ (b : Bool). if b then set_expired now a else a) e) w.approvals
              same),
        due_rows-EarliestFirst locked now limit w.approvals,
      )

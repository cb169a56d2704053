-- ===== src/Approvals/Due.antt =====
-- What an expiry takes: the rows of its query `due`, each by its id.
pub mod Takes
pub mod Runs
use cloud_commitment_portfol.Base.{
  ℕ, ◌≤◌, ◌≡◌, refl, sym, ap, ◌∙◌, subst, Bool, true, false, not, ◌&&◌, Option, some, List, [], ◌∷◌,
  map, filter, filter_congr, map_congr, take, find?, any, ltb, length, count, All, All-weaken,
  All-zip, All-filter, All-take, All-find?, All-diagonal, All-append, All-filter_back, any-passes,
  drop, ◌++◌, ◌≤◌, take-append_drop, any-find?, find?-any, find?-sound, implied-eq, if◌then◌else◌,
  arith,
}
use cloud_commitment_portfol.Base.Sort.{
  sort, IsOrder, IsSorted, sort-IsSorted, IsSorted-split, All-sort, All-sort_back,
}
use cloud_commitment_portfol.Base.Text.{Text, text_eq, text_eq_iff}
use cloud_commitment_portfol.Base.Text.Order.{compare_text_total, compare_text_trans}
use cloud_commitment_portfol.Base.Action.{Result, ok}
use cloud_commitment_portfol.Approvals.{
  Approval, Recommendation, Tables, is_pending, is_recommendation, awaits,
}
use cloud_commitment_portfol.Approvals.Pending.{has_id, is_open, is_open_for}
use cloud_commitment_portfol.Approvals.Expiry.{
  ExpiryResult, is_due, due_rows, compare_due, expires, expire_recommendation, joins, set_expired,
  expire_due,
}
use cloud_commitment_portfol.Approvals.Updates.{updated}
use cloud_commitment_portfol.Approvals.Agreement.{
  Agreed, Consistent, both, key-eq, text_eq_refl, is_pending-eq, Agree-awaits, Consistent-same_id,
  Consistent-same_open,
}
use cloud_commitment_portfol.Approvals.Agreement.Expired.{expire_due-updates}

-- Whether the approval is one of the rows, by its id.
abbrev pub is_among : List Approval → Approval → Bool
is_among due a = any (λ d. has_id d.id a) due

-- What holds of every approval holds of those that are due, and these are due.
pub All-due_rows {κ} :
    (P : Approval → Type κ) (locked : Text → Bool) (now limit : ℕ) (rows : List Approval)
    → All P rows
    → All (λ d. P d × (is_due now d ≡ true)) (due_rows locked now limit rows)
unfolding due_rows
All-due_rows P locked now limit rows h =
    All-take (λ d. P d × (is_due now d ≡ true)) limit _
      (All-sort compare_due (λ d. P d × (is_due now d ≡ true)) _
        (All-weaken (λ d k. (k.0, (both (is_due now d) (not (locked d.id)) k.1).0)) _
          (All-filter P (λ a. is_due now a && not (locked a.id)) rows h)))

module _ (now : ℕ) (due : List Approval) (a : Approval)
    (by_id : All (λ d. (has_id a.id d ≡ true → a ≡ d) × (is_due now d ≡ true)) due) where
  pub among-due : is_among due a ≡ true → is_due now a ≡ true
  among-due e =
      let (d, f) = any-find? (λ d. has_id d.id a) due e in
      let (same, t) =
        All-find? (λ d. (has_id a.id d ≡ true → a ≡ d) × (is_due now d ≡ true)) (λ d. has_id d.id a)
          due by_id f in
      let key = (text_eq_iff a.id d.id).0 (find?-sound (λ d. has_id d.id a) due f) in
      subst (λ x. is_due now x ≡ true) (sym (same (rw (sym key) (text_eq_refl a.id)))) t

  -- A row that is due is joined.
  among-joins :
      (recommendations : List Recommendation)
      → Agreed recommendations a
      → is_among due a ≡ true
      → joins due recommendations a ≡ true
  among-joins recommendations (r, g, s) e =
      let (d, f) = any-find? (λ d. has_id d.id a) due e in
      let (same, t) =
        All-find? (λ d. (has_id a.id d ≡ true → a ≡ d) × (is_due now d ≡ true)) (λ d. has_id d.id a)
          due by_id f in
      let key = (text_eq_iff a.id d.id).0 (find?-sound (λ d. has_id d.id a) due f) in
      let itself : a ≡ d = same (rw (sym key) (text_eq_refl a.id)) in
      let waits : is_pending a.status ≡ true = (both (is_pending a.status) _ (among-due e)).0 in
      let k = find?-sound (is_recommendation a.tenant_id a.recommendation_id) recommendations g in
      let expiring : any (λ d. is_recommendation d.tenant_id d.recommendation_id r) due ≡ true =
        find?-any (λ d. has_id d.id a) (λ d. is_recommendation d.tenant_id d.recommendation_id r)
          due f
          (subst (λ x. is_recommendation x.tenant_id x.recommendation_id r ≡ true) itself k) in
      let open_row = Agree-awaits a.status r.status (is_pending-eq a.status waits) s in
      let found =
        find?-any (is_recommendation a.tenant_id a.recommendation_id)
          (λ r. expires due r && is_recommendation a.tenant_id a.recommendation_id r)
          recommendations g (rw (expiring, open_row, k) refl) in
      rw (waits, found) refl

  -- A row that is joined is due.
  joins-among :
      (recommendations : List Recommendation)
      → (is_pending a.status ≡ true
          → All
              (λ d.
                (is_open_for a.tenant_id a.recommendation_id d ≡ true → a ≡ d)
                × (is_due now d ≡ true))
              due)
      → joins due recommendations a ≡ true
      → is_among due a ≡ true
  joins-among recommendations by_key e =
      let (p, q) = both (is_pending a.status) _ e in
      let P = λ (r : Recommendation).
        expires due r && is_recommendation a.tenant_id a.recommendation_id r in
      let (r, f) = any-find? P recommendations q in
      let (t, k) = both (expires due r) _ (find?-sound P recommendations f) in
      let (t₁, _) =
        both (any (λ d. is_recommendation d.tenant_id d.recommendation_id r) due) (awaits r.status)
          t in
      let (d, g) = any-find? (λ d. is_recommendation d.tenant_id d.recommendation_id r) due t₁ in
      let (same, u) =
        All-find?
          (λ d.
            (is_open_for a.tenant_id a.recommendation_id d ≡ true → a ≡ d) × (is_due now d ≡ true))
          (λ d. is_recommendation d.tenant_id d.recommendation_id r) due (by_key p) g in
      let (tenant, id) = key-eq a.tenant_id a.recommendation_id r k in
      let (tenant', id') =
        key-eq d.tenant_id d.recommendation_id r
          (find?-sound (λ d. is_recommendation d.tenant_id d.recommendation_id r) due g) in
      let waits = is_pending-eq d.status (both (is_pending d.status) _ u).0 in
      let itself : a ≡ d = same (
        rw
          (
            waits,
            sym tenant' ∙ tenant,
            sym id' ∙ id,
            text_eq_refl a.tenant_id,
            text_eq_refl a.recommendation_id,
          )
          refl) in
      find?-any (λ d. is_recommendation d.tenant_id d.recommendation_id r) (λ d. has_id d.id a) due
        g (subst (λ x. text_eq a.id x.id ≡ true) itself (text_eq_refl a.id))

module _ (locked : Text → Bool) (now limit : ℕ) (w : Tables) (h : Consistent w) where
  abbrev due : List Approval
  due = due_rows locked now limit w.approvals

  pub due-by_id :
      All (λ a. All (λ d. (has_id a.id d ≡ true → a ≡ d) × (is_due now d ≡ true)) due) w.approvals
  due-by_id =
      All-weaken
        (λ a k. All-due_rows (λ d. has_id a.id d ≡ true → a ≡ d) locked now limit w.approvals k)
        w.approvals (Consistent-same_id w h)

  due-by_key :
      All
        (λ a.
          is_pending a.status ≡ true
          → All
              (λ d.
                (is_open_for a.tenant_id a.recommendation_id d ≡ true → a ≡ d)
                × (is_due now d ≡ true))
              due)
        w.approvals
  due-by_key =
      All-weaken
        (λ a k p.
          All-due_rows (λ d. is_open_for a.tenant_id a.recommendation_id d ≡ true → a ≡ d) locked
            now limit w.approvals (k p))
        w.approvals (Consistent-same_open w h)

  pub joins-is_among : All (λ a. joins due w.recommendations a ≡ is_among due a) w.approvals
  joins-is_among =
      All-weaken
        (λ a k.
          implied-eq (joins due w.recommendations a) (is_among due a)
            (joins-among now due a k.1.0 w.recommendations k.1.1)
            (among-joins now due a k.1.0 w.recommendations k.0))
        w.approvals
        (All-zip (Agreed w.recommendations)
          (λ a.
            All (λ d. (has_id a.id d ≡ true → a ≡ d) × (is_due now d ≡ true)) due
            × (is_pending a.status ≡ true
                → All
                    (λ d.
                      (is_open_for a.tenant_id a.recommendation_id d ≡ true → a ≡ d)
                      × (is_due now d ≡ true))
                    due))
          w.approvals h.agreed
          (All-zip (λ a. All (λ d. (has_id a.id d ≡ true → a ≡ d) × (is_due now d ≡ true)) due)
            (λ a.
              is_pending a.status ≡ true
              → All
                  (λ d.
                    (is_open_for a.tenant_id a.recommendation_id d ≡ true → a ≡ d)
                    × (is_due now d ≡ true))
                  due)
            w.approvals due-by_id due-by_key))

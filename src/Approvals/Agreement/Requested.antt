-- ===== src/Approvals/Agreement/Requested.antt =====
-- A request for an approval keeps the tables consistent.
use cloud_commitment_portfol.Base.{
  ℕ, ◌≤◌, ◌≡◌, refl, Bool, true, false, not, ◌&&◌, ◌||◌, some, List, [], ◌∷◌, ◌++◌, find?, any,
  count, any-count, count-append, All-append, ltb, Bool-cases, Option-cases, inl, inr, arith,
}
use cloud_commitment_portfol.Base.Text.{Text, text_eq, text_eq_iff}
use cloud_commitment_portfol.Approvals.{
  pending, Approval, Recommendation, Tables, awaits, is_recommendation, get_recommendation,
}
use cloud_commitment_portfol.Approvals.Pending.{
  Directory, InsertInput, has_id, is_open_for, is_taken, is_requester, new_approval,
  insert_approval, read_snapshot_context, build_approval_snapshot, create_pending,
}
use cloud_commitment_portfol.Approvals.Agreement.{Agreed, Consistent, both, awaits-eq}

neither : (a b : Bool) → a || b ≡ false → (a ≡ false) × (b ≡ false)
neither a b h = ground arith

-- One more row, none like it being there, is at most one.
count-one_more :
    (q : Approval → Bool) (rows : List Approval) (a : Approval)
    → count q rows ≤ 1
    → (q a ≡ true → any q rows ≡ false)
    → count q (rows ++ a ∷ []) ≤ 1
count-one_more q rows a h fresh =
    let sum = count-append q rows (a ∷ []) in
    elim (Bool-cases (q a)) [
      | inl e ↦ let none_before = any-count q rows (fresh e) in ground arith
      | inr e ↦ ground arith
    ]

-- What a request does where it does anything: it appends one pending row, of a recommendation that
-- awaits its decision.
module _ (w : Tables) (h : Consistent w) (a : Approval) (r : Recommendation)
    (waits : a.status ≡ pending) (free : is_taken a w.approvals ≡ false)
    (found : find? (is_recommendation a.tenant_id a.recommendation_id) w.recommendations ≡ some r)
    (open_row : awaits r.status ≡ true) where
  appended-Consistent : Consistent (record w { approvals = w.approvals ++ a ∷ [] })
  appended-Consistent =
      let (no_id, no_open) =
        neither (any (has_id a.id) w.approvals)
          (any (is_open_for a.tenant_id a.recommendation_id) w.approvals) free in
      record {
        unique_ids = λ i.
            count-one_more (has_id i) w.approvals a (h.unique_ids i)
              (λ e. rw (← (text_eq_iff a.id i).0 e) no_id);
        one_open = λ t i. count-one_more (is_open_for t i) w.approvals a (h.one_open t i) (λ e.
            let (_, k) = both _ (text_eq a.tenant_id t && text_eq a.recommendation_id i) e in
            let (k₁, k₂) = both (text_eq a.tenant_id t) (text_eq a.recommendation_id i) k in
            rw (← (text_eq_iff a.tenant_id t).0 k₁, ← (text_eq_iff a.recommendation_id i).0 k₂)
              no_open);
        agreed =
            All-append (Agreed w.recommendations) w.approvals (a ∷ []) h.agreed
              ((r, found, rw waits (awaits-eq r.status open_row)), tt);
      }

insert_approval-Consistent :
    (d : Directory) (a : Approval) (w : Tables) (r : Recommendation)
    → Consistent w
    → a.status ≡ pending
    → find? (is_recommendation a.tenant_id a.recommendation_id) w.recommendations ≡ some r
    → awaits r.status ≡ true
    → Consistent (insert_approval d a w).1
unfolding insert_approval
insert_approval-Consistent d a w r h waits f e =
    elim (Bool-cases (not (d.is_storable a.approval_snapshot && ltb a.requested_at a.expires_at))) [
      | inl c ↦ rw c h
      | inr c ↦ rw c (elim (Bool-cases (is_taken a w.approvals)) [
        | inl t ↦ rw t h
        | inr t ↦ rw t (elim (Bool-cases (is_requester d a.tenant_id a.requested_by_user_id)) [
          | inl u ↦ rw u (appended-Consistent w h a r waits t f e)
          | inr u ↦ rw u h
        ])
      ])
    ]

-- A request keeps the tables consistent, whether it goes through or not.
pub create_pending-Consistent :
    (d : Directory) (tenant_id : Text) (input : InsertInput) (id : Text) (now : ℕ) (w : Tables)
    → Consistent w
    → Consistent (create_pending d tenant_id input id now w).1
unfolding create_pending get_recommendation
create_pending-Consistent d tenant_id input id now w h =
    elim (Option-cases
      (find? (is_recommendation tenant_id input.recommendation_id) w.recommendations)) [
        | inl f ↦ rw f h
        | inr (r, f) ↦ rw f (elim (Bool-cases (awaits r.status && r.approval_required)) [
          | inr e ↦ rw e h
          | inl e ↦
              rw e
                (elim (Option-cases (read_snapshot_context d tenant_id input.assigned_to_user_id)) [
                  | inl c ↦ rw c h
                  | inr (c, k) ↦ rw k (
                      insert_approval-Consistent d
                        (new_approval tenant_id input id now (build_approval_snapshot d r c input))
                        w r h refl f (both (awaits r.status) r.approval_required e).0)
                ])
        ])
      ]

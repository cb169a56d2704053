-- ===== src/Approvals/Agreement/Decided.antt =====
-- A decision keeps the tables consistent.
use cloud_commitment_portfol.Base.{
  ℕ, ◌≡◌, refl, sym, ap, ◌∙◌, subst, Bool, true, false, ◌&&◌, some, List, map, find?, All,
  All-weaken, All-zip, All-find?, find?-sound, if_cases, Bool-cases, Option-cases, inl, inr,
}
use cloud_commitment_portfol.Base.Text.{Text, text_eq, text_eq_iff}
use cloud_commitment_portfol.Approvals.{
  pending, Approval, Recommendation, Tables, update_approvals, is_approval, get_approval, Decision,
  approve, reject, decided_status, decided_recommendation, awaits, is_recommendation,
  decide_recommendation, set_decision, is_pending, decide,
}
use cloud_commitment_portfol.Approvals.Pending.{has_id, is_open, is_open_for}
use cloud_commitment_portfol.Approvals.Updates.{updated, update_approvals-updated}
use cloud_commitment_portfol.Approvals.Agreement.{
  Agree, Agreed, Consistent, both, key-eq, text_eq_refl, is_pending-eq, untouched, Agree-awaits,
  closed-Consistent, Consistent-same_id, Consistent-same_open, find?-changed,
}

module _ (tenant_id id reason : Text) (decision : Decision) (now : ℕ)
    (recommendations : List Recommendation) (a : Approval) where
  abbrev decides : Approval → Bool
  decides = is_approval tenant_id id

  abbrev decided_row : Recommendation → Recommendation
  decided_row =
      decide_recommendation tenant_id a.recommendation_id (decided_recommendation decision)

  decides-eq : (b : Approval) → decides b ≡ true → (b.tenant_id ≡ tenant_id) × (b.id ≡ id)
  decides-eq b e =
      let (s, t) = both (text_eq b.tenant_id tenant_id) (text_eq b.id id) e in
      ((text_eq_iff b.tenant_id tenant_id).0 s, (text_eq_iff b.id id).0 t)

  Agree-decision : Agree (decided_status decision) (decided_recommendation decision)
  unfolding decided_status decided_recommendation
  Agree-decision = elim decision as (λ d. Agree (decided_status d) (decided_recommendation d)) [
    | approve ↦ refl
    | reject ↦ refl
  ]

  decided_row-keys :
      (x : Recommendation) → ((decided_row x).tenant_id ≡ x.tenant_id) × ((decided_row x).id ≡ x.id)
  unfolding decide_recommendation
  decided_row-keys x =
      if_cases (λ (y : Recommendation). (y.tenant_id ≡ x.tenant_id) × (y.id ≡ x.id))
        (is_recommendation tenant_id a.recommendation_id x && awaits x.status) (λ _. (refl, refl))
        (λ _. (refl, refl))

  -- The approval itself.
  row_decided :
      (b : Approval)
      → Agreed recommendations b
      → decides b ≡ true
      → b.recommendation_id ≡ a.recommendation_id
      → b.status ≡ pending
      → Agreed (map decided_row recommendations) (set_decision decision reason now b)
  unfolding decide_recommendation
  row_decided b (r, f, g) e same waits =
      let found =
        find?-changed decided_row decided_row-keys b.tenant_id b.recommendation_id recommendations
          f in
      let key : is_recommendation tenant_id a.recommendation_id r ≡ true =
        subst (λ t. is_recommendation t a.recommendation_id r ≡ true) (decides-eq b e).0
          (subst (λ i. is_recommendation b.tenant_id i r ≡ true) same
            (find?-sound (is_recommendation b.tenant_id b.recommendation_id) recommendations f)) in
      let open_row : awaits r.status ≡ true = Agree-awaits b.status r.status waits g in
      (decided_row r, found, (rw (key, open_row) Agree-decision))

  -- Any other approval.
  row_other :
      (b : Approval)
      → Agreed recommendations b
      → decides a ≡ true
      → decides b ≡ false
      → (is_open_for a.tenant_id a.recommendation_id b ≡ true → a ≡ b)
      → Agreed (map decided_row recommendations) b
  unfolding decide_recommendation
  row_other b (r, f, g) e' e only =
      let found =
        find?-changed decided_row decided_row-keys b.tenant_id b.recommendation_id recommendations
          f in
      (
        decided_row r,
        found,
        if_cases (λ (y : Recommendation). Agree b.status y.status)
            (is_recommendation tenant_id a.recommendation_id r && awaits r.status)
            (λ t.
              let (key, open_row) =
                both (is_recommendation tenant_id a.recommendation_id r) (awaits r.status) t in
              untouched b.status r.status (decided_recommendation decision) g open_row (λ waits.
                let k = key-eq tenant_id a.recommendation_id r key in
                let k' = key-eq b.tenant_id b.recommendation_id r (
                  find?-sound (is_recommendation b.tenant_id b.recommendation_id) recommendations
                    f) in
                let (same_tenant, _) = decides-eq a e' in
                let t_eq : b.tenant_id ≡ a.tenant_id = sym k'.0 ∙ k.0 ∙ sym same_tenant in
                let i_eq : b.recommendation_id ≡ a.recommendation_id = sym k'.1 ∙ k.1 in
                let open_b : is_open_for a.tenant_id a.recommendation_id b ≡ true =
                  rw (waits, t_eq, i_eq, text_eq_refl a.tenant_id, text_eq_refl a.recommendation_id)
                    refl in
                let clash : decides b ≡ true = subst (λ x. decides x ≡ true) (only open_b) e' in
                cc))
            (λ _. g),
      )

module _ (tenant_id id reason : Text) (decision : Decision) (now : ℕ) (w : Tables)
    (h : Consistent w) (a : Approval)
    (found : find? (is_approval tenant_id id) w.approvals ≡ some a)
    (waits : is_pending a.status ≡ true) where
  found_decides : is_approval tenant_id id a ≡ true
  found_decides = find?-sound (is_approval tenant_id id) w.approvals found

  row-Agreed :
      (b : Approval)
      → Agreed w.recommendations b
      → (has_id a.id b ≡ true → a ≡ b)
      → (is_open_for a.tenant_id a.recommendation_id b ≡ true → a ≡ b)
      → Agreed
          (map
            (decide_recommendation tenant_id a.recommendation_id (decided_recommendation decision))
            w.recommendations)
          (updated (is_approval tenant_id id) (set_decision decision reason now) b)
  row-Agreed b agreed by_id by_key =
      if_cases
        (Agreed (
          map
            (decide_recommendation tenant_id a.recommendation_id (decided_recommendation decision))
            w.recommendations))
        (is_approval tenant_id id b)
        (λ e.
          let same : a ≡ b = by_id (
            rw
              (
                (decides-eq tenant_id id reason decision now w.recommendations a b e).1,
                (decides-eq tenant_id id reason decision now w.recommendations a a found_decides).1,
                text_eq_refl id,
              )
              refl) in
          row_decided tenant_id id reason decision now w.recommendations a b agreed e
            (ap (λ (x : Approval). x.recommendation_id) (sym same))
            (is_pending-eq b.status (subst (λ x. is_pending x.status ≡ true) same waits)))
        (λ e.
          row_other tenant_id id reason decision now w.recommendations a b agreed found_decides e
            by_key)

  is_closed : is_open (decided_status decision) ≡ false
  unfolding decided_status
  is_closed = elim decision as (λ d. is_open (decided_status d) ≡ false) [
    | approve ↦ refl
    | reject ↦ refl
  ]

  decided-Consistent :
      {rows : List Approval}
      → update_approvals (is_approval tenant_id id) (set_decision decision reason now) w.approvals
        ≡ some rows
      → Consistent (record {
        approvals = rows;
        recommendations =
            map
              (decide_recommendation tenant_id a.recommendation_id
                (decided_recommendation decision))
              w.recommendations;
      })
  decided-Consistent u =
      let (same, _) =
        update_approvals-updated (is_approval tenant_id id) (set_decision decision reason now)
          w.approvals u in
      let by_id =
        All-find? (λ x. All (λ b. has_id x.id b ≡ true → x ≡ b) w.approvals)
          (is_approval tenant_id id) w.approvals (Consistent-same_id w h) found in
      let by_key =
        All-find?
          (λ x.
            is_pending x.status ≡ true
            → All (λ b. is_open_for x.tenant_id x.recommendation_id b ≡ true → x ≡ b) w.approvals)
          (is_approval tenant_id id) w.approvals (Consistent-same_open w h) found waits in
      rw same (
        closed-Consistent w h (is_approval tenant_id id) (set_decision decision reason now)
          (λ x. refl) (λ x. is_closed) _
          (All-weaken (λ b k. row-Agreed b k.0 k.1.0 k.1.1) w.approvals
            (All-zip (Agreed w.recommendations)
              (λ b.
                (has_id a.id b ≡ true → a ≡ b)
                × (is_open_for a.tenant_id a.recommendation_id b ≡ true → a ≡ b))
              w.approvals h.agreed
              (All-zip (λ b. has_id a.id b ≡ true → a ≡ b)
                (λ b. is_open_for a.tenant_id a.recommendation_id b ≡ true → a ≡ b) w.approvals
                by_id by_key))))

-- A decision keeps the tables consistent, whether it goes through or not.
pub decide-Consistent :
    (tenant_id id reason : Text) (decision : Decision) (now : ℕ) (w : Tables)
    → Consistent w
    → Consistent (decide tenant_id id reason decision now w).1
unfolding decide get_approval
decide-Consistent tenant_id id reason decision now w h =
    elim (Option-cases (find? (is_approval tenant_id id) w.approvals)) [
      | inl f ↦ rw f h
      | inr (a, f) ↦ rw f (elim (Bool-cases (is_pending a.status)) [
        | inr p ↦ rw p h
        | inl p ↦
            rw p
              (elim (Option-cases (
                update_approvals (is_approval tenant_id id) (set_decision decision reason now)
                  w.approvals)) [
                    | inl u ↦ rw u h
                    | inr (rows, u) ↦
                        rw u (decided-Consistent tenant_id id reason decision now w h a f p u)
                  ])
      ])
    ]

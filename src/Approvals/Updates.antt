-- ===== src/Approvals/Updates.antt =====
-- An UPDATE on approvals as one change of every row, where the trigger lets it pass.
use cloud_commitment_portfol.Base.{
  ◌≡◌, refl, sym, ◌∙◌, Bool, true, false, some, List, [], ◌∷◌, map, All, if◌then◌else◌, Bool-cases,
  >>=-eq-some, some_inj, inl, inr,
}
use cloud_commitment_portfol.Approvals.{Approval, passes, update_one, update_approvals}

module _ (matches : Approval → Bool) (change : Approval → Approval) where
  abbrev pub updated : Approval → Approval
  updated r = if matches r then change r else r

  abbrev pub Passes : Approval → Type 0
  Passes r = matches r ≡ true → passes r (change r) ≡ true

  pub updated-matches : (r : Approval) → matches r ≡ true → updated r ≡ change r
  updated-matches r e = rw e refl

  pub updated-other : (r : Approval) → matches r ≡ false → updated r ≡ r
  updated-other r e = rw e refl

  update_one-updated :
      (r : Approval) {r' : Approval}
      → update_one matches change r ≡ some r'
      → (r' ≡ updated r) × Passes r
  unfolding update_one
  update_one-updated r h = elim (Bool-cases (matches r)) [
    | inl e ↦ elim (Bool-cases (passes r (change r))) [
      | inl t ↦ (sym (some_inj (rw (e, t) at h)) ∙ sym (updated-matches r e), (λ _. t))
      | inr t ↦ absurd (let x = rw (e, t) at h in cc)
    ]
    | inr e ↦ (sym (some_inj (rw e at h)) ∙ sym (updated-other r e), (λ m. absurd (cc)))
  ]

  -- What an UPDATE that goes through has done.
  pub update_approvals-updated :
      (rows : List Approval) {rows' : List Approval}
      → update_approvals matches change rows ≡ some rows'
      → (rows' ≡ map updated rows) × All Passes rows
  unfolding update_approvals
  update_approvals-updated [] h = (sym (some_inj h), tt)
  update_approvals-updated (r ∷ rows) h =
      let (r₁, e, h₁) = >>=-eq-some (update_one matches change r) _ h in
      let (rest, k, h₂) = >>=-eq-some (update_approvals matches change rows) _ h₁ in
      let (same, pass) = update_one-updated r e in
      let (same', pass') = update_approvals-updated rows k in
      (sym (some_inj h₂) ∙ (rw (same, same') refl), (pass, pass'))

  -- Where every row passes the trigger, it goes through.
  pub updated-update_approvals :
      (rows : List Approval)
      → All Passes rows
      → update_approvals matches change rows ≡ some (map updated rows)
  unfolding update_approvals update_one
  updated-update_approvals [] h = refl
  updated-update_approvals (r ∷ rows) (p, h) = elim (Bool-cases (matches r)) [
    | inl e ↦ rw (e, p e, updated-update_approvals rows h) refl
    | inr e ↦ rw (e, updated-update_approvals rows h) refl
  ]

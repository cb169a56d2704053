-- ===== src/Optimizer/Worker/Recorded.antt =====
-- Which recommendation the `try` block of `processNext` inserts, step by step.
use cloud_commitment_portfol.Base.{
  ◌≡◌, refl, ◌⊎◌, inl, inr, Bool, true, Option, none, some, List, [], ◌∷◌, ◌++◌, head?, filter, All,
  All-filter, All-head?, Bool-cases, Option-cases,
}
use cloud_commitment_portfol.Base.Text.{Text}
use cloud_commitment_portfol.Base.Json.{Json, Fields, as_object}
use cloud_commitment_portfol.Base.Action.{Result, ok, throw}
use cloud_commitment_portfol.Optimizer.Types.{
  queued, running, completed, failed, infeasible, cancelled, WorkerRun, PriceItem, Candidate,
  PolicySnapshot,
}
use cloud_commitment_portfol.Optimizer.Policy.{policy_snapshot, forecast_output_uri}
use cloud_commitment_portfol.Optimizer.Evaluate.{is_feasible, optimize_commitment_run}
use cloud_commitment_portfol.Optimizer.Evaluate.Kernel.{IsSound, optimize_commitment_run-IsSound}
use cloud_commitment_portfol.Optimizer.Documents.{
  recommendation_of, recommendation_input, frontier_key, output_key,
}
use cloud_commitment_portfol.Optimizer.Repository.{RecommendationRow}
use cloud_commitment_portfol.Optimizer.Worker.{
  World, Call, Failure, failure, complete, insert, list_prices, mark_infeasible, put_object,
  get_object, WorkerResult, processed, idle, lookup, settle_infeasible, settle_selected, settle,
  with_candidates, with_prices, with_snapshot, read_json, put, insert_recommendation,
  complete_optimizer_run, mark_optimizer_run_infeasible, frozen_price_items,
}

-- The table of recommendations has one more row: the recommendation, under the policy of the run's
-- snapshot, of a candidate that is feasible and sound.
pub record Recommends (run : WorkerRun) (snapshot : Fields) (before after : List RecommendationRow)
    : Type 0 where
  pub policy : PolicySnapshot
  pub policy_read : policy_snapshot snapshot ≡ some policy
  pub candidate : Candidate
  pub feasible : candidate.feasible ≡ true
  pub sound : IsSound run policy candidate
  pub inserted :
      after
      ≡ before
        ++ record {
          tenant_id = run.tenant_id;
          optimizer_run_id = run.id;
          input = recommendation_of run policy candidate;
        }
          ∷ []

recommendation_input-eq :
    (run : WorkerRun) (snapshot : Fields) (c : Candidate) (policy : PolicySnapshot)
    → policy_snapshot snapshot ≡ some policy
    → recommendation_input run snapshot c ≡ some (recommendation_of run policy c)
unfolding recommendation_input
recommendation_input-eq run snapshot c policy e = rw e

module _ (fails : Call → Bool) (locked : Text → Bool) where
  -- The recommendations after a part of the `try` block.
  abbrev pub Recorded :
      WorkerRun → Fields → List RecommendationRow → Result Failure WorkerResult × World → Type 0
  Recorded run snapshot before (ok idle, w) = ⊥
  Recorded run snapshot before (ok (processed id completed o f n), w) =
      Recommends run snapshot before w.recommendations
  Recorded run snapshot before (ok (processed id infeasible o f n), w) = w.recommendations ≡ before
  Recorded run snapshot before (ok (processed id queued o f n), w) = ⊥
  Recorded run snapshot before (ok (processed id running o f n), w) = ⊥
  Recorded run snapshot before (ok (processed id failed o f n), w) = ⊥
  Recorded run snapshot before (ok (processed id cancelled o f n), w) = ⊥
  Recorded run snapshot before (throw _, w) =
      (w.recommendations ≡ before)
      ⊎ ((fails complete ≡ true) × Recommends run snapshot before w.recommendations)

  -- `readJson` throws, or reads the object under the key; it changes nothing.
  pub read_json-cases :
      (key : Text) (w : World)
      → (read_json fails locked key w ≡ (throw failure, w))
        ⊎ ((document : Json) × (lookup key w.objects ≡ some document)
            × (read_json fails locked key w ≡ (ok (as_object (some document)), w)))
  unfolding read_json
  read_json-cases key w = elim (Bool-cases (fails (get_object key))) [
    | inl f ↦ inl (rw f refl)
    | inr f ↦ elim (Option-cases (lookup key w.objects)) [
      | inl e ↦ inl (rw f (rw e refl))
      | inr (document, e) ↦ inr (document, e, rw f (rw e refl))
    ]
  ]

  settle_selected-Recorded :
      (run : WorkerRun) (snapshot : Fields) (c : Candidate) (policy : PolicySnapshot) (w : World)
      → policy_snapshot snapshot ≡ some policy
      → c.feasible ≡ true
      → IsSound run policy c
      → Recorded run snapshot w.recommendations (settle_selected fails locked run snapshot c w)
  unfolding settle_selected put insert_recommendation complete_optimizer_run recommendation_input
  settle_selected-Recorded run snapshot c policy w e f s =
      let found : Recommends run snapshot w.recommendations _ = record {
        policy = policy;
        policy_read = e;
        candidate = c;
        feasible = f;
        sound = s;
        inserted = refl;
      } in
      elim (Bool-cases (fails (put_object (output_key run)))) [
        | inl p ↦ rw p (inl refl)
        | inr p ↦ rw p (
            rw (recommendation_input-eq run snapshot c policy e) (elim (Bool-cases (fails insert)) [
              | inl q ↦ rw q (inl refl)
              | inr q ↦ rw q (elim (Bool-cases (fails complete)) [
                | inl r ↦ rw r (inr (r, found))
                | inr r ↦ rw r found
              ])
            ]))
      ]

  settle_infeasible-Recorded :
      (run : WorkerRun) (snapshot : Fields) (cs : List Candidate) (w : World)
      → Recorded run snapshot w.recommendations (settle_infeasible fails locked run cs w)
  unfolding settle_infeasible mark_optimizer_run_infeasible
  settle_infeasible-Recorded run snapshot cs w = elim (Bool-cases (fails mark_infeasible)) [
    | inl e ↦ rw e (inl refl)
    | inr e ↦ rw e refl
  ]

  settle-Recorded :
      (run : WorkerRun) (snapshot : Fields) (cs : List Candidate) (o : Option Candidate)
      (policy : PolicySnapshot) (w : World)
      → policy_snapshot snapshot ≡ some policy
      → All (λ c. IsSound run policy c × (is_feasible c ≡ true)) (filter is_feasible cs)
      → head? (filter is_feasible cs) ≡ o
      → Recorded run snapshot w.recommendations (settle fails locked run snapshot cs o w)
  unfolding settle
  settle-Recorded run snapshot cs none policy w e a h = settle_infeasible-Recorded run snapshot cs w
  settle-Recorded run snapshot cs (some c) policy w e a h =
      let (s, f) = All-head? _ (filter is_feasible cs) a h in
      settle_selected-Recorded run snapshot c policy w e f s

  with_candidates-Recorded :
      (run : WorkerRun) (snapshot : Fields) (cs : List Candidate) (policy : PolicySnapshot)
      (w : World)
      → policy_snapshot snapshot ≡ some policy
      → All (IsSound run policy) cs
      → Recorded run snapshot w.recommendations (with_candidates fails locked run snapshot cs w)
  unfolding with_candidates put
  with_candidates-Recorded run snapshot cs policy w e a =
      elim (Bool-cases (fails (put_object (frontier_key run)))) [
        | inl p ↦ rw p (inl refl)
        | inr p ↦
            rw p (settle-Recorded run snapshot cs _ policy _ e (All-filter _ is_feasible cs a) refl)
      ]

  with_prices-Recorded :
      (run : WorkerRun) (snapshot forecast : Fields) (items : List PriceItem) (w : World)
      → Recorded run snapshot w.recommendations
          (with_prices fails locked run snapshot forecast items w)
  unfolding with_prices
  with_prices-Recorded run snapshot forecast items w =
      elim (Option-cases (optimize_commitment_run run snapshot forecast items)) [
        | inl e ↦ rw e (inl refl)
        | inr (cs, e) ↦
            let (policy, read, sound) =
              optimize_commitment_run-IsSound run snapshot forecast items cs e in
            rw e (with_candidates-Recorded run snapshot cs policy w read sound)
      ]

  pub with_snapshot-Recorded :
      (run : WorkerRun) (snapshot : Fields) (w : World)
      → Recorded run snapshot w.recommendations (with_snapshot fails locked run snapshot w)
  unfolding with_snapshot frozen_price_items
  with_snapshot-Recorded run snapshot w = elim (read_json-cases (forecast_output_uri snapshot) w) [
    | inl e ↦ rw e (inl refl)
    | inr (document, _, e) ↦ rw e (elim (Bool-cases (fails list_prices)) [
      | inl p ↦ rw p (inl refl)
      | inr p ↦ rw p (with_prices-Recorded run snapshot (as_object (some document)) _ w)
    ])
  ]

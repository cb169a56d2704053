-- ===== src/Optimizer/Repository/Lifecycle.antt =====
-- The statements of the repository against the rules of
-- db/migrations/0018_create_optimizer_runs.sql: the CHECKs on the columns that they set, and the
-- trigger on the inputs and the status transitions, which the database enforces by itself.
use cloud_commitment_portfol.Base.{
  ◌≡◌, refl, ap, subst, ◌∙◌, ◌≢◌, ◌⊎◌, inl, inr, Bool, true, false, Option, none, some, ◌&&◌, ◌≤◌,
  ℕ, arith, Bool-cases,
}
use cloud_commitment_portfol.Base.Text.{Text, codes, text_eq}
use cloud_commitment_portfol.Base.Json.{str, Fields, end, field}
use cloud_commitment_portfol.Optimizer.Types.{
  RunStatus, queued, running, completed, failed, infeasible, cancelled, WorkerRun,
}
use cloud_commitment_portfol.Optimizer.Repository.Checks.{
  StateFields, is_uri, has_any, SameInputs, InfeasibilityCheck, ErrorCheck, Checked,
}
use cloud_commitment_portfol.Optimizer.Repository.{
  status_eq, update_row, set_running, set_completed, set_infeasible, set_failed,
}

-- The status transitions that `enforce_optimizer_run_lifecycle` lets through.
unfoldable pub allowed : RunStatus → RunStatus → Bool
allowed queued running = true
allowed queued failed = true
allowed queued cancelled = true
allowed running completed = true
allowed running failed = true
allowed running infeasible = true
allowed running cancelled = true
allowed _ _ = false

status_eq-eq : (a b : RunStatus) → status_eq a b ≡ true → a ≡ b
unfolding status_eq
status_eq-eq a b e = ground arith

from_queued :
    (s : RunStatus) (o f : Option Text) (i e : Fields)
    → s ≡ queued
    → StateFields s o f i e
    → (allowed s running ≡ true) × StateFields running o f i e
from_queued s o f i e same h = (
  ap (λ t. allowed t running) same ∙ unfold allowed in refl,
  subst (λ t. StateFields t o f i e) same h,
)

from_running : (s t : RunStatus) → s ≡ running → allowed running t ≡ true → allowed s t ≡ true
from_running s t same h = ap (λ u. allowed u t) same ∙ h

module _ (octets : Fields → ℕ) where
  -- An update that the database accepts: no row, or one that keeps its inputs, whose status takes an
  -- allowed transition and that satisfies the CHECKs again.
  abbrev pub Accepted : WorkerRun → WorkerRun → Type 0
  Accepted r r' =
      (r' ≡ r) ⊎ ((allowed r.status r'.status ≡ true) × SameInputs r r' × Checked octets r')

  update_row-Accepted :
      (id : Text) (status : RunStatus) (change : WorkerRun → WorkerRun)
      → ((r : WorkerRun)
          → Checked octets r
          → r.status ≡ status
          → (allowed r.status (change r).status ≡ true)
            × SameInputs r (change r)
            × Checked octets (change r))
      → (r : WorkerRun) → Checked octets r
      → Accepted r (update_row id status change r)
  unfolding update_row
  update_row-Accepted id status change ok r h =
      elim (Bool-cases (text_eq r.id id && status_eq r.status status)) [
        | inl e ↦ rw e (inr (ok r h (status_eq-eq r.status status (ground arith))))
        | inr e ↦ rw e (inl refl)
      ]

  -- A change of the status and the four columns after it leaves the inputs.
  same_inputs :
      (r : WorkerRun) (s : RunStatus) (o f : Option Text) (i e : Fields)
      → SameInputs r (record r {
        status = s;
        output_uri = o;
        frontier_uri = f;
        infeasibility_details = i;
        error_details = e;
      })
  same_inputs r s o f i e = record {
    id = refl;
    tenant_id = refl;
    forecast_run_id = refl;
    scenario_id = refl;
    optimizer_policy_id = refl;
    provider = refl;
    instrument = refl;
    price_table_version_ids = refl;
    random_seed = refl;
    input_snapshot_uri = refl;
    created_by_user_id = refl;
    created_at = refl;
  }

  no_details : octets end ≤ 16384 → InfeasibilityCheck octets end × ErrorCheck octets end
  unfolding has_any
  no_details h = ((omega arith, refl), (h, refl))

  code_details :
      (code : Text)
      → octets (field (codes "code") (str code) end) ≤ 16384
      → ErrorCheck octets (field (codes "code") (str code) end)
  unfolding has_any text_eq
  code_details code h = (h, refl)

  -- What a change of a row in a status must leave.
  abbrev Moves : RunStatus → (WorkerRun → WorkerRun) → Type 0
  Moves status change =
      (r : WorkerRun)
      → Checked octets r
      → r.status ≡ status
      → (allowed r.status (change r).status ≡ true)
        × SameInputs r (change r)
        × Checked octets (change r)

  set_running-Moves : Moves queued set_running
  set_running-Moves u k e =
      let (go, fields) = from_queued _ _ _ _ _ e k.state_fields in
      (
        go,
        same_inputs u running u.output_uri u.frontier_uri u.infeasibility_details u.error_details,
        record {
          state_fields = fields;
          output = k.output;
          frontier = k.frontier;
          infeasibility = k.infeasibility;
          error = k.error;
        },
      )

  set_completed-Moves :
      (output frontier : Text)
      → is_uri output ≡ true
      → is_uri frontier ≡ true
      → octets end ≤ 16384
      → Moves running (set_completed output frontier)
  set_completed-Moves output frontier o f small u k e = (
    from_running _ _ e (unfold allowed in refl),
    same_inputs u completed (some output) (some frontier) end end,
    record {
      state_fields = (cc, cc, refl, refl);
      output = o;
      frontier = f;
      infeasibility = (no_details small).0;
      error = (no_details small).1;
    },
  )

  set_infeasible-Moves :
      (frontier : Text) (details : Fields)
      → is_uri frontier ≡ true
      → details ≢ end
      → InfeasibilityCheck octets details
      → octets end ≤ 16384
      → Moves running (set_infeasible frontier details)
  set_infeasible-Moves frontier details f ne d small u k e = (
    from_running _ _ e (unfold allowed in refl),
    same_inputs u infeasible none (some frontier) details end,
    record {
      state_fields = (refl, cc, ne, refl);
      output = tt;
      frontier = f;
      infeasibility = d;
      error = (no_details small).1;
    },
  )

  set_failed-Moves :
      (code : Text)
      → octets end ≤ 16384
      → octets (field (codes "code") (str code) end) ≤ 16384
      → Moves running (set_failed code)
  set_failed-Moves code small small_code u k e = (
    from_running _ _ e (unfold allowed in refl),
    same_inputs u failed none none end (field (codes "code") (str code) end),
    record {
      state_fields = (refl, refl, refl, cc);
      output = tt;
      frontier = tt;
      infeasibility = (no_details small).0;
      error = code_details code small_code;
    },
  )

  -- Every UPDATE of the repository is one that the database accepts, on every row that satisfies the
  -- CHECKs on its state, its URIs and its details: the row is unchanged, or its inputs are, its
  -- status takes an allowed transition and it satisfies the CHECKs again. The URIs that are set must
  -- pass their CHECK, the details of an infeasible run must not be empty and must pass theirs, and
  -- the texts of no details and of an error's code must be short enough.
  pub updates-Accepted :
      (id output frontier code : Text) (details : Fields) (r : WorkerRun)
      → is_uri output ≡ true
      → is_uri frontier ≡ true
      → details ≢ end
      → InfeasibilityCheck octets details
      → octets end ≤ 16384
      → octets (field (codes "code") (str code) end) ≤ 16384
      → Checked octets r
      → Accepted r (update_row id queued set_running r)
        × Accepted r (update_row id running (set_completed output frontier) r)
        × Accepted r (update_row id running (set_infeasible frontier details) r)
        × Accepted r (update_row id running (set_failed code) r)
  updates-Accepted id output frontier code details r o f ne d small small_code h = (
    update_row-Accepted id queued set_running set_running-Moves r h,
    update_row-Accepted id running (set_completed output frontier)
        (set_completed-Moves output frontier o f small) r h,
    update_row-Accepted id running (set_infeasible frontier details)
        (set_infeasible-Moves frontier details f ne d small) r h,
    update_row-Accepted id running (set_failed code) (set_failed-Moves code small small_code) r h,
  )

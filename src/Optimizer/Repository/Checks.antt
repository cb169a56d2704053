-- ===== src/Optimizer/Repository/Checks.antt =====
-- The CHECKs of db/migrations/0018_create_optimizer_runs.sql on the columns that the statements of
-- the repository set, and the inputs that its trigger holds fixed.
use cloud_commitment_portfol.Base.{
  ℕ, ◌-◌, ◌≤◌, ◌≡◌, ◌≢◌, Bool, true, false, not, ◌&&◌, ◌||◌, ◌==◌, Option, none, some, List, [],
  ◌∷◌, ltb, leb, length, get_or, any,
}
use cloud_commitment_portfol.Base.Text.{Text, codes}
use cloud_commitment_portfol.Base.Json.{Json, Fields, end, member}
use cloud_commitment_portfol.Optimizer.Types.{
  RunStatus, queued, running, completed, failed, infeasible, cancelled, WorkerRun,
}

-- `optimizer_runs_state_fields_check`.
abbrev pub StateFields : RunStatus → Option Text → Option Text → Fields → Fields → Type 0
StateFields queued output frontier infeasibility error =
    (output ≡ none) × (frontier ≡ none) × (infeasibility ≡ end) × (error ≡ end)
StateFields running output frontier infeasibility error =
    (output ≡ none) × (frontier ≡ none) × (infeasibility ≡ end) × (error ≡ end)
StateFields completed output frontier infeasibility error =
    (output ≢ none) × (frontier ≢ none) × (infeasibility ≡ end) × (error ≡ end)
StateFields failed output frontier infeasibility error =
    (output ≡ none) × (frontier ≡ none) × (infeasibility ≡ end) × (error ≢ end)
StateFields infeasible output frontier infeasibility error =
    (output ≡ none) × (frontier ≢ none) × (infeasibility ≢ end) × (error ≡ end)
StateFields cancelled output frontier infeasibility error =
    (output ≡ none) × (frontier ≡ none) × (infeasibility ≡ end) × (error ≡ end)

abbrev pub HasStateFields : WorkerRun → Type 0
HasStateFields r =
    StateFields r.status r.output_uri r.frontier_uri r.infeasibility_details r.error_details

-- A URI that `optimizer_runs_output_uri_check` takes: no space at either end, not empty, at most 2048
-- characters, counted here in code units, which are no fewer, and no control character.
abbrev pub is_control : ℕ → Bool
is_control u = ltb u 32 || leb 127 u && ltb u 160

unfoldable pub is_uri : Text → Bool
is_uri t =
    not (get_or t 0 0 == 32)
    && not (get_or t (length t - 1) 0 == 32)
    && not (length t == 0)
    && leb (length t) 2048
    && not (any is_control t)

abbrev pub UriCheck : Option Text → Type 0
UriCheck none = Unit
UriCheck (some t) = is_uri t ≡ true

-- The keys that neither column of details may have, and those that the errors may not have either.
abbrev pub infeasibility_keys : List Text
infeasibility_keys =
    codes "credentials"
    ∷ codes "credential"
    ∷ codes "password"
    ∷ codes "secret"
    ∷ codes "token"
    ∷ codes "raw_file"
    ∷ codes "raw_bytes"
    ∷ codes "raw_row"
    ∷ codes "raw_rows"
    ∷ []

abbrev pub error_keys : List Text
error_keys = codes "stack" ∷ codes "stack_trace" ∷ infeasibility_keys

abbrev is_there : Option Json → Bool
is_there none = false
is_there (some j) = true

unfoldable pub has_any : List Text → Fields → Bool
unfolding member
has_any keys details = any (λ key. is_there (member key details)) keys

-- The inputs of a run that the trigger holds fixed.
pub record SameInputs (r r' : WorkerRun) : Type 0 where
  pub id : r'.id ≡ r.id
  pub tenant_id : r'.tenant_id ≡ r.tenant_id
  pub forecast_run_id : r'.forecast_run_id ≡ r.forecast_run_id
  pub scenario_id : r'.scenario_id ≡ r.scenario_id
  pub optimizer_policy_id : r'.optimizer_policy_id ≡ r.optimizer_policy_id
  pub provider : r'.provider ≡ r.provider
  pub instrument : r'.instrument ≡ r.instrument
  pub price_table_version_ids : r'.price_table_version_ids ≡ r.price_table_version_ids
  pub random_seed : r'.random_seed ≡ r.random_seed
  pub input_snapshot_uri : r'.input_snapshot_uri ≡ r.input_snapshot_uri
  pub created_by_user_id : r'.created_by_user_id ≡ r.created_by_user_id
  pub created_at : r'.created_at ≡ r.created_at

-- `octets` is what the database measures: the length of the text of a `jsonb` value.
module _ (octets : Fields → ℕ) where
  abbrev pub InfeasibilityCheck : Fields → Type 0
  InfeasibilityCheck details =
      (octets details ≤ 65536) × (has_any infeasibility_keys details ≡ false)

  abbrev pub ErrorCheck : Fields → Type 0
  ErrorCheck details = (octets details ≤ 16384) × (has_any error_keys details ≡ false)

  -- The CHECKs on the columns that the statements set.
  pub record Checked (r : WorkerRun) : Type 0 where
    pub state_fields : HasStateFields r
    pub output : UriCheck r.output_uri
    pub frontier : UriCheck r.frontier_uri
    pub infeasibility : InfeasibilityCheck r.infeasibility_details
    pub error : ErrorCheck r.error_details

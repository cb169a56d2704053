-- ===== src/Approvals/Agreement.antt =====
-- An approval and its recommendation, as each transaction of the repository leaves them.
pub mod Decided
pub mod Expired
pub mod Requested
use cloud_commitment_portfol.Base.{
  ℕ, ◌≤◌, ◌≡◌, refl, sym, ap, ◌∙◌, subst, Bool, true, false, not, ◌&&◌, ◌||◌, Option, none, some,
  List, [], ◌∷◌, ◌++◌, map, find?, any, count, All, All-weaken, All-append, All-zip, All-each,
  All-map, All-find?, any-find?, find?-any, find?-map, find?-sound, find?-append, any-count,
  count-append, count-map, count-le, count_le_one-only, ltb, if◌then◌else◌, if_cases, Bool-cases,
  Option-cases, inl, inr, arith,
}
use cloud_commitment_portfol.Base.Text.{Text, text_eq, text_eq_iff}
use cloud_commitment_portfol.Base.Action.{Result, ok, throw}
use cloud_commitment_portfol.Approvals.{
  ApprovalStatus, queued, pending, approved, rejected, expired, failed, RecommendationStatus, draft,
  ready, pending_approval, recommendation_approved, recommendation_rejected, superseded, executed,
  recommendation_expired, Approval, Recommendation, Tables, transition, passes, update_approvals,
  is_approval, get_approval, Decision, approve, reject, decided_status, decided_recommendation,
  awaits, is_recommendation, get_recommendation, decide_recommendation, set_decision, is_pending,
  decide, ApprovalError,
}
use cloud_commitment_portfol.Approvals.Pending.{
  Directory, InsertInput, has_id, is_open, is_open_for, is_taken, is_requester, new_approval,
  insert_approval, read_snapshot_context, build_approval_snapshot, create_pending,
}
use cloud_commitment_portfol.Approvals.Expiry.{
  due_rows, expires, expire_recommendation, joins, set_expired, ExpiryResult, expired_rows,
  expire_due,
}
use cloud_commitment_portfol.Approvals.Updates.{
  updated, Passes, updated-matches, updated-other, update_approvals-updated,
  updated-update_approvals,
}

-- The status of an approval beside that of its recommendation.
abbrev pub Agree : ApprovalStatus → RecommendationStatus → Type 0
Agree queued s = Unit
Agree pending s = s ≡ pending_approval
Agree approved s = s ≡ recommendation_approved
Agree rejected s = s ≡ recommendation_rejected
Agree expired s = s ≡ recommendation_expired
Agree failed s = Unit

abbrev pub Agreed : List Recommendation → Approval → Type 0
Agreed recommendations a =
    (r : Recommendation) × (find? (is_recommendation a.tenant_id a.recommendation_id)
        recommendations
      ≡ some r)
    × Agree a.status r.status

-- What holds of both tables between two transactions: no two approvals share an id, a
-- recommendation has at most one open approval, and each approval agrees with its recommendation.
pub record Consistent (w : Tables) : Type 0 where
  pub unique_ids : (id : Text) → count (has_id id) w.approvals ≤ 1
  pub one_open :
      (tenant_id recommendation_id : Text)
      → count (is_open_for tenant_id recommendation_id) w.approvals ≤ 1
  pub agreed : All (Agreed w.recommendations) w.approvals

pub both : (a b : Bool) → a && b ≡ true → (a ≡ true) × (b ≡ true)
both true b h = (refl, h)
both false b h = absurd (cc)

pub key-eq :
    (tenant_id id : Text) (r : Recommendation)
    → is_recommendation tenant_id id r ≡ true
    → (r.tenant_id ≡ tenant_id) × (r.id ≡ id)
key-eq tenant_id id r h =
    let (s, t) = both (text_eq r.tenant_id tenant_id) (text_eq r.id id) h in
    ((text_eq_iff r.tenant_id tenant_id).0 s, (text_eq_iff r.id id).0 t)

pub text_eq_refl : (t : Text) → text_eq t t ≡ true
text_eq_refl t = (text_eq_iff t t).1 refl

pub is_recommendation_itself : (r : Recommendation) → is_recommendation r.tenant_id r.id r ≡ true
is_recommendation_itself r = rw (text_eq_refl r.tenant_id, text_eq_refl r.id) refl

pub awaits-eq : (s : RecommendationStatus) → awaits s ≡ true → s ≡ pending_approval
awaits-eq pending_approval h = refl
awaits-eq draft h = absurd (cc)
awaits-eq ready h = absurd (cc)
awaits-eq recommendation_approved h = absurd (cc)
awaits-eq recommendation_rejected h = absurd (cc)
awaits-eq superseded h = absurd (cc)
awaits-eq executed h = absurd (cc)
awaits-eq recommendation_expired h = absurd (cc)

pub is_pending-eq : (s : ApprovalStatus) → is_pending s ≡ true → s ≡ pending
is_pending-eq pending h = refl
is_pending-eq queued h = absurd (cc)
is_pending-eq approved h = absurd (cc)
is_pending-eq rejected h = absurd (cc)
is_pending-eq expired h = absurd (cc)
is_pending-eq failed h = absurd (cc)

-- A recommendation that awaits its decision and changes disagrees with a pending approval alone.
pub untouched :
    (s : ApprovalStatus) (t t' : RecommendationStatus)
    → Agree s t
    → awaits t ≡ true
    → (s ≡ pending → ⊥)
    → Agree s t'
untouched queued t t' h e np = tt
untouched failed t t' h e np = tt
untouched pending t t' h e np = absurd (np refl)
untouched approved t t' h e np = absurd (let x : false ≡ true = rw h at e in cc)
untouched rejected t t' h e np = absurd (let x : false ≡ true = rw h at e in cc)
untouched expired t t' h e np = absurd (let x : false ≡ true = rw h at e in cc)

pub Agree-awaits :
    (s : ApprovalStatus) (t : RecommendationStatus) → s ≡ pending → Agree s t → awaits t ≡ true
Agree-awaits pending t e h = rw h refl
Agree-awaits queued t e h = absurd (cc)
Agree-awaits approved t e h = absurd (cc)
Agree-awaits rejected t e h = absurd (cc)
Agree-awaits expired t e h = absurd (cc)
Agree-awaits failed t e h = absurd (cc)

-- What a change cannot make true becomes no more frequent.
pub count-updated :
    (matches : Approval → Bool) (change : Approval → Approval) (q : Approval → Bool)
    → ((x : Approval) → q (change x) ≡ true → q x ≡ true)
    → (rows : List Approval) → count q (map (updated matches change) rows) ≤ count q rows
count-updated matches change q f rows = rw (count-map q (updated matches change) rows) (
    count-le (λ x. q (updated matches change x)) q rows
      (All-each
        (λ x.
          if_cases (λ (y : Approval). q y ≡ true → q x ≡ true) (matches x) (λ _. f x) (λ _ h. h))
        rows))

-- The approvals that have the id of one are that one, and so are those open for its recommendation.
pub Consistent-same_id :
    (w : Tables)
    → Consistent w
    → All (λ a. All (λ b. has_id a.id b ≡ true → a ≡ b) w.approvals) w.approvals
Consistent-same_id w h =
    All-weaken (λ a f. f (text_eq_refl a.id)) w.approvals
      (count_le_one-only (λ a b. has_id a.id b) w.approvals (λ a. h.unique_ids a.id))

pub Consistent-same_open :
    (w : Tables)
    → Consistent w
    → All
        (λ a.
          is_pending a.status ≡ true
          → All (λ b. is_open_for a.tenant_id a.recommendation_id b ≡ true → a ≡ b) w.approvals)
        w.approvals
Consistent-same_open w h =
    All-weaken
      (λ a f p. f (
        rw (is_pending-eq a.status p, text_eq_refl a.tenant_id, text_eq_refl a.recommendation_id)
          refl))
      w.approvals
      (count_le_one-only (λ a b. is_open_for a.tenant_id a.recommendation_id b) w.approvals
        (λ a. h.one_open a.tenant_id a.recommendation_id))

-- A change that keeps the keys of the recommendations moves what is found.
pub find?-changed :
    (g : Recommendation → Recommendation)
    → ((x : Recommendation) → ((g x).tenant_id ≡ x.tenant_id) × ((g x).id ≡ x.id))
    → (tenant_id id : Text) (recommendations : List Recommendation) {r : Recommendation}
    → find? (is_recommendation tenant_id id) recommendations ≡ some r
    → find? (is_recommendation tenant_id id) (map g recommendations) ≡ some (g r)
find?-changed g keeps tenant_id id recommendations f =
    find?-map (is_recommendation tenant_id id) g (λ x. rw ((keeps x).0, (keeps x).1) refl)
      recommendations f

-- An UPDATE that closes the rows it matches, and keeps their ids, keeps the tables consistent if
-- each approval agrees with what the recommendations are then.
pub closed-Consistent :
    (w : Tables)
    → Consistent w
    → (matches : Approval → Bool) (change : Approval → Approval)
    → ((x : Approval) → (change x).id ≡ x.id)
    → ((x : Approval) → is_open (change x).status ≡ false)
    → (recommendations : List Recommendation)
    → All (λ b. Agreed recommendations (updated matches change b)) w.approvals
    → Consistent (record {
      approvals = map (updated matches change) w.approvals;
      recommendations = recommendations;
    })
closed-Consistent w h matches change same closed recommendations agreed = record {
  unique_ids = λ i.
      let le = count-updated matches change (has_id i) (λ x e. rw (← same x) e) w.approvals in
      omega (arith, h.unique_ids i);
  one_open = λ t i.
      let le =
        count-updated matches change (is_open_for t i)
          (λ x e. absurd (let c : false ≡ true = rw (closed x) at e in cc)) w.approvals in
      omega (arith, h.one_open t i);
  agreed = All-map (Agreed recommendations) (updated matches change) w.approvals agreed;
}

-- ===== src/Optimizer/Evaluate/Ranking.antt =====
-- The order of the candidates, and what the first feasible one is.
use cloud_commitment_portfol.Base.{
  ◌≡◌, ◌⊎◌, inl, inr, true, false, some, List, [], ◌∷◌, head?, filter, All, arith, Bool-cases,
  some_inj, filter-cons_true, filter-cons_false, sym, ap, ◌∙◌,
}
use cloud_commitment_portfol.Base.Int.{◌≤ℤ◌, ◌<ℤ◌, int_laws}
use cloud_commitment_portfol.Base.Sort.{Before, IsSorted, IsOrder, sort-IsSorted}
use cloud_commitment_portfol.Base.Json.{Fields}
use cloud_commitment_portfol.Optimizer.Types.{WorkerRun, PriceItem, Candidate}
use cloud_commitment_portfol.Optimizer.Evaluate.{
  compare_candidates, is_feasible, optimize_commitment_run,
}
use cloud_commitment_portfol.Optimizer.Evaluate.Kernel.{optimize_commitment_run_lem}

-- `compareCandidates` orders any two candidates, and transitively.
pub compare_candidates-IsOrder : IsOrder compare_candidates
unfolding compare_candidates
compare_candidates-IsOrder = record {
  total = λ x y. ground arith;
  transitive = λ x y z b c. ground arith;
}

-- `c` is no better a choice than `s`: it is not feasible, or saves less, or saves as much at no
-- lower downside.
abbrev pub NoBetter : Candidate → Candidate → Type 0
NoBetter s c =
    (c.feasible ≡ false)
    ⊎ ((c.expected_savings_cents <ℤ s.expected_savings_cents)
        ⊎ ((c.expected_savings_cents ≡ s.expected_savings_cents)
            × (s.p95_downside_loss_cents ≤ℤ c.p95_downside_loss_cents)))

Before-NoBetter :
    (s c : Candidate) → s.feasible ≡ true → Before compare_candidates s c → NoBetter s c
unfolding compare_candidates
Before-NoBetter s c f b = grind int_laws

All-NoBetter :
    (s : Candidate) (cs : List Candidate)
    → s.feasible ≡ true
    → All (Before compare_candidates s) cs
    → All (NoBetter s) cs
All-NoBetter s [] f h = tt
All-NoBetter s (c ∷ cs) f (b, h) = (Before-NoBetter s c f b, All-NoBetter s cs f h)

-- In a sorted list the first feasible candidate is not worse than any other.
sorted_select :
    (cs : List Candidate) {s : Candidate}
    → IsSorted compare_candidates cs
    → head? (filter is_feasible cs) ≡ some s
    → (s.feasible ≡ true) × All (NoBetter s) cs
sorted_select [] h e = absurd (cc)
sorted_select (c ∷ cs) {s} (a, h) e = elim (Bool-cases c.feasible) [
  | inl f ↦
      let same : c ≡ s = some_inj (sym (ap head? (filter-cons_true is_feasible c cs f)) ∙ e) in
      let feasible : s.feasible ≡ true = rw (← same) f in
      let after : All (Before compare_candidates s) cs = rw (← same) a in
      (
        feasible,
        (
          inr (inr (ap (λ (x : Candidate). x.expected_savings_cents) same, rw same (omega arith))),
          All-NoBetter s cs feasible after,
        ),
      )
  | inr g ↦
      let (feasible, others) =
        sorted_select cs h (sym (ap head? (filter-cons_false is_feasible c cs g)) ∙ e) in
      (feasible, (inl g, others))
]

-- The first feasible candidate of a run is the best: it is feasible, and no candidate of the run,
-- in whatever order the price items came, is feasible and saves more, or is feasible and saves as
-- much at a lower downside.
pub optimize_commitment_run-first_is_best :
    (run : WorkerRun) (snapshot forecast : Fields) (price_items : List PriceItem)
    (cs : List Candidate) {s : Candidate}
    → optimize_commitment_run run snapshot forecast price_items ≡ some cs
    → head? (filter is_feasible cs) ≡ some s
    → (s.feasible ≡ true) × All (NoBetter s) cs
optimize_commitment_run-first_is_best run snapshot forecast price_items cs h e =
    let (_, unsorted, _, _, sorted) =
      optimize_commitment_run_lem run snapshot forecast price_items cs h in
    sorted_select cs
      (rw sorted (sort-IsSorted compare_candidates compare_candidates-IsOrder unsorted)) e

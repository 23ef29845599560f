-- ===== src/Synthesis/Samples.antt =====
-- A cohort that is reserved, planned, activated and drained, and a small family of p-values.
use algorithmic_trading_stra.Base.{ℕ, arith, Bool, true, false, none, List, [], ◌∷◌, refl}
use algorithmic_trading_stra.Base.Int.{pos}
use algorithmic_trading_stra.Base.Json.{Json.obj, end}
use algorithmic_trading_stra.Models.{finished}
use algorithmic_trading_stra.Queue.Rows.{Database}
use algorithmic_trading_stra.Queue.Samples.{item, two_days}
use algorithmic_trading_stra.Gates.Samples.{whole}
use algorithmic_trading_stra.Synthesis.Cohorts.{
  Synthesis, PlannedChain, reserve_synthesis_cohort, may_plan, remaining_chain_count, has_member,
  count_experiments, activate_synthesis_cohort, insert_chains, refresh_synthesis_cohorts,
  is_drained, is_unresolved,
}
use algorithmic_trading_stra.Synthesis.Lifecycle.{IsConsistent, Kept}
use algorithmic_trading_stra.Synthesis.Activation.{
  Steps, reserve, activate, refresh, none_yet, and_then, Steps-Kept,
}
use algorithmic_trading_stra.Synthesis.Fdr.{
  Discovery, numbered, benjamini_hochberg, last_rank, rank_of,
}
use algorithmic_trading_stra.Synthesis.Fdr.StepUp.{StepUps, benjamini_hochberg-StepUp}

abbrev nothing : Synthesis
nothing = record { cohorts = []; chains = [] }

nothing-IsConsistent : IsConsistent nothing
nothing-IsConsistent = record { keys = tt; linked = tt; one_plan = omega arith; chain_counts = tt }

abbrev no_work : Database
no_work = record two_days { work_items = item "S1" finished [] (obj end) ∷ [] }

abbrev plan : List PlannedChain
plan =
    record {
      slot = 1;
      lane = "new_concept";
      source_experiment_id = none;
      work_item_ids = "S1" ∷ [];
    }
    ∷ []

-- reserved, activated with the one chain that was requested, and drained, since its item is finished
drained_day : (s : Synthesis) × Steps nothing s
unfolding reserve_synthesis_cohort may_plan remaining_chain_count count_experiments
    activate_synthesis_cohort insert_chains refresh_synthesis_cohorts is_drained has_member
    is_unresolved
drained_day = (
  _,
  and_then
      (and_then
        (and_then none_yet (
          reserve "W1" (pos 1) (pos 5) "2026-01-02T01:00:00Z" "2026-01-01T23:00:00Z" "COHORT-1"
            "2026-01-02T00:00:00Z" no_work _ refl))
        (activate "COHORT-1" plan "2026-01-02T00:30:00Z" refl))
      (refresh "2026-01-02T02:00:00Z" no_work refl),
)

Steps-Kept_example : Kept nothing drained_day.0
Steps-Kept_example = Steps-Kept drained_day.1 nothing-IsConsistent

-- With whole numbers in place of floats the level 1 makes k * level / m the whole part of k / m, so that
-- p-values of 0 are rejected.
abbrev finding : ℕ → ℕ → Bool → Discovery whole
finding rank threshold rejected = record { rank = rank; threshold = threshold; rejected = rejected }

abbrev findings : List (Discovery whole)
findings = finding 2 0 false ∷ finding 1 0 true ∷ finding 3 1 false ∷ []

benjamini_hochberg-StepUp_example :
    StepUps whole 1 (2 ∷ 0 ∷ 5 ∷ []) (numbered whole 0 (2 ∷ 0 ∷ 5 ∷ [])) findings
unfolding benjamini_hochberg last_rank rank_of
benjamini_hochberg-StepUp_example = benjamini_hochberg-StepUp whole 1 (2 ∷ 0 ∷ 5 ∷ []) findings refl

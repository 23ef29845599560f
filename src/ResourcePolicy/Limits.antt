-- ===== src/ResourcePolicy/Limits.antt =====
-- What a policy that passes the checks of src/ats_lab/resources.py guarantees to the supervisor.
use algorithmic_trading_stra.Base.{◌≤◌, not, ◌&&◌, false, str_eq, ◌||◌, ◌≡◌, arith, List}
use algorithmic_trading_stra.Base.Int.{ℤ, pos, negsuc, pos_part, ltb_ℤ, leb_ℤ, eqb_ℤ, ◌+ℤ◌}
use algorithmic_trading_stra.Base.Outcome.{ok, >>=-eq-ok, raise_if-passed}
use algorithmic_trading_stra.Floats.{Floats}
use algorithmic_trading_stra.ResourcePolicy.{
  ResourcePolicy, checked_policy, check_counts, check_limits, limits, within_range,
}
use algorithmic_trading_stra.Supervisor.Chunks.{balanced_chunks}
use algorithmic_trading_stra.Supervisor.Chunks.Balanced.{Balanced, balanced_chunks-Balanced}

module _ (F : Floats) where
  counts-cohorts :
      (p : ResourcePolicy F)
      → check_counts F p ≡ ok tt
      → (1 ≤ pos_part p.analysis_cohort_max) × (pos_part p.analysis_cohort_max ≤ 8)
  unfolding check_counts
  counts-cohorts p h =
      let (_, h₁) =
        raise_if-passed (not (str_eq p.mode "balanced" || str_eq p.mode "compute_heavy")) _ _ h in
      let (_, _, h₂) = >>=-eq-ok (check_limits F (limits F p)) _ h₁ in
      let (_, h₃) = raise_if-passed (ltb_ℤ p.significance_simulations (pos 2000)) _ _ h₂ in
      let (_, h₄) =
        raise_if-passed (not (within_range F (F.of_ℕ 1) p.significance_fdr_level)) _ _ h₃ in
      let (_, h₅) = raise_if-passed (ltb_ℤ p.monte_carlo_scenarios (pos 500)) _ _ h₄ in
      let (_, h₆) =
        raise_if-passed (ltb_ℤ p.synthesis_inspect_limit p.synthesis_generate_limit) _ _ h₅ in
      let (_, h₇) =
        raise_if-passed
          (not (
            eqb_ℤ (p.synthesis_min_new_concepts +ℤ p.synthesis_max_improvements)
              p.synthesis_generate_limit))
          _ _ h₆ in
      let (c, _) =
        raise_if-passed
          (not (
            leb_ℤ (pos 4) p.analysis_cohort_min
            && leb_ℤ p.analysis_cohort_min p.analysis_cohort_max
            && leb_ℤ p.analysis_cohort_max (pos 8)))
          _ _ h₇ in
      go p.analysis_cohort_min p.analysis_cohort_max c
    where
      go :
          (a b : ℤ)
          → not (leb_ℤ (pos 4) a && leb_ℤ a b && leb_ℤ b (pos 8)) ≡ false
          → (1 ≤ pos_part b) × (pos_part b ≤ 8)
      go (pos a) (pos b) t = ground arith
      go (pos a) (negsuc b) t = ground arith
      go (negsuc a) b t = ground arith

  -- Under a policy that passes its checks, dividing the rows of an analysis never raises: the cohorts make
  -- up the rows in order, none is empty, none has more than eight rows, and the sizes of two differ by at
  -- most one.
  pub checked_policy-Balanced {ℓ} :
      {A : Type ℓ} (p : ResourcePolicy F) (rows : List A)
      → checked_policy F p ≡ ok tt
      → (chunks : List (List A)) × (balanced_chunks (pos_part p.analysis_cohort_max) rows
          ≡ ok chunks)
        × (pos_part p.analysis_cohort_max ≤ 8)
        × Balanced (pos_part p.analysis_cohort_max) rows chunks
  unfolding checked_policy
  checked_policy-Balanced p rows h =
      let (u, c, _) = >>=-eq-ok (check_counts F p) _ h in
      let (low, high) = counts-cohorts p c in
      let (chunks, e, b) = balanced_chunks-Balanced (pos_part p.analysis_cohort_max) rows low in
      (chunks, e, high, b)

-- ===== src/Synthesis/Fdr.antt =====
-- `benjamini_hochberg` of src/ats_lab/synthesis.py.
pub mod StepUp
use algorithmic_trading_stra.Base.{
  ℕ, suc, Bool, true, false, not, ◌&&◌, ◌==◌, ltb, leb, List, [], ◌∷◌, length, order_by,
  if◌then◌else◌,
}
use algorithmic_trading_stra.Base.Outcome.{Result, ok, value_error, raise_if, ◌>>◌, ◌>>=◌}
use algorithmic_trading_stra.Floats.{Floats}

module _ (F : Floats) where
  -- one hypothesis of the family: its place in the input and its p-value
  pub record Hypothesis : Type 0 where
    pub index : ℕ
    pub p_value : F.Float

  pub record Discovery : Type 0 where
    pub rank : ℕ
    pub threshold : F.Float
    pub rejected : Bool

  abbrev pub numbered : ℕ → List F.Float → List Hypothesis
  numbered n [] = []
  numbered n (p ∷ ps) = record { index = n; p_value = p } ∷ numbered (suc n) ps

  -- `(p_values[i], i) < (p_values[j], j)`
  abbrev pub before : Hypothesis → Hypothesis → Bool
  before a b = if F.eq a.p_value b.p_value then ltb a.index b.index else F.lt a.p_value b.p_value

  -- `sorted(range(total), key=…)`
  abbrev pub ranking : List F.Float → List Hypothesis
  ranking ps = order_by (λ a b. not (before b a)) (numbered 0 ps)

  -- `rank * level / total`
  abbrev pub critical : F.Float → ℕ → ℕ → F.Float
  critical level total rank = F.div (F.mul (F.of_ℕ rank) level) (F.of_ℕ total)

  abbrev pub meets_critical : F.Float → ℕ → ℕ → Hypothesis → Bool
  meets_critical level total rank h = F.le h.p_value (critical level total rank)

  -- the loop that leaves the last rank that meets_critical its critical value in `rejected_rank`
  unfoldable pub last_rank : F.Float → ℕ → ℕ → List Hypothesis → ℕ → ℕ
  last_rank level total rank [] rejected_rank = rejected_rank
  last_rank level total rank (h ∷ hs) rejected_rank =
      last_rank level total (suc rank) hs
        (if meets_critical level total rank h then rank else rejected_rank)

  -- `ranks[index]`; every index is in the ranking
  unfoldable pub rank_of : ℕ → ℕ → List Hypothesis → ℕ
  rank_of index rank [] = rank
  rank_of index rank (h ∷ hs) =
      let rest = rank_of index (suc rank) hs in if h.index == index then rank else rest

  abbrev pub discovery : F.Float → ℕ → ℕ → List Hypothesis → Hypothesis → Discovery
  discovery level total rejected_rank order h =
      let rank = rank_of h.index 1 order in
      record {
        rank = rank;
        threshold = critical level total rank;
        rejected = leb rank rejected_rank;
      }

  abbrev pub discoveries : F.Float → ℕ → ℕ → List Hypothesis → List Hypothesis → List Discovery
  discoveries level total rejected_rank order [] = []
  discoveries level total rejected_rank order (h ∷ hs) =
      discovery level total rejected_rank order h ∷ discoveries level total rejected_rank order hs

  unfoldable pub benjamini_hochberg : List F.Float → F.Float → Result (List Discovery)
  unfolding last_rank rank_of
  benjamini_hochberg ps level = do
    raise_if (not (F.lt (F.of_ℕ 0) level && F.le level (F.of_ℕ 1)))
        (value_error "FDR level must be in (0, 1]")
    let total = length ps
    let order = ranking ps
    ok (discoveries level total (last_rank level total 1 order 0) order (numbered 0 ps))

-- ===== src/Portfolio.antt =====
-- The multi-strategy preflight: `assess_portfolio` and `_pearson` of src/ats_lab/portfolio.py. Floats and
-- `math.sqrt` are parameters. The loops of the source fill one list each, so each list is a recursion.
pub mod Preflight
use algorithmic_trading_stra.Base.{
  ℕ, String, Bool, true, false, not, ◌&&◌, ◌||◌, Option, none, some, List, [], ◌∷◌, ◌++◌, ◌==◌, ltb,
  length, any, select, is_some, if◌then◌else◌, map,
}
use algorithmic_trading_stra.Base.Texts.{text_mem}
use algorithmic_trading_stra.Base.Outcome.{Result, ok, value_error, ◌>>◌, raise_if}
use algorithmic_trading_stra.Floats.{Floats}
use algorithmic_trading_stra.Gates.Findings.{dedupe, is_nil}

abbrev pub has_duplicates : List String → Bool
has_duplicates [] = false
has_duplicates (x ∷ xs) = text_mem x xs || has_duplicates xs

abbrev pub reason_if : Bool → String → List String
reason_if b name = if b then name ∷ [] else []

-- the reasons in the order of their tests
abbrev pub reasons_from : Bool → Bool → Bool → Bool → List String
reasons_from incomplete high unknown over =
    reason_if incomplete "correlation_data_incomplete"
    ++ reason_if high "high_correlation"
    ++ reason_if unknown "capacity_data_incomplete"
    ++ reason_if over "capacity_utilization_exceeded"

module _ (F : Floats) (sqrt : F.Float → F.Float) where
  open F use {Float, of_ℕ, lt, le, eq, sub, mul, div, abs, sum}

  pub record PortfolioCandidate : Type 0 where
    pub strategy : String
    pub returns : List Float
    pub capacity_notional : Option Float
    pub proposed_allocation_notional : Option Float

  pub record PairwiseCorrelation : Type 0 where
    pub left : String
    pub right : String
    pub value : Option Float

  pub record PortfolioAssessment : Type 0 where
    pub candidate_count : ℕ
    pub correlations : List PairwiseCorrelation
    pub high_correlation_pairs : List PairwiseCorrelation
    pub capacity_utilization : List (String × Float)
    pub blocking_reasons : List String

  -- the property `ready_for_portfolio_review`
  unfoldable pub ready_for_portfolio_review : PortfolioAssessment → Bool
  ready_for_portfolio_review a = is_nil a.blocking_reasons

  abbrev products : List Float → List Float → List Float
  products (a ∷ xs) (b ∷ ys) = mul a b ∷ products xs ys
  products _ _ = []

  abbrev deltas : List Float → List Float
  deltas xs = let mean = div (sum xs) (of_ℕ (length xs)) in map (λ v. sub v mean) xs

  abbrev norm : List Float → Float
  norm ds = sqrt (sum (products ds ds))

  unfoldable pub pearson : List Float → List Float → Option Float
  pearson left right =
      if ltb (length left) 2 || not (length left == length right)
      then none
      else if eq (norm (deltas left)) (of_ℕ 0) || eq (norm (deltas right)) (of_ℕ 0)
      then none
      else some (
          div (sum (products (deltas left) (deltas right)))
            (mul (norm (deltas left)) (norm (deltas right))))

  -- the inner loop, over the candidates after `left`
  unfoldable pub pairs_with :
      PortfolioCandidate → List PortfolioCandidate → List PairwiseCorrelation
  pairs_with left [] = []
  pairs_with left (right ∷ rest) =
      record {
        left = left.strategy;
        right = right.strategy;
        value = pearson left.returns right.returns;
      }
      ∷ pairs_with left rest

  unfoldable pub correlations_of : List PortfolioCandidate → List PairwiseCorrelation
  unfolding pairs_with
  correlations_of [] = []
  correlations_of (left ∷ rest) = pairs_with left rest ++ correlations_of rest

  abbrev pub is_high : Float → PairwiseCorrelation → Bool
  is_high threshold pair = elim pair.value [ none ↦ false | some v ↦ le threshold (abs v) ]

  -- what the capacity loop finds of one candidate
  pub data Capacity : Type 0 where
    unallocated : Capacity
    unknown : Capacity
    used : Float → Capacity

  abbrev pub capacity_of : Option Float → Option Float → Capacity
  capacity_of none _ = unallocated
  capacity_of (some p) none = unknown
  capacity_of (some p) (some c) = if le c (of_ℕ 0) then unknown else used (div p c)

  unfoldable pub capacity : PortfolioCandidate → Capacity
  capacity item = capacity_of item.proposed_allocation_notional item.capacity_notional

  abbrev pub is_unknown : Capacity → Bool
  is_unknown unknown = true
  is_unknown _ = false

  abbrev pub is_over : Float → Capacity → Bool
  is_over limit (used ratio) = lt limit ratio
  is_over limit _ = false

  unfoldable pub utilization_of : List PortfolioCandidate → List (String × Float)
  utilization_of [] = []
  utilization_of (item ∷ items) =
      let rest = utilization_of items in
      elim (capacity item) [ used ratio ↦ (item.strategy, ratio) ∷ rest | _ ↦ rest ]

  abbrev pub names_of : List PortfolioCandidate → List String
  names_of = map (λ item. item.strategy)

  abbrev pub nonempty : List PairwiseCorrelation → Bool
  nonempty [] = false
  nonempty (_ ∷ _) = true

  unfoldable pub reasons_of : Float → Float → List PortfolioCandidate → List String
  reasons_of threshold limit items =
      reasons_from
        (ltb 1 (length items)
          && any (λ (p : PairwiseCorrelation). not (is_some p.value)) (correlations_of items))
        (nonempty (select (is_high threshold) (correlations_of items)))
        (any (λ i. is_unknown (capacity i)) items) (any (λ i. is_over limit (capacity i)) items)

  -- the assessment of candidates and limits that were accepted
  unfoldable pub assessed : List PortfolioCandidate → Float → Float → PortfolioAssessment
  assessed items threshold limit = record {
    candidate_count = length items;
    correlations = correlations_of items;
    high_correlation_pairs = select (is_high threshold) (correlations_of items);
    capacity_utilization = utilization_of items;
    blocking_reasons = dedupe (reasons_of threshold limit items);
  }

  unfoldable pub assess_portfolio :
      List PortfolioCandidate → Float → Float → Result PortfolioAssessment
  assess_portfolio items threshold limit =
      raise_if (not (lt (of_ℕ 0) threshold && le threshold (of_ℕ 1)))
        (value_error "correlation_threshold must be in (0, 1]")
      >> (raise_if (not (lt (of_ℕ 0) limit && le limit (of_ℕ 1)))
            (value_error "capacity_utilization_limit must be in (0, 1]")
          >> (raise_if (has_duplicates (names_of items))
                (value_error "portfolio candidate strategy names must be unique")
              >> ok (assessed items threshold limit)))

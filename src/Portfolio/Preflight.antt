-- ===== src/Portfolio/Preflight.antt =====
-- What a portfolio that is ready for review has: `assess_portfolio` of src/ats_lab/portfolio.py.
use mathlib.Core.Path.{subst}
use algorithmic_trading_stra.Base.{
  ◌+◌, ◌*◌, Bool, true, false, not, ◌&&◌, Option, none, some, List, [], ◌∷◌, ◌++◌, ◌≡◌, ◌⊎◌, inl,
  inr, refl, ltb, length, any, All, is_some, select, arith, length-append, ap, sym, ◌∙◌,
}
use algorithmic_trading_stra.Base.Outcome.{raise_if-ok, ok, value_error, ok-inj}
use algorithmic_trading_stra.Floats.{Floats}
use algorithmic_trading_stra.Queue.Invariant.{All-map}
use algorithmic_trading_stra.Gates.Findings.{is_nil, dedupe-nil}
use algorithmic_trading_stra.Portfolio.{
  pearson, has_duplicates, PortfolioCandidate, PairwiseCorrelation, PortfolioAssessment,
  ready_for_portfolio_review, pairs_with, correlations_of, is_high, Capacity, unallocated, unknown,
  used, capacity, is_unknown, is_over, reasons_of, assess_portfolio, reasons_from, assessed,
  nonempty, names_of,
}

reasons_from-nil :
    (a b c d : Bool)
    → reasons_from a b c d ≡ []
    → (a ≡ false) × (b ≡ false) × (c ≡ false) × (d ≡ false)
reasons_from-nil true b c d h = cc
reasons_from-nil false true c d h = cc
reasons_from-nil false false true d h = cc
reasons_from-nil false false false true h = cc
reasons_from-nil false false false false h = (refl, refl, refl, refl)

module _ {A : Type 0} where
  -- an element of a list
  abbrev pub In : A → List A → Type 0
  In x [] = ⊥
  In x (y ∷ ys) = (x ≡ y) ⊎ In x ys

  -- every element to every later one
  abbrev pub Pairwise : (A → A → Type 0) → List A → Type 0
  Pairwise R [] = Unit
  Pairwise R (x ∷ xs) = All (R x) xs × Pairwise R xs

  Pairwise-map :
      (R S : A → A → Type 0) (xs : List A)
      → ((x y : A) → R x y → S x y)
      → Pairwise R xs
      → Pairwise S xs
  Pairwise-map R S [] f p = tt
  Pairwise-map R S (x ∷ xs) f p = (All-map (R x) (S x) xs (f x) p.0, Pairwise-map R S xs f p.1)

  In-append : (x : A) (xs ys : List A) → In x ys → In x (xs ++ ys)
  In-append x [] ys i = i
  In-append x (y ∷ xs) ys i = inr (In-append x xs ys i)

  In-All : (P : A → Type 0) (x : A) (xs : List A) → In x xs → All P xs → P x
  In-All P x [] i a = elim i [ ]
  In-All P x (y ∷ ys) (inl e) a = subst P (sym e) a.0
  In-All P x (y ∷ ys) (inr i) a = In-All P x ys i a.1

module _ (F : Floats) (sqrt : F.Float → F.Float) where
  open F use {Float, of_ℕ, lt, le, abs}

  length-pairs_with :
      (left : PortfolioCandidate F sqrt) (rest : List (PortfolioCandidate F sqrt))
      → length (pairs_with F sqrt left rest) ≡ length rest
  unfolding pairs_with
  length-pairs_with left [] = refl
  length-pairs_with left (right ∷ rest) = omega (arith, length-pairs_with left rest)

  -- n candidates have n (n - 1) / 2 correlations.
  length-correlations_of :
      (items : List (PortfolioCandidate F sqrt))
      → 2 * length (correlations_of F sqrt items) + length items ≡ length items * length items
  unfolding correlations_of
  length-correlations_of [] = refl
  length-correlations_of (left ∷ rest) = omega (
    arith,
    length-append (pairs_with F sqrt left rest) (correlations_of F sqrt rest),
    length-pairs_with left rest,
    length-correlations_of rest,
  )

  -- the comparison of two candidates
  abbrev pub comparison :
      PortfolioCandidate F sqrt → PortfolioCandidate F sqrt → PairwiseCorrelation F sqrt
  comparison left right = record {
    left = left.strategy;
    right = right.strategy;
    value = pearson F sqrt left.returns right.returns;
  }

  pairs_with-In :
      (left : PortfolioCandidate F sqrt) (rest : List (PortfolioCandidate F sqrt))
      (more : List (PairwiseCorrelation F sqrt))
      → All (λ right. In (comparison left right) (pairs_with F sqrt left rest ++ more)) rest
  unfolding pairs_with
  pairs_with-In left [] more = tt
  pairs_with-In left (right ∷ rest) more =
      (inl refl, All-map _ _ rest (λ r i. inr i) (pairs_with-In left rest more))

  correlations_of-Pairwise :
      (items : List (PortfolioCandidate F sqrt))
      → Pairwise (λ left right. In (comparison left right) (correlations_of F sqrt items)) items
  unfolding correlations_of
  correlations_of-Pairwise [] = tt
  correlations_of-Pairwise (left ∷ rest) = (
    pairs_with-In left rest (correlations_of F sqrt rest),
    Pairwise-map (λ a b. In (comparison a b) (correlations_of F sqrt rest))
        (λ a b. In (comparison a b) (pairs_with F sqrt left rest ++ correlations_of F sqrt rest))
        rest (λ a b i. In-append (comparison a b) (pairs_with F sqrt left rest) _ i)
        (correlations_of-Pairwise rest),
  )

  -- The correlation of every two candidates, the earlier one on the left, is among the correlations, and
  -- n candidates have exactly n (n - 1) / 2 of these.
  pub correlations_of_complete :
      (items : List (PortfolioCandidate F sqrt))
      → Pairwise (λ left right. In (comparison left right) (correlations_of F sqrt items)) items
        × (2 * length (correlations_of F sqrt items) + length items ≡ length items * length items)
  correlations_of_complete items = (correlations_of-Pairwise items, length-correlations_of items)

  -- A pair that is known to be apart: its correlation is there and below the threshold.
  abbrev pub Apart : Float → PairwiseCorrelation F sqrt → Type 0
  Apart threshold pair = (v : Float) × (pair.value ≡ some v) × (le threshold (abs v) ≡ false)

  -- Two candidates whose returns have a correlation below the threshold.
  abbrev pub Uncorrelated : Float → PortfolioCandidate F sqrt → PortfolioCandidate F sqrt → Type 0
  Uncorrelated threshold left right =
      (v : Float) × (pearson F sqrt left.returns right.returns ≡ some v)
      × (le threshold (abs v) ≡ false)

  -- A candidate without an allocation, or with one inside its known capacity.
  abbrev pub Within : Float → Capacity F sqrt → Type 0
  Within limit unallocated = Unit
  Within limit unknown = ⊥
  Within limit (used ratio) = lt limit ratio ≡ false

  value-Apart :
      (threshold : Float) (v : Option Float)
      → is_some v ≡ true
      → (elim v [ none ↦ false | some x ↦ le threshold (abs x) ]) ≡ false
      → (x : Float) × (v ≡ some x) × (le threshold (abs x) ≡ false)
  value-Apart threshold none h e = cc
  value-Apart threshold (some x) h e = (x, refl, e)

  pairs-Apart :
      (threshold : Float) (pairs : List (PairwiseCorrelation F sqrt))
      → any (λ (p : PairwiseCorrelation F sqrt). not (is_some p.value)) pairs ≡ false
      → select (is_high F sqrt threshold) pairs ≡ []
      → All (Apart threshold) pairs
  pairs-Apart threshold [] h e = tt
  pairs-Apart threshold (p ∷ ps) h e =
      let low : is_high F sqrt threshold p ≡ false = ground arith in
      (
        value-Apart threshold p.value (ground arith) low,
        pairs-Apart threshold ps (ground arith) (ground arith),
      )

  correlations-Uncorrelated :
      (threshold : Float) (items : List (PortfolioCandidate F sqrt))
      → All (Apart threshold) (correlations_of F sqrt items)
      → Pairwise (Uncorrelated threshold) items
  correlations-Uncorrelated threshold items a =
      Pairwise-map (λ left right. In (comparison left right) (correlations_of F sqrt items))
        (Uncorrelated threshold) items
        (λ left right i. In-All (Apart threshold) (comparison left right) _ i a)
        (correlations_of-Pairwise items)

  capacity-Within :
      (limit : Float) (c : Capacity F sqrt)
      → is_unknown F sqrt c ≡ false
      → is_over F sqrt limit c ≡ false
      → Within limit c
  capacity-Within limit unallocated h e = tt
  capacity-Within limit unknown h e = cc
  capacity-Within limit (used ratio) h e = e

  capacities-Within :
      (limit : Float) (items : List (PortfolioCandidate F sqrt))
      → any (λ i. is_unknown F sqrt (capacity F sqrt i)) items ≡ false
      → any (λ i. is_over F sqrt limit (capacity F sqrt i)) items ≡ false
      → All (λ i. Within limit (capacity F sqrt i)) items
  capacities-Within limit [] h e = tt
  capacities-Within limit (i ∷ items) h e = (
    capacity-Within limit (capacity F sqrt i) (ground arith) (ground arith),
    capacities-Within limit items (ground arith) (ground arith),
  )

  no_pairs :
      (items : List (PortfolioCandidate F sqrt))
      → ltb 1 (length items) ≡ false
      → correlations_of F sqrt items ≡ []
  unfolding correlations_of pairs_with
  no_pairs [] h = refl
  no_pairs (i ∷ []) h = refl
  no_pairs (i ∷ j ∷ items) h = ground arith

  nonempty-nil : (ps : List (PairwiseCorrelation F sqrt)) → nonempty F sqrt ps ≡ false → ps ≡ []
  nonempty-nil [] h = refl
  nonempty-nil (p ∷ ps) h = cc

  correlations-Apart :
      (threshold : Float) (items : List (PortfolioCandidate F sqrt)) (b : Bool)
      → ltb 1 (length items) ≡ b
      → (b
          && any
              (λ (p : PairwiseCorrelation F sqrt). not (is_some p.value))
              (correlations_of F sqrt items))
        ≡ false
      → select (is_high F sqrt threshold) (correlations_of F sqrt items) ≡ []
      → All (Apart threshold) (correlations_of F sqrt items)
  correlations-Apart threshold items true e h l =
      pairs-Apart threshold (correlations_of F sqrt items) h l
  correlations-Apart threshold items false e h l =
      subst (All (Apart threshold)) (sym (no_pairs items e)) tt

  reasons-nil :
      (threshold limit : Float) (items : List (PortfolioCandidate F sqrt))
      → reasons_of F sqrt threshold limit items ≡ []
      → All (Apart threshold) (correlations_of F sqrt items)
        × All (λ i. Within limit (capacity F sqrt i)) items
  unfolding reasons_of
  reasons-nil threshold limit items h =
      let clear = reasons_from-nil _ _ _ _ h in
      (
        correlations-Apart threshold items (ltb 1 (length items)) refl clear.0
            (nonempty-nil _ clear.1),
        capacities-Within limit items clear.2 clear.3,
      )

  -- A portfolio that is assessed and ready for review has a correlation below the
  -- threshold between the returns of every two candidates, and no candidate whose allocation has no positive capacity or uses
  -- more of it than the limit.
  pub assess_portfolio-ready :
      (items : List (PortfolioCandidate F sqrt)) (threshold limit : Float)
      (a : PortfolioAssessment F sqrt)
      → assess_portfolio F sqrt items threshold limit ≡ ok a
      → ready_for_portfolio_review F sqrt a ≡ true
      → Pairwise (Uncorrelated threshold) items × All (λ i. Within limit (capacity F sqrt i)) items
  unfolding assess_portfolio assessed ready_for_portfolio_review
  assess_portfolio-ready items threshold limit a e h =
      let done : assessed F sqrt items threshold limit ≡ a = ok-inj (
        raise_if-ok (has_duplicates (names_of F sqrt items))
          (value_error "portfolio candidate strategy names must be unique") _
          (raise_if-ok (not (lt (of_ℕ 0) limit && le limit (of_ℕ 1)))
            (value_error "capacity_utilization_limit must be in (0, 1]") _
            (raise_if-ok (not (lt (of_ℕ 0) threshold && le threshold (of_ℕ 1)))
              (value_error "correlation_threshold must be in (0, 1]") _ e))) in
      let (apart, within) = reasons-nil threshold limit items (
        dedupe-nil (reasons_of F sqrt threshold limit items)
          (ap (λ (a : PortfolioAssessment F sqrt). is_nil a.blocking_reasons) done ∙ h)) in
      (correlations-Uncorrelated threshold items apart, within)

-- ===== src/Supervisor/Analysis/Homogeneous.antt =====
-- What the cohorts of an analysis in src/ats_lab/supervisor.py hold.
use algorithmic_trading_stra.Base.{
  ℕ, ◌+◌, ◌≤◌, Bool, true, false, not, List, [], ◌∷◌, ◌++◌, length, count, select, String, All,
  All-append, All-select, ◌≡◌, ◌⊎◌, inl, inr, refl, ap, arith,
}
use algorithmic_trading_stra.Base.Outcome.{ok}
use algorithmic_trading_stra.Queue.Rows.{Database}
use algorithmic_trading_stra.Queue.Pending.{Pending}
use algorithmic_trading_stra.Queue.Invariant.{All-map}
use algorithmic_trading_stra.Executor.Session.{Texts}
use algorithmic_trading_stra.Supervisor.Chunks.{concat}
use algorithmic_trading_stra.Supervisor.Chunks.Balanced.{balanced_chunks-Balanced}
use algorithmic_trading_stra.Supervisor.Analysis.{
  grouped_cohorts, analysis_cohorts, operation, operations, is_hpo_operation,
}

module _ {ℓ} {A : Type ℓ} where
  count-append : (q : A → Bool) (xs ys : List A) → count q (xs ++ ys) ≡ count q xs + count q ys
  count-append q [] ys = omega arith
  count-append q (x ∷ xs) ys = omega (arith, count-append q xs ys)

  count-concat-append :
      (q : A → Bool) (xss yss : List (List A))
      → count q (concat (xss ++ yss)) ≡ count q (concat xss) + count q (concat yss)
  count-concat-append q [] yss = omega arith
  count-concat-append q (xs ∷ xss) yss = omega (
    arith,
    count-append q xs (concat (xss ++ yss)),
    count-append q xs (concat xss),
    count-concat-append q xss yss,
  )

  -- a row is in one of two groups
  count-groups :
      (q p : A → Bool) (xs : List A)
      → count q (select (λ r. not (p r)) xs) + count q (select p xs) ≡ count q xs
  count-groups q p [] = omega arith
  count-groups q p (x ∷ xs) = ground (arith, count-groups q p xs)

  All-left : (P : A → Type 0) (xs ys : List A) → All P (xs ++ ys) → All P xs × All P ys
  All-left P [] ys a = (tt, a)
  All-left P (x ∷ xs) ys a = let (l, r) = All-left P xs ys a.1 in ((a.0, l), r)

  -- what holds of all rows holds within each chunk
  All-chunks :
      (P : A → Type 0) (xss : List (List A))
      → All P (concat xss)
      → All (λ (c : List A). All P c) xss
  All-chunks P [] a = tt
  All-chunks P (xs ∷ xss) a = let (l, r) = All-left P xs (concat xss) a in (l, All-chunks P xss r)

  abbrev pub IsKind : (A → Bool) → Bool → A → Type 0
  IsKind is_hpo b r = is_hpo r ≡ b

  -- no cohort mixes the kinds, none is empty or above the maximum, and every row is in as often as before
  pub record Homogeneous (maximum : ℕ) (is_hpo : A → Bool) (rows : List A) (cohorts : List (List A))
      : Type ℓ where
    pub kinds :
        All (λ (c : List A). All (IsKind is_hpo false) c ⊎ All (IsKind is_hpo true) c) cohorts
    pub sizes : All (λ (c : List A). (1 ≤ length c) × (length c ≤ maximum)) cohorts
    pub same_rows : (q : A → Bool) → count q (concat cohorts) ≡ count q rows

  group-kinds :
      (is_hpo : A → Bool) (b : Bool) (group : List A) (chunks : List (List A))
      → concat chunks ≡ group
      → All (IsKind is_hpo b) group
      → All (λ (c : List A). All (IsKind is_hpo b) c) chunks
  group-kinds is_hpo b group chunks e a = All-chunks (IsKind is_hpo b) chunks (rw e a)

  grouped_cohorts-Homogeneous :
      (maximum : ℕ) (is_hpo : A → Bool) (rows : List A)
      → 1 ≤ maximum
      → (cohorts : List (List A)) × (grouped_cohorts maximum is_hpo rows ≡ ok cohorts)
        × Homogeneous maximum is_hpo rows cohorts
  unfolding grouped_cohorts
  grouped_cohorts-Homogeneous maximum is_hpo rows h =
      let (os, eo, bo) = balanced_chunks-Balanced maximum (select (λ r. not (is_hpo r)) rows) h in
      let (hs, eh, bh) = balanced_chunks-Balanced maximum (select is_hpo rows) h in
      let ko =
        group-kinds is_hpo false _ os bo.whole
          (All-select (IsKind is_hpo false) _ rows (λ r t. ground arith)) in
      let kh =
        group-kinds is_hpo true _ hs bh.whole (All-select (IsKind is_hpo true) _ rows (λ r t. t)) in
      (
        os ++ hs,
        rw eo (rw eh refl),
        record {
          kinds =
              All-append (λ (c : List A). All (IsKind is_hpo false) c ⊎ All (IsKind is_hpo true) c)
                os hs (All-map _ _ os (λ c k. inl k) ko) (All-map _ _ hs (λ c k. inr k) kh);
          sizes =
              All-append (λ (c : List A). (1 ≤ length c) × (length c ≤ maximum)) os hs
                (All-map _ _ os (λ c s. (s.0, s.1)) bo.sizes)
                (All-map _ _ hs (λ c s. (s.0, s.1)) bh.sizes);
          same_rows = λ q. omega (
            arith,
            count-concat-append q os hs,
            ap (count q) bo.whole,
            ap (count q) bh.whole,
            count-groups q is_hpo rows,
          );
        },
      )

operations-ok :
    (T : Texts) (db : Database) (rows : List Pending)
    → All (λ r. (s : String) × (operation T db r ≡ ok s)) rows
    → (ss : List String) × (operations T db rows ≡ ok ss)
unfolding operations
operations-ok T db [] a = ([], refl)
operations-ok T db (r ∷ rows) a =
    let (s, e) = a.0 in let (ss, es) = operations-ok T db rows a.1 in (s ∷ ss, rw e (rw es refl))

-- For a positive maximum the analysis of pending rows, each of which has an operation that is read without an
-- error, divides into cohorts: none mixes HPO with other work, none is empty or above the maximum, and together
-- they hold each row as often as the rows do.
pub analysis_cohorts-Homogeneous :
    (maximum : ℕ) (T : Texts) (db : Database) (rows : List Pending)
    → 1 ≤ maximum
    → All (λ r. (s : String) × (operation T db r ≡ ok s)) rows
    → (cohorts : List (List Pending)) × (analysis_cohorts maximum T db rows ≡ ok cohorts)
      × Homogeneous maximum (λ r. is_hpo_operation (operation T db r)) rows cohorts
unfolding analysis_cohorts
analysis_cohorts-Homogeneous maximum T db rows h readable =
    let (ss, e) = operations-ok T db rows readable in
    let (cohorts, c, k) =
      grouped_cohorts-Homogeneous maximum (λ r. is_hpo_operation (operation T db r)) rows h in
    (cohorts, rw e c, k)

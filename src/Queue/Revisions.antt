-- ===== src/Queue/Revisions.antt =====
-- The revisions of a verdict: `_append_evaluation` of src/ats_lab/database_evidence.py on `evaluation_history`.
use algorithmic_trading_stra.Base.{
  ℕ, suc, max, String, Bool, true, false, not, ◌&&◌, none, some, List, [], ◌∷◌, ◌++◌, str_eq,
  is_some, update_where, select, All, length, ◌≡◌, ◌≤◌, ◌<◌, refl, arith, eq_iff, eq_refl,
  length-append,
}
use algorithmic_trading_stra.Models.{Evaluation}
use algorithmic_trading_stra.Queue.Rows.{EvaluationRow, Database}

-- `WHERE experiment_id=? AND evaluator=?`
abbrev pub is_revision : String → String → EvaluationRow → Bool
is_revision experiment evaluator r =
    str_eq r.experiment_id experiment && str_eq r.evaluator evaluator

-- `… AND superseded_at IS NULL`
abbrev pub is_current : String → String → EvaluationRow → Bool
is_current experiment evaluator r =
    is_revision experiment evaluator r && not (is_some r.superseded_at)

abbrev pub superseded : String → EvaluationRow → EvaluationRow
superseded now r = record r { superseded_at = some now }

-- `COALESCE(MAX(sequence)+1, 0)`
abbrev pub next_sequence : List EvaluationRow → ℕ
next_sequence [] = 0
next_sequence (r ∷ rs) = max (suc r.sequence) (next_sequence rs)

abbrev pub revision : Evaluation → ℕ → EvaluationRow
revision evaluation sequence = record {
  experiment_id = evaluation.experiment_id;
  verdict = evaluation.verdict;
  summary = evaluation.summary;
  metrics_summary = evaluation.metrics_summary;
  next_step = evaluation.next_step;
  evaluator = evaluation.evaluator;
  evaluated_at = evaluation.evaluated_at;
  sequence = sequence;
  superseded_at = none;
}

-- what the statements do to the table
unfoldable pub append_revision : Evaluation → String → List EvaluationRow → List EvaluationRow
append_revision evaluation now history =
    let marked =
      update_where (is_current evaluation.experiment_id evaluation.evaluator) (superseded now)
        history in
    marked
    ++ revision evaluation
        (next_sequence (select (is_revision evaluation.experiment_id evaluation.evaluator) marked))
      ∷ []

unfoldable pub append_evaluation : Evaluation → String → Database → Database
append_evaluation evaluation now db = record db {
  evaluation_history = append_revision evaluation now db.evaluation_history;
}

-- `after` is `before` with the verdict as the pair's one current revision, behind all its earlier ones.
pub record Appended (evaluation : Evaluation) (before after : List EvaluationRow) : Type 0 where
  pub current :
      (n : ℕ) × (select (is_current evaluation.experiment_id evaluation.evaluator) after
        ≡ revision evaluation n ∷ [])
      × All
          (λ (r : EvaluationRow). r.sequence < n)
          (select (is_revision evaluation.experiment_id evaluation.evaluator) before)
  pub others :
      (experiment evaluator : String)
      → (str_eq evaluation.experiment_id experiment && str_eq evaluation.evaluator evaluator)
        ≡ false
      → select (is_revision experiment evaluator) after
        ≡ select (is_revision experiment evaluator) before
  pub kept : length after ≡ suc (length before)

All-weaken :
    (m n : ℕ) (xs : List EvaluationRow)
    → m ≤ n
    → All (λ (r : EvaluationRow). r.sequence < m) xs
    → All (λ (r : EvaluationRow). r.sequence < n) xs
All-weaken m n [] h a = tt
All-weaken m n (x ∷ xs) h a = (omega (arith, a.0, h), All-weaken m n xs h a.1)

below-next_sequence :
    (xs : List EvaluationRow) → All (λ (r : EvaluationRow). r.sequence < next_sequence xs) xs
below-next_sequence [] = tt
below-next_sequence (x ∷ xs) =
    (omega arith, All-weaken (next_sequence xs) _ xs (omega arith) (below-next_sequence xs))

module _ (x e : String) (now : String) where
  abbrev marked : List EvaluationRow → List EvaluationRow
  marked = update_where (is_current x e) (superseded now)

  -- no current revision is left
  marked-current :
      (rs : List EvaluationRow) (last : EvaluationRow)
      → is_current x e last ≡ true
      → select (is_current x e) (marked rs ++ last ∷ []) ≡ last ∷ []
  marked-current [] last h = ground arith
  marked-current (r ∷ rs) last h = ground (arith, marked-current rs last h)

  -- the sequence numbers stand as before
  marked-sequence :
      (rs : List EvaluationRow)
      → next_sequence (select (is_revision x e) (marked rs))
        ≡ next_sequence (select (is_revision x e) rs)
  marked-sequence [] = refl
  marked-sequence (r ∷ rs) = ground (arith, marked-sequence rs)

  marked-others :
      (y f : String) (rs : List EvaluationRow) (last : EvaluationRow)
      → (str_eq x y && str_eq e f) ≡ false
      → is_revision y f last ≡ false
      → select (is_revision y f) (marked rs ++ last ∷ []) ≡ select (is_revision y f) rs
  marked-others y f [] last d n = ground arith
  marked-others y f (r ∷ rs) last d n =
      ground (arith, marked-others y f rs last d n, eq_iff r.experiment_id x, eq_iff r.evaluator e)

  marked-length : (rs : List EvaluationRow) → length (marked rs) ≡ length rs
  marked-length [] = refl
  marked-length (r ∷ rs) = omega (arith, marked-length rs)

-- Appending a verdict makes it the one current revision of its experiment and evaluator, with a
-- sequence number above all of their earlier ones; it drops no row, and leaves the revisions of every
-- other experiment or evaluator as they are.
pub append_revision-Appended :
    (evaluation : Evaluation) (now : String) (history : List EvaluationRow)
    → Appended evaluation history (append_revision evaluation now history)
unfolding append_revision
append_revision-Appended v now history = record {
  current = (
    next_sequence (
        select (is_revision v.experiment_id v.evaluator)
          (marked v.experiment_id v.evaluator now history)),
    marked-current v.experiment_id v.evaluator now history (revision v _)
        (ground (arith, eq_refl v.experiment_id, eq_refl v.evaluator)),
    rw (marked-sequence v.experiment_id v.evaluator now history)
        (below-next_sequence (select (is_revision v.experiment_id v.evaluator) history)),
  );
  others = λ y f d. marked-others v.experiment_id v.evaluator now y f history (revision v _) d d;
  kept = omega (
    arith,
    length-append (marked v.experiment_id v.evaluator now history) (
        revision v (
          next_sequence (
            select (is_revision v.experiment_id v.evaluator)
              (marked v.experiment_id v.evaluator now history)))
        ∷ []),
    marked-length v.experiment_id v.evaluator now history,
  );
}

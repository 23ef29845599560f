-- ===== src/Queue/Validations.antt =====
-- `reconcile_hpo_validation_jobs` of src/ats_lab/database_hpo.py: the validation jobs of HPO studies follow the
-- state of their work items. Queue promotion calls it with its default limit.
pub mod Follows
pub mod Aligned
use algorithmic_trading_stra.Base.{
  ℕ, String, Bool, not, ◌&&◌, ◌||◌, Option, none, some, List, [], ◌∷◌, ◌≡◌, refl, str_eq, is_some,
  if◌then◌else◌, order_by, take, length, update_where,
}
use algorithmic_trading_stra.Base.Int.{ℤ, pos, ltb_ℤ, pos_part}
use algorithmic_trading_stra.Base.Texts.{text_le}
use algorithmic_trading_stra.Base.Outcome.{Result, ok, err, value_error}
use algorithmic_trading_stra.Models.{finished, archived, is_state, state_value}
use algorithmic_trading_stra.Queue.Rows.{WorkRow, ValidationJob, Database, item_at}
use algorithmic_trading_stra.Queue.Invariant.{IsValid, Advance, Advance-refl}
use algorithmic_trading_stra.Queue.Dependencies.{run_reconcile_hpo}

-- `w.state IN ('finished','archived')`
abbrev pub is_terminal : WorkRow → Bool
is_terminal w = is_state w.state finished || is_state w.state archived

-- `w.id=v.work_item_id`, which no row meets where the job has no item
abbrev pub item_of : List WorkRow → Option String → Option WorkRow
item_of items none = none
item_of items (some id) = item_at id items

-- the WHERE clause on a joined row
unfoldable pub is_misaligned : ValidationJob → WorkRow → Bool
is_misaligned v w =
    not (str_eq v.state (state_value w.state))
    || is_terminal w && not (is_some v.completed_at)
    || not (is_terminal w) && is_some v.completed_at

-- `hpo_validation_jobs v JOIN work_items w ON w.id=v.work_item_id WHERE …`
unfoldable pub misaligned_jobs : List WorkRow → List ValidationJob → List (ValidationJob × WorkRow)
unfolding is_misaligned
misaligned_jobs items [] = []
misaligned_jobs items (v ∷ vs) =
    let rest = misaligned_jobs items vs in
    elim (item_of items v.work_item_id) [
      | none ↦ rest
      | some w ↦ if is_misaligned v w then (v, w) ∷ rest else rest
    ]

abbrev pub aligned : WorkRow → ValidationJob → ValidationJob
aligned w v = record v {
  state = state_value w.state;
  completed_at = if is_terminal w then some w.updated_at else none;
}

unfoldable pub align_each : List (ValidationJob × WorkRow) → Database → Database
align_each [] db = db
align_each ((v, w) ∷ rows) db = align_each rows (record db {
  hpo_validation_jobs =
      update_where (λ (x : ValidationJob). str_eq x.id v.id) (aligned w) db.hpo_validation_jobs;
})

unfoldable pub reconcile_hpo_validation_jobs : ℤ → Database → Result (Database × ℕ)
unfolding align_each misaligned_jobs
reconcile_hpo_validation_jobs limit db =
    if ltb_ℤ limit (pos 1)
    then err (value_error "limit must be positive")
    else (let rows = take (pos_part limit) (
          order_by (λ a b. text_le a.0.id b.0.id)
            (misaligned_jobs db.work_items db.hpo_validation_jobs)) in
        ok (align_each rows db, length rows))

-- the call `reconcile_hpo()`, which drops the number of changes
abbrev pub without_count : Database → Result (Database × ℕ) → Database × Result (Unit {0})
without_count db (ok (db', _)) = (db', ok tt)
without_count db (err e) = (db, err e)

unfoldable pub reconcile_hpo : Option (String → Database → Database × Result (Unit {0}))
reconcile_hpo = some (λ now db. without_count db (reconcile_hpo_validation_jobs (pos 1000) db))

pub align_each-items :
    (rows : List (ValidationJob × WorkRow)) (db : Database)
    → (align_each rows db).work_items ≡ db.work_items
unfolding align_each
align_each-items [] db = refl
align_each-items ((v, w) ∷ rows) db = align_each-items rows _

-- The table of work items is only read.
pub reconcile_hpo-Advance :
    (now : String) (db : Database)
    → IsValid db.work_items
    → Advance db.work_items (run_reconcile_hpo reconcile_hpo now db).0.work_items
unfolding run_reconcile_hpo reconcile_hpo reconcile_hpo_validation_jobs
reconcile_hpo-Advance now db v =
    rw
      (align_each-items
        (take 1000 (
          order_by (λ a b. text_le a.0.id b.0.id)
            (misaligned_jobs db.work_items db.hpo_validation_jobs)))
        db)
      (Advance-refl v)

-- ===== src/Queue/Validations/Aligned.antt =====
-- What `reconcile_hpo_validation_jobs` of src/ats_lab/database_hpo.py leaves.
use algorithmic_trading_stra.Base.{List, ◌≡◌, All, order_by}
use algorithmic_trading_stra.Base.Texts.{text_le}
use algorithmic_trading_stra.Queue.Rows.{WorkRow, ValidationJob, Database}
use algorithmic_trading_stra.Queue.Validations.{misaligned_jobs}
use algorithmic_trading_stra.Queue.Validations.Follows.{Follows}

-- the items are as they were, and each job follows its item
pub record Aligned (before after : Database) : Type 0 where
  pub unread : after.work_items ≡ before.work_items
  pub follow : All (Follows before.work_items) after.hpo_validation_jobs

-- the rows in the order of their jobs
abbrev listed : Database → List (ValidationJob × WorkRow)
listed db =
    order_by (λ a b. text_le a.0.id b.0.id) (misaligned_jobs db.work_items db.hpo_validation_jobs)

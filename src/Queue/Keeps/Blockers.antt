-- ===== src/Queue/Keeps/Blockers.antt =====
-- The ways out of a blocker, and the items that they close: each operation keeps the table valid and changes its items legally.
use algorithmic_trading_stra.Base.{
  String, true, false, not, Option, List, [], ◌∷◌, str_eq, ◌≡◌, refl, arith, Bool-cases,
  Option-cases, inl, inr, ◌||◌,
}
use algorithmic_trading_stra.Base.Json.{Json}
use algorithmic_trading_stra.Base.Int.{ℤ, pos, ltb_ℤ}
use algorithmic_trading_stra.Base.Texts.{is_blank, strip}
use algorithmic_trading_stra.Base.Outcome.{Result, ◌>>=◌}
use algorithmic_trading_stra.Models.{scheduled, ready, blocked, archived, is_state}
use algorithmic_trading_stra.Queue.Rows.{WorkRow, Database, item_at}
use algorithmic_trading_stra.Queue.Invariant.{
  IsValid, IsSound, Advance, Advances, Advance-refl, Advance-trans,
}
use algorithmic_trading_stra.Queue.Rules.{
  guarded-Advance, not-archived, &&-right, idle-IsSound, read-Advances, guard-Advances,
}
use algorithmic_trading_stra.Queue.Transitions.{}
use algorithmic_trading_stra.Queue.Claims.{}
use algorithmic_trading_stra.Queue.Blockers.{
  blocked_row, leave_blocked, resolved, requeued, rectified, closed, pending,
  with_pending_readiness, resolve_blocked_work_item, request_retry, rectify_blocked_work_item,
  archive_each, archive_scheduled_dependents, mark_each, mark_unroutable_hpo_requirements_pending,
}
use algorithmic_trading_stra.Queue.Retries.{}
use algorithmic_trading_stra.Queue.Evaluation.{}

blocked_row-Advances {ℓ} :
    {A : Type ℓ} (xs : List WorkRow) (verb id : String) (db : Database)
    (k : WorkRow → Result (Database × A))
    → ((r : WorkRow) → Advances xs (k r))
    → Advances xs (blocked_row verb id db >>= k)
unfolding blocked_row
blocked_row-Advances xs verb id db k h = elim (Option-cases (item_at id db.work_items)) [
  | inl e ↦ rw e tt
  | inr (r, e) ↦ elim (Bool-cases (not (is_state r.state blocked))) [
    | inl t ↦ rw (e, t) tt
    | inr f ↦ rw (e, f) (h r)
  ]
]

leave_blocked-Advances :
    (id : String) (f : WorkRow → WorkRow) (event : String) (payload : Json) (now : String)
    (db : Database)
    → IsValid db.work_items
    → ((r : WorkRow) → is_state r.state archived ≡ false → IsSound r (f r))
    → Advances db.work_items (leave_blocked id f event payload now db)
unfolding leave_blocked
leave_blocked-Advances id f event payload now db v s = read-Advances _ _ _ (
    guarded-Advance f _ db.work_items v
      λ r h. s r (not-archived r.state blocked (&&-right (str_eq r.id id) _ h) refl))

pub resolve_blocked-Advances :
    (id code detail : String) (evidence : List String) (now : String) (db : Database)
    → IsValid db.work_items
    → Advances db.work_items (resolve_blocked_work_item id code detail evidence now db)
unfolding resolve_blocked_work_item
resolve_blocked-Advances id code detail evidence now db v =
    guard-Advances _ (is_blank code) _ _ λ _. guard-Advances _ (is_blank detail) _ _ λ _.
      blocked_row-Advances _ _ id db _
        λ row. leave_blocked-Advances id (resolved now) _ _ now db v (λ r h. ground arith)

pub request_retry-Advances :
    (id reason : String) (limit : ℤ) (now : String) (db : Database)
    → IsValid db.work_items
    → Advances db.work_items (request_retry id reason limit now db)
unfolding request_retry
request_retry-Advances id reason limit now db v = guard-Advances _ (is_blank reason) _ _ λ _.
    guard-Advances _ (ltb_ℤ limit (pos 1)) _ _ λ _.
      blocked_row-Advances _ _ id db _
        λ row. leave_blocked-Advances id (requeued now) _ _ now db v (λ r h. ground arith)

pub rectify_blocked-Advances :
    (id reason now : String) (db : Database)
    → IsValid db.work_items
    → Advances db.work_items (rectify_blocked_work_item id reason now db)
unfolding rectify_blocked_work_item
rectify_blocked-Advances id reason now db v = guard-Advances _ (is_blank reason) _ _ λ _.
    blocked_row-Advances _ _ id db _ λ row.
      leave_blocked-Advances id (rectified (strip reason) now) _ _ now db v (λ r h. ground arith)

archive_each-Advance :
    (id reason now : String) (children : List String) (db : Database)
    → IsValid db.work_items
    → Advance db.work_items (archive_each id reason now children db).work_items
unfolding archive_each
archive_each-Advance id reason now [] db v = Advance-refl v
archive_each-Advance id reason now (child ∷ children) db v =
    Advance-trans
      (guarded-Advance (closed now) _ db.work_items v λ r h.
        let s : is_state r.state scheduled ≡ true = &&-right (str_eq r.id child) _ h in
        idle-IsSound r (closed now r) (ground arith) (ground arith) refl)
      λ v'. archive_each-Advance id reason now children _ v'

pub archive_scheduled_dependents-Advance :
    (id reason now : String) (db : Database)
    → IsValid db.work_items
    → Advance db.work_items (archive_scheduled_dependents id reason now db).0.work_items
unfolding archive_scheduled_dependents
archive_scheduled_dependents-Advance id reason now db v = archive_each-Advance id reason now _ db v

mark_each-Advance :
    (now : String) (rows : List (WorkRow × Option String)) (db : Database)
    → IsValid db.work_items
    → Advance db.work_items (mark_each now rows db).work_items
unfolding mark_each
mark_each-Advance now [] db v = Advance-refl v
mark_each-Advance now ((row, study) ∷ rows) db v =
    Advance-trans
      (guarded-Advance (pending (with_pending_readiness row.specification) now) _ db.work_items v
        λ r h.
          let s : (is_state r.state scheduled || is_state r.state ready) ≡ true =
            &&-right (str_eq r.id row.id) _ h in
          idle-IsSound r (pending (with_pending_readiness row.specification) now r) (ground arith)
            (ground arith) refl)
      λ v'. mark_each-Advance now rows _ v'

pub mark_unroutable-Advance :
    (now : String) (db : Database)
    → IsValid db.work_items
    → Advance db.work_items (mark_unroutable_hpo_requirements_pending now db).0.work_items
unfolding mark_unroutable_hpo_requirements_pending
mark_unroutable-Advance now db v = mark_each-Advance now _ db v

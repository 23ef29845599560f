-- ===== src/Queue/Keeps/Claims.antt =====
-- Claims and their recovery: each operation keeps the table valid and changes its items legally.
use algorithmic_trading_stra.Base.{
  String, Bool, false, not, ◌&&◌, List, [], ◌∷◌, str_eq, ◌≡◌, refl, arith, Bool-cases, inl, inr,
  select, order_by,
}
use algorithmic_trading_stra.Base.Json.{Json}
use algorithmic_trading_stra.Base.Int.{ℤ, pos, ltb_ℤ}
use algorithmic_trading_stra.Models.{ready, running, archived, is_state}
use algorithmic_trading_stra.Queue.Rows.{WorkRow, Database, id_in, ids_of}
use algorithmic_trading_stra.Queue.Invariant.{IsValid, IsSound, Advance, Advances, Advance-refl}
use algorithmic_trading_stra.Queue.Rules.{
  guarded-Advance, not-archived, &&-left, &&-right, guard-Advances,
}
use algorithmic_trading_stra.Queue.Transitions.{}
use algorithmic_trading_stra.Queue.Claims.{
  claimed, batch_claimed, released, claim_first, claim_next, claim_order, is_stale, is_abandoned,
  is_empty, claim_batch, recover_stale_unexecuted_claims, recover_abandoned_claims, add_events,
}
use algorithmic_trading_stra.Queue.Blockers.{}
use algorithmic_trading_stra.Queue.Retries.{}
use algorithmic_trading_stra.Queue.Evaluation.{}

claimed-IsSound :
    (worker now : String) (r : WorkRow)
    → is_state r.state archived ≡ false
    → IsSound r (claimed worker now r)
claimed-IsSound worker now r h = ground arith

pub batch_claimed-IsSound :
    (worker now : String) (r : WorkRow)
    → is_state r.state archived ≡ false
    → IsSound r (batch_claimed worker now r)
batch_claimed-IsSound worker now r h = ground arith

released-IsSound :
    (code detail now : String) (r : WorkRow)
    → is_state r.state archived ≡ false
    → IsSound r (released code detail now r)
released-IsSound code detail now r h = ground arith

claim_first-Advance :
    (worker now : String) (rows : List WorkRow) (db : Database)
    → IsValid db.work_items
    → Advance db.work_items (claim_first worker now rows db).0.work_items
unfolding claim_first
claim_first-Advance worker now [] db v = Advance-refl v
claim_first-Advance worker now (row ∷ _) db v =
    guarded-Advance (claimed worker now) _ db.work_items v λ r h.
      claimed-IsSound worker now r
        (not-archived r.state ready (&&-right (str_eq r.id row.id) _ h) refl)

pub claim_next-Advance :
    (worker now : String) (db : Database)
    → IsValid db.work_items
    → Advance db.work_items (claim_next worker now db).0.work_items
unfolding claim_next
claim_next-Advance worker now db v = claim_first-Advance worker now _ db v

pub claim_batch-Advances :
    (worker : String) (limit : ℤ) (now : String) (db : Database)
    → IsValid db.work_items
    → Advances db.work_items (claim_batch worker limit now db)
unfolding claim_batch
claim_batch-Advances worker limit now db v = guard-Advances _ (ltb_ℤ limit (pos 1)) _ _ λ _.
    guarded-Advance (batch_claimed worker now) _ db.work_items v λ r h.
      batch_claimed-IsSound worker now r
        (not-archived r.state ready (&&-left (is_state r.state ready) _ h) refl)

add_events-items :
    (payload : Json) (now : String) (ids : List String) (db : Database)
    → (add_events payload now ids db).work_items ≡ db.work_items
unfolding add_events
add_events-items payload now [] db = refl
add_events-items payload now (id ∷ ids) db = add_events-items payload now ids _

pub recover_stale-Advance :
    (cutoff : String) (apply : Bool) (now : String) (db : Database)
    → IsValid db.work_items
    → Advance db.work_items (recover_stale_unexecuted_claims cutoff apply now db).0.work_items
unfolding recover_stale_unexecuted_claims
recover_stale-Advance cutoff apply now db v =
    let rows = order_by claim_order (select (is_stale cutoff db.runs) db.work_items) in
    elim (Bool-cases (apply && not (is_empty rows))) [
      | inl t ↦
          rw (t, add_events-items)
            (guarded-Advance
              (released "stale_claim_recovered" "stale execution claim had no durable run evidence"
                now)
              (λ r. id_in (ids_of rows) r && is_state r.state running) db.work_items v
              (λ r h.
                released-IsSound _ _ now r
                  (not-archived r.state running (&&-right (id_in (ids_of rows) r) _ h) refl)))
      | inr f ↦ rw f (Advance-refl v)
    ]

pub recover_abandoned-Advance :
    (worker cutoff now : String) (db : Database)
    → IsValid db.work_items
    → Advance db.work_items (recover_abandoned_claims worker cutoff now db).0.work_items
unfolding recover_abandoned_claims
recover_abandoned-Advance worker cutoff now db v =
    let ids = ids_of (order_by claim_order (select (is_abandoned worker cutoff) db.work_items)) in
    elim (Bool-cases (is_empty ids)) [
      | inl t ↦ rw t (Advance-refl v)
      | inr f ↦
          rw (f, add_events-items)
            (guarded-Advance (released "abandoned_claim" "worker restarted after claim" now)
              (λ r. is_state r.state running && id_in ids r) db.work_items v
              (λ r h. released-IsSound _ _ now r (
                not-archived r.state running (&&-left (is_state r.state running) (id_in ids r) h)
                  refl)))
    ]

-- ===== src/Queue/Claims/Batch.antt =====
-- What `claim_batch` hands to a worker, and what it leaves alone.
use algorithmic_trading_stra.Base.{
  ◌≤◌, String, Bool, true, false, none, some, List, [], ◌∷◌, if◌then◌else◌, select, order_by,
  update_where, All, All-order_by, length-order_by, length-select, ◌≡◌, refl, arith, length, ◌⊎◌,
  inl, inr, ◌&&◌,
}
use algorithmic_trading_stra.Base.Int.{ℤ, pos, pos_part, ltb_ℤ}
use algorithmic_trading_stra.Base.Outcome.{ok}
use algorithmic_trading_stra.Models.{ready, running, archived, is_state}
use algorithmic_trading_stra.Queue.Keeps.{batch_claimed-IsSound}
use algorithmic_trading_stra.Queue.Rules.{guarded-Advance, not-archived, &&-left}
use algorithmic_trading_stra.Queue.Rows.{
  update_items, WorkRow, Database, id_in, ids_of, queue_order,
}
use algorithmic_trading_stra.Queue.Invariant.{IsValid, Distinct, All-map}
use algorithmic_trading_stra.Queue.Picks.{picked, count-id_in-le, length-ids_of-take}
use algorithmic_trading_stra.Queue.Claims.{
  claimable, batch_claimed, batch_order, batch_rows, claim_batch,
}

-- a row that the worker now holds
pub record Owned (worker now : String) (r : WorkRow) : Type 0 where
  pub is_running : r.state ≡ running
  pub by : r.claimed_by ≡ some worker
  pub at : r.claimed_at ≡ some now
  pub no_blocker : r.blocker_code ≡ none

-- One row before and after: claimed where it was claimable, and else as it was.
abbrev pub ClaimedFrom : Database → String → String → WorkRow → WorkRow → Type 0
ClaimedFrom db worker now x y =
    (y ≡ x) ⊎ ((claimable db x ≡ true) × (y ≡ batch_claimed worker now x))

abbrev pub RowByRow {ℓ} : (WorkRow → WorkRow → Type ℓ) → List WorkRow → List WorkRow → Type ℓ
RowByRow R [] [] = Unit
RowByRow R [] (_ ∷ _) = Unit → ⊥
RowByRow R (_ ∷ _) [] = Unit → ⊥
RowByRow R (x ∷ xs) (y ∷ ys) = R x y × RowByRow R xs ys

module _ (worker now : String) (db : Database) (p : WorkRow → Bool) where
  one-ClaimedFrom :
      (b : Bool) (x : WorkRow)
      → (b ≡ true → claimable db x ≡ true)
      → ClaimedFrom db worker now x (if b then batch_claimed worker now x else x)
  one-ClaimedFrom true x h = inr (h refl, refl)
  one-ClaimedFrom false x h = inl refl

  rows-ClaimedFrom :
      (xs : List WorkRow)
      → All (λ x. p x ≡ true → claimable db x ≡ true) xs
      → RowByRow (ClaimedFrom db worker now) xs (update_where p (batch_claimed worker now) xs)
  rows-ClaimedFrom [] h = tt
  rows-ClaimedFrom (x ∷ xs) h = (one-ClaimedFrom (p x) x h.0, rows-ClaimedFrom xs h.1)

module _ (worker now : String) (ids : List String) where
  one-Owned :
      (a b : Bool) (x : WorkRow)
      → (b ≡ true → a ≡ true)
      → id_in ids x ≡ b
      → id_in ids (if a && b then batch_claimed worker now x else x) ≡ true
      → Owned worker now (if a && b then batch_claimed worker now x else x)
  one-Owned true true x h e m = record {
    is_running = refl;
    by = refl;
    at = refl;
    no_blocker = refl;
  }
  one-Owned true false x h e m = cc
  one-Owned false true x h e m = cc (h refl)
  one-Owned false false x h e m = cc

  rows-Owned :
      (xs : List WorkRow)
      → All (λ x. id_in ids x ≡ true → is_state x.state ready ≡ true) xs
      → All
          (λ y. id_in ids y ≡ true → Owned worker now y)
          (update_where (λ r. is_state r.state ready && id_in ids r) (batch_claimed worker now) xs)
  rows-Owned [] h = tt
  rows-Owned (x ∷ xs) h =
      (one-Owned (is_state x.state ready) (id_in ids x) x h.0 refl, rows-Owned xs h.1)

ready_live :
    (r : WorkRow) (b : Bool)
    → (is_state r.state ready && b) ≡ true
    → is_state r.state archived ≡ false
ready_live r b h = not-archived r.state ready (&&-left (is_state r.state ready) b h) refl

ready_of_claimable :
    (db : Database) (x : WorkRow) → claimable db x ≡ true → is_state x.state ready ≡ true
unfolding claimable
ready_of_claimable db x h = ground arith

select_fits {ℓ} :
    (P : WorkRow → Type ℓ) (p : WorkRow → Bool) (xs : List WorkRow)
    → All (λ x. p x ≡ true → P x) xs
    → All P (select p xs)
select_fits P p [] h = tt
select_fits P p (x ∷ xs) h = one (p x) _ h.0 (select_fits P p xs h.1)
  where
    one :
        (b : Bool) (r : List WorkRow) → (b ≡ true → P x) → All P r → All P (if b then x ∷ r else r)
    one true r k a = (k refl, a)
    one false r k a = a

-- In a valid table, a batch claim with a positive limit succeeds. Each row of the table is then as it
-- was, or it was claimable (ready, with its requirements met and every significance parent finished
-- and passed) and is now claimed. The rows that the worker gets are running, claimed by that worker at
-- that time and without a blocker, and there are at most `limit` of them.
pub claim_batch_lem :
    (worker : String) (limit : ℤ) (now : String) (db : Database)
    → IsValid db.work_items
    → ltb_ℤ limit (pos 1) ≡ false
    → (db' : Database) × (rows : List WorkRow) × (claim_batch worker limit now db ≡ ok (db', rows))
      × RowByRow (ClaimedFrom db worker now) db.work_items db'.work_items
      × All (Owned worker now) rows
      × (length rows ≤ pos_part limit)
unfolding claim_batch
claim_batch_lem worker limit now db v h =
    let n = pos_part limit in
    let ids = ids_of (batch_rows n db) in
    let hit = λ (r : WorkRow). is_state r.state ready && id_in ids r in
    let db' = update_items hit (batch_claimed worker now) db in
    let eligible : All (λ x. id_in ids x ≡ true → claimable db x ≡ true) db.work_items =
      picked (claimable db) batch_order db.work_items n v.keys in
    let distinct : Distinct (ids_of db'.work_items) =
      (guarded-Advance (batch_claimed worker now) hit db.work_items v
        (λ r e. batch_claimed-IsSound worker now r (ready_live r _ e))).valid.keys in
    (
      db',
      order_by queue_order (select (id_in ids) db'.work_items),
      rw h,
      rows-ClaimedFrom worker now db hit db.work_items
          (All-map _ _ db.work_items (λ x k e. k (ground arith)) eligible),
      All-order_by (Owned worker now) queue_order _ (
          select_fits (Owned worker now) (id_in ids) db'.work_items (
            rows-Owned worker now ids db.work_items
              (All-map _ _ db.work_items (λ x k e. ready_of_claimable db x (k e)) eligible))),
      omega (
        arith,
        length-order_by queue_order (select (id_in ids) db'.work_items),
        length-select (id_in ids) db'.work_items,
        count-id_in-le ids db'.work_items distinct,
        length-ids_of-take n (order_by batch_order (select (claimable db) db.work_items)),
      ),
    )

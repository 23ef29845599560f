-- ===== src/Queue/Finish/Finished.antt =====
-- What `finalize_batch_evaluation` of src/ats_lab/database_queue.py does to the queue and to the verdicts.
use algorithmic_trading_stra.Base.{
  String, Bool, true, false, ◌&&◌, Option, none, some, List, [], ◌∷◌, ◌≡◌, ap, refl, arith, str_eq,
  find, select, update_where, All, All-order_by, sym, if◌then◌else◌, eq_iff, eq_refl,
}
use algorithmic_trading_stra.Base.Outcome.{Result, ok, or_raise, ◌>>=◌, >>=-eq-ok, Error}
use algorithmic_trading_stra.Models.{Evaluation, running, finished, is_state→eq}
use algorithmic_trading_stra.Base.Json.{Json.str, Json.obj}
use algorithmic_trading_stra.Queue.Rows.{holds, WorkRow, Database, item_at, ids_of}
use algorithmic_trading_stra.Queue.Invariant.{IsValid, Distinct, absent, All-map}
use algorithmic_trading_stra.Queue.Revisions.{append_evaluation, Appended, append_revision-Appended}
use algorithmic_trading_stra.Queue.Finish.{
  is_awaiting, latest_first, first_candidate, chosen_item, finished_item, Projections, finish_item,
  refresh_experiment_evidence, finalize_batch_evaluation,
}

-- `row` is an item of the table that waits for this evaluation.
pub record Awaited (evaluation : Evaluation) (items : List WorkRow) (row : WorkRow) : Type 0 where
  pub here : item_at row.id items ≡ some row
  pub own : row.experiment_id ≡ evaluation.experiment_id
  pub runs : row.state ≡ running
  pub waits : row.blocker_code ≡ some "awaiting_batch_evaluation"

holds-eq : (s : String) (o : Option String) → holds s o ≡ true → o ≡ some s
holds-eq s none h = cc
holds-eq s (some t) h = let e : t ≡ s = ground (arith, eq_iff t s) in ap (λ x. some x) e

awaits :
    (evaluation : Evaluation) (items : List WorkRow) (row : WorkRow)
    → item_at row.id items ≡ some row
    → is_awaiting evaluation.experiment_id row ≡ true
    → Awaited evaluation items row
unfolding is_awaiting
awaits evaluation items row here h = record {
  here = here;
  own = ground (arith, h, eq_iff row.experiment_id evaluation.experiment_id);
  runs = is_state→eq row.state running (ground (arith, h));
  waits = holds-eq "awaiting_batch_evaluation" row.blocker_code (ground (arith, h));
}

-- no other item changes, `row` is finished and returned, and the verdict is current
pub record Finished (evaluation : Evaluation) (id : Option String) (now : String)
    (db db' : Database) (r : WorkRow) : Type 0 where
  pub row : WorkRow
  pub awaited : Awaited evaluation db.work_items row
  pub named : (i : String) → id ≡ some i → row.id ≡ i
  pub returned : r ≡ finished_item now row
  pub ended : r.state ≡ finished
  pub unclaimed : (r.claimed_by ≡ none) × (r.claimed_at ≡ none)
  pub unblocked : (r.blocker_code ≡ none) × (r.blocker_detail ≡ none)
  pub table :
      db'.work_items ≡ update_where (λ x. str_eq x.id row.id) (finished_item now) db.work_items
  pub verdict : Appended evaluation db.evaluation_history db'.evaluation_history

-- In a valid table each item is the one that is read under its id.
pub items-item_at :
    (xs : List WorkRow) → Distinct (ids_of xs) → All (λ (r : WorkRow). item_at r.id xs ≡ some r) xs
items-item_at [] d = tt
items-item_at (x ∷ xs) d =
    (ground (arith, eq_refl x.id), both xs (absent x.id xs d.0) (items-item_at xs d.1))
  where
    both :
        (ys : List WorkRow)
        → All (λ (r : WorkRow). str_eq x.id r.id ≡ false) ys
        → All (λ (r : WorkRow). item_at r.id xs ≡ some r) ys
        → All (λ (r : WorkRow). item_at r.id (x ∷ xs) ≡ some r) ys
    both [] a b = tt
    both (y ∷ ys) a b = (ground (arith, a.0, b.0), both ys a.1 b.1)

module _ {ℓ κ} {A : Type ℓ} (P : A → Type κ) (p : A → Bool) where
  find-All : (xs : List A) → All P xs → (r : A) → find p xs ≡ some r → P r × (p r ≡ true)
  find-All [] a r e = cc
  find-All (x ∷ xs) a r e = go (p x) refl (find-All xs a.1 r) e
    where
      go :
          (b : Bool)
          → p x ≡ b
          → (find p xs ≡ some r → P r × (p r ≡ true))
          → (if b then some x else find p xs) ≡ some r
          → P r × (p r ≡ true)
      go true t rest h = let same : x ≡ r = cc in (rw (sym same) a.0, rw (sym same) t)
      go false t rest h = rest h

  pub select-All : (xs : List A) → All P xs → All (λ (r : A). P r × (p r ≡ true)) (select p xs)
  select-All [] a = tt
  select-All (x ∷ xs) a = go (p x) refl (select-All xs a.1)
    where
      go :
          (b : Bool)
          → p x ≡ b
          → All (λ (r : A). P r × (p r ≡ true)) (select p xs)
          → All (λ (r : A). P r × (p r ≡ true)) (if b then x ∷ select p xs else select p xs)
      go true t rest = ((a.0, t), rest)
      go false t rest = rest

-- a result that ends by reading a row
abbrev beside : Database → WorkRow → Result (Database × WorkRow)
beside db x = ok (db, x)

read-ok :
    (o : Option WorkRow) (raised : Error) (db db' : Database) (r : WorkRow)
    → (or_raise o raised >>= beside db) ≡ ok (db', r)
    → (o ≡ some r) × (db ≡ db')
read-ok none raised db db' r e = cc
read-ok (some x) raised db db' r e = (cc, cc)

updated-item_at :
    (id now : String) (row : WorkRow) (xs : List WorkRow)
    → item_at id xs ≡ some row
    → item_at id (update_where (λ x. str_eq x.id id) (finished_item now) xs)
      ≡ some (finished_item now row)
updated-item_at id now row [] e = cc
updated-item_at id now row (x ∷ xs) e = ground (arith, updated-item_at id now row xs)

module _ (evaluation : Evaluation) where
  pick-Awaited :
      (now : String) (db : Database) (rs : List WorkRow) (db' : Database) (row : WorkRow)
      → All (Awaited evaluation db.work_items) rs
      → first_candidate evaluation now db rs ≡ ok (db', row)
      → Awaited evaluation db.work_items row
        × (db'.work_items ≡ db.work_items)
        × (db'.evaluation_history ≡ db.evaluation_history)
  pick-Awaited now db [] db' row a e = cc
  pick-Awaited now db (r ∷ []) db' row a e = let same : r ≡ row = cc in (rw (sym same) a.0, cc, cc)
  pick-Awaited now db (r ∷ s ∷ rs) db' row a e =
      let same : r ≡ row = cc in (rw (sym same) a.0, cc, cc)

  -- what the statements after the choice do
  finish-lem :
      (projections : Projections) (now : String) (db : Database) (row : WorkRow) (db' : Database)
      (r : WorkRow)
      → finish_item projections evaluation now db row ≡ ok (db', r)
      → (db'.work_items ≡ update_where (λ x. str_eq x.id row.id) (finished_item now) db.work_items)
        × (item_at row.id db'.work_items ≡ some r)
        × (db'.evaluation_history ≡ (append_evaluation evaluation now db).evaluation_history)
  unfolding finish_item append_evaluation
  finish-lem projections now db row db' r e =
      let (_, _, e₁) =
        >>=-eq-ok
          (refresh_experiment_evidence projections.refresh_run_evidence evaluation.experiment_id
            (append_evaluation evaluation now db))
          _ e in
      let (events, l, f) =
        >>=-eq-ok
          (projections.enqueue_learning_safely evaluation (append_evaluation evaluation now db)) _
          e₁ in
      let (q, same) = read-ok _ _ _ db' r f in (cc, rw (sym same) q, cc)

  -- the item that is chosen waits for the evaluation, and is the one that was named
  chosen-Awaited :
      (id : Option String) (now : String) (db : Database) (db' : Database) (row : WorkRow)
      → IsValid db.work_items
      → chosen_item evaluation id now db ≡ ok (db', row)
      → Awaited evaluation db.work_items row
        × ((i : String) → id ≡ some i → row.id ≡ i)
        × (db'.work_items ≡ db.work_items)
        × (db'.evaluation_history ≡ db.evaluation_history)
  unfolding chosen_item
  chosen-Awaited none now db db' row v e =
      let a =
        pick-Awaited now db _ db' row
          (All-order_by (Awaited evaluation db.work_items) latest_first _ (
            All-map _ (Awaited evaluation db.work_items)
              (select (is_awaiting evaluation.experiment_id) db.work_items)
              (λ r h. awaits evaluation db.work_items r h.0 h.1)
              (select-All (λ (r : WorkRow). item_at r.id db.work_items ≡ some r)
                (is_awaiting evaluation.experiment_id) db.work_items
                (items-item_at db.work_items v.keys))))
          e in
      (a.0, λ i n. cc, a.1, a.2)
  chosen-Awaited (some id) now db db' row v e =
      let (f, same) = read-ok _ _ db db' row e in
      let (h, t) =
        find-All (λ (x : WorkRow). item_at x.id db.work_items ≡ some x)
          (λ x. str_eq x.id id && is_awaiting evaluation.experiment_id x) db.work_items
          (items-item_at db.work_items v.keys) row f in
      let named : row.id ≡ id = ground (arith, eq_iff row.id id) in
      (awaits evaluation db.work_items row h (ground arith), λ i n. cc, cc, cc)

  -- What a finalization that succeeds did: it finished exactly one item, which was running and awaited
  -- this experiment's evaluation, the named one where one was named; the item that it returns is that
  -- item finished, without a claim or a blocker; and the verdict is the current one of its evaluator.
  pub finalize_batch_evaluation-Finished :
      (projections : Projections) (id : Option String) (now : String) (db db' : Database)
      (r : WorkRow)
      → IsValid db.work_items
      → finalize_batch_evaluation projections evaluation id now db ≡ ok (db', r)
      → Finished evaluation id now db db' r
  unfolding finalize_batch_evaluation append_evaluation
  finalize_batch_evaluation-Finished projections id now db db' r v e =
      let ((mid, row), c, f) = >>=-eq-ok (chosen_item evaluation id now db) _ e in
      let (a, n, w, h) = chosen-Awaited id now db mid row v c in
      let (t, q, g) = finish-lem projections now mid row db' r f in
      let t' : db'.work_items
          ≡ update_where (λ x. str_eq x.id row.id) (finished_item now) db.work_items =
        cc in
      let back = updated-item_at row.id now row db.work_items a.here in
      let r_eq : r ≡ finished_item now row = cc (q, t', back) in
      record {
        row = row;
        awaited = a;
        named = n;
        returned = r_eq;
        ended = ap (λ x. x.state) r_eq;
        unclaimed = (ap (λ x. x.claimed_by) r_eq, ap (λ x. x.claimed_at) r_eq);
        unblocked = (ap (λ x. x.blocker_code) r_eq, ap (λ x. x.blocker_detail) r_eq);
        table = t';
        verdict = rw g (rw h (append_revision-Appended evaluation now db.evaluation_history));
      }

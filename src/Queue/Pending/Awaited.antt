-- ===== src/Queue/Pending/Awaited.antt =====
-- What `pending_batch_evaluation` of src/ats_lab/database_queue.py gives.
use algorithmic_trading_stra.Base.{
  String, Bool, true, false, ◌||◌, Option, none, some, List, [], ◌∷◌, ◌≡◌, refl, ◌∙◌, arith, str_eq,
  select, order_by, insert_by, any, any-append, if◌then◌else◌, eq_refl,
}
use algorithmic_trading_stra.Base.Texts.{text_lt}
use algorithmic_trading_stra.Queue.Rows.{WorkRow, Experiment, Run, Database, item_at}
use algorithmic_trading_stra.Queue.Pending.{
  Pending, finish_time, later_run, latest_run, is_pending, pair_with, with_latest, join_each,
  pending_order, pending_batch_evaluation,
}

-- the item awaits its analysis now, and the experiment and the run are its own
pub record Awaited (worker : Option String) (now : String) (p : Pending) : Type 0 where
  pub waits : is_pending worker now p.item ≡ true
  pub experiment : str_eq p.experiment.id p.item.experiment_id ≡ true
  pub own_run : str_eq p.run.work_item_id p.item.id ≡ true

abbrev IsOwn : String → Option Run → Type 0
IsOwn id none = Unit
IsOwn id (some r) = str_eq r.work_item_id id ≡ true

abbrev pub names : String → Pending → Bool
names id p = str_eq p.item.id id

any-insert_by :
    (q : Pending → Bool) (x : Pending) (xs : List Pending)
    → any q (insert_by pending_order x xs) ≡ (q x || any q xs)
any-insert_by q x [] = refl
any-insert_by q x (y ∷ ys) = ground (arith, any-insert_by q x ys)

any-order_by :
    (q : Pending → Bool) (xs : List Pending) → any q (order_by pending_order xs) ≡ any q xs
any-order_by q [] = refl
any-order_by q (x ∷ xs) =
    ground (arith, any-insert_by q x (order_by pending_order xs), any-order_by q xs)

has-later : (r : Run) (o : Option Run) → (s : Run) × (later_run r o ≡ some s)
has-later r none = (r, refl)
has-later r (some s) = either (text_lt (finish_time s) (finish_time r))
  where
    either : (b : Bool) → (t : Run) × ((if b then some r else some s) ≡ some t)
    either true = (r, refl)
    either false = (s, refl)

-- an item that has a run has a latest one
has-latest_run :
    (id : String) (rs : List Run)
    → any (λ (r : Run). str_eq r.work_item_id id) rs ≡ true
    → (s : Run) × (latest_run id rs ≡ some s)
unfolding latest_run
has-latest_run id [] h = cc
has-latest_run id (r ∷ rs) h = go (str_eq r.work_item_id id) (has-latest_run id rs) h
  where
    go :
        (b : Bool)
        → (any (λ (x : Run). str_eq x.work_item_id id) rs ≡ true
            → (s : Run) × (latest_run id rs ≡ some s))
        → (b || any (λ (x : Run). str_eq x.work_item_id id) rs) ≡ true
        → (s : Run) × ((if b then later_run r (latest_run id rs) else latest_run id rs) ≡ some s)
    go true rest k = has-later r (latest_run id rs)
    go false rest k = rest k

any-pair_with :
    (w : WorkRow) (run : Run) (e : String) (es : List Experiment)
    → any (λ (x : Experiment). str_eq x.id e) es ≡ true
    → any (names w.id) (pair_with w run (select (λ (x : Experiment). str_eq x.id e) es)) ≡ true
any-pair_with w run e [] h = cc
any-pair_with w run e (x ∷ es) h = ground (arith, any-pair_with w run e es, eq_refl w.id)

any-with_latest :
    (db : Database) (w : WorkRow)
    → any (λ (r : Run). str_eq r.work_item_id w.id) db.runs ≡ true
    → any (λ (e : Experiment). str_eq e.id w.experiment_id) db.experiments ≡ true
    → any (names w.id) (
        with_latest w
          (latest_run w.id db.runs)
          (select (λ (e : Experiment). str_eq e.id w.experiment_id) db.experiments))
      ≡ true
any-with_latest db w r e =
    let (s, f) = has-latest_run w.id db.runs r in
    rw f (any-pair_with w s w.experiment_id db.experiments e)

any-join_each :
    (worker : Option String) (now : String) (db : Database) (w : WorkRow) (ws : List WorkRow)
    → item_at w.id ws ≡ some w
    → is_pending worker now w ≡ true
    → any (λ (r : Run). str_eq r.work_item_id w.id) db.runs ≡ true
    → any (λ (e : Experiment). str_eq e.id w.experiment_id) db.experiments ≡ true
    → any (names w.id) (join_each db (select (is_pending worker now) ws)) ≡ true
unfolding join_each
any-join_each worker now db w [] i p r e = cc
any-join_each worker now db w (x ∷ ws) i p r e =
    go (str_eq x.id w.id) (is_pending worker now x) refl refl
      (λ k. any-join_each worker now db w ws k p r e) i
  where
    go :
        (b c : Bool)
        → str_eq x.id w.id ≡ b
        → is_pending worker now x ≡ c
        → (item_at w.id ws ≡ some w
            → any (names w.id) (join_each db (select (is_pending worker now) ws)) ≡ true)
        → (if b then some x else item_at w.id ws) ≡ some w
        → any (names w.id) (
            join_each db (
              if c
              then x ∷ select (is_pending worker now) ws
              else select (is_pending worker now) ws))
          ≡ true
    go true false m n rest h = let same : x ≡ w = cc in ground (arith, p, n, same)
    go true true m n rest h =
        let same : x ≡ w = cc in
        let one = any-with_latest db w r e in
        rw (any-append (names w.id) _ _) (rw same (ground (arith, one)))
    go false true m n rest h =
        let k = rest h in rw (any-append (names w.id) _ _) (ground (arith, k))
    go false false m n rest h = rest h

-- An item that is the one under its id, is pending, has a run and whose experiment is there is among the
-- rows given.
pub pending_batch_evaluation_complete :
    (worker : Option String) (now : String) (db : Database) (w : WorkRow)
    → item_at w.id db.work_items ≡ some w
    → is_pending worker now w ≡ true
    → any (λ (r : Run). str_eq r.work_item_id w.id) db.runs ≡ true
    → any (λ (e : Experiment). str_eq e.id w.experiment_id) db.experiments ≡ true
    → any (λ (p : Pending). str_eq p.item.id w.id) (pending_batch_evaluation worker now db) ≡ true
unfolding pending_batch_evaluation
pending_batch_evaluation_complete worker now db w i p r e =
    any-order_by (names w.id) (join_each db (select (is_pending worker now) db.work_items))
    ∙ any-join_each worker now db w db.work_items i p r e

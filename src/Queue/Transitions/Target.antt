-- ===== src/Queue/Transitions/Target.antt =====
-- What a transition of src/ats_lab/database_queue.py that succeeds returns.
use algorithmic_trading_stra.Base.{
  String, Bool, true, false, not, Option, none, some, List, [], ◌∷◌, ◌≡◌, ◌⊎◌, inl, inr, refl, sym,
  ap, ◌∙◌, any, str_eq, update_where, if◌then◌else◌,
}
use algorithmic_trading_stra.Base.Json.{Json.obj, Json.str, field, end}
use algorithmic_trading_stra.Base.Outcome.{
  Result, ok, err, >>=-eq-ok, ok-inj, or_raise, Error, value_error, key_error, ◌>>=◌,
}
use algorithmic_trading_stra.Base.Texts.{◌<>◌}
use algorithmic_trading_stra.Models.{WorkState, state_value, is_state, is_state→eq}
use algorithmic_trading_stra.Queue.Rows.{WorkRow, Database, item_at, update_items, add_item_event}
use algorithmic_trading_stra.Queue.Transitions.{
  Reason, moved, transition_work_item_row, transition_work_item,
}

-- The row is in its new state, without a claim and with the blocker that was given.
pub record Arrived (target : WorkState) (reason : Reason) (r : WorkRow) : Type 0 where
  pub state : r.state ≡ target
  pub claimed_by : r.claimed_by ≡ none
  pub claimed_at : r.claimed_at ≡ none
  pub blocker_code : r.blocker_code ≡ reason.blocker_code
  pub blocker_detail : r.blocker_detail ≡ reason.blocker_detail

moved-Arrived :
    (row : WorkRow) (target : WorkState) (reason : Reason) (now : String) (x r : WorkRow)
    → some (moved row target reason now x) ≡ some r
    → Arrived target reason r
moved-Arrived row target reason now x r e = record {
  state = cc;
  claimed_by = cc;
  claimed_at = cc;
  blocker_code = cc;
  blocker_detail = cc;
}

if-true : {A : Type 0} (b : Bool) (x y : A) {z : A} → b ≡ true → (if b then x else y) ≡ z → x ≡ z
if-true true x y h e = e
if-true false x y h e = cc

if-false : {A : Type 0} (b : Bool) (x y : A) {z : A} → b ≡ false → (if b then x else y) ≡ z → y ≡ z
if-false true x y h e = cc
if-false false x y h e = e

found-Arrived :
    (id : String) (row : WorkRow) (target : WorkState) (reason : Reason) (now : String)
    (xs : List WorkRow) (r : WorkRow)
    → item_at id (update_where (λ (x : WorkRow). str_eq x.id id) (moved row target reason now) xs)
      ≡ some r
    → Arrived target reason r
found-Arrived id row target reason now [] r e = cc
found-Arrived id row target reason now (x ∷ xs) r e =
    go (str_eq x.id id) refl (found-Arrived id row target reason now xs r) e
  where
    go :
        (b : Bool)
        → str_eq x.id id ≡ b
        → (item_at id
                (update_where (λ (x : WorkRow). str_eq x.id id) (moved row target reason now) xs)
              ≡ some r
            → Arrived target reason r)
        → item_at id (
            (if b then moved row target reason now x else x)
            ∷ update_where (λ (x : WorkRow). str_eq x.id id) (moved row target reason now) xs)
          ≡ some r
        → Arrived target reason r
    go true h again e = moved-Arrived row target reason now x r (if-true (str_eq x.id id) _ _ h e)
    go false h again e = again (if-false (str_eq x.id id) _ _ h e)

or_raise-some : {A : Type 0} (o : Option A) (x : Error) {a : A} → or_raise o x ≡ ok a → o ≡ some a
or_raise-some none x e = cc
or_raise-some (some a) x e = ap some (ok-inj e)

row-Arrived :
    (row : WorkRow) (target : WorkState) (allowed : List WorkState) (reason : Reason) (now : String)
    (db db' : Database) (r : WorkRow)
    → transition_work_item_row row target allowed reason now db ≡ ok (db', r)
    → ((db' ≡ db) × (r.state ≡ target))
      ⊎ (any (is_state row.state) allowed ≡ true) × Arrived target reason r
unfolding transition_work_item_row
row-Arrived row target allowed reason now db db' r e =
    go (is_state row.state target) (any (is_state row.state) allowed) refl refl e
  where
    go :
        (same permitted : Bool)
        → is_state row.state target ≡ same
        → any (is_state row.state) allowed ≡ permitted
        → if◌then◌else◌ {A = Result (Database × WorkRow)} same (ok (db, row)) (
            if◌then◌else◌ {A = Result (Database × WorkRow)}
              (not permitted)
              (err (
                value_error (
                  "cannot transition "
                  <> row.id
                  <> " from "
                  <> state_value row.state
                  <> " to "
                  <> state_value target)))
              (or_raise
                  (item_at row.id (
                    update_where
                      (λ (x : WorkRow). str_eq x.id row.id)
                      (moved row target reason now)
                      db.work_items))
                  (key_error row.id)
                >>= λ result. ok (
                  add_item_event row.id "state_changed"
                      (obj (
                        field "from"
                          (str (state_value row.state))
                          (field "to" (str (state_value target)) end)))
                      now
                      (update_items
                        (λ (x : WorkRow). str_eq x.id row.id)
                        (moved row target reason now)
                        db),
                  result,
                )))
          ≡ ok (db', r)
        → ((db' ≡ db) × (r.state ≡ target))
          ⊎ (any (is_state row.state) allowed ≡ true) × Arrived target reason r
    go true p h _ e =
        let done = ok-inj e in
        inl (
          sym (ap (λ (s : Database × WorkRow). s.0) done),
          sym (ap (λ (s : Database × WorkRow). s.1.state) done) ∙ is_state→eq row.state target h,
        )
    go false false _ _ e = cc
    go false true _ p e =
        let parts = >>=-eq-ok _ _ e in
        let last = ap (λ (s : Database × WorkRow). s.1) (ok-inj parts.2) in
        inr (
          p,
          found-Arrived row.id row target reason now db.work_items r
              (or_raise-some _ _ parts.1 ∙ ap some last),
        )

-- A transition that succeeds either found the item in the target state and changed nothing, or started
-- from a permitted state and returns the item in the target state, without a claim and with the blocker
-- that was given.
pub transition_work_item-Arrived :
    (id : String) (target : WorkState) (allowed : List WorkState) (reason : Reason) (now : String)
    (db db' : Database) (r : WorkRow)
    → transition_work_item id target allowed reason now db ≡ ok (db', r)
    → ((db' ≡ db) × (r.state ≡ target))
      ⊎ (row : WorkRow) × (item_at id db.work_items ≡ some row)
        × (any (is_state row.state) allowed ≡ true)
        × Arrived target reason r
unfolding transition_work_item
transition_work_item-Arrived id target allowed reason now db db' r e =
    let parts =
      >>=-eq-ok (or_raise (item_at id db.work_items) (key_error ("unknown work item: " <> id)))
        (λ row. transition_work_item_row row target allowed reason now db) e in
    elim (row-Arrived parts.0 target allowed reason now db db' r parts.2) [
      | inl same ↦ inl same
      | inr went ↦ inr (parts.0, or_raise-some _ _ parts.1, went.0, went.1)
    ]

-- ===== src/Queue/Keeps/Dependencies.antt =====
-- Reconciliation, promotion and registration: each keeps the table valid and changes its items legally.
use mathlib.Core.Path.{subst}
use algorithmic_trading_stra.Base.{
  ℕ, zero, suc, String, Bool, true, false, Option, none, some, List, [], ◌∷◌, if◌then◌else◌, leb,
  ◌≡◌, refl, sym, arith, Bool-cases, inl, inr,
}
use algorithmic_trading_stra.Base.Int.{ℤ, pos, ltb_ℤ, pos_part}
use algorithmic_trading_stra.Base.Outcome.{Result, ok, err, ◌>>=◌}
use algorithmic_trading_stra.Models.{scheduled, blocked, archived, is_state}
use algorithmic_trading_stra.Queue.Rows.{WorkRow, Database, item_at}
use algorithmic_trading_stra.Queue.Invariant.{
  IsValid, Advance, Advances, Advance-refl, Advance-trans,
}
use algorithmic_trading_stra.Queue.Rules.{guarded-Advance, &&-left, idle-IsSound, item_at-id}
use algorithmic_trading_stra.Queue.Transitions.{}
use algorithmic_trading_stra.Queue.Blockers.{request_retry}
use algorithmic_trading_stra.Queue.Dependencies.{
  Found, Reconciled, archive_child, block_child, release_child, reconcile_row, reconcile_found,
  reconcile_pass, after_pass, after, after_request, nothing_done, reconcile_loop,
  reconcile_scheduled_dependencies, fill_capacity, promoted, waiting_children, run_reconcile_hpo,
  promote_scheduled_runnable, retry_blocked_work_item, total, mark_changed,
}
use algorithmic_trading_stra.Queue.Keeps.Transitions.{transition_work_item_row-Advances}
use algorithmic_trading_stra.Queue.Keeps.Blockers.{request_retry-Advances}

-- What a step of a pass did to the table: records, so that the rules below find their arguments.
record Moves (xs : List WorkRow) (m : Result (Database × Reconciled)) : Type 0 where
  at : Advances xs m

abbrev Passed : List WorkRow → Result (Database × Reconciled × Bool) → Type 0
Passed xs (ok s) = Advance xs s.0.work_items
Passed xs (err _) = Unit

record Passes (xs : List WorkRow) (m : Result (Database × Reconciled × Bool)) : Type 0 where
  at : Passed xs m

Moves-bind :
    {xs : List WorkRow} (m : Result (Database × WorkRow))
    {k : Database × WorkRow → Result (Database × Reconciled)}
    → Advances xs m
    → ((s : Database × WorkRow) → Advance xs s.0.work_items → Moves xs (k s))
    → Moves xs (m >>= k)
Moves-bind (ok s) h g = g s h
Moves-bind (err e) h g = record { at = tt }

Passes-changed :
    {xs : List WorkRow} {m : Result (Database × Reconciled)}
    → Moves xs m
    → Passes xs (m >>= mark_changed)
Passes-changed {m = ok s} h = record { at = h.at }
Passes-changed {m = err e} h = record { at = tt }

Passes-if :
    {xs : List WorkRow} (b : Bool) {m n : Result (Database × Reconciled × Bool)}
    → Passes xs m
    → Passes xs n
    → Passes xs (if b then m else n)
Passes-if true h k = h
Passes-if false h k = k

Passes-ok :
    {s : Database × Reconciled × Bool} {xs : List WorkRow}
    → Advance xs s.0.work_items
    → Passes xs (ok s)
Passes-ok h = record { at = h }

module _ (row : WorkRow) (f : Found) (now : String) (db : Database) (done : Reconciled)
    (v : IsValid db.work_items) (e : item_at row.id db.work_items ≡ some row) where
  archive_child-Moves : Moves db.work_items (archive_child row f now (db, done))
  unfolding archive_child
  archive_child-Moves =
      Moves-bind _ (transition_work_item_row-Advances row archived _ _ now db v e refl)
        λ s a. record { at = a }

  block_child-Moves : Moves db.work_items (block_child row f now (db, done))
  unfolding block_child
  block_child-Moves =
      Moves-bind _ (transition_work_item_row-Advances row blocked _ _ now db v e refl)
        λ s a. record { at = a }

  release_child-Moves : Moves db.work_items (release_child row now (db, done))
  unfolding release_child
  release_child-Moves =
      Moves-bind _ (transition_work_item_row-Advances row scheduled _ _ now db v e refl)
        λ s a. record { at = a }

  reconcile_row-Passes :
      (changed : Bool) → Passes db.work_items (reconcile_row row f now (db, done, changed))
  unfolding reconcile_row
  reconcile_row-Passes changed = Passes-if _ (Passes-changed archive_child-Moves) (
      Passes-if _ (Passes-changed block_child-Moves)
        (Passes-if _ (Passes-changed release_child-Moves) (Passes-ok (Advance-refl v))))

reconcile_found-Passes :
    (id : String) (o : Option WorkRow) (f : Found) (now : String) (db : Database)
    (done : Reconciled) (changed : Bool)
    → IsValid db.work_items
    → item_at id db.work_items ≡ o
    → Passes db.work_items (reconcile_found o f now (db, done, changed))
unfolding reconcile_found
reconcile_found-Passes id none f now db done changed v e = Passes-ok (Advance-refl v)
reconcile_found-Passes id (some row) f now db done changed v e =
    reconcile_row-Passes row f now db done v
      (subst (λ k. item_at k db.work_items ≡ some row) (sym (item_at-id id row db.work_items e)) e)
      changed

Passes-bind :
    {xs : List WorkRow} {m : Result (Database × Reconciled × Bool)}
    {k : Database × Reconciled × Bool → Result (Database × Reconciled × Bool)}
    → Passes xs m
    → ((s : Database × Reconciled × Bool) → IsValid s.0.work_items → Passes s.0.work_items (k s))
    → Passes xs (m >>= k)
Passes-bind {m = err e} h g = record { at = tt }
Passes-bind {xs} {m = ok s} {k} h g = go (k s) (g s h.at.valid)
  where
    go : (r : Result (Database × Reconciled × Bool)) → Passes s.0.work_items r → Passes xs r
    go (ok t) p = record { at = Advance-trans h.at (λ _. p.at) }
    go (err e) p = record { at = tt }

reconcile_pass-Passes :
    (limit : ℕ) (now : String) (children : List (String × Found)) (s : Database × Reconciled × Bool)
    → IsValid s.0.work_items
    → Passes s.0.work_items (reconcile_pass limit now children s)
unfolding reconcile_pass
reconcile_pass-Passes limit now [] s v = Passes-ok (Advance-refl v)
reconcile_pass-Passes limit now ((id, f) ∷ children) (db, done, changed) v =
    Passes-if _ (Passes-ok (Advance-refl v)) (
      Passes-bind
        (reconcile_found-Passes id (item_at id db.work_items) f now db done changed v refl)
        (reconcile_pass-Passes limit now children))

after_pass-Advance :
    (db : Database) (r : Result (Database × Reconciled × Bool))
    (again : Database × Reconciled → Database × Result (Reconciled × Bool))
    → IsValid db.work_items
    → Passes db.work_items r
    → ((s : Database × Reconciled)
        → IsValid s.0.work_items
        → Advance s.0.work_items (again s).0.work_items)
    → Advance db.work_items (after_pass db r again).0.work_items
unfolding after_pass
after_pass-Advance db (err e) again v p h = Advance-refl v
after_pass-Advance db (ok (db', done, true)) again v p h = Advance-trans p.at (h (db', done))
after_pass-Advance db (ok (db', done, false)) again v p h = p.at

reconcile_loop-Advance :
    (fuel limit : ℕ) (now : String) (s : Database × Reconciled)
    → IsValid s.0.work_items
    → Advance s.0.work_items (reconcile_loop fuel limit now s).0.work_items
unfolding reconcile_loop
reconcile_loop-Advance zero limit now (db, done) v = Advance-refl v
reconcile_loop-Advance (suc fuel) limit now (db, done) v =
    elim (Bool-cases (leb limit (total done))) [
      | inl t ↦ rw t (Advance-refl v)
      | inr t ↦ rw t (
          after_pass-Advance db (reconcile_pass limit now (waiting_children db) (db, done, false)) _
            v (reconcile_pass-Passes limit now (waiting_children db) (db, done, false) v)
            (reconcile_loop-Advance fuel limit now))
    ]

pub reconcile_scheduled_dependencies-Advance :
    (limit : ℤ) (now : String) (db : Database)
    → IsValid db.work_items
    → Advance db.work_items (reconcile_scheduled_dependencies limit now db).0.work_items
unfolding reconcile_scheduled_dependencies
reconcile_scheduled_dependencies-Advance limit now db v = elim (Bool-cases (ltb_ℤ limit (pos 1))) [
  | inl t ↦ rw t (Advance-refl v)
  | inr t ↦ rw t (reconcile_loop-Advance (pos_part limit) (pos_part limit) now (db, nothing_done) v)
]

fill_capacity-Advance :
    (limit : ℕ) (now : String) (db : Database)
    → IsValid db.work_items
    → Advance db.work_items (fill_capacity limit now db).0.work_items
unfolding fill_capacity
fill_capacity-Advance limit now db v = guarded-Advance (promoted now) _ db.work_items v λ r h.
    let s : is_state r.state scheduled ≡ true = &&-left (is_state r.state scheduled) _ h in
    idle-IsSound r (promoted now r) (ground arith) (ground arith) refl

after-Advance {ℓ} :
    {A : Type ℓ} (xs : List WorkRow) (o : Database × Result A)
    (k : A → Database → Database × Result ℕ)
    → Advance xs o.0.work_items
    → ((a : A) (db : Database)
        → IsValid db.work_items
        → Advance db.work_items (k a db).0.work_items)
    → Advance xs (after o k).0.work_items
after-Advance xs (db, ok a) k p h = Advance-trans p (h a db)
after-Advance xs (db, err e) k p h = p

-- The queue relies on the method that it is mixed with to keep the table.
module _ (reconcile_hpo : Option (String → Database → Database × Result (Unit {0})))
    (hpo : (now : String) (db : Database)
      → IsValid db.work_items
      → Advance db.work_items (run_reconcile_hpo reconcile_hpo now db).0.work_items) where
  pub promote_scheduled_runnable-Advance :
      (limit : ℤ) (now : String) (db : Database)
      → IsValid db.work_items
      → Advance db.work_items (promote_scheduled_runnable reconcile_hpo limit now db).0.work_items
  unfolding promote_scheduled_runnable
  promote_scheduled_runnable-Advance limit now db v = elim (Bool-cases (ltb_ℤ limit (pos 1))) [
    | inl t ↦ rw t (Advance-refl v)
    | inr t ↦ rw t (
        after-Advance _ (reconcile_scheduled_dependencies (pos 1000) now db) _
          (reconcile_scheduled_dependencies-Advance (pos 1000) now db v)
          λ _ db' v'.
            after-Advance _ (run_reconcile_hpo reconcile_hpo now db') _ (hpo now db' v')
              λ _ db'' v''. fill_capacity-Advance (pos_part limit) now db'' v'')
  ]

  pub retry_blocked_work_item-Advance :
      (id reason : String) (limit : ℤ) (now : String) (db : Database)
      → IsValid db.work_items
      → Advance db.work_items
          (retry_blocked_work_item reconcile_hpo id reason limit now db).0.work_items
  unfolding retry_blocked_work_item after_request
  retry_blocked_work_item-Advance id reason limit now db v =
      go (request_retry id reason limit now db) (request_retry-Advances id reason limit now db v)
    where
      go :
          (r : Result (Database × WorkRow))
          → Advances db.work_items r
          → Advance db.work_items (after_request reconcile_hpo limit now db r).0.work_items
      go (ok (db', row)) p = Advance-trans p (promote_scheduled_runnable-Advance limit now db')
      go (err e) p = Advance-refl v

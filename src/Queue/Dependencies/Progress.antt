-- ===== src/Queue/Dependencies/Progress.antt =====
-- The loop of `reconcile_scheduled_dependencies` ends: each pass that changes something adds to the
-- result, so `limit` passes are enough.
use algorithmic_trading_stra.Base.{
  ℕ, zero, suc, ◌+◌, ◌≤◌, ◌<◌, String, Bool, true, false, Option, none, some, List, [], ◌∷◌,
  if◌then◌else◌, leb, length-append, ◌≡◌, refl, arith, Bool-cases, inl, inr, ◌⊎◌,
}
use algorithmic_trading_stra.Base.Int.{ℤ, pos, pos_part, ltb_ℤ}
use algorithmic_trading_stra.Base.Outcome.{Result, ok, err, ◌>>=◌}
use algorithmic_trading_stra.Queue.Rows.{WorkRow, Database, item_at}
use algorithmic_trading_stra.Queue.Dependencies.{
  Found, Reconciled, total, nothing_done, archive_child, block_child, release_child, reconcile_row,
  reconcile_found, reconcile_pass, reconcile_loop, after_pass, waiting_children, mark_changed,
  reconcile_scheduled_dependencies,
}

-- A step adds one to the result.
record Adds (done : Reconciled) (m : Result (Database × Reconciled)) : Type 0 where
  at : (s : Database × Reconciled) → m ≡ ok s → total s.1 ≡ total done + 1

-- A pass keeps the result from shrinking, stays within the limit, and adds to it where it says so.
record Grows (limit : ℕ) (done : Reconciled) (changed : Bool)
    (m : Result (Database × Reconciled × Bool)) : Type 0 where
  at :
      (s : Database × Reconciled × Bool)
      → m ≡ ok s
      → (total done ≤ total s.1)
        × (total s.1 ≤ limit)
        × (s.2 ≡ true → (changed ≡ true) ⊎ (total done < total s.1))

Adds-bind :
    {done : Reconciled} (m : Result (Database × WorkRow))
    {k : Database × WorkRow → Result (Database × Reconciled)}
    → ((s : Database × WorkRow) → Adds done (k s))
    → Adds done (m >>= k)
Adds-bind (ok s) h = h s
Adds-bind (err e) h = record { at = λ s q. cc }

Adds-ok : (db : Database) (done d : Reconciled) → total d ≡ total done + 1 → Adds done (ok (db, d))
Adds-ok db done d h = record { at = λ s q. ground arith }

Grows-changed :
    {limit : ℕ} {done : Reconciled} (changed : Bool) (m : Result (Database × Reconciled))
    → total done < limit
    → Adds done m
    → Grows limit done changed (m >>= mark_changed)
Grows-changed changed (ok (db, d)) room a = record { at = λ s q. ground (arith, a.at (db, d) refl) }
Grows-changed changed (err e) room a = record { at = λ s q. cc }

Grows-if :
    {limit : ℕ} {done : Reconciled} {changed : Bool} (b : Bool)
    {m n : Result (Database × Reconciled × Bool)}
    → Grows limit done changed m
    → Grows limit done changed n
    → Grows limit done changed (if b then m else n)
Grows-if true h k = h
Grows-if false h k = k

Grows-same :
    {limit : ℕ} (db : Database) (done : Reconciled) (changed : Bool)
    → total done ≤ limit
    → Grows limit done changed (ok (db, done, changed))
Grows-same db done changed room = record { at = λ s q. ground arith }

module _ (row : WorkRow) (f : Found) (now : String) (db : Database) (done : Reconciled) where
  archive_child-Adds : Adds done (archive_child row f now (db, done))
  unfolding archive_child
  archive_child-Adds =
      Adds-bind _
        λ r. Adds-ok _ done _ (omega (arith, length-append done.archived_ids (row.id ∷ [])))

  block_child-Adds : Adds done (block_child row f now (db, done))
  unfolding block_child
  block_child-Adds =
      Adds-bind _
        λ r. Adds-ok _ done _ (omega (arith, length-append done.blocked_ids (row.id ∷ [])))

  release_child-Adds : Adds done (release_child row now (db, done))
  unfolding release_child
  release_child-Adds =
      Adds-bind _
        λ r. Adds-ok _ done _ (omega (arith, length-append done.released_ids (row.id ∷ [])))

  reconcile_row-Grows :
      (limit : ℕ) (changed : Bool)
      → total done < limit
      → Grows limit done changed (reconcile_row row f now (db, done, changed))
  unfolding reconcile_row
  reconcile_row-Grows limit changed room =
      Grows-if _ (Grows-changed changed _ room archive_child-Adds) (
        Grows-if _ (Grows-changed changed _ room block_child-Adds) (
          Grows-if _ (Grows-changed changed _ room release_child-Adds)
            (Grows-same db done changed (omega arith))))

reconcile_found-Grows :
    (o : Option WorkRow) (f : Found) (now : String) (db : Database) (done : Reconciled) (limit : ℕ)
    (changed : Bool)
    → total done < limit
    → Grows limit done changed (reconcile_found o f now (db, done, changed))
unfolding reconcile_found
reconcile_found-Grows none f now db done limit changed room =
    Grows-same db done changed (omega arith)
reconcile_found-Grows (some row) f now db done limit changed room =
    reconcile_row-Grows row f now db done limit changed room

Grows-bind :
    {limit : ℕ} {done : Reconciled} {changed : Bool} (m : Result (Database × Reconciled × Bool))
    {k : Database × Reconciled × Bool → Result (Database × Reconciled × Bool)}
    → Grows limit done changed m
    → ((s : Database × Reconciled × Bool) → total s.1 ≤ limit → Grows limit s.1 s.2 (k s))
    → Grows limit done changed (m >>= k)
Grows-bind (err e) h g = record { at = λ s q. cc }
Grows-bind (ok t) h g = record {
  at = λ s q. let a = h.at t refl in let b = (g t a.1).at s q in ground (arith, a.2, b.2);
}

reconcile_pass-Grows :
    (limit : ℕ) (now : String) (children : List (String × Found)) (db : Database)
    (done : Reconciled) (changed : Bool)
    → total done ≤ limit
    → Grows limit done changed (reconcile_pass limit now children (db, done, changed))
unfolding reconcile_pass
reconcile_pass-Grows limit now [] db done changed room = Grows-same db done changed room
reconcile_pass-Grows limit now ((id, f) ∷ children) db done changed room =
    elim (Bool-cases (leb limit (total done))) [
      | inl t ↦ rw t (Grows-same db done changed room)
      | inr t ↦ rw t (
          Grows-bind _
            (reconcile_found-Grows (item_at id db.work_items) f now db done limit changed
              (ground arith))
            (λ s r. reconcile_pass-Grows limit now children s.0 s.1 s.2 r))
    ]

-- Where the loop does not raise, it stays within the limit and did not run out of fuel.
abbrev pub Ended : ℕ → Database × Result (Reconciled × Bool) → Type 0
Ended limit (db, ok (done, b)) = (total done ≤ limit) × (b ≡ true)
Ended limit (db, err e) = Unit

after_pass-Ended :
    (limit : ℕ) (db : Database) (m : Result (Database × Reconciled × Bool))
    (again : Database × Reconciled → Database × Result (Reconciled × Bool)) (done : Reconciled)
    → Grows limit done false m
    → ((s : Database × Reconciled)
        → total s.1 ≤ limit
        → total done < total s.1
        → Ended limit (again s))
    → Ended limit (after_pass db m again)
unfolding after_pass
after_pass-Ended limit db (err e) again done h k = tt
after_pass-Ended limit db (ok (db', d, false)) again done h k =
    ((h.at (db', d, false) refl).1, refl)
after_pass-Ended limit db (ok (db', d, true)) again done h k =
    let a = h.at (db', d, true) refl in k (db', d) a.1 (more (a.2 refl))
  where
    more : (false ≡ true) ⊎ (total done < total d) → total done < total d
    more (inl e) = cc
    more (inr e) = e

reconcile_loop-Ended :
    (fuel limit : ℕ) (now : String) (s : Database × Reconciled)
    → total s.1 ≤ limit
    → limit ≤ fuel + total s.1
    → Ended limit (reconcile_loop fuel limit now s)
unfolding reconcile_loop
reconcile_loop-Ended zero limit now (db, done) room enough = (room, ground arith)
reconcile_loop-Ended (suc fuel) limit now (db, done) room enough =
    elim (Bool-cases (leb limit (total done))) [
      | inl t ↦ rw t (room, refl)
      | inr t ↦ rw t (
          after_pass-Ended limit db _ _ done
            (reconcile_pass-Grows limit now (waiting_children db) db done false room)
            (λ s r more. reconcile_loop-Ended fuel limit now s r (omega arith)))
    ]

-- With a positive limit the loop never runs out of passes: it reports at most `limit` items, and its
-- last pass changed nothing or met the limit (the Boolean is true), or a pass raised.
pub reconcile_ends :
    (limit : ℤ) (now : String) (db : Database)
    → ltb_ℤ limit (pos 1) ≡ false
    → Ended (pos_part limit) (reconcile_scheduled_dependencies limit now db)
unfolding reconcile_scheduled_dependencies
reconcile_ends limit now db h = rw h (
    reconcile_loop-Ended (pos_part limit) (pos_part limit) now (db, nothing_done) (omega arith)
      (omega arith))

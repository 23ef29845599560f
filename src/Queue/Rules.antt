-- ===== src/Queue/Rules.antt =====
-- Rules by which the operations of the queue are shown to keep the table: one for each kind of
-- UPDATE, and one for each way in which a transaction goes on or raises.
use algorithmic_trading_stra.Base.{
  String, Bool, true, false, ◌&&◌, Option, none, some, List, [], ◌∷◌, str_eq, if◌then◌else◌, ◌≡◌,
  refl, arith, eq_iff, update_where,
}
use algorithmic_trading_stra.Base.Outcome.{Result, ok, err, ◌>>=◌, ◌>>◌}
use algorithmic_trading_stra.Models.{WorkState, running, archived, is_state}
use algorithmic_trading_stra.Queue.Rows.{WorkRow, Database, item_at}
use algorithmic_trading_stra.Queue.Invariant.{
  IsValid, IsSound, Spares, Advance, Advances, update-Advance, All-every, All-map, only-item_at,
  Spares,
}
use algorithmic_trading_stra.Base.Outcome.{Error, raise_if, or_raise}

module _ (f : WorkRow → WorkRow) where
  -- An UPDATE whose WHERE clause names a state that is not archived.
  pub guarded-Advance :
      (p : WorkRow → Bool) (xs : List WorkRow)
      → IsValid xs
      → ((r : WorkRow) → p r ≡ true → IsSound r (f r))
      → Advance xs (update_where p f xs)
  guarded-Advance p xs v s = update-Advance p f xs v (All-every (Spares p f) xs s)

  -- An UPDATE by the id of a row that was read before.
  pub by_id-Advance :
      (id : String) (row : WorkRow) (xs : List WorkRow)
      → IsValid xs
      → item_at id xs ≡ some row
      → IsSound row (f row)
      → Advance xs (update_where (λ r. str_eq r.id id) f xs)
  by_id-Advance id row xs v e s =
      update-Advance (λ r. str_eq r.id id) f xs v
        (All-map (λ r. str_eq r.id id ≡ true → r ≡ row) (Spares (λ r. str_eq r.id id) f) xs
          (λ r only m. rw (only m) s) (only-item_at id row xs v.keys e))

module _ {xs : List WorkRow} where
  -- reading a row back at the end
  pub read-Advances :
      (o : Option WorkRow) (e : Error) (db : Database)
      → Advance xs db.work_items
      → Advances xs (or_raise o e >>= λ r. ok (db, r))
  read-Advances none e db a = tt
  read-Advances (some r) e db a = a

module _ {ℓ} {A : Type ℓ} (xs : List WorkRow) where
  pub guard-Advances :
      (b : Bool) (e : Error) (m : Result (Database × A))
      → (b ≡ false → Advances xs m)
      → Advances xs (raise_if b e >> m)
  guard-Advances true e m h = tt
  guard-Advances false e m h = h refl

  pub bind-Advances {κ} :
      {B : Type κ} (m : Result B) (k : B → Result (Database × A))
      → ((b : B) → m ≡ ok b → Advances xs (k b))
      → Advances xs (m >>= k)
  bind-Advances (err e) k h = tt
  bind-Advances (ok b) k h = h b refl

  pub if-Advances :
      (b : Bool) (m n : Result (Database × A))
      → (b ≡ true → Advances xs m)
      → (b ≡ false → Advances xs n)
      → Advances xs (if b then m else n)
  if-Advances true m n h k = h refl
  if-Advances false m n h k = k refl

  pub or_raise-Advances {κ} :
      {B : Type κ} (o : Option B) (e : Error) (k : B → Result (Database × A))
      → ((b : B) → o ≡ some b → Advances xs (k b))
      → Advances xs (or_raise o e >>= k)
  or_raise-Advances none e k h = tt
  or_raise-Advances (some b) e k h = h b refl

pub not-archived :
    (s t : WorkState)
    → is_state s t ≡ true
    → is_state t archived ≡ false
    → is_state s archived ≡ false
not-archived s t a b = ground arith

pub &&-left : (a b : Bool) → (a && b) ≡ true → a ≡ true
&&-left a b h = ground arith

pub &&-right : (a b : Bool) → (a && b) ≡ true → b ≡ true
&&-right a b h = ground arith

-- An item that waits has no claim, so a change that leaves the claim columns alone leaves none.
pub idle-IsSound :
    (r y : WorkRow)
    → is_state r.state running ≡ false
    → is_state r.state archived ≡ false
    → y ≡ record r {
      state = y.state;
      retry_after = y.retry_after;
      blocker_code = y.blocker_code;
      blocker_detail = y.blocker_detail;
      specification = y.specification;
      attempts = y.attempts;
      updated_at = y.updated_at;
    }
    → IsSound r y
idle-IsSound r y idle live e = ground arith

pub item_at-id :
    (id : String) (row : WorkRow) (xs : List WorkRow) → item_at id xs ≡ some row → row.id ≡ id
item_at-id id row [] e = cc
item_at-id id row (x ∷ xs) e = ground (arith, item_at-id id row xs, eq_iff x.id id)

-- The row that an UPDATE by id leaves is the changed row.
pub item_at-update :
    (f : WorkRow → WorkRow) (id : String) (row : WorkRow) (xs : List WorkRow)
    → item_at id xs ≡ some row
    → str_eq (f row).id id ≡ true
    → item_at id (update_where (λ x. str_eq x.id id) f xs) ≡ some (f row)
item_at-update f id row [] e k = cc
item_at-update f id row (x ∷ xs) e k = go (str_eq x.id id) refl (item_at-update f id row xs) e
  where
    go :
        (b : Bool)
        → str_eq x.id id ≡ b
        → (item_at id xs ≡ some row
            → str_eq (f row).id id ≡ true
            → item_at id (update_where (λ y. str_eq y.id id) f xs) ≡ some (f row))
        → (if b then some x else item_at id xs) ≡ some row
        → item_at id ((if b then f x else x) ∷ update_where (λ y. str_eq y.id id) f xs)
          ≡ some (f row)
    go true t ih h = let same : x ≡ row = cc in rw same (rw k refl)
    go false t ih h = rw t (ih h k)

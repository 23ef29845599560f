-- ===== src/Queue/Invariant.antt =====
-- What every operation of the queue keeps: the primary key of `work_items`, claims that only running
-- items carry, and the columns of an item that nothing rewrites.
use algorithmic_trading_stra.Base.{
  String, Bool, true, false, none, some, List, [], ◌∷◌, ◌++◌, str_eq, if◌then◌else◌, update_where,
  All, ◌≡◌, refl, arith, eq_iff, Bool-cases, inl, inr, ◌∙◌,
}
use algorithmic_trading_stra.Base.Texts.{text_mem}
use algorithmic_trading_stra.Models.{running, archived, is_state}
use algorithmic_trading_stra.Base.Outcome.{Result, ok, err}
use algorithmic_trading_stra.Queue.Rows.{Database, WorkRow, item_at, ids_of}

-- An item that is not running carries no claim.
abbrev pub IsClaimed : WorkRow → Type 0
IsClaimed r = is_state r.state running ≡ false → (r.claimed_by ≡ none) × (r.claimed_at ≡ none)

-- PRIMARY KEY
abbrev pub Distinct : List String → Type 0
Distinct [] = Unit
Distinct (x ∷ xs) = (text_mem x xs ≡ false) × Distinct xs

pub record IsValid (items : List WorkRow) : Type 0 where
  pub claims : All IsClaimed items
  pub keys : Distinct (ids_of items)

-- What may happen to one item: its registration stays, and once archived it does not change at all.
pub record Legal (x y : WorkRow) : Type 0 where
  pub same_id : y.id ≡ x.id
  pub same_experiment : y.experiment_id ≡ x.experiment_id
  pub same_priority : y.priority ≡ x.priority
  pub same_dependencies : y.dependencies ≡ x.dependencies
  pub same_created : y.created_at ≡ x.created_at
  pub frozen : is_state x.state archived ≡ true → y ≡ x

-- The items of a table, in order, each by a legal change; new ones stand behind them.
abbrev pub Evolves : List WorkRow → List WorkRow → Type 0
Evolves [] ys = Unit
Evolves (x ∷ xs) [] = ⊥
Evolves (x ∷ xs) (y ∷ ys) = Legal x y × Evolves xs ys

-- One operation on a table: it stays valid, and its items change legally.
pub record Advance (xs ys : List WorkRow) : Type 0 where
  pub valid : IsValid ys
  pub evolves : Evolves xs ys

Legal-refl : (x : WorkRow) → Legal x x
Legal-refl x = record {
  same_id = refl;
  same_experiment = refl;
  same_priority = refl;
  same_dependencies = refl;
  same_created = refl;
  frozen = λ _. refl;
}

Legal-trans : {x y z : WorkRow} → Legal x y → Legal y z → Legal x z
Legal-trans {x} {y} {z} p q = record {
  same_id = q.same_id ∙ p.same_id;
  same_experiment = q.same_experiment ∙ p.same_experiment;
  same_priority = q.same_priority ∙ p.same_priority;
  same_dependencies = q.same_dependencies ∙ p.same_dependencies;
  same_created = q.same_created ∙ p.same_created;
  frozen = λ h. q.frozen (rw (p.frozen h) h) ∙ p.frozen h;
}

pub Evolves-refl : (xs : List WorkRow) → Evolves xs xs
Evolves-refl [] = tt
Evolves-refl (x ∷ xs) = (Legal-refl x, Evolves-refl xs)

Evolves-trans : (xs ys zs : List WorkRow) → Evolves xs ys → Evolves ys zs → Evolves xs zs
Evolves-trans [] ys zs p q = tt
Evolves-trans (x ∷ xs) [] zs p q = elim p [ ]
Evolves-trans (x ∷ xs) (y ∷ ys) [] p q = elim q [ ]
Evolves-trans (x ∷ xs) (y ∷ ys) (z ∷ zs) p q = (Legal-trans p.0 q.0, Evolves-trans xs ys zs p.1 q.1)

pub Advance-refl : {xs : List WorkRow} → IsValid xs → Advance xs xs
Advance-refl {xs} v = record { valid = v; evolves = Evolves-refl xs }

pub Advance-trans :
    {xs ys zs : List WorkRow} → Advance xs ys → (IsValid ys → Advance ys zs) → Advance xs zs
Advance-trans {xs} {ys} {zs} p k =
    let q = k p.valid in
    record { valid = q.valid; evolves = Evolves-trans xs ys zs p.evolves q.evolves }

-- An UPDATE that sets no registration column, spares archived rows, and leaves no claim behind.
pub record IsSound (x y : WorkRow) : Type 0 where
  pub same_id : y.id ≡ x.id
  pub same_experiment : y.experiment_id ≡ x.experiment_id
  pub same_priority : y.priority ≡ x.priority
  pub same_dependencies : y.dependencies ≡ x.dependencies
  pub same_created : y.created_at ≡ x.created_at
  pub not_archived : is_state x.state archived ≡ false
  pub claim_kept : IsClaimed x → IsClaimed y

IsSound-Legal : {x y : WorkRow} → IsSound x y → Legal x y
IsSound-Legal {x} {y} s = record {
  same_id = s.same_id;
  same_experiment = s.same_experiment;
  same_priority = s.same_priority;
  same_dependencies = s.same_dependencies;
  same_created = s.same_created;
  frozen = λ h. cc (h, s.not_archived);
}

module _ (p : WorkRow → Bool) (f : WorkRow → WorkRow) where
  abbrev pub Spares : WorkRow → Type 0
  Spares r = p r ≡ true → IsSound r (f r)

  one-Legal :
      (x : WorkRow) (b : Bool) → (b ≡ true → IsSound x (f x)) → Legal x (if b then f x else x)
  one-Legal x true s = IsSound-Legal (s refl)
  one-Legal x false s = Legal-refl x

  one-IsClaimed :
      (x : WorkRow) (b : Bool)
      → (b ≡ true → IsSound x (f x))
      → IsClaimed x
      → IsClaimed (if b then f x else x)
  one-IsClaimed x true s c = (s refl).claim_kept c
  one-IsClaimed x false s c = c

  update-ids : (xs : List WorkRow) → All Spares xs → ids_of (update_where p f xs) ≡ ids_of xs
  update-ids [] s = refl
  update-ids (x ∷ xs) s = cc ((one-Legal x (p x) s.0).same_id, update-ids xs s.1)

  update-claims :
      (xs : List WorkRow) → All Spares xs → All IsClaimed xs → All IsClaimed (update_where p f xs)
  update-claims [] s c = tt
  update-claims (x ∷ xs) s c = (one-IsClaimed x (p x) s.0 c.0, update-claims xs s.1 c.1)

  update-Evolves : (xs : List WorkRow) → All Spares xs → Evolves xs (update_where p f xs)
  update-Evolves [] s = tt
  update-Evolves (x ∷ xs) s = (one-Legal x (p x) s.0, update-Evolves xs s.1)

  pub update-Advance :
      (xs : List WorkRow) → IsValid xs → All Spares xs → Advance xs (update_where p f xs)
  update-Advance xs v s = record {
    valid = record { claims = update-claims xs s v.claims; keys = rw (update-ids xs s) v.keys };
    evolves = update-Evolves xs s;
  }

pub All-every {ℓ κ} : {A : Type ℓ} (P : A → Type κ) (xs : List A) → ((x : A) → P x) → All P xs
All-every P [] h = tt
All-every P (x ∷ xs) h = (h x, All-every P xs h)

pub All-map {ℓ κ ι} :
    {A : Type ℓ} (P : A → Type κ) (Q : A → Type ι) (xs : List A)
    → ((x : A) → P x → Q x)
    → All P xs
    → All Q xs
All-map P Q [] h a = tt
All-map P Q (x ∷ xs) h a = (h x a.0, All-map P Q xs h a.1)

pub absent :
    (k : String) (xs : List WorkRow)
    → text_mem k (ids_of xs) ≡ false
    → All (λ r. str_eq k r.id ≡ false) xs
absent k [] h = tt
absent k (x ∷ xs) h = (ground arith, absent k xs (ground arith))

-- A row that is read by its id is the only one with that id.
pub only-item_at :
    (id : String) (row : WorkRow) (xs : List WorkRow)
    → Distinct (ids_of xs)
    → item_at id xs ≡ some row
    → All (λ r. str_eq r.id id ≡ true → r ≡ row) xs
only-item_at id row [] d e = tt
only-item_at id row (x ∷ xs) d e = elim (Bool-cases (str_eq x.id id)) [
  | inl here ↦ (
    λ _. ground arith,
    All-map (λ r. str_eq x.id r.id ≡ false) (λ r. str_eq r.id id ≡ true → r ≡ row) xs
        (λ r n m. ground (arith, eq_iff x.id id, eq_iff r.id id, eq_iff x.id r.id))
        (absent x.id xs d.0),
  )
  | inr away ↦ (λ m. cc (m, away), only-item_at id row xs d.1 (ground arith))
]

-- What an operation did to the table, where it did not raise.
abbrev pub Advances {ℓ} : {A : Type ℓ} → List WorkRow → Result (Database × A) → Type 0
Advances xs (ok (db, _)) = Advance xs db.work_items
Advances xs (err _) = Unit

pub Evolves-append : (xs ys : List WorkRow) → Evolves xs (xs ++ ys)
Evolves-append [] ys = tt
Evolves-append (x ∷ xs) ys = (Legal-refl x, Evolves-append xs ys)

-- ===== src/Synthesis/Lifecycle.antt =====
-- What every operation on the cohorts of src/ats_lab/database_synthesis.py keeps.
use algorithmic_trading_stra.Base.{
  ◌≤◌, String, Bool, true, false, ◌||◌, List, [], ◌∷◌, ◌++◌, str_eq, count, update_where, All,
  All-zip, ◌≡◌, refl, arith, if◌then◌else◌,
}
use algorithmic_trading_stra.Base.Int.{pos}
use algorithmic_trading_stra.Base.Texts.{text_mem}
use algorithmic_trading_stra.Queue.Invariant.{Distinct}
use algorithmic_trading_stra.Synthesis.Cohorts.{
  CohortStatus, planning, active, drained, failed, is_status, Cohort, Chain, Synthesis, cohort_ids,
  is_planning,
}

abbrev pub of_cohort : String → Chain → Bool
of_cohort id k = str_eq k.cohort_id id

abbrev pub has_no_chains : Cohort → Bool
has_no_chains c = is_planning c || is_status c.status failed

-- A cohort that plans or failed has no chains; one that was activated has as many as were requested.
abbrev pub Filled : List Chain → Cohort → Type 0
Filled chains c =
    (has_no_chains c ≡ true → count (of_cohort c.id) chains ≡ 0)
    × (has_no_chains c ≡ false → pos (count (of_cohort c.id) chains) ≡ c.requested_count)

pub record IsConsistent (s : Synthesis) : Type 0 where
  pub keys : Distinct (cohort_ids s.cohorts)
  pub linked : All (λ (k : Chain). text_mem k.cohort_id (cohort_ids s.cohorts) ≡ true) s.chains
  pub one_plan : count is_planning s.cohorts ≤ 1
  pub chain_counts : All (Filled s.chains) s.cohorts

-- the moves of a status
pub data Move : CohortStatus → CohortStatus → Type 0 where
  begin : Move planning active
  give_up : Move planning failed
  drain : Move active drained

pub data Reaches (s : CohortStatus) : CohortStatus → Type 0 where
  stay : Reaches s s
  then_move : {t u : CohortStatus} → Reaches s t → Move t u → Reaches s u

-- what may happen to a cohort
pub record Course (x y : Cohort) : Type 0 where
  pub same_id : y.id ≡ x.id
  pub same_request : y.requested_count ≡ x.requested_count
  pub same_created : y.created_at ≡ x.created_at
  pub moves : Reaches x.status y.status

-- the cohorts in their order; new ones stand behind them
abbrev pub Courses : List Cohort → List Cohort → Type 0
Courses [] ys = Unit
Courses (x ∷ xs) [] = ⊥
Courses (x ∷ xs) (y ∷ ys) = Course x y × Courses xs ys

Reaches-trans : {a b c : CohortStatus} → Reaches a b → Reaches b c → Reaches a c
Reaches-trans p stay = p
Reaches-trans p (then_move q m) = then_move (Reaches-trans p q) m

Course-refl : (x : Cohort) → Course x x
Course-refl x = record { same_id = refl; same_request = refl; same_created = refl; moves = stay }

pub Courses-refl : (xs : List Cohort) → Courses xs xs
Courses-refl [] = tt
Courses-refl (x ∷ xs) = (Course-refl x, Courses-refl xs)

Course-trans : {x y z : Cohort} → Course x y → Course y z → Course x z
Course-trans {x} {y} {z} p q = record {
  same_id = cc (p.same_id, q.same_id);
  same_request = cc (p.same_request, q.same_request);
  same_created = cc (p.same_created, q.same_created);
  moves = Reaches-trans p.moves q.moves;
}

pub Courses-trans : (xs ys zs : List Cohort) → Courses xs ys → Courses ys zs → Courses xs zs
Courses-trans [] ys zs p q = tt
Courses-trans (x ∷ xs) [] zs p q = elim p [ ]
Courses-trans (x ∷ xs) (y ∷ ys) [] p q = elim q [ ]
Courses-trans (x ∷ xs) (y ∷ ys) (z ∷ zs) p q =
    (Course-trans p.0 q.0, Courses-trans xs ys zs p.1 q.1)

pub Courses-append : (xs ys : List Cohort) → Courses xs (xs ++ ys)
Courses-append [] ys = tt
Courses-append (x ∷ xs) ys = (Course-refl x, Courses-append xs ys)

-- what an UPDATE does to one row
pub record Changes (x y : Cohort) : Type 0 where
  pub same_id : y.id ≡ x.id
  pub same_request : y.requested_count ≡ x.requested_count
  pub same_created : y.created_at ≡ x.created_at
  pub move : Move x.status y.status

not-planning : {s t : CohortStatus} → Move s t → is_status t planning ≡ false
not-planning begin = refl
not-planning give_up = refl
not-planning drain = refl

module _ (p : Cohort → Bool) (f : Cohort → Cohort) where
  abbrev pub Moved : Cohort → Type 0
  Moved x = p x ≡ true → Changes x (f x)

  one-id : (x : Cohort) (b : Bool) → (b ≡ true → Changes x (f x)) → (if b then f x else x).id ≡ x.id
  one-id x true h = (h refl).same_id
  one-id x false h = refl

  one-Course :
      (x : Cohort) (b : Bool) → (b ≡ true → Changes x (f x)) → Course x (if b then f x else x)
  one-Course x true h =
      let c = h refl in
      record {
        same_id = c.same_id;
        same_request = c.same_request;
        same_created = c.same_created;
        moves = then_move stay c.move;
      }
  one-Course x false h = Course-refl x

  one-planning :
      (x : Cohort) (b : Bool)
      → (b ≡ true → Changes x (f x))
      → is_planning (if b then f x else x) ≡ true
      → is_planning x ≡ true
  one-planning x true h e = let n = not-planning (h refl).move in cc
  one-planning x false h e = e

  pub update-ids :
      (xs : List Cohort) → All Moved xs → cohort_ids (update_where p f xs) ≡ cohort_ids xs
  update-ids [] h = refl
  update-ids (x ∷ xs) h = cc (one-id x (p x) h.0, update-ids xs h.1)

  pub update-planning :
      (xs : List Cohort)
      → All Moved xs
      → count is_planning (update_where p f xs) ≤ count is_planning xs
  update-planning [] h = omega arith
  update-planning (x ∷ xs) h = ground (arith, one-planning x (p x) h.0, update-planning xs h.1)

  pub update-Courses : (xs : List Cohort) → All Moved xs → Courses xs (update_where p f xs)
  update-Courses [] h = tt
  update-Courses (x ∷ xs) h = (one-Course x (p x) h.0, update-Courses xs h.1)

  module _ (P Q : Cohort → Type 0) where
    pub All-update :
        (xs : List Cohort)
        → All P xs
        → ((x : Cohort) → p x ≡ true → P x → Q (f x))
        → ((x : Cohort) → p x ≡ false → P x → Q x)
        → All Q (update_where p f xs)
    All-update [] a h k = tt
    All-update (x ∷ xs) a h k = (go (p x) refl, All-update xs a.1 h k)
      where
        go : (b : Bool) → p x ≡ b → Q (if b then f x else x)
        go true e = h x e a.0
        go false e = k x e a.0

-- what one operation does
pub record Kept (s s' : Synthesis) : Type 0 where
  pub consistent : IsConsistent s'
  pub courses : Courses s.cohorts s'.cohorts

module _ (p : Cohort → Bool) (f : Cohort → Cohort) where
  -- An UPDATE of statuses that leaves the chains as they are.
  pub update-Kept :
      (s : Synthesis)
      → IsConsistent s
      → All (Moved p f) s.cohorts
      → ((x : Cohort) → p x ≡ true → has_no_chains (f x) ≡ has_no_chains x)
      → Kept s (record s { cohorts = update_where p f s.cohorts })
  update-Kept s v m h = record {
    consistent = record {
      keys = rw (update-ids p f s.cohorts m) v.keys;
      linked = rw (update-ids p f s.cohorts m) v.linked;
      one_plan = omega (arith, update-planning p f s.cohorts m, v.one_plan);
      chain_counts =
          All-update p f (λ x. Moved p f x × Filled s.chains x) (Filled s.chains) s.cohorts
            (All-zip (Moved p f) (Filled s.chains) s.cohorts m v.chain_counts)
            (λ x e a. let c = a.0 e in rw c.same_id (rw c.same_request (rw (h x e) a.1)))
            (λ x e a. a.1);
    };
    courses = update-Courses p f s.cohorts m;
  }

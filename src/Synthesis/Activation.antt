-- ===== src/Synthesis/Activation.antt =====
-- The activation of a cohort in src/ats_lab/database_synthesis.py, and histories of all operations on cohorts.
use algorithmic_trading_stra.Base.{
  ℕ, ◌+◌, String, Bool, true, false, not, Option, none, some, List, [], ◌∷◌, ◌++◌, str_eq, length,
  count, update_where, All, All-zip, All-append, ◌≡◌, refl, sym, arith, eq_iff, if◌then◌else◌,
}
use algorithmic_trading_stra.Base.Int.{ℤ, pos, eqb_ℤ, negsuc}
use algorithmic_trading_stra.Base.Texts.{text_mem}
use algorithmic_trading_stra.Base.Outcome.{Error, ok, >>=-eq-ok, raise_if-passed, or_raise}
use algorithmic_trading_stra.Queue.Rows.{Database}
use algorithmic_trading_stra.Queue.Invariant.{Distinct, All-map}
use algorithmic_trading_stra.Synthesis.Cohorts.{
  Cohort, Chain, PlannedChain, Synthesis, cohort_ids, is_planning, insert_chains, breaks_key,
  chain_of, has_id, find_cohort, fail_synthesis_cohort, refresh_synthesis_cohorts,
  reserve_synthesis_cohort, activate_synthesis_cohort, activated,
}
use algorithmic_trading_stra.Synthesis.Lifecycle.{
  IsConsistent, Filled, of_cohort, Courses-refl, Courses-trans, Kept, Moved, update-ids,
  update-planning, update-Courses, All-update,
}
use algorithmic_trading_stra.Synthesis.Planning.{
  plan-Move, fail_synthesis_cohort-Kept, refresh_synthesis_cohorts-Kept,
  reserve_synthesis_cohort-Kept,
}

-- the cohort that is read under an id is the only one with it
absent-id :
    (k : String) (xs : List Cohort)
    → text_mem k (cohort_ids xs) ≡ false
    → All (λ (c : Cohort). str_eq k c.id ≡ false) xs
absent-id k [] h = tt
absent-id k (x ∷ xs) h = (ground arith, absent-id k xs (ground arith))

only-found :
    (id : String) (row : Cohort) (xs : List Cohort)
    → Distinct (cohort_ids xs)
    → find_cohort id xs ≡ some row
    → All (λ c. has_id id c ≡ true → c ≡ row) xs
only-found id row [] d e = tt
only-found id row (x ∷ xs) d e = go (str_eq x.id id) refl (only-found id row xs d.1) e
  where
    go :
        (b : Bool)
        → str_eq x.id id ≡ b
        → (find_cohort id xs ≡ some row → All (λ c. has_id id c ≡ true → c ≡ row) xs)
        → (if b then some x else find_cohort id xs) ≡ some row
        → All (λ c. has_id id c ≡ true → c ≡ row) (x ∷ xs)
    go true t rest h = (
      λ _. cc,
      All-map (λ (c : Cohort). str_eq x.id c.id ≡ false)
          (λ (c : Cohort). has_id id c ≡ true → c ≡ row) xs
          (λ c n m. ground (arith, eq_iff x.id id, eq_iff c.id id, eq_iff x.id c.id))
          (absent-id x.id xs d.0),
    )
    go false t rest h = (λ m. cc, rest h)

found-id :
    (id : String) (row : Cohort) (xs : List Cohort)
    → find_cohort id xs ≡ some row
    → text_mem id (cohort_ids xs) ≡ true
found-id id row [] e = cc
found-id id row (x ∷ xs) e = ground (arith, found-id id row xs, eq_iff x.id id, eq_iff id x.id)

count-snoc :
    (q : Chain → Bool) (ks : List Chain) (k : Chain)
    → count q (ks ++ k ∷ []) ≡ count q ks + (if q k then 1 else 0)
count-snoc q [] k = omega arith
count-snoc q (x ∷ ks) k = omega (arith, count-snoc q ks k)

-- the inserted chains are the cohort's, as many as were given
insert_chains-count :
    (id : String) (ps : List PlannedChain) (ks ks' : List Chain) (j : String)
    → insert_chains id ps ks ≡ ok ks'
    → count (of_cohort j) ks' ≡ count (of_cohort j) ks + (if str_eq id j then length ps else 0)
unfolding insert_chains
insert_chains-count id [] ks ks' j e = let same : ks' ≡ ks = cc in rw same (ground arith)
insert_chains-count id (p ∷ ps) ks ks' j e =
    let (t, h) = raise_if-passed (breaks_key id p ks) _ _ e in
    let rest = insert_chains-count id ps (ks ++ chain_of id p ∷ []) ks' j h in
    ground (arith, rest, count-snoc (of_cohort j) ks (chain_of id p))

insert_chains-linked :
    (id : String) (ids : List String) (ps : List PlannedChain) (ks ks' : List Chain)
    → text_mem id ids ≡ true
    → All (λ (k : Chain). text_mem k.cohort_id ids ≡ true) ks
    → insert_chains id ps ks ≡ ok ks'
    → All (λ (k : Chain). text_mem k.cohort_id ids ≡ true) ks'
unfolding insert_chains
insert_chains-linked id ids [] ks ks' m a e = let same : ks' ≡ ks = cc in rw same a
insert_chains-linked id ids (p ∷ ps) ks ks' m a e =
    let (t, h) = raise_if-passed (breaks_key id p ks) _ _ e in
    insert_chains-linked id ids ps (ks ++ chain_of id p ∷ []) ks' m
      (All-append _ ks (chain_of id p ∷ []) a (m, tt)) h

-- An activation that succeeds gives a planning cohort as many chains as it requested.
pub record Activation (id : String) (chains : List PlannedChain) (now : String) (s s' : Synthesis)
    : Type 0 where
  pub row : Cohort
  pub found : find_cohort id s.cohorts ≡ some row
  pub was_planning : is_planning row ≡ true
  pub counted : eqb_ℤ (pos (length chains)) row.requested_count ≡ true
  pub new_chains : insert_chains id chains s.chains ≡ ok s'.chains
  pub cohorts : s'.cohorts ≡ update_where (has_id id) (activated (length chains) now) s.cohorts

activate-inv :
    (id : String) (chains : List PlannedChain) (now : String) (s s' : Synthesis)
    → activate_synthesis_cohort id chains now s ≡ ok s'
    → Activation id chains now s s'
unfolding activate_synthesis_cohort
activate-inv id chains now s s' e =
    let (row, f, e₁) = >>=-eq-ok (or_raise (find_cohort id s.cohorts) _) _ e in
    let (p, e₂) = raise_if-passed (not (is_planning row)) _ _ e₁ in
    let (n, e₃) = raise_if-passed (not (eqb_ℤ (pos (length chains)) row.requested_count)) _ _ e₂ in
    let (ks, i, e₄) = >>=-eq-ok (insert_chains id chains s.chains) _ e₃ in
    record {
      row = row;
      found = found (find_cohort id s.cohorts) _ f;
      was_planning = ground arith;
      counted = ground arith;
      new_chains = cc;
      cohorts = cc;
    }
  where
    found :
        (o : Option Cohort) (raised : Error) {row : Cohort}
        → or_raise o raised ≡ ok row
        → o ≡ some row
    found none raised h = cc
    found (some c) raised h = cc

eqb_ℤ-eq : (n : ℕ) (z : ℤ) → eqb_ℤ (pos n) z ≡ true → pos n ≡ z
eqb_ℤ-eq n (pos m) h = ground arith
eqb_ℤ-eq n (negsuc m) h = ground arith

activate-Moved :
    (id : String) (chains : List PlannedChain) (now : String) (s s' : Synthesis)
    → IsConsistent s
    → Activation id chains now s s'
    → All (Moved (has_id id) (activated (length chains) now)) s.cohorts
activate-Moved id chains now s s' v a =
    All-map _ (Moved (has_id id) (activated (length chains) now)) s.cohorts
      (λ x only h. record {
        same_id = refl;
        same_request = refl;
        same_created = refl;
        move = plan-Move x (rw (only h) a.was_planning);
      })
      (only-found id a.row s.cohorts v.keys a.found)

activate-Kept :
    (id : String) (chains : List PlannedChain) (now : String) (s s' : Synthesis)
    → IsConsistent s
    → activate_synthesis_cohort id chains now s ≡ ok s'
    → Kept s s'
activate-Kept id chains now s s' v e =
    let a = activate-inv id chains now s s' e in
    let m = activate-Moved id chains now s s' v a in
    let p = has_id id in
    let f = activated (length chains) now in
    record {
      consistent = record {
        keys = rw a.cohorts (rw (update-ids p f s.cohorts m) v.keys);
        linked = rw a.cohorts (
            rw (update-ids p f s.cohorts m) (
              insert_chains-linked id (cohort_ids s.cohorts) chains s.chains s'.chains
                (found-id id a.row s.cohorts a.found) v.linked a.new_chains));
        one_plan = rw a.cohorts (omega (arith, update-planning p f s.cohorts m, v.one_plan));
        chain_counts = rw a.cohorts (
            All-update p f (λ x. (has_id id x ≡ true → x ≡ a.row) × Filled s.chains x)
              (Filled s'.chains) s.cohorts
              (All-zip _ (Filled s.chains) s.cohorts (only-found id a.row s.cohorts v.keys a.found)
                v.chain_counts)
              (λ x h b. here x h (b.0 h) b.1) (λ x h b. away x h b.1));
      };
      courses = rw a.cohorts (update-Courses p f s.cohorts m);
    }
  where
    here :
        (x : Cohort)
        → has_id id x ≡ true
        → x ≡ (activate-inv id chains now s s' e).row
        → Filled s.chains x
        → Filled s'.chains (activated (length chains) now x)
    here x h same b =
        let a = activate-inv id chains now s s' e in
        let none_before : count (of_cohort x.id) s.chains ≡ 0 =
          b.0 (rw same (ground (arith, a.was_planning))) in
        let n = insert_chains-count id chains s.chains s'.chains x.id a.new_chains in
        let all_new : count (of_cohort x.id) s'.chains ≡ length chains =
          ground (arith, n, none_before, eq_iff x.id id, eq_iff id x.id) in
        (
          λ f. cc,
          λ _. rw all_new (rw same (eqb_ℤ-eq (length chains) a.row.requested_count a.counted)),
        )

    away : (x : Cohort) → has_id id x ≡ false → Filled s.chains x → Filled s'.chains x
    away x h b =
        let n =
          insert_chains-count id chains s.chains s'.chains x.id
            (activate-inv id chains now s s' e).new_chains in
        let same : count (of_cohort x.id) s'.chains ≡ count (of_cohort x.id) s.chains =
          ground (arith, n, eq_iff x.id id, eq_iff id x.id) in
        rw same b

-- one call, at any time and on any table of work, that does not raise
pub data Step : Synthesis → Synthesis → Type 0 where
  reserve :
      {s s' : Synthesis} (worker : String) (requested low : ℤ) (lease cooldown id now : String)
      (db : Database) (r : Option Cohort)
      → reserve_synthesis_cohort worker requested low lease cooldown id now db s ≡ ok (s', r)
      → Step s s'
  activate :
      {s s' : Synthesis} (id : String) (chains : List PlannedChain) (now : String)
      → activate_synthesis_cohort id chains now s ≡ ok s'
      → Step s s'
  fail :
      {s s' : Synthesis} (id detail now : String)
      → fail_synthesis_cohort id detail now s ≡ s'
      → Step s s'
  refresh :
      {s s' : Synthesis} (now : String) (db : Database)
      → (refresh_synthesis_cohorts now db s).0 ≡ s'
      → Step s s'

pub data Steps (s : Synthesis) : Synthesis → Type 0 where
  none_yet : Steps s s
  and_then : {t u : Synthesis} → Steps s t → Step t u → Steps s u

Step-Kept : {s s' : Synthesis} → Step s s' → IsConsistent s → Kept s s'
Step-Kept {s} {s'} (reserve worker requested low lease cooldown id now db r e) v =
    reserve_synthesis_cohort-Kept worker requested low lease cooldown id now db s s' r v e
Step-Kept {s} {s'} (activate id chains now e) v = activate-Kept id chains now s s' v e
Step-Kept {s} {s'} (fail id detail now e) v =
    rw (sym e) (fail_synthesis_cohort-Kept id detail now s v)
Step-Kept {s} {s'} (refresh now db e) v = rw (sym e) (refresh_synthesis_cohorts-Kept now db s v)

-- Through any history of reservations, activations, failures and refreshes, a consistent state stays
-- consistent: at most one cohort plans, a cohort that plans or failed has no chains, and one that was
-- activated has exactly as many as it requested. Every cohort keeps its place, id and request, and its
-- status moves only from planning to active or failed, and from active to drained.
pub Steps-Kept : {s s' : Synthesis} → Steps s s' → IsConsistent s → Kept s s'
Steps-Kept {s} none_yet v = record { consistent = v; courses = Courses-refl s.cohorts }
Steps-Kept {s} (and_then {t} {u} history step) v =
    let p = Steps-Kept history v in
    let q = Step-Kept step p.consistent in
    record {
      consistent = q.consistent;
      courses = Courses-trans s.cohorts t.cohorts u.cohorts p.courses q.courses;
    }

-- ===== src/Synthesis/Planning.antt =====
-- The operations of src/ats_lab/database_synthesis.py on cohorts keep them consistent, through any history.
use algorithmic_trading_stra.Base.{
  ◌+◌, String, Bool, true, false, ◌||◌, Option, none, List, [], ◌∷◌, ◌++◌, str_eq, count, any, All,
  All-append, ◌≡◌, ◌∙◌, refl, arith, eq_iff, if◌then◌else◌,
}
use algorithmic_trading_stra.Base.Int.{ℤ}
use algorithmic_trading_stra.Base.Texts.{text_mem}
use algorithmic_trading_stra.Base.Outcome.{Result, ok, raise_if-passed}
use algorithmic_trading_stra.Queue.Rows.{Database}
use algorithmic_trading_stra.Queue.Invariant.{Distinct, All-map, All-every}
use algorithmic_trading_stra.Synthesis.Cohorts
use algorithmic_trading_stra.Synthesis.Cohorts.{
  Cohort, Chain, PlannedChain, Synthesis, cohort_ids, is_planning, insert_chains, breaks_key,
  chain_of, has_id, find_cohort, expire, lapsed, is_expired, fail_synthesis_cohort, abandoned,
  refresh_synthesis_cohorts, is_drained, emptied, reserve_synthesis_cohort, may_plan, planned,
  insert_cohort, activate_synthesis_cohort, activated, remaining_chain_count,
}
use algorithmic_trading_stra.Synthesis.Lifecycle.{
  IsConsistent, Filled, of_cohort, Courses-append, Courses-trans, Kept, begin, give_up, drain,
  update-Kept, Move,
}

-- a row with this status takes this step
planning-Move : (c : Cohort) → is_planning c ≡ true → Move c.status Cohorts.failed
planning-Move c h = go c.status h
  where
    go :
        (s : Cohorts.CohortStatus)
        → Cohorts.is_status s Cohorts.planning ≡ true
        → Move s Cohorts.failed
    go Cohorts.planning h = give_up
    go Cohorts.active h = cc
    go Cohorts.drained h = cc
    go Cohorts.failed h = cc

active-Move :
    (c : Cohort) → Cohorts.is_status c.status Cohorts.active ≡ true → Move c.status Cohorts.drained
active-Move c h = go c.status h
  where
    go :
        (s : Cohorts.CohortStatus)
        → Cohorts.is_status s Cohorts.active ≡ true
        → Move s Cohorts.drained
    go Cohorts.active h = drain
    go Cohorts.planning h = cc
    go Cohorts.drained h = cc
    go Cohorts.failed h = cc

pub plan-Move : (c : Cohort) → is_planning c ≡ true → Move c.status Cohorts.active
plan-Move c h = go c.status h
  where
    go :
        (s : Cohorts.CohortStatus)
        → Cohorts.is_status s Cohorts.planning ≡ true
        → Move s Cohorts.active
    go Cohorts.planning h = begin
    go Cohorts.active h = cc
    go Cohorts.drained h = cc
    go Cohorts.failed h = cc

expire-Kept : (now : String) (s : Synthesis) → IsConsistent s → Kept s (expire now s)
expire-Kept now s v =
    update-Kept (is_expired now) (lapsed now) s v
      (All-every _ s.cohorts (λ x h. record {
        same_id = refl;
        same_request = refl;
        same_created = refl;
        move = planning-Move x (ground arith);
      }))
      (λ x h. ground arith)

pub fail_synthesis_cohort-Kept :
    (id detail now : String) (s : Synthesis)
    → IsConsistent s
    → Kept s (fail_synthesis_cohort id detail now s)
unfolding fail_synthesis_cohort
fail_synthesis_cohort-Kept id detail now s v =
    update-Kept _ (abandoned detail now) s v
      (All-every _ s.cohorts (λ x h. record {
        same_id = refl;
        same_request = refl;
        same_created = refl;
        move = planning-Move x (ground arith);
      }))
      (λ x h. ground arith)

pub refresh_synthesis_cohorts-Kept :
    (now : String) (db : Database) (s : Synthesis)
    → IsConsistent s
    → Kept s (refresh_synthesis_cohorts now db s).0
unfolding refresh_synthesis_cohorts is_drained
refresh_synthesis_cohorts-Kept now db s v =
    update-Kept _ (emptied now) s v
      (All-every _ s.cohorts (λ x h. record {
        same_id = refl;
        same_request = refl;
        same_created = refl;
        move = active-Move x (ground arith);
      }))
      (λ x h. ground arith)

-- Appending a new id keeps a key.
ids-append : (xs ys : List Cohort) → cohort_ids (xs ++ ys) ≡ cohort_ids xs ++ cohort_ids ys
ids-append [] ys = refl
ids-append (x ∷ xs) ys = cc (ids-append xs ys)

text_mem-snoc :
    (x k : String) (xs : List String) → text_mem x (xs ++ k ∷ []) ≡ (text_mem x xs || str_eq x k)
text_mem-snoc x k [] = ground arith
text_mem-snoc x k (y ∷ ys) = ground (arith, text_mem-snoc x k ys)

Distinct-snoc :
    (k : String) (xs : List String) → Distinct xs → text_mem k xs ≡ false → Distinct (xs ++ k ∷ [])
Distinct-snoc k [] d n = (refl, tt)
Distinct-snoc k (x ∷ xs) d n = (
  text_mem-snoc x k xs ∙ ground (arith, d.0, eq_iff x k, eq_iff k x),
  Distinct-snoc k xs d.1 (ground arith),
)

count-snoc :
    (q : Cohort → Bool) (xs : List Cohort) (c : Cohort)
    → count q (xs ++ c ∷ []) ≡ count q xs + (if q c then 1 else 0)
count-snoc q [] c = omega arith
count-snoc q (x ∷ xs) c = omega (arith, count-snoc q xs c)

-- no chain is linked to an id that no cohort has
unlinked :
    (id : String) (ids : List String) (ks : List Chain)
    → text_mem id ids ≡ false
    → All (λ (k : Chain). text_mem k.cohort_id ids ≡ true) ks
    → count (of_cohort id) ks ≡ 0
unlinked id ids [] n a = refl
unlinked id ids (k ∷ ks) n a =
    let rest = unlinked id ids ks n a.1 in ground (arith, a.0, eq_iff k.cohort_id id)

none-count : (xs : List Cohort) → any is_planning xs ≡ false → count is_planning xs ≡ 0
none-count [] h = refl
none-count (x ∷ xs) h = ground (arith, none-count xs)

abbrev added : Cohort → Synthesis → Synthesis
added c s = record s { cohorts = s.cohorts ++ c ∷ [] }

abbrev unchanged : Synthesis → Result (Synthesis × Option Cohort)
unchanged s = ok (s, none)

added-Kept :
    (c : Cohort) (s : Synthesis)
    → IsConsistent s
    → is_planning c ≡ true
    → any is_planning s.cohorts ≡ false
    → text_mem c.id (cohort_ids s.cohorts) ≡ false
    → Kept s (added c s)
added-Kept c s v p none_planning new = record {
  consistent = record {
    keys =
        rw (ids-append s.cohorts (c ∷ [])) (Distinct-snoc c.id (cohort_ids s.cohorts) v.keys new);
    linked = rw (ids-append s.cohorts (c ∷ [])) (
        All-map _ _ s.chains
          (λ k h. text_mem-snoc k.cohort_id c.id (cohort_ids s.cohorts) ∙ ground (arith, h))
          v.linked);
    one_plan =
        ground (arith, count-snoc is_planning s.cohorts c, none-count s.cohorts none_planning);
    chain_counts =
        All-append (Filled s.chains) s.cohorts (c ∷ []) v.chain_counts (
          (λ _. unlinked c.id (cohort_ids s.cohorts) s.chains new v.linked, λ h. ground arith),
          tt,
        );
  };
  courses = Courses-append s.cohorts (c ∷ []);
}

insert_cohort-Kept :
    (c : Cohort) (s s' : Synthesis) (r : Option Cohort)
    → IsConsistent s
    → is_planning c ≡ true
    → any is_planning s.cohorts ≡ false
    → insert_cohort c s ≡ ok (s', r)
    → Kept s s'
insert_cohort-Kept c s s' r v p none_planning e =
    let (t, h) = raise_if-passed (text_mem c.id (cohort_ids s.cohorts)) _ _ e in
    let same : s' ≡ added c s = cc in rw same (added-Kept c s v p none_planning t)

-- Nothing new: a plan that may not begin leaves what the expiry left.
pub reserve_synthesis_cohort-Kept :
    (worker : String) (requested low : ℤ) (lease cooldown id now : String) (db : Database)
    (s s' : Synthesis) (r : Option Cohort)
    → IsConsistent s
    → reserve_synthesis_cohort worker requested low lease cooldown id now db s ≡ ok (s', r)
    → Kept s s'
unfolding reserve_synthesis_cohort may_plan
reserve_synthesis_cohort-Kept worker requested low lease cooldown id now db s s' r v e =
    go (may_plan low cooldown (remaining_chain_count db (expire now s)) (expire now s)) refl e
  where
    x : Kept s (expire now s)
    x = expire-Kept now s v

    go :
        (b : Bool)
        → may_plan low cooldown (remaining_chain_count db (expire now s)) (expire now s) ≡ b
        → (if b
            then insert_cohort
                (planned id requested (remaining_chain_count db (expire now s)) worker lease now)
                (expire now s)
            else unchanged (expire now s))
          ≡ ok (s', r)
        → Kept s s'
    go true t h =
        let k =
          insert_cohort-Kept
            (planned id requested (remaining_chain_count db (expire now s)) worker lease now)
            (expire now s) s' r x.consistent refl (ground arith) h in
        record { consistent = k.consistent; courses = Courses-trans _ _ _ x.courses k.courses }
    go false t h = let same : s' ≡ expire now s = cc in rw same x

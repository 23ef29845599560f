-- ===== src/Synthesis/Cohorts.antt =====
-- The synthesis cohorts of src/ats_lab/database_synthesis.py: the lease of the planner, the activation of a
-- plan, its failure, and the cohorts that are drained.
use algorithmic_trading_stra.Base.{
  ℕ, suc, ◌+◌, String, Bool, false, not, ◌&&◌, ◌||◌, Option, none, some, List, [], ◌∷◌, ◌++◌,
  str_eq, length, count, any, select, update_where, leb, ◌==◌, some_or, if◌then◌else◌,
}
use algorithmic_trading_stra.Base.Int.{ℤ, pos, negsuc, ltb_ℤ, eqb_ℤ}
use algorithmic_trading_stra.Base.Texts.{◌<>◌, text_le, text_lt, text_mem, decimal}
use algorithmic_trading_stra.Base.Outcome.{
  Error, Result, ok, value_error, integrity_error, ◌>>=◌, ◌>>◌, raise_if, or_raise,
}
use algorithmic_trading_stra.Models.{scheduled, ready, running, waiting_retry, is_state}
use algorithmic_trading_stra.Queue.Rows.{WorkRow, Database, requirements_met}

pub data CohortStatus : Type 0 where
  planning active drained failed : CohortStatus

abbrev pub status_index : CohortStatus → ℕ
status_index planning = 0
status_index active = 1
status_index drained = 2
status_index failed = 3

abbrev pub is_status : CohortStatus → CohortStatus → Bool
is_status s t = status_index s == status_index t

-- a row of `synthesis_cohorts`
pub record Cohort : Type 0 where
  pub id : String
  pub status : CohortStatus
  pub requested_count : ℤ
  pub generated_count : ℕ
  pub remaining_at_trigger : ℕ
  pub planned_by : String
  pub lease_expires_at : Option String
  pub failure_detail : Option String
  pub created_at : String
  pub updated_at : String

-- a row of `synthesis_cohort_chains`
pub record Chain : Type 0 where
  pub cohort_id : String
  pub slot : ℕ
  pub lane : String
  pub source_experiment_id : Option String
  pub work_item_ids : List String

-- one of the `chains` that a plan gives
pub record PlannedChain : Type 0 where
  pub slot : ℕ
  pub lane : String
  pub source_experiment_id : Option String
  pub work_item_ids : List String

pub record Synthesis : Type 0 where
  pub cohorts : List Cohort
  pub chains : List Chain

abbrev pub cohort_ids : List Cohort → List String
cohort_ids [] = []
cohort_ids (c ∷ cs) = c.id ∷ cohort_ids cs

-- `state IN ('scheduled','ready','running','waiting_retry')`
unfoldable pub is_unresolved : WorkRow → Bool
is_unresolved w =
    is_state w.state scheduled
    || is_state w.state ready
    || is_state w.state running
    || is_state w.state waiting_retry

-- `EXISTS (SELECT 1 FROM json_each(work_item_ids_json) JOIN work_items w … WHERE test)`
unfoldable pub has_member : (WorkRow → Bool) → List WorkRow → Chain → Bool
has_member test items chain =
    any (λ id. any (λ (w : WorkRow). str_eq w.id id && test w) items) chain.work_item_ids

abbrev pub counts_as_open : WorkRow → Bool
counts_as_open w = is_unresolved w && requirements_met w

abbrev pub is_tracked : List Chain → WorkRow → Bool
is_tracked chains w = any (λ (c : Chain). text_mem w.id c.work_item_ids) chains

-- `COUNT(DISTINCT experiment_id)`
unfoldable pub count_experiments : List WorkRow → ℕ
count_experiments [] = 0
count_experiments (w ∷ ws) =
    (if any (λ (x : WorkRow). str_eq x.experiment_id w.experiment_id) ws then 0 else 1)
    + count_experiments ws

unfoldable pub remaining_chain_count : Database → Synthesis → ℕ
remaining_chain_count db s =
    count (has_member counts_as_open db.work_items) s.chains
    + count_experiments
        (select (λ w. counts_as_open w && not (is_tracked s.chains w)) db.work_items)

abbrev pub is_planning : Cohort → Bool
is_planning c = is_status c.status planning

-- `status='planning' AND lease_expires_at<=?`
abbrev pub is_expired : String → Cohort → Bool
is_expired now c =
    is_planning c && elim c.lease_expires_at [ none ↦ false | some t ↦ text_le t now ]

abbrev pub lapsed : String → Cohort → Cohort
lapsed now c = record c {
  status = failed;
  failure_detail = some (some_or c.failure_detail "planner lease expired");
  updated_at = now;
}

abbrev pub expire : String → Synthesis → Synthesis
expire now s = record s { cohorts = update_where (is_expired now) (lapsed now) s.cohorts }

-- `status='failed' AND updated_at>?`
abbrev pub failed_after : String → Cohort → Bool
failed_after start c = is_status c.status failed && text_lt start c.updated_at

-- the conditions under which a plan may begin, once expired leases have lapsed
unfoldable pub may_plan : ℤ → String → ℕ → Synthesis → Bool
may_plan low_watermark cooldown_start remaining s =
    let failures = count (failed_after cooldown_start) s.cohorts in
    not (any is_planning s.cohorts)
    && not (ltb_ℤ low_watermark (pos remaining))
    && not (leb 2 failures || not (failures == 0) && remaining == 0)

abbrev pub planned : String → ℤ → ℕ → String → String → String → Cohort
planned id requested_count remaining worker lease_expires now = record {
  id = id;
  status = planning;
  requested_count = requested_count;
  generated_count = 0;
  remaining_at_trigger = remaining;
  planned_by = worker;
  lease_expires_at = some lease_expires;
  failure_detail = none;
  created_at = now;
  updated_at = now;
}

-- `INSERT INTO synthesis_cohorts`
abbrev pub insert_cohort : Cohort → Synthesis → Result (Synthesis × Option Cohort)
insert_cohort c s =
    raise_if (text_mem c.id (cohort_ids s.cohorts)) integrity_error
    >> ok (record s { cohorts = s.cohorts ++ c ∷ [] }, some c)

-- The id is generated, and the times of the lease and the cooldown are computed from `now`. What is
-- returned is the row, of which the code returns four columns.
unfoldable pub reserve_synthesis_cohort :
    String
    → ℤ
    → ℤ
    → String
    → String
    → String
    → String
    → Database
    → Synthesis
    → Result (Synthesis × Option Cohort)
reserve_synthesis_cohort worker requested_count low_watermark lease_expires cooldown_start id now db
      s =
    let s' = expire now s in
    let remaining = remaining_chain_count db s' in
    if may_plan low_watermark cooldown_start remaining s'
    then insert_cohort (planned id requested_count remaining worker lease_expires now) s'
    else ok (s', none)

-- PRIMARY KEY (cohort_id, slot), and the CHECK on the lane
abbrev pub breaks_key : String → PlannedChain → List Chain → Bool
breaks_key cohort_id chain chains =
    any (λ (c : Chain). str_eq c.cohort_id cohort_id && c.slot == chain.slot) chains
    || not (str_eq chain.lane "new_concept" || str_eq chain.lane "improvement")

abbrev pub chain_of : String → PlannedChain → Chain
chain_of cohort_id chain = record {
  cohort_id = cohort_id;
  slot = chain.slot;
  lane = chain.lane;
  source_experiment_id = chain.source_experiment_id;
  work_item_ids = chain.work_item_ids;
}

unfoldable pub insert_chains : String → List PlannedChain → List Chain → Result (List Chain)
insert_chains cohort_id [] chains = ok chains
insert_chains cohort_id (p ∷ ps) chains =
    raise_if (breaks_key cohort_id p chains) integrity_error
    >> insert_chains cohort_id ps (chains ++ chain_of cohort_id p ∷ [])

abbrev pub has_id : String → Cohort → Bool
has_id id c = str_eq c.id id

abbrev pub find_cohort : String → List Cohort → Option Cohort
find_cohort id [] = none
find_cohort id (c ∷ cs) = let rest = find_cohort id cs in if has_id id c then some c else rest

abbrev pub activated : ℕ → String → Cohort → Cohort
activated generated now c = record c {
  status = active;
  generated_count = generated;
  lease_expires_at = none;
  updated_at = now;
}

abbrev signed : ℤ → String
signed (pos n) = decimal n
signed (negsuc n) = "-" <> decimal (suc n)

abbrev pub wrong_count : String → ℤ → ℕ → Error
wrong_count id requested given =
    value_error
      ("cohort " <> id <> " requires " <> signed requested <> " chains, got " <> decimal given)

unfoldable pub activate_synthesis_cohort :
    String → List PlannedChain → String → Synthesis → Result Synthesis
activate_synthesis_cohort id chains now s = do
  row ← or_raise (find_cohort id s.cohorts) (value_error ("cohort is not planning: " <> id))
  raise_if (not (is_planning row)) (value_error ("cohort is not planning: " <> id))
  raise_if (not (eqb_ℤ (pos (length chains)) row.requested_count))
      (wrong_count id row.requested_count (length chains))
  inserted ← insert_chains id chains s.chains
  ok (record {
    cohorts = update_where (has_id id) (activated (length chains) now) s.cohorts;
    chains = inserted;
  })

abbrev pub abandoned : String → String → Cohort → Cohort
abandoned detail now c = record c {
  status = failed;
  failure_detail = some detail;
  lease_expires_at = none;
  updated_at = now;
}

unfoldable pub fail_synthesis_cohort : String → String → String → Synthesis → Synthesis
fail_synthesis_cohort id detail now s = record s {
  cohorts = update_where (λ c. has_id id c && is_planning c) (abandoned detail now) s.cohorts;
}

-- `status='active' AND NOT EXISTS (… a chain of the cohort with an unresolved item …)`
unfoldable pub is_drained : List WorkRow → List Chain → Cohort → Bool
is_drained items chains c =
    is_status c.status active
    && not (any (λ (k : Chain). str_eq k.cohort_id c.id && has_member is_unresolved items k) chains)

abbrev pub emptied : String → Cohort → Cohort
emptied now c = record c { status = drained; updated_at = now }

unfoldable pub refresh_synthesis_cohorts : String → Database → Synthesis → Synthesis × ℕ
refresh_synthesis_cohorts now db s =
    let p = is_drained db.work_items s.chains in
    (record s { cohorts = update_where p (emptied now) s.cohorts }, count p s.cohorts)

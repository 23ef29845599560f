-- ===== src/Recovery.antt =====
-- `TerminalFailureRecovery`, `ExecutionFailureRecorder` and `retry_limit_disposition` of
-- src/ats_lab/execution_disposition.py, on the queue. The digest that names a failure run is a parameter.
pub mod Recovered
mod Samples
use algorithmic_trading_stra.Base.{
  ℕ, zero, suc, String, Bool, true, false, ◌&&◌, Option, none, some, List, [], ◌∷◌, str_eq, find,
  select, order_by, take, some_or, if◌then◌else◌,
}
use Prim.Native.Char.{Char}
use Prim.Native.String
use algorithmic_trading_stra.Base.Int.{ℤ, pos, negsuc}
use algorithmic_trading_stra.Base.Json.{Json.obj, end}
use algorithmic_trading_stra.Base.Texts.{◌<>◌, is_space, text_mem}
use algorithmic_trading_stra.Base.Outcome.{Result, ok, ◌>>=◌}
use algorithmic_trading_stra.Models.{blocked, is_state}
use algorithmic_trading_stra.Queue.Rows.{WorkRow, Run, Checkpoint, Database, queue_order, ids_of}
use algorithmic_trading_stra.Queue.Routes.{session_of}
use algorithmic_trading_stra.Queue.Finish.{add_failure_run_awaiting_evaluation}

-- the code and the detail; route and kind are those of an analysed failure of a strategy
pub record ExecutionDisposition : Type 0 where
  pub code : String
  pub detail : String

-- `text[:n]`
abbrev pub cut : ℕ → String → String
cut zero s = ""
cut (suc n) String.[] = ""
cut (suc n) (String.◌∷◌ c s) = String.◌∷◌ c (cut n s)

-- `" ".join(text.split())`, by whether a word was met and whether a space waits
squeeze_from : Bool → Bool → String → String
squeeze_from met waits String.[] = ""
squeeze_from met waits (String.◌∷◌ c s) =
    let skipped = squeeze_from met true s in
    let word = String.◌∷◌ c (squeeze_from true false s) in
    if is_space c then skipped else if met && waits then " " <> word else word

unfoldable pub squeeze : String → String
unfolding squeeze_from
squeeze = squeeze_from false false

starts_with : String → String → Option String
starts_with String.[] s = some s
starts_with (String.◌∷◌ p ps) String.[] = none
starts_with (String.◌∷◌ p ps) (String.◌∷◌ c s) =
    let rest = starts_with ps s in
    if str_eq (String.◌∷◌ p String.[]) (String.◌∷◌ c String.[]) then rest else none

abbrev split_at : Char → Option String → Option (String × String) → Option (String × String)
split_at c (some tail) rest = some ("", tail)
split_at c none none = none
split_at c none (some (head, tail)) = some (String.◌∷◌ c head, tail)

-- `text.partition(sep)`, where the separator is there
unfoldable pub partition : String → String → Option (String × String)
unfolding starts_with
partition sep String.[] = none
partition sep (String.◌∷◌ c s) =
    let rest = partition sep s in split_at c (starts_with sep (String.◌∷◌ c s)) rest

-- `a or b`
abbrev pub or_text : String → String → String
or_text a b = if str_eq a "" then b else a

abbrev tail_of : Option (String × String) → String
tail_of none = ""
tail_of (some (_, tail)) = tail

abbrev legacy : String → String → String → ExecutionDisposition
legacy raw code detail = record {
  code = cut 96 (or_text code "retry_exhausted_execution");
  detail = cut 1000 (or_text detail (or_text raw "legacy execution retry exhausted"));
}

abbrev limit_disposition : String → Option (String × String) → ExecutionDisposition
limit_disposition raw none = legacy raw raw raw
limit_disposition raw (some (code, remainder)) =
    legacy raw code (tail_of (partition ": " remainder))

unfoldable pub retry_limit_disposition : WorkRow → ExecutionDisposition
unfolding squeeze partition
retry_limit_disposition row =
    let raw = squeeze (some_or row.blocker_detail "") in
    limit_disposition raw (partition " after " raw)

abbrev pub legacy_analyzable_blockers : List String
legacy_analyzable_blockers =
    "retry_limit_reached" ∷ "multi_session_evidence_contract" ∷ "missing_exit_framework"
    ∷ "source_strategy_not_found" ∷ []

abbrev has_legacy_code : Option String → Bool
has_legacy_code none = false
has_legacy_code (some code) = text_mem code legacy_analyzable_blockers

-- `state='blocked' AND blocker_code IN (…)`
unfoldable pub is_recoverable : WorkRow → Bool
is_recoverable r = is_state r.state blocked && has_legacy_code r.blocker_code

unfoldable pub disposition_of : WorkRow → ExecutionDisposition
unfolding retry_limit_disposition squeeze
disposition_of row =
    let code = some_or row.blocker_code "" in
    if str_eq code "retry_limit_reached"
    then retry_limit_disposition row
    else record { code = code; detail = cut 1000 (squeeze (some_or row.blocker_detail "")) }

-- `LIMIT ?`, which a negative number lifts
abbrev pub limited {ℓ} : {A : Type ℓ} → ℤ → List A → List A
limited (pos n) rows = take n rows
limited (negsuc _) rows = rows

abbrev session_text : Option Checkpoint → Option String
session_text none = none
session_text (some c) = some c.session_id

-- `digest` gives the suffix of a run's id from the item, the session, the code and the detail.
module _ (refresh_run_evidence : String → Database → Result (Unit {0}))
    (digest : String → Option String → String → String → String) (worker : String) where
  abbrev pub failure_run : WorkRow → ExecutionDisposition → String → Database → Run
  failure_run row d now db = record {
    id =
        row.id
        <> ":FAILURE:"
        <> digest row.id (session_text (find (session_of row.id) db.direct_execution_sessions))
            d.code d.detail;
    experiment_id = row.experiment_id;
    work_item_id = row.id;
    status = "stopped";
    metrics = some (obj end);
    finished_at = some now;
  }

  unfoldable pub record_failure :
      WorkRow → ExecutionDisposition → String → String → Database → Result (Database × Unit {0})
  record_failure row d batch_id now db =
      add_failure_run_awaiting_evaluation refresh_run_evidence (failure_run row d now db) batch_id
        worker now db

  -- Each row is its own transaction: one that raises keeps what the earlier ones committed.
  abbrev pub recorded : Database → Result (Database × Unit {0}) → Database
  recorded db (Result.ok (db', _)) = db'
  recorded db (Result.err _) = db

  abbrev then_rest :
      Database
      → Result (Database × Unit {0})
      → (Database → Database × Result (Unit {0}))
      → Database × Result (Unit {0})
  then_rest db (Result.ok (db', _)) rest = rest db'
  then_rest db (Result.err e) rest = (db, Result.err e)

  unfoldable pub record_each :
      List WorkRow → String → String → Database → Database × Result (Unit {0})
  unfolding record_failure disposition_of
  record_each [] batch_id now db = (db, ok tt)
  record_each (row ∷ rows) batch_id now db =
      then_rest db (record_failure row (disposition_of row) batch_id now db)
        (record_each rows batch_id now)

  abbrev pub recoverable_rows : ℤ → Database → List WorkRow
  recoverable_rows limit db =
      limited limit (order_by queue_order (select is_recoverable db.work_items))

  abbrev with_ids : List WorkRow → Database × Result (Unit {0}) → Database × Result (List String)
  with_ids rows (db, r) = (db, r >>= λ _. ok (ids_of rows))

  unfoldable pub recover : String → ℤ → String → Database → Database × Result (List String)
  unfolding record_each
  recover batch_id limit now db =
      let rows = recoverable_rows limit db in with_ids rows (record_each rows batch_id now db)

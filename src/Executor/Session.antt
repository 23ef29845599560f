-- ===== src/Executor/Session.antt =====
-- `classify_jesse_session` of src/ats_lab/direct_mcp_executor.py and its helpers, on decoded JSON.
use algorithmic_trading_stra.Base.{
  ℕ, String, Bool, true, false, not, ◌&&◌, ◌||◌, ◌==◌, leb, Option, none, some, List, [], ◌∷◌,
  str_eq, is_some, if◌then◌else◌,
}
use algorithmic_trading_stra.Base.Json.{
  Json, Json.null, Json.bool, Json.num, Json.literal, Json.str, Json.arr, Json.obj, cons, Fields,
  field, get_field,
}
use algorithmic_trading_stra.Base.Texts.{is_blank, strip, text_mem}
use algorithmic_trading_stra.Floats.{Floats}
use algorithmic_trading_stra.Queue.Evaluation.{truthy}

pub data SessionState : Type 0 where
  terminal_success terminal_failure draft_not_started active_execution : SessionState
  zombie_nonexecuting temporarily_nonterminal malformed_session : SessionState

pub record SessionClassification : Type 0 where
  pub state : SessionState
  pub public_status : String
  pub executing : Option Bool
  pub progress : Option Json
  pub jesse_updated_at : Option String
  pub has_execution_evidence : Bool
  pub error : Option String

-- `d.get(key)`, where a missing key gives `None`
abbrev or_null : Option Json → Json
or_null none = null
or_null (some v) = v

abbrev pub get : String → Fields → Json
get key fs = or_null (get_field key fs)

-- the object, if the value is a dict
abbrev pub dict_of : Json → Option Fields
dict_of (obj fs) = some fs
dict_of _ = none

abbrev pub get_in : String → Option Fields → Json
get_in key none = null
get_in key (some fs) = get key fs

-- `value or default`
abbrev pub or_value : Json → Json → Json
or_value a b = if truthy a then a else b

-- `b if a is None else a`
abbrev pub if_none : Json → Json → Json
if_none null b = b
if_none a b = a

abbrev pub is_dict : Json → Bool
is_dict v = is_some (dict_of v)

-- `isinstance(value, (int, float))` and not a bool
abbrev pub is_numeric : Json → Bool
is_numeric (num _) = true
is_numeric (literal _) = true
is_numeric _ = false

abbrev pub results_of : Fields → Option Fields
results_of session = dict_of (get_in "results" (dict_of (get "state" session)))

abbrev number_of : Json → Option Json
number_of v = if is_numeric v then some v else none

abbrev pub progress_of : Fields → Option Json
progress_of results =
    number_of
      (if_none (get "progress" results) (get_in "current" (dict_of (get "progressbar" results))))

-- `progress == 0`
abbrev pub is_zero : Json → Bool
is_zero (num n) = n == 0
is_zero (literal s) = str_eq s "0.0" || str_eq s "-0.0" || str_eq s "-0"
is_zero _ = false

abbrev pub metrics_or : Option Json → Option Fields → Json
metrics_or (some v) results = v
metrics_or none results = get_in "metrics" results

abbrev pub metrics_of : Fields → Option Fields → Json
metrics_of session = metrics_or (get_field "metrics" session)

-- `value.strip()` of a text that is not blank
abbrev pub filled_text : Json → Option String
filled_text (str s) = if is_blank s then none else some (strip s)
filled_text _ = none

abbrev pub first_text : List Json → Option String
first_text [] = none
first_text (v ∷ vs) = either (filled_text v) (first_text vs)
  where
    either : Option String → Option String → Option String
    either none rest = rest
    either (some s) rest = some s

abbrev nested_texts : Json → List Json
nested_texts (obj fs) = get "error" fs ∷ get "traceback" fs ∷ []
nested_texts v = v ∷ []

unfoldable pub execution_error : Fields → Option Fields → Option String
execution_error session results =
    or_else
      (first_text (get "exception" session ∷ get "error" session ∷ get "traceback" session ∷ []))
      (first_text (nested_texts (get_in "exception" results)))
  where
    or_else : Option String → Option String → Option String
    or_else none b = b
    or_else (some s) b = some s

abbrev filled_dict : Json → Bool
filled_dict (obj (field _ _ _)) = true
filled_dict _ = false

abbrev filled_list : Json → Bool
filled_list (arr (cons _ _)) = true
filled_list _ = false

-- `any(_evidence_flags(session, results))`
unfoldable pub has_evidence : Fields → Option Fields → Bool
has_evidence session results =
    filled_dict (metrics_of session results)
    || filled_list (if_none (get "trades" session) (get_in "trades" results))
    || filled_list (
        if_none (get "equity_curve" session)
          (get_in "equity_curve" (dict_of (get_in "charts" results))))
    || is_numeric (get "execution_duration" session)

-- `TERMINAL`
abbrev pub terminal : List String
terminal = "finished" ∷ "stopped" ∷ "failed" ∷ "cancelled" ∷ "terminated" ∷ "failed_to_start" ∷ []

abbrev pub flag_of : Json → Option Bool
flag_of (bool b) = some b
flag_of _ = none

abbrev pub executing_of : Option Fields → Option Bool
executing_of results = flag_of (get_in "executing" results)

abbrev pub none_or_zero : Option Json → Bool
none_or_zero none = true
none_or_zero (some v) = is_zero v

abbrev pub bind_progress : Option Fields → Option Json
bind_progress none = none
bind_progress (some results) = progress_of results

-- what Python's `str` and `lower` make of a value that is not a text, or not ASCII
pub record Texts : Type 0 where
  pub to_text : Json → String
  pub lower : String → String

abbrev pub waiting_statuses : List String
waiting_statuses = "running" ∷ "pending" ∷ "queued" ∷ "starting" ∷ []

-- a session that is neither terminal nor a draft and says that it does not execute
unfoldable pub idle_state : String → Bool → Option Json → Option String → Bool → SessionState
idle_state status evidence progress (some error) proven = terminal_failure
idle_state status evidence progress none proven =
    if str_eq status "running" && not evidence && none_or_zero progress
    then if proven then zombie_nonexecuting else temporarily_nonterminal
    else if text_mem status waiting_statuses
    then temporarily_nonterminal
    else malformed_session

-- a session that is neither terminal nor a draft
abbrev pub live_state :
    String → Option Bool → Bool → Option Json → Option String → Bool → SessionState
live_state status none evidence progress error proven = malformed_session
live_state status (some true) evidence progress error proven = active_execution
live_state status (some false) evidence progress error proven =
    idle_state status evidence progress error proven

unfoldable pub session_state :
    String → Json → Option Bool → Bool → Option Json → Option String → Bool → SessionState
session_state status metrics executing evidence progress error proven =
    if str_eq status "finished"
    then if is_dict metrics then terminal_success else malformed_session
    else if text_mem status terminal
    then if str_eq status "draft" then draft_not_started else terminal_failure
    else if str_eq status "draft"
    then draft_not_started
    else live_state status executing evidence progress error proven

abbrev optional_text : Texts → Json → Option String
optional_text T null = none
optional_text T v = some (T.to_text v)

abbrev pub status_of : Texts → Fields → String
status_of T session = T.lower (
    T.to_text (
      or_value
        (or_value (get "status" session)
          (or_value (get_in "status" (dict_of (get "state" session))) (str "")))
        (str "unknown")))

module _ (F : Floats) (T : Texts) where
  abbrev pub is_proven : ℕ → F.Float → F.Float → ℕ → Bool
  is_proven unchanged stale grace required = leb required unchanged && F.le grace stale

  unfoldable pub classify_jesse_session : Fields → ℕ → F.Float → F.Float → ℕ → SessionClassification
  unfolding session_state has_evidence execution_error
  classify_jesse_session session unchanged stale grace required =
      let results = results_of session in
      let status = status_of T session in
      let executing = executing_of results in
      let progress = bind_progress results in
      let evidence = has_evidence session results in
      let error = execution_error session results in
      record {
        state =
            session_state status (metrics_of session results) executing evidence progress error
              (is_proven unchanged stale grace required);
        public_status = status;
        executing = executing;
        progress = progress;
        jesse_updated_at =
            optional_text T (or_value (get "updated_at" session) (get "updatedAt" session));
        has_execution_evidence = evidence;
        error = error;
      }

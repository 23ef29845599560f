-- ===== src/Executor/Results.antt =====
-- `execution_result_violations` of src/ats_lab/direct_mcp_executor.py. The equality of JSON values is
-- Python's `==`, a parameter.
pub mod Accepted
use algorithmic_trading_stra.Base.{
  String, Bool, true, false, not, ◌&&◌, ◌||◌, Option, none, some, List, [], ◌∷◌, ◌++◌, str_eq,
  is_some, if◌then◌else◌,
}
use algorithmic_trading_stra.Base.Json.{
  Json, Json.null, Json.num, Json.str, Json.arr, Json.obj, Fields, end, field, get_field,
}
use algorithmic_trading_stra.Base.Texts.{text_mem}
use algorithmic_trading_stra.Base.Outcome.{Result, ok, err, runtime_error, ◌>>=◌}
use algorithmic_trading_stra.Executor.Session.{get, is_dict, dict_of}

-- `isinstance(value, str) and bool(value)`
abbrev pub is_filled_text : Json → Bool
is_filled_text (str s) = not (str_eq s "")
is_filled_text _ = false

-- `violations.append(message)` under a test
abbrev pub unless : Bool → String → List String → List String
unless true message rest = rest
unless false message rest = message ∷ rest

-- `JESSE_RESULT_STATUSES`
abbrev pub statuses : List String
statuses = "draft" ∷ "finished" ∷ "running" ∷ "stopped" ∷ "terminated" ∷ "unknown" ∷ []

-- `value in JESSE_RESULT_STATUSES`: a list or a dict has no hash
abbrev pub in_statuses : Json → Result Bool
in_statuses (str s) = ok (text_mem s statuses)
in_statuses (arr _) = err (runtime_error "TypeError: unhashable type")
in_statuses (obj _) = err (runtime_error "TypeError: unhashable type")
in_statuses _ = ok false

-- the value is `None` or a text
abbrev pub is_optional_text : Json → Bool
is_optional_text null = true
is_optional_text (str _) = true
is_optional_text _ = false

abbrev pub is_null : Json → Bool
is_null null = true
is_null _ = false

-- every key is one of `RAW_RESULT_KEYS`
abbrev pub raw_keys_only : Fields → Bool
raw_keys_only end = true
raw_keys_only (field k _ fs) =
    text_mem k ("session_id" ∷ "status" ∷ "metrics" ∷ []) && raw_keys_only fs

-- `set(raw) == RAW_RESULT_KEYS`
abbrev pub has_raw_keys : Fields → Bool
has_raw_keys fs =
    raw_keys_only fs
    && is_some (get_field "session_id" fs)
    && is_some (get_field "status" fs)
    && is_some (get_field "metrics" fs)

module _ (same_json : Json → Json → Bool) where
  abbrev pub compared : Fields → Json → Json → Json → List String
  compared raw session_id status metrics =
      unless (same_json (get "session_id" raw) session_id)
        "raw_result.session_id must equal session_id"
        (unless (same_json (get "status" raw) status) "raw_result.status must equal status" (
          unless (same_json (get "metrics" raw) metrics) "raw_result.metrics must equal metrics"
            []))

  abbrev pub raw_violations : Option Fields → Json → Json → Json → List String
  raw_violations none session_id status metrics =
      "raw_result must contain exactly session_id, status, and metrics" ∷ []
  raw_violations (some raw) session_id status metrics =
      if has_raw_keys raw
      then compared raw session_id status metrics
      else "raw_result must contain exactly session_id, status, and metrics" ∷ []

  abbrev pub view_violations : Fields → Bool → List String
  view_violations view known_status =
      unless (same_json (get "schema_version" view) (num 1)) "schema_version must be 1" (
        unless (same_json (get "transport" view) (str "jesse_mcp")) "transport must be jesse_mcp" (
          unless (is_filled_text (get "work_item_id" view)) "work_item_id must be non-empty text" (
            unless known_status
              "status must be one of draft, finished, running, stopped, terminated, unknown"
              (unless (is_filled_text (get "session_id" view)) "session_id must be non-empty text" (
                unless (is_optional_text (get "dashboard_url" view))
                  "dashboard_url must be text or null"
                  (unless (is_dict (get "metrics" view)) "metrics must be an object" (
                    unless (is_null (get "error" view)) "finished result cannot contain an error" (
                      raw_violations (dict_of (get "raw_result" view)) (get "session_id" view)
                        (get "status" view) (get "metrics" view)))))))))

  unfoldable pub execution_result_violations : Json → Result (List String)
  execution_result_violations (obj view) =
      in_statuses (get "status" view) >>= λ known. ok (view_violations view known)
  execution_result_violations _ = ok ("execution result must be an object" ∷ [])

-- ===== src/Executor/Requests.antt =====
-- `execution_request_violations` of src/ats_lab/direct_mcp_executor.py and its helpers. The equality of JSON
-- values is Python's `==`, a parameter.
pub mod Executable
use algorithmic_trading_stra.Base.{
  ℕ, suc, String, Bool, true, false, not, ◌&&◌, ◌||◌, Option, none, some, List, [], ◌∷◌, ◌++◌,
  str_eq, is_some, if◌then◌else◌,
}
use algorithmic_trading_stra.Base.Json.{
  Json, Json.null, Json.bool, Json.num, Json.str, Json.arr, Json.obj, Items, nil, cons, Fields,
  get_field,
}
use algorithmic_trading_stra.Base.Texts.{◌<>◌, text_mem, decimal}
use algorithmic_trading_stra.Base.Outcome.{Result, ok, err, runtime_error, ◌>>=◌}
use algorithmic_trading_stra.Executor.Session.{get, get_in, dict_of}
use algorithmic_trading_stra.Executor.Results.{is_filled_text}

-- `if not test: violations.append(message)`
abbrev pub demand : Bool → String → List String
demand true message = []
demand false message = message ∷ []

-- the fields of one object, each non-empty text
unfoldable pub field_violations : String → List String → Fields → List String
field_violations label [] fs = []
field_violations label (name ∷ names) fs =
    demand (is_filled_text (get name fs)) (label <> "." <> name <> " must be non-empty text")
    ++ field_violations label names fs

abbrev pub route_fields : List String
route_fields = "exchange" ∷ "symbol" ∷ "timeframe" ∷ "start_date" ∷ "finish_date" ∷ []

abbrev pub element : String → ℕ → String
element label index = label <> "[" <> decimal index <> "]"

abbrev pub object_violations : String → List String → Json → List String
object_violations label names (obj fs) = field_violations label names fs
object_violations label names _ = (label <> " must be an object") ∷ []

unfoldable pub objects_violations : String → List String → ℕ → Items → List String
objects_violations label names index nil = []
objects_violations label names index (cons v vs) =
    object_violations (element label index) names v ++ objects_violations label names (suc index) vs

-- `_route_violations`
unfoldable pub route_violations : Json → List String
route_violations (arr (cons v vs)) =
    objects_violations "experiment.routes" route_fields 0 (cons v vs)
route_violations _ = "experiment.routes must be a non-empty array" ∷ []

-- `_data_route_violations`
unfoldable pub data_route_violations : Json → String → List String
data_route_violations null label = []
data_route_violations (arr vs) label =
    objects_violations label ("exchange" ∷ "symbol" ∷ "timeframe" ∷ []) 0 vs
data_route_violations _ label = (label <> " must be an array") ∷ []

-- `"required" in gate and not isinstance(gate["required"], bool)`
abbrev pub optional_flag : Option Json → Bool
optional_flag none = true
optional_flag (some (bool b)) = true
optional_flag (some _) = false

abbrev pub gate_violation : String → Json → List String
gate_violation label (obj fs) =
    field_violations label ("name" ∷ "operator" ∷ []) fs
    ++ demand (optional_flag (get_field "required" fs)) (label <> ".required must be boolean")
gate_violation label _ = (label <> " must be an object") ∷ []

unfoldable pub gates_violations : String → ℕ → Items → List String
gates_violations label index nil = []
gates_violations label index (cons v vs) =
    gate_violation (element label index) v ++ gates_violations label (suc index) vs

-- `_gate_violations`
unfoldable pub gate_violations : String → Json → List String
gate_violations label null = []
gate_violations label (arr vs) = gates_violations label 0 vs
gate_violations label _ = (label <> " must be an array") ∷ []

-- `operation == "significance"`
abbrev pub is_significance_test : Json → Bool
is_significance_test (str s) = str_eq s "significance"
is_significance_test _ = false

-- not a list, or a list of one
abbrev pub is_single : Json → Bool
is_single (arr (cons v nil)) = true
is_single (arr _) = false
is_single _ = true

unfoldable pub experiment_violations : Json → Option Fields → List String
experiment_violations operation none = "experiment must be an object" ∷ []
experiment_violations operation (some experiment) =
    demand (is_filled_text (get "strategy_name" experiment))
      "experiment.strategy_name must be non-empty text"
    ++ route_violations (get "routes" experiment)
    ++ demand (not (is_significance_test operation) || is_single (get "routes" experiment)) (
        "significance requires exactly one primary trading route; "
        <> "run one test per symbol/timeframe")
    ++ data_route_violations (get "data_routes" experiment) "experiment.data_routes"
    ++ gate_violations "experiment.success_gates" (get "success_gates" experiment)
    ++ gate_violations "experiment.failure_gates" (get "failure_gates" experiment)

-- `operation is not None and operation not in JESSE_OPERATIONS`: a list or a dict has no hash
abbrev pub known_operation : Json → Result Bool
known_operation null = ok true
known_operation (str s) = ok (text_mem s ("backtest" ∷ "hpo" ∷ "monte_carlo" ∷ "significance" ∷ []))
known_operation (arr _) = err (runtime_error "TypeError: unhashable type")
known_operation (obj _) = err (runtime_error "TypeError: unhashable type")
known_operation _ = ok false

abbrev pub is_optional_object : Json → Bool
is_optional_object null = true
is_optional_object (obj _) = true
is_optional_object _ = false

unfoldable pub work_item_violations : Option Fields → Result (List String)
work_item_violations none = ok ("work_item must be an object" ∷ [])
work_item_violations (some work_item) = known_operation (get "operation" work_item) >>= λ known.
    ok (
      demand known "work_item.operation must be one of backtest, hpo, monte_carlo, significance"
      ++ demand (is_optional_object (get "parameters" work_item))
          "work_item.parameters must be an object"
      ++ data_route_violations (get "data_routes" work_item) "work_item.data_routes")

module _ (same_json : Json → Json → Bool) where
  -- `"schema_version" in request and request["schema_version"] != 1`
  abbrev pub version_fits : Option Json → Bool
  version_fits none = true
  version_fits (some v) = same_json v (num 1)

  abbrev pub identity_violations : Fields → List String
  identity_violations request =
      demand (version_fits (get_field "schema_version" request)) "schema_version must be 1"
      ++ demand (is_filled_text (get "work_item_id" request)) "work_item_id must be non-empty text"
      ++ demand (is_filled_text (get "experiment_id" request))
          "experiment_id must be non-empty text"

  unfoldable pub execution_request_violations : Json → Result (List String)
  execution_request_violations (obj request) =
      let work_item = dict_of (get "work_item" request) in
      work_item_violations work_item >>= λ rest. ok (
        identity_violations request
        ++ experiment_violations (get_in "operation" work_item) (dict_of (get "experiment" request))
        ++ rest)
  execution_request_violations _ = ok ("execution request must be an object" ∷ [])

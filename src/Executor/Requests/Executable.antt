-- ===== src/Executor/Requests/Executable.antt =====
-- What a request without violations is, by `execution_request_violations` of
-- src/ats_lab/direct_mcp_executor.py.
use algorithmic_trading_stra.Base.{
  ℕ, suc, String, Bool, true, false, not, ◌||◌, Option, none, some, List, [], ◌∷◌, ◌++◌, All, ◌≡◌,
  ◌⊎◌, inl, inr, refl, ◌∙◌,
}
use algorithmic_trading_stra.Base.Json.{
  Json, Json.null, Json.bool, Json.num, Json.literal, Json.str, Json.arr, Json.obj, Items, nil,
  cons, Fields, get_field,
}
use algorithmic_trading_stra.Base.Outcome.{Result, ok, >>=-eq-ok, ok-inj}
use algorithmic_trading_stra.Base.Texts.{◌<>◌, text_mem}
use algorithmic_trading_stra.Executor.Session.{get, get_in, dict_of}
use algorithmic_trading_stra.Executor.Results.{is_filled_text}
use algorithmic_trading_stra.Executor.Requests.{
  demand, field_violations, route_fields, element, object_violations, objects_violations,
  route_violations, is_significance_test, is_single, experiment_violations, work_item_violations,
  known_operation, identity_violations, execution_request_violations, version_fits,
  is_optional_object, data_route_violations, gate_violations,
}

-- an object whose fields of these names are non-empty text
abbrev pub IsFilled : List String → Json → Type 0
IsFilled names (obj fs) = All (λ name. is_filled_text (get name fs) ≡ true) names
IsFilled names _ = ⊥

abbrev pub AllFilled : List String → Items → Type 0
AllFilled names nil = Unit
AllFilled names (cons v vs) = IsFilled names v × AllFilled names vs

-- absent, or one of the four operations
abbrev pub IsOptionalOperation : Json → Type 0
IsOptionalOperation v =
    (v ≡ null)
    ⊎ ((s : String) × (v ≡ str s)
        × (text_mem s ("backtest" ∷ "hpo" ∷ "monte_carlo" ∷ "significance" ∷ []) ≡ true))

known_true : (r : Result Bool) (known : Bool) → r ≡ ok known → known ≡ true → r ≡ ok true
known_true r known e h = cc

operation_known : (v : Json) → known_operation v ≡ ok true → IsOptionalOperation v
operation_known null h = inl refl
operation_known (str s) h = inr (s, refl, ok-inj h)
operation_known (bool b) h = cc
operation_known (num n) h = cc
operation_known (literal s) h = cc
operation_known (arr xs) h = cc
operation_known (obj fs) h = cc

-- a request that names its item and experiment, its strategy, and routes that are complete
pub record Executable (request : Fields) : Type 0 where
  pub work_item_id : is_filled_text (get "work_item_id" request) ≡ true
  pub experiment_id : is_filled_text (get "experiment_id" request) ≡ true
  pub experiment : Fields
  pub has_experiment : dict_of (get "experiment" request) ≡ some experiment
  pub strategy : is_filled_text (get "strategy_name" experiment) ≡ true
  pub first_route : Json
  pub more_routes : Items
  pub has_routes : get "routes" experiment ≡ arr (cons first_route more_routes)
  pub routes : AllFilled route_fields (cons first_route more_routes)
  pub work_item : Fields
  pub has_work_item : dict_of (get "work_item" request) ≡ some work_item
  pub has_operation : IsOptionalOperation (get "operation" work_item)
  pub one_test : is_significance_test (get "operation" work_item) ≡ true → more_routes ≡ nil

append_empty : (xs ys : List String) → xs ++ ys ≡ [] → (xs ≡ []) × (ys ≡ [])
append_empty [] ys h = (refl, h)
append_empty (x ∷ xs) ys h = cc

demand_empty : (b : Bool) (m : String) → demand b m ≡ [] → b ≡ true
demand_empty true m h = refl
demand_empty false m h = cc

fields-All :
    (label : String) (names : List String) (fs : Fields)
    → field_violations label names fs ≡ []
    → All (λ name. is_filled_text (get name fs) ≡ true) names
unfolding field_violations
fields-All label [] fs h = tt
fields-All label (n ∷ names) fs h =
    let (a, b) =
      append_empty (demand (is_filled_text (get n fs)) _) (field_violations label names fs) h in
    (demand_empty (is_filled_text (get n fs)) _ a, fields-All label names fs b)

object-IsFilled :
    (label : String) (names : List String) (v : Json)
    → object_violations label names v ≡ []
    → IsFilled names v
object-IsFilled label names (obj fs) h = fields-All label names fs h
object-IsFilled label names null h = cc
object-IsFilled label names (bool b) h = cc
object-IsFilled label names (num n) h = cc
object-IsFilled label names (literal s) h = cc
object-IsFilled label names (str s) h = cc
object-IsFilled label names (arr xs) h = cc

objects-AllFilled :
    (label : String) (names : List String) (index : ℕ) (vs : Items)
    → objects_violations label names index vs ≡ []
    → AllFilled names vs
unfolding objects_violations
objects-AllFilled label names index nil h = tt
objects-AllFilled label names index (cons v vs) h =
    let (a, b) =
      append_empty (object_violations (element label index) names v)
        (objects_violations label names (suc index) vs) h in
    (
      object-IsFilled (element label index) names v a,
      objects-AllFilled label names (suc index) vs b,
    )

routes_filled :
    (v : Json)
    → route_violations v ≡ []
    → (r : Json) × (rs : Items) × (v ≡ arr (cons r rs)) × AllFilled route_fields (cons r rs)
unfolding route_violations
routes_filled (arr (cons r rs)) h =
    (r, rs, refl, objects-AllFilled "experiment.routes" route_fields 0 (cons r rs) h)
routes_filled (arr nil) h = cc
routes_filled (obj fs) h = cc
routes_filled null h = cc
routes_filled (bool b) h = cc
routes_filled (num n) h = cc
routes_filled (literal s) h = cc
routes_filled (str s) h = cc

single_nil : (r : Json) (rs : Items) → is_single (arr (cons r rs)) ≡ true → rs ≡ nil
single_nil r nil h = refl
single_nil r (cons s rs) h = cc

implied : (a b : Bool) → (not a || b) ≡ true → a ≡ true → b ≡ true
implied true b h t = h
implied false b h t = cc

eq_at : {b : Bool} (f : Json → Bool) {x y : Json} → x ≡ y → f x ≡ b → f y ≡ b
eq_at f e h = cc

one_route :
    (op routes : Json) (r : Json) (rs : Items)
    → routes ≡ arr (cons r rs)
    → (not (is_significance_test op) || is_single routes) ≡ true
    → is_significance_test op ≡ true
    → rs ≡ nil
one_route op routes r rs e h t =
    let single = implied (is_significance_test op) (is_single routes) h t in
    single_nil r rs (eq_at is_single e single)

module _ (same_json : Json → Json → Bool) where
  filled_request :
      (request work_item experiment : Fields) (rest : List String)
      → dict_of (get "work_item" request) ≡ some work_item
      → dict_of (get "experiment" request) ≡ some experiment
      → work_item_violations (some work_item) ≡ ok rest
      → identity_violations same_json request
          ++ experiment_violations (get "operation" work_item) (some experiment)
          ++ rest
        ≡ []
      → Executable request
  unfolding experiment_violations work_item_violations
  filled_request request w x rest hw hx kw h =
      let version =
        demand (version_fits same_json (get_field "schema_version" request))
          "schema_version must be 1" in
      let item =
        demand (is_filled_text (get "work_item_id" request))
          "work_item_id must be non-empty text" in
      let exp =
        demand (is_filled_text (get "experiment_id" request))
          "experiment_id must be non-empty text" in
      let op = get "operation" w in
      let routes = get "routes" x in
      let named =
        demand (is_filled_text (get "strategy_name" x))
          "experiment.strategy_name must be non-empty text" in
      let single = demand (not (is_significance_test op) || is_single routes) (
        "significance requires exactly one primary trading route; "
        <> "run one test per symbol/timeframe") in
      let x_all = experiment_violations op (some x) in
      let lists_data = data_route_violations (get "data_routes" x) "experiment.data_routes" in
      let wins = gate_violations "experiment.success_gates" (get "success_gates" x) in
      let fails = gate_violations "experiment.failure_gates" (get "failure_gates" x) in
      let (h, rest_empty) = append_empty (version ++ item ++ exp ++ x_all) rest h in
      let (ids, ex) = append_empty (version ++ item ++ exp) x_all h in
      let (ids, x_id) = append_empty (version ++ item) exp ids in
      let (_, item_id) = append_empty version item ids in
      let (ex, _) =
        append_empty (named ++ route_violations routes ++ single ++ lists_data ++ wins) fails ex in
      let (ex, _) =
        append_empty (named ++ route_violations routes ++ single ++ lists_data) wins ex in
      let (ex, _) = append_empty (named ++ route_violations routes ++ single) lists_data ex in
      let (ex, one) = append_empty (named ++ route_violations routes) single ex in
      let (name, lists) = append_empty named (route_violations routes) ex in
      let (known, at_known, kr) = >>=-eq-ok (known_operation op) _ kw in
      let valid =
        demand known
          "work_item.operation must be one of backtest, hpo, monte_carlo, significance" in
      let params =
        demand (is_optional_object (get "parameters" w)) "work_item.parameters must be an object" in
      let (hw2, _) =
        append_empty (valid ++ params)
          (data_route_violations (get "data_routes" w) "work_item.data_routes")
          (ok-inj kr ∙ rest_empty) in
      let (op_known, _) = append_empty valid params hw2 in
      let (r, rs, at, filled) = routes_filled (get "routes" x) lists in
      record {
        work_item_id = demand_empty (is_filled_text (get "work_item_id" request)) _ item_id;
        experiment_id = demand_empty (is_filled_text (get "experiment_id" request)) _ x_id;
        experiment = x;
        has_experiment = hx;
        strategy = demand_empty (is_filled_text (get "strategy_name" x)) _ name;
        first_route = r;
        more_routes = rs;
        has_routes = at;
        routes = filled;
        work_item = w;
        has_work_item = hw;
        has_operation =
            let accepted : known_operation op ≡ ok true =
              known_true (known_operation op) known at_known (demand_empty known _ op_known) in
            operation_known op accepted;
        one_test = one_route (get "operation" w) (get "routes" x) r rs at (demand_empty _ _ one);
      }

  filled_parts :
      (request : Fields) (work_item experiment : Option Fields) (rest : List String)
      → dict_of (get "work_item" request) ≡ work_item
      → dict_of (get "experiment" request) ≡ experiment
      → work_item_violations work_item ≡ ok rest
      → identity_violations same_json request
          ++ experiment_violations (get_in "operation" work_item) experiment
          ++ rest
        ≡ []
      → Executable request
  unfolding experiment_violations work_item_violations
  filled_parts request none x rest hw hx kw h =
      let (_, b) =
        append_empty
          (identity_violations same_json request
            ++ experiment_violations (get_in "operation" none) x)
          rest h in
      let e = ok-inj kw in cc
  filled_parts request (some w) none rest hw hx kw h =
      let (a, _) =
        append_empty
          (identity_violations same_json request
            ++ experiment_violations (get_in "operation" (some w)) none)
          rest h in
      let (_, b) =
        append_empty (identity_violations same_json request)
          (experiment_violations (get_in "operation" (some w)) none) a in
      cc
  filled_parts request (some w) (some x) rest hw hx kw h =
      filled_request request w x rest hw hx kw h

  -- A request in which `execution_request_violations` finds no violation is an object that names its work item and
  -- its experiment, whose experiment names a strategy and lists at least one route with every field filled, whose
  -- operation is absent or one that Jesse has, and which has exactly one route when that operation is a
  -- significance test.
  pub execution_request_violations-Executable :
      (request : Json)
      → execution_request_violations same_json request ≡ ok []
      → (fs : Fields) × (request ≡ obj fs) × Executable fs
  unfolding execution_request_violations
  execution_request_violations-Executable (obj request) h =
      let (rest, kw, k) =
        >>=-eq-ok (work_item_violations (dict_of (get "work_item" request))) _ h in
      (request, refl, filled_parts request _ _ rest refl refl kw (ok-inj k))
  execution_request_violations-Executable (arr xs) h = cc
  execution_request_violations-Executable null h = cc
  execution_request_violations-Executable (bool b) h = cc
  execution_request_violations-Executable (num n) h = cc
  execution_request_violations-Executable (literal t) h = cc
  execution_request_violations-Executable (str t) h = cc

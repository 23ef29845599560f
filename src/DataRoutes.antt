-- ===== src/DataRoutes.antt =====
-- The data routes of src/ats_lab/strategy_dependencies.py: `required_data_routes` and `merge_data_routes`. The
-- bundled manifest is a parameter, and so is `==` on decoded JSON.
pub mod Merged
mod Samples
use algorithmic_trading_stra.Base.{
  ℕ, suc, String, Bool, true, false, not, ◌&&◌, Option, none, some, List, [], ◌∷◌, ◌++◌, str_eq,
  any, if◌then◌else◌,
}
use algorithmic_trading_stra.Base.Json.{
  Json, Json.null, Json.str, Json.arr, Json.obj, Items, nil, cons, Fields, get_field,
}
use algorithmic_trading_stra.Base.Texts.{◌<>◌, text_mem, decimal}
use algorithmic_trading_stra.Base.Outcome.{Result, Error, ok, err, value_error, ◌>>=◌, or_raise}

-- DataRouteSpec of src/ats_lab/models.py; its fields are not checked when it is made.
pub record DataRouteSpec : Type 0 where
  pub exchange : Json
  pub symbol : Json
  pub timeframe : Json

-- a route of the manifest
pub record ManifestRoute : Type 0 where
  pub exchange : String
  pub symbol : String
  pub timeframe : String

abbrev add_value : Option Json → List String → List String
add_value (some (str s)) values =
    if not (str_eq s "") && not (text_mem s values) then values ++ s ∷ [] else values
add_value _ values = values

unfoldable pub primary_from : String → List Fields → List String → List String
primary_from name [] values = values
primary_from name (route ∷ routes) values =
    primary_from name routes (add_value (get_field name route) values)

-- `_primary_values`
abbrev pub primary_values : String → List Fields → List String
primary_values name routes = primary_from name routes []

-- the values that one field of a manifest route stands for
abbrev pub resolved_values : String → List String → List String
resolved_values value primary = if str_eq value "$primary" then primary else value ∷ []

abbrev spec_of : String → String → String → DataRouteSpec
spec_of exchange symbol timeframe = record {
  exchange = str exchange;
  symbol = str symbol;
  timeframe = str timeframe;
}

abbrev with_timeframes : String → String → List String → List DataRouteSpec
with_timeframes exchange symbol [] = []
with_timeframes exchange symbol (t ∷ ts) =
    spec_of exchange symbol t ∷ with_timeframes exchange symbol ts

abbrev with_symbols : String → List String → List String → List DataRouteSpec
with_symbols exchange [] timeframes = []
with_symbols exchange (s ∷ ss) timeframes =
    with_timeframes exchange s timeframes ++ with_symbols exchange ss timeframes

-- the candidate_routes of the three loops, in their order
abbrev with_exchanges : List String → List String → List String → List DataRouteSpec
with_exchanges [] symbols timeframes = []
with_exchanges (e ∷ es) symbols timeframes =
    with_symbols e symbols timeframes ++ with_exchanges es symbols timeframes

unfoldable pub candidate_routes : List Fields → List ManifestRoute → List DataRouteSpec
unfolding primary_from
candidate_routes primary [] = []
candidate_routes primary (route ∷ routes) =
    with_exchanges (resolved_values route.exchange (primary_values "exchange" primary))
      (resolved_values route.symbol (primary_values "symbol" primary))
      (resolved_values route.timeframe (primary_values "timeframe" primary))
    ++ candidate_routes primary routes

abbrev invalid_route : String → Error
invalid_route label = value_error (label <> " contains an invalid data route")

abbrev label_of : ℕ → ℕ → String
label_of source route = "data_routes source " <> decimal source <> "[" <> decimal route <> "]"

-- `_coerce_data_route` of a decoded value
unfoldable pub coerce_data_route : String → Json → Result DataRouteSpec
coerce_data_route label (obj fs) = do
  exchange ← or_raise (get_field "exchange" fs) (invalid_route label)
  symbol ← or_raise (get_field "symbol" fs) (invalid_route label)
  timeframe ← or_raise (get_field "timeframe" fs) (invalid_route label)
  ok (record { exchange = exchange; symbol = symbol; timeframe = timeframe })
coerce_data_route label _ = err (value_error (label <> " must contain data-route objects"))

unfoldable pub coerce_items : ℕ → ℕ → Items → Result (List DataRouteSpec)
coerce_items source index nil = ok []
coerce_items source index (cons v vs) = do
  route ← coerce_data_route (label_of source index) v
  rest ← coerce_items source (suc index) vs
  ok (route ∷ rest)

unfoldable pub coerce_source : ℕ → Json → Result (List DataRouteSpec)
coerce_source source null = ok []
coerce_source source (arr items) = coerce_items source 0 items
coerce_source source _ =
    err (value_error ("data_routes source " <> decimal source <> " must be an array"))

unfoldable pub coerce_sources : ℕ → List Json → Result (List DataRouteSpec)
coerce_sources index [] = ok []
coerce_sources index (source ∷ sources) = do
  routes ← coerce_source index source
  rest ← coerce_sources (suc index) sources
  ok (routes ++ rest)

module _ (same_json : Json → Json → Bool) where
  -- equality of the dataclass
  abbrev pub equal_route : DataRouteSpec → DataRouteSpec → Bool
  equal_route a b =
      same_json a.exchange b.exchange
      && same_json a.symbol b.symbol
      && same_json a.timeframe b.timeframe

  -- `if route not in merged: merged.append(route)`
  abbrev pub add_route : DataRouteSpec → List DataRouteSpec → List DataRouteSpec
  add_route route merged = if any (equal_route route) merged then merged else merged ++ route ∷ []

  unfoldable pub add_routes : List DataRouteSpec → List DataRouteSpec → List DataRouteSpec
  add_routes [] merged = merged
  add_routes (route ∷ routes) merged = add_routes routes (add_route route merged)

  module _ (manifest : String → List ManifestRoute) where
    unfoldable pub required_data_routes : String → List Fields → List DataRouteSpec
    unfolding add_routes candidate_routes
    required_data_routes strategy_name primary_routes =
        add_routes (candidate_routes primary_routes (manifest strategy_name)) []

    unfoldable pub merge_data_routes :
        String → List Fields → List Json → Result (List DataRouteSpec)
    merge_data_routes strategy_name primary_routes sources = do
      explicit ← coerce_sources 0 sources
      ok (add_routes (required_data_routes strategy_name primary_routes) (add_routes explicit []))

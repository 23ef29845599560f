-- ===== src/DataRoutes/Samples.antt =====
-- Routes of a strategy that needs a higher timeframe of its own market.
use algorithmic_trading_stra.Base.{String, Bool, true, List, [], ◌∷◌, ◌≡◌, str_eq, refl, eq_refl}
use algorithmic_trading_stra.Base.Json.{
  Json, Json.null, Json.bool, Json.num, Json.literal, Json.str, Json.arr, Json.obj, Fields, end,
  field, nil, cons,
}
use algorithmic_trading_stra.Base.Outcome.{ok}
use algorithmic_trading_stra.DataRoutes.{
  DataRouteSpec, ManifestRoute, required_data_routes, merge_data_routes, coerce_sources,
  coerce_source, coerce_items, coerce_data_route, add_routes, candidate_routes, primary_from,
}
use algorithmic_trading_stra.DataRoutes.Merged.{Merged, merge_data_routes-Merged}

abbrev higher : String → List ManifestRoute
higher name = record { exchange = "$primary"; symbol = "$primary"; timeframe = "1D" } ∷ []

abbrev primary : Fields
primary =
    field "exchange" (str "Binance")
      (field "symbol" (str "BTC-USDT") (field "timeframe" (str "4h") end))

abbrev explicit : Json
explicit = arr (
    cons
      (obj (
        field "exchange" (str "Binance")
          (field "symbol" (str "BTC-USDT") (field "timeframe" (str "1D") end))))
      nil)

-- equality of texts; other values are not told apart
abbrev same_text : Json → Json → Bool
same_text (str a) (str b) = str_eq a b
same_text _ _ = true

same_text-refl : (a : Json) → same_text a a ≡ true
same_text-refl (str s) = eq_refl s
same_text-refl null = refl
same_text-refl (bool b) = refl
same_text-refl (num n) = refl
same_text-refl (literal s) = refl
same_text-refl (arr xs) = refl
same_text-refl (obj fs) = refl

-- the explicit route is the one that the manifest requires
abbrev merged_routes : List DataRouteSpec
merged_routes =
    record { exchange = str "Binance"; symbol = str "BTC-USDT"; timeframe = str "1D" } ∷ []

merge_data_routes-Merged_example :
    (routes : List DataRouteSpec) × (coerce_sources 0 (explicit ∷ null ∷ []) ≡ ok routes)
    × Merged same_text same_text-refl routes
        (required_data_routes same_text higher "Trend" (primary ∷ []))
        merged_routes
unfolding merge_data_routes coerce_sources coerce_source coerce_items coerce_data_route
    required_data_routes add_routes candidate_routes primary_from
merge_data_routes-Merged_example =
    merge_data_routes-Merged same_text same_text-refl higher "Trend" (primary ∷ [])
      (explicit ∷ null ∷ []) merged_routes refl

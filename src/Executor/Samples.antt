-- ===== src/Executor/Samples.antt =====
-- A session that stands still, and the result of one that finished.
use algorithmic_trading_stra.Executor.Requests.{
  execution_request_violations, experiment_violations, route_violations, field_violations,
  objects_violations, data_route_violations, gate_violations, work_item_violations,
}
use algorithmic_trading_stra.Executor.Requests.Executable.{
  Executable, execution_request_violations-Executable,
}
use algorithmic_trading_stra.Base.{String, Bool, true, [], ◌≡◌, refl, str_eq}
use algorithmic_trading_stra.Base.Json.{
  Json, Json.bool, Json.num, Json.str, Json.obj, Json.arr, nil, cons, Fields, end, field,
}
use algorithmic_trading_stra.Base.Outcome.{ok}
use algorithmic_trading_stra.Gates.Samples.{whole}
use algorithmic_trading_stra.Executor.Session.{
  Texts, classify_jesse_session, metrics_of, results_of, is_proven,
}
use algorithmic_trading_stra.Executor.Justified.{Justified, classify_jesse_session-Justified}
use algorithmic_trading_stra.Executor.Results.{execution_result_violations}
use algorithmic_trading_stra.Executor.Results.Accepted.{
  Accepted, execution_result_violations-Accepted,
}

-- texts that are lower case already
abbrev plain_text : Json → String
plain_text (str s) = s
plain_text _ = "?"

abbrev plain : Texts
plain = record { to_text = plain_text; lower = λ s. s }

-- running by its status, not executing, with nothing to show
abbrev idle : Fields
idle =
    field "status" (str "running") (
      field "state" (obj (field "results" (obj (field "executing" (bool Bool.false) end)) end)) end)

classify_jesse_session-Justified_example :
    let c = classify_jesse_session whole plain idle 2 90 60 2 in
    Justified c.state c.public_status
      (metrics_of idle (results_of idle))
      c.executing
      c.has_execution_evidence
      c.progress
      c.error
      (is_proven whole plain 2 90 60 2)
classify_jesse_session-Justified_example =
    classify_jesse_session-Justified whole plain idle 2 90 60 2

-- equality of texts and numbers, as far as the result below needs it
abbrev same_value : Json → Json → Bool
same_value (str a) (str b) = str_eq a b
same_value (num a) (num b) = true
same_value (obj a) (obj b) = true
same_value _ _ = Bool.false

abbrev result : Fields
result = field "schema_version" (num 1) (
    field "transport" (str "jesse_mcp") (
      field "work_item_id" (str "B1") (
        field "status" (str "finished") (
          field "session_id" (str "J1") (
            field "metrics" (obj end) (
              field "raw_result"
                (obj (
                  field "session_id" (str "J1")
                    (field "status" (str "finished") (field "metrics" (obj end) end))))
                end))))))

execution_result_violations-Accepted_example :
    (execution_result_violations same_value (obj result) ≡ ok []
      → (view : Fields) × (obj result ≡ obj view) × Accepted same_value view)
    × ((view : Fields)
        → obj result ≡ obj view
        → Accepted same_value view
        → execution_result_violations same_value (obj result) ≡ ok [])
execution_result_violations-Accepted_example =
    execution_result_violations-Accepted same_value (obj result)

abbrev request : Fields
request = field "work_item_id" (str "B1") (
    field "experiment_id" (str "E1") (
      field "experiment"
        (obj (
          field "strategy_name" (str "Trend") (
            field "routes"
              (arr (
                cons
                  (obj (
                    field "exchange" (str "Binance") (
                      field "symbol" (str "BTC-USDT") (
                        field "timeframe" (str "1h") (
                          field "start_date" (str "2024-01-01")
                            (field "finish_date" (str "2024-06-01") end))))))
                  nil))
              end)))
        (field "work_item" (obj (field "operation" (str "significance") end)) end)))

execution_request_violations-Executable_example :
    (fs : Fields) × (obj request ≡ obj fs) × Executable fs
unfolding execution_request_violations experiment_violations route_violations field_violations
    objects_violations data_route_violations gate_violations work_item_violations
execution_request_violations-Executable_example =
    execution_request_violations-Executable same_value (obj request) refl

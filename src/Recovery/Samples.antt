-- ===== src/Recovery/Samples.antt =====
-- A blocked item of the old retry limit, which is taken back into analysis.
use algorithmic_trading_stra.Base.{String, Option, some, [], ◌∷◌}
use algorithmic_trading_stra.Base.Json.{Json.obj, end}
use algorithmic_trading_stra.Base.Outcome.{Result, ok}
use algorithmic_trading_stra.Models.{blocked, finished}
use algorithmic_trading_stra.Queue.Rows.{Database}
use algorithmic_trading_stra.Queue.Samples.{item, two_days}

abbrev legacy_day : Database
legacy_day = record two_days {
  work_items =
      record (item "B1" blocked [] (obj end)) {
        blocker_code = some "retry_limit_reached";
        blocker_detail = some "strategy_error after 3 attempts: division by zero";
      }
      ∷ item "B2" finished [] (obj end)
      ∷ [];
}

abbrev no_refresh : String → Database → Result (Unit {0})
no_refresh id db = ok tt

abbrev one_digest : String → Option String → String → String → String
one_digest item_id session code detail = "0123456789AB"

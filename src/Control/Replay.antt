-- ===== src/Control/Replay.antt =====
-- The log of control changes: the events that src/ats_lab/database.py and src/ats_lab/loop_control.py write
-- give back the state that the control row holds.
use mathlib.Core.Path.{subst}
use algorithmic_trading_stra.Base.{
  ◌⊎◌, ap, suc, select, some_or, ℕ, String, Bool, true, false, not, ◌&&◌, Option, none, some, List,
  [], ◌∷◌, ◌++◌, ◌≡◌, refl, sym, ◌∙◌, str_eq, eq_iff, if◌then◌else◌, arith, inl, inr, Bool-cases,
}
use algorithmic_trading_stra.Base.Int.{ℤ}
use algorithmic_trading_stra.Base.Json.{Json, Json.str, Json.obj, end, member}
use algorithmic_trading_stra.Base.Texts.{◌<>◌, strip}
use algorithmic_trading_stra.Models.{waiting_retry, is_state}
use algorithmic_trading_stra.Base.Outcome.{
  Error, Result, ok, err, value_error, runtime_error, ◌>>=◌, ◌>>◌, raise_if, or_raise, >>=-eq-ok,
  ok-inj,
}
use algorithmic_trading_stra.Queue.Rows.{Database, Event, WorkRow, add_item_event, update_items}
use algorithmic_trading_stra.Queue.Retries.{
  Delays, repair_row, repair_each, has_schedule, repair_relative_retry_schedules,
}
use algorithmic_trading_stra.Control.{
  Laboratory, OperatorControl, stored, set_control_state, is_control_state, pause, stop, start,
  replaced, launched, proceed, after_failure, started, after_repair, failure_control,
}

abbrev is_control_event : Event → Bool
is_control_event e = str_eq e.aggregate_type "supervisor" && str_eq e.event_type "control_changed"

abbrev text_or : String → Option Json → String
text_or s (some (str t)) = t
text_or s _ = s

-- The state that a log of events leads to.
abbrev pub last_control : String → List Event → String
last_control s [] = s
last_control s (e ∷ es) =
    last_control (if is_control_event e then text_or s (member "to" (some e.payload)) else s) es

last_control-append :
    (es : List Event) (s : String) (e : Event)
    → last_control s (es ++ e ∷ []) ≡ (
        if is_control_event e
        then text_or (last_control s es) (member "to" (some e.payload))
        else last_control s es)
last_control-append [] s e = refl
last_control-append (d ∷ es) s e = last_control-append es _ e

abbrev RowAgrees : String → Option OperatorControl → List Event → Type 0
RowAgrees s none es = Unit
RowAgrees s (some c) es = c.desired_state ≡ last_control s es

-- The control row, where it is there, holds the state that the log leads to.
abbrev pub Agrees : String → Laboratory → Type 0
Agrees s lab = RowAgrees s lab.operator_control lab.queue.events

stored-Agrees :
    (s desired by now : String) (previous : OperatorControl) (lab : Laboratory)
    → RowAgrees s (some previous) lab.queue.events
    → Agrees s (stored desired by now previous lab)
unfolding stored
stored-Agrees s desired by now previous lab h =
    go (Bool-cases (str_eq previous.desired_state desired))
  where
    go :
        (str_eq previous.desired_state desired ≡ true)
          ⊎ (str_eq previous.desired_state desired ≡ false)
        → desired ≡ last_control s (stored desired by now previous lab).queue.events
    go (inl e) =
        let same : previous.desired_state ≡ desired =
          ground (arith, eq_iff previous.desired_state desired) in
        rw e (sym same ∙ h)
    go (inr e) = rw e (sym (last_control-append lab.queue.events s _))

set_control_state-Agrees :
    (s desired by now : String) (lab lab' : Laboratory)
    → set_control_state desired by now lab ≡ ok lab'
    → Agrees s lab
    → Agrees s lab'
unfolding set_control_state
set_control_state-Agrees s desired by now lab lab' e h =
    go (is_control_state desired) lab.operator_control e h
  where
    go :
        (b : Bool) (c : Option OperatorControl)
        → (raise_if (not b) (value_error ("invalid control state: " <> desired))
            >> (or_raise c (runtime_error "operator control is not initialized") >>= λ previous.
                ok (stored desired by now previous lab)))
          ≡ ok lab'
        → RowAgrees s c lab.queue.events
        → Agrees s lab'
    go false c e h = cc
    go true none e h = cc
    go true (some c) e h = subst (Agrees s) (ok-inj e) (stored-Agrees s desired by now c lab h)

repair_row-log :
    (s : String) (delays : Delays) (now : String) (row : WorkRow) (db : Database) (n : ℕ)
    (r : Database × ℕ)
    → repair_row delays now row (db, n) ≡ ok r
    → last_control s r.0.events ≡ last_control s db.events
unfolding repair_row
repair_row-log s delays now row db n r e =
    go (delays.is_number (strip (some_or row.retry_after "")))
      (delays.resolve (strip (some_or row.retry_after ""))) e
  where
    go :
        (b : Bool) (m : Result String)
        → (if not b
            then ok (db, n)
            else (m >>= λ normalized. ok (
              add_item_event row.id "retry_schedule_normalized" (obj end) now (
                  update_items
                    (λ r. str_eq r.id row.id && is_state r.state waiting_retry)
                    (λ r. record r { retry_after = some normalized; updated_at = now })
                    db),
              suc n,
            )))
          ≡ ok r
        → last_control s r.0.events ≡ last_control s db.events
    go false m e = ap (λ (r : Database × ℕ). last_control s r.0.events) (sym (ok-inj e))
    go true (err m) e = cc
    go true (ok t) e =
        ap (λ (r : Database × ℕ). last_control s r.0.events) (sym (ok-inj e))
        ∙ last_control-append db.events s _

repair_each-log :
    (s : String) (delays : Delays) (now : String) (rows : List WorkRow) (q r : Database × ℕ)
    → repair_each delays now rows q ≡ ok r
    → last_control s r.0.events ≡ last_control s q.0.events
unfolding repair_each
repair_each-log s delays now [] q r e =
    ap (λ (r : Database × ℕ). last_control s r.0.events) (sym (ok-inj e))
repair_each-log s delays now (row ∷ rows) q r e =
    let parts = >>=-eq-ok _ _ e in
    repair_each-log s delays now rows parts.0 r parts.2
    ∙ repair_row-log s delays now row q.0 q.1 parts.0 parts.1

RowAgrees-log :
    (s : String) (c : Option OperatorControl) (es fs : List Event)
    → last_control s fs ≡ last_control s es
    → RowAgrees s c es
    → RowAgrees s c fs
RowAgrees-log s none es fs e h = tt
RowAgrees-log s (some c) es fs e h = h ∙ sym e

module _ (alive : ℤ → Bool) where
  replaced-Agrees :
      (s state : String) (n : ℕ) (r : Result Laboratory) (lab : Laboratory)
      → ((lab' : Laboratory) → r ≡ ok lab' → Agrees s lab')
      → Agrees s lab
      → Agrees s (replaced alive state n r lab).0
  replaced-Agrees s state n (ok lab') lab k h = k lab' refl
  replaced-Agrees s state n (err e) lab k h = h

  after_failure-Agrees :
      (s : String) (r : Result Laboratory) (e : Error) (lab : Laboratory)
      → ((lab' : Laboratory) → r ≡ ok lab' → Agrees s lab')
      → Agrees s lab
      → Agrees s (after_failure alive r e lab).0
  after_failure-Agrees s (ok lab') e lab k h = k lab' refl
  after_failure-Agrees s (err _) e lab k h = h

  set-Agrees :
      (s desired by now : String) (lab : Laboratory)
      → Agrees s lab
      → (lab' : Laboratory) → set_control_state desired by now lab ≡ ok lab'
      → Agrees s lab'
  set-Agrees s desired by now lab h lab' e = set_control_state-Agrees s desired by now lab lab' e h

  launched-Agrees :
      (s : String) (launch : Result ℤ) (n : ℕ) (previous now : String) (lab : Laboratory)
      → Agrees s lab
      → Agrees s (launched alive launch n previous now lab).0
  launched-Agrees s (ok pid) n previous now lab h = h
  launched-Agrees s (err e) n previous now lab h =
      after_failure-Agrees s _ e lab
        (set-Agrees s (failure_control previous) "loop:start_failed" now lab h) h

  proceed-Agrees :
      (s : String) (launch : Result ℤ) (n : ℕ) (now : String) (running : Bool) (previous : String)
      (r : Result Laboratory) (lab : Laboratory)
      → ((lab' : Laboratory) → r ≡ ok lab' → Agrees s lab')
      → Agrees s lab
      → Agrees s (proceed alive launch n now running previous r lab).0
  proceed-Agrees s launch n now running previous (err e) lab k h = h
  proceed-Agrees s launch n now true previous (ok lab') lab k h = k lab' refl
  proceed-Agrees s launch n now false previous (ok lab') lab k h =
      launched-Agrees s launch n previous now lab' (k lab' refl)

  started-Agrees :
      (s : String) (launch : Result ℤ) (n : ℕ) (now : String) (running : Bool)
      (c : Result OperatorControl) (lab : Laboratory)
      → Agrees s lab
      → Agrees s (started alive launch n now running c lab).0
  started-Agrees s launch n now running (err e) lab h = h
  started-Agrees s launch n now running (ok control) lab h =
      proceed-Agrees s launch n now running _ _ lab (set-Agrees s "running" "loop:start" now lab h)
        h

  after_repair-Agrees :
      (s : String) (launch : Result ℤ) (now : String) (r : Result (Database × ℕ)) (lab : Laboratory)
      → ((q : Database × ℕ)
          → r ≡ ok q
          → last_control s q.0.events ≡ last_control s lab.queue.events)
      → Agrees s lab
      → Agrees s (after_repair alive launch now r lab).0
  after_repair-Agrees s launch now (err e) lab k h = h
  after_repair-Agrees s launch now (ok q) lab k h =
      started-Agrees s launch q.1 now _ _ (record lab { queue = q.0 })
        (RowAgrees-log s lab.operator_control lab.queue.events q.0.events (k q refl) h)

-- A call of the loop's control: the time, which processes are alive, and what a launch would give.
pub data Call : Type 0 where
  call_start : Delays → (ℤ → Bool) → Result ℤ → String → Call
  call_pause : (ℤ → Bool) → String → Call
  call_stop : (ℤ → Bool) → String → Call

-- the state that a call leaves
unfoldable pub perform : Call → Laboratory → Laboratory
perform (call_start delays alive launch now) lab = (start alive delays launch now lab).0
perform (call_pause alive now) lab = (pause alive now lab).0
perform (call_stop alive now) lab = (stop alive now lab).0

unfoldable pub perform_all : List Call → Laboratory → Laboratory
perform_all [] lab = lab
perform_all (c ∷ cs) lab = perform_all cs (perform c lab)

perform-Agrees :
    (s : String) (c : Call) (lab : Laboratory) → Agrees s lab → Agrees s (perform c lab)
unfolding perform start pause stop repair_relative_retry_schedules
perform-Agrees s (call_start delays alive launch now) lab h =
    after_repair-Agrees alive s launch now _ lab
      (λ q e.
        repair_each-log s delays now (select has_schedule lab.queue.work_items) (lab.queue, 0) q e)
      h
perform-Agrees s (call_pause alive now) lab h =
    replaced-Agrees alive s "paused" 0 _ lab (set-Agrees alive s "paused" "loop:pause" now lab h) h
perform-Agrees s (call_stop alive now) lab h =
    replaced-Agrees alive s "stop_requested" 0 _ lab
      (set-Agrees alive s "stop_requested" "loop:stop" now lab h) h

-- Through any calls of start, pause and stop, launches that fail included, the control row holds the
-- state that the log of control events leads to from the first one.
pub perform_all-Agrees :
    (s : String) (calls : List Call) (lab : Laboratory)
    → Agrees s lab
    → Agrees s (perform_all calls lab)
unfolding perform_all
perform_all-Agrees s [] lab h = h
perform_all-Agrees s (c ∷ cs) lab h =
    perform_all-Agrees s cs (perform c lab) (perform-Agrees s c lab h)

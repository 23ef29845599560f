-- ===== src/Control/Starts.antt =====
-- What starting the loop does: `start` of src/ats_lab/loop_control.py beside a live supervisor, and when the
-- launch fails.
use mathlib.Core.Path.{subst}
use algorithmic_trading_stra.Base.{
  ℕ, String, Bool, true, false, Option, none, some, ◌≡◌, ◌≢◌, refl, sym, ◌∙◌, ap, str_eq, eq_iff,
  if◌then◌else◌, arith, inl, inr, Bool-cases,
}
use algorithmic_trading_stra.Base.Int.{ℤ}
use algorithmic_trading_stra.Base.Outcome.{Error, Result, ok, err}
use algorithmic_trading_stra.Queue.Rows.{Database}
use algorithmic_trading_stra.Queue.Retries.{Delays, repair_relative_retry_schedules}
use algorithmic_trading_stra.Control.{
  Laboratory, OperatorControl, LoopStatus, stored, set_control_state, is_control_state,
  control_status, start, is_running, proceed, started, after_repair, failure_control,
}

failure_control-not-running : (s : String) → failure_control s ≢ "running"
unfolding failure_control
failure_control-not-running s h = go (str_eq s "running") refl h
  where
    go : (b : Bool) → str_eq s "running" ≡ b → (if b then "paused" else s) ≡ "running" → ⊥
    go true e h = cc
    go false e h = let both : true ≡ false = ap (λ t. str_eq t "running") (sym h) ∙ e in cc

failure_control-is :
    (s : String) → is_control_state s ≡ true → is_control_state (failure_control s) ≡ true
unfolding failure_control is_control_state
failure_control-is s h = elim (Bool-cases (str_eq s "running")) [
  | inl e ↦ rw e refl
  | inr e ↦ rw e h
]

abbrev pub desired_of : Option OperatorControl → Option String
desired_of none = none
desired_of (some c) = some c.desired_state

not-empty : (s : String) → is_control_state s ≡ true → str_eq s "" ≡ false
unfolding is_control_state
not-empty s h = elim (Bool-cases (str_eq s "")) [
  | inl e ↦
      let empty : s ≡ "" = ground (arith, eq_iff s "") in
      cc (subst (λ t. is_control_state t ≡ true) empty h)
  | inr e ↦ e
]

set_control_state-ok :
    (desired by now : String) (lab : Laboratory) (c : OperatorControl)
    → is_control_state desired ≡ true
    → lab.operator_control ≡ some c
    → set_control_state desired by now lab ≡ ok (stored desired by now c lab)
unfolding set_control_state
set_control_state-ok desired by now lab c h e = rw h (rw e refl)

-- What a start leaves when its launch fails.
pub record StartFailed (previous : String) (e : Error) (left : Laboratory × Result LoopStatus)
    : Type 0 where
  pub raised : left.1 ≡ err e
  pub restored : desired_of left.0.operator_control ≡ some (failure_control previous)
  pub idle : desired_of left.0.operator_control ≢ some "running"

module _ (alive : ℤ → Bool) where
  -- A start whose launch fails raises the launch's error and puts the control back to the state that it
  -- had, or to "paused" where that was "running", so the control never says "running" with no supervisor;
  -- for a repair that succeeds, a stored control state that the schema admits, and no supervisor there.
  pub start-StartFailed :
      (delays : Delays) (e : Error) (now : String) (lab : Laboratory) (queue : Database) (n : ℕ)
      (control : OperatorControl)
      → repair_relative_retry_schedules delays now lab.queue ≡ ok (queue, n)
      → lab.operator_control ≡ some control
      → is_control_state control.desired_state ≡ true
      → is_running alive lab.supervisor_runtime ≡ false
      → StartFailed control.desired_state e (start alive delays (err e) now lab)
  unfolding start control_status stored is_control_state
  start-StartFailed delays e now lab queue n control hr hc hs hp =
      let before : Laboratory = record lab { queue = queue; operator_control = some control } in
      let asked : OperatorControl = record {
        desired_state = "running";
        updated_at = now;
        updated_by = "loop:start";
      } in
      let first = set_control_state-ok "running" "loop:start" now before control refl refl in
      let second =
        set_control_state-ok (failure_control control.desired_state) "loop:start_failed" now
          (stored "running" "loop:start" now control before) asked
          (failure_control-is control.desired_state hs) refl in
      rw hr (
        rw hc (
          rw hp (
            rw (not-empty control.desired_state hs) (
              rw first (
                rw second (record {
                  raised = refl;
                  restored = refl;
                  idle = λ h. failure_control-not-running control.desired_state cc;
                }))))))

  proceed-running :
      (launch launch' : Result ℤ) (n : ℕ) (now previous : String) (r : Result Laboratory)
      (lab : Laboratory)
      → proceed alive launch n now true previous r lab
        ≡ proceed alive launch' n now true previous r lab
  proceed-running launch launch' n now previous (ok _) lab = refl
  proceed-running launch launch' n now previous (err _) lab = refl

  started-running :
      (launch launch' : Result ℤ) (n : ℕ) (now : String) (c : Result OperatorControl)
      (lab : Laboratory)
      → started alive launch n now true c lab ≡ started alive launch' n now true c lab
  started-running launch launch' n now (ok c) lab =
      proceed-running launch launch' n now
        (if str_eq c.desired_state "" then "paused" else c.desired_state)
        (set_control_state "running" "loop:start" now lab) lab
  started-running launch launch' n now (err _) lab = refl

  after_repair-running :
      (launch launch' : Result ℤ) (now : String) (r : Result (Database × ℕ)) (lab : Laboratory)
      → is_running alive lab.supervisor_runtime ≡ true
      → after_repair alive launch now r lab ≡ after_repair alive launch' now r lab
  after_repair-running launch launch' now (ok q) lab h = rw h (
      started-running launch launch' q.1 now (control_status (record lab { queue = q.0 }))
        (record lab { queue = q.0 }))
  after_repair-running launch launch' now (err _) lab h = refl

  -- A start beside a live supervisor launches nothing: what it leaves and returns does not depend on what
  -- a launch would give.
  pub start-running :
      (delays : Delays) (launch launch' : Result ℤ) (now : String) (lab : Laboratory)
      → is_running alive lab.supervisor_runtime ≡ true
      → start alive delays launch now lab ≡ start alive delays launch' now lab
  unfolding start
  start-running delays launch launch' now lab h =
      after_repair-running launch launch' now (repair_relative_retry_schedules delays now lab.queue)
        lab h

-- ===== src/Executor/Justified.antt =====
-- What the classification of a session in src/ats_lab/direct_mcp_executor.py rests on.
use algorithmic_trading_stra.Base.{
  ℕ, String, Bool, true, false, not, ◌&&◌, leb, Option, none, some, str_eq, ◌≡◌, ◌⊎◌, inl, inr,
  refl, if◌then◌else◌,
}
use algorithmic_trading_stra.Base.Json.{Json, Fields}
use algorithmic_trading_stra.Base.Texts.{text_mem}
use algorithmic_trading_stra.Floats.{Floats}
use algorithmic_trading_stra.Executor.Session.{
  SessionState, terminal_success, terminal_failure, draft_not_started, active_execution,
  zombie_nonexecuting, temporarily_nonterminal, malformed_session, Texts, is_dict, terminal,
  waiting_statuses, live_state, idle_state, session_state, is_proven, results_of, metrics_of,
  status_of, has_evidence, bind_progress, executing_of, execution_error, none_or_zero,
  classify_jesse_session,
}

-- What is known of an observation: the classification's own columns, the metrics and the proof of
-- staleness.
abbrev pub Justified :
    SessionState → String → Json → Option Bool → Bool → Option Json → Option String → Bool → Type 0
Justified terminal_success status metrics executing evidence progress error proven =
    (str_eq status "finished" ≡ true) × (is_dict metrics ≡ true)
Justified terminal_failure status metrics executing evidence progress error proven =
    ((text_mem status terminal ≡ true) × (str_eq status "finished" ≡ false))
    ⊎ ((executing ≡ some false) × (e : String) × (error ≡ some e))
Justified draft_not_started status metrics executing evidence progress error proven =
    str_eq status "draft" ≡ true
Justified active_execution status metrics executing evidence progress error proven =
    (executing ≡ some true) × (text_mem status terminal ≡ false)
Justified zombie_nonexecuting status metrics executing evidence progress error proven =
    (str_eq status "running" ≡ true)
    × (executing ≡ some false)
    × (evidence ≡ false)
    × (none_or_zero progress ≡ true)
    × (error ≡ none)
    × (proven ≡ true)
Justified temporarily_nonterminal status metrics executing evidence progress error proven =
    (executing ≡ some false) × (error ≡ none) × (text_mem status terminal ≡ false)
Justified malformed_session status metrics executing evidence progress error proven =
    ((str_eq status "finished" ≡ true) × (is_dict metrics ≡ false))
    ⊎ ((executing ≡ none) ⊎ ((executing ≡ some false) × (error ≡ none)))

module _ (status : String) (metrics : Json) (evidence : Bool) (progress : Option Json)
    (proven : Bool) where
  idle-Justified :
      (error : Option String)
      → text_mem status terminal ≡ false
      → Justified
          (idle_state status evidence progress error proven)
          status
          metrics
          (some false)
          evidence
          progress
          error
          proven
  unfolding idle_state
  idle-Justified (some e) live = inr (refl, e, refl)
  idle-Justified none live =
      first (str_eq status "running") evidence (none_or_zero progress) proven refl refl refl refl
    where
      second :
          (d : Bool)
          → Justified
              (if d then temporarily_nonterminal else malformed_session)
              status
              metrics
              (some false)
              evidence
              progress
              none
              proven
      second true = (refl, refl, live)
      second false = inr (inr (refl, refl))

      first :
          (a b c p : Bool)
          → str_eq status "running" ≡ a
          → evidence ≡ b
          → none_or_zero progress ≡ c
          → proven ≡ p
          → Justified
              (if a && not b && c
                then if p then zombie_nonexecuting else temporarily_nonterminal
                else if text_mem status waiting_statuses
                then temporarily_nonterminal
                else malformed_session)
              status
              metrics
              (some false)
              evidence
              progress
              none
              proven
      first true false true true h i j k = (h, refl, i, j, refl, k)
      first true false true false h i j k = (refl, refl, live)
      first true false false p h i j k = second _
      first true true c p h i j k = second _
      first false b c p h i j k = second _

  live-Justified :
      (executing : Option Bool) (error : Option String)
      → text_mem status terminal ≡ false
      → Justified
          (live_state status executing evidence progress error proven)
          status
          metrics
          executing
          evidence
          progress
          error
          proven
  live-Justified none error live = inr (inl refl)
  live-Justified (some true) error live = (refl, live)
  live-Justified (some false) error live = idle-Justified error live

  state-Justified :
      (executing : Option Bool) (error : Option String)
      → Justified
          (session_state status metrics executing evidence progress error proven)
          status
          metrics
          executing
          evidence
          progress
          error
          proven
  unfolding session_state
  state-Justified executing error =
      go (str_eq status "finished") (is_dict metrics) (text_mem status terminal)
        (str_eq status "draft") refl refl refl refl
    where
      go :
          (a m t d : Bool)
          → str_eq status "finished" ≡ a
          → is_dict metrics ≡ m
          → text_mem status terminal ≡ t
          → str_eq status "draft" ≡ d
          → Justified
              (if a
                then if m then terminal_success else malformed_session
                else if t
                then if d then draft_not_started else terminal_failure
                else if d
                then draft_not_started
                else live_state status executing evidence progress error proven)
              status
              metrics
              executing
              evidence
              progress
              error
              proven
      go true true t d h i j k = (h, i)
      go true false t d h i j k = inl (h, i)
      go false m true true h i j k = k
      go false m true false h i j k = inl (j, h)
      go false m false true h i j k = k
      go false m false false h i j k = live-Justified executing error j

module _ (F : Floats) (T : Texts) where
  -- What each classification of a session rests on: success on the status finished and an object of metrics;
  -- failure on another terminal status, or on a session that does not execute and reports an error; a zombie
  -- on a session with status running that does not execute, without evidence, progress or error, once it was
  -- seen unchanged and stale as long as required; active on a session that says that it executes.
  pub classify_jesse_session-Justified :
      (session : Fields) (unchanged : ℕ) (stale grace : F.Float) (required : ℕ)
      → let c = classify_jesse_session F T session unchanged stale grace required in
        Justified c.state c.public_status
          (metrics_of session (results_of session))
          c.executing
          c.has_execution_evidence
          c.progress
          c.error
          (is_proven F T unchanged stale grace required)
  unfolding classify_jesse_session
  classify_jesse_session-Justified session unchanged stale grace required =
      state-Justified (status_of T session) (metrics_of session (results_of session))
        (has_evidence session (results_of session)) (bind_progress (results_of session))
        (leb required unchanged && F.le grace stale) (executing_of (results_of session))
        (execution_error session (results_of session))

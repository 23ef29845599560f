-- ===== src/Executor/Results/Accepted.antt =====
-- When `execution_result_violations` of src/ats_lab/direct_mcp_executor.py accepts a result.
use algorithmic_trading_stra.Base.{
  String, Bool, true, false, Option, none, some, List, [], ◌∷◌, ◌≡◌, refl, ap, ◌∙◌, if◌then◌else◌,
}
use algorithmic_trading_stra.Base.Json.{
  Json, Json.null, Json.num, Json.str, Json.arr, Json.obj, Fields,
}
use algorithmic_trading_stra.Base.Texts.{text_mem}
use algorithmic_trading_stra.Base.Outcome.{ok, >>=-eq-ok, ok-inj}
use algorithmic_trading_stra.Executor.Session.{get, is_dict, dict_of}
use algorithmic_trading_stra.Executor.Results.{
  is_filled_text, unless, statuses, in_statuses, is_optional_text, is_null, has_raw_keys, compared,
  raw_violations, view_violations, execution_result_violations,
}

module _ (same_json : Json → Json → Bool) where
  -- The raw result repeats the envelope.
  pub record Mirrors (view raw : Fields) : Type 0 where
    pub exact : has_raw_keys raw ≡ true
    pub session : same_json (get "session_id" raw) (get "session_id" view) ≡ true
    pub status : same_json (get "status" raw) (get "status" view) ≡ true
    pub metrics : same_json (get "metrics" raw) (get "metrics" view) ≡ true

  -- What a result without violations is: version 1 of the transport, with the texts of its item and
  -- session, a known status, metrics, no error, and a raw result that repeats the envelope.
  pub record Accepted (view : Fields) : Type 0 where
    pub version : same_json (get "schema_version" view) (num 1) ≡ true
    pub transport : same_json (get "transport" view) (str "jesse_mcp") ≡ true
    pub work_item : is_filled_text (get "work_item_id" view) ≡ true
    pub status : (s : String) × (get "status" view ≡ str s) × (text_mem s statuses ≡ true)
    pub session : is_filled_text (get "session_id" view) ≡ true
    pub dashboard : is_optional_text (get "dashboard_url" view) ≡ true
    pub metrics : is_dict (get "metrics" view) ≡ true
    pub no_error : is_null (get "error" view) ≡ true
    pub raw : (fs : Fields) × (dict_of (get "raw_result" view) ≡ some fs) × Mirrors view fs

  unless-[] :
      (b : Bool) (m : String) (rest : List String) → unless b m rest ≡ [] → (b ≡ true) × (rest ≡ [])
  unless-[] true m rest h = (refl, h)
  unless-[] false m rest h = cc

  known-status :
      (v : Json)
      → in_statuses v ≡ ok true
      → (s : String) × (v ≡ str s) × (text_mem s statuses ≡ true)
  known-status (str s) h = (s, refl, ok-inj h)
  known-status null h = cc
  known-status (Json.bool b) h = cc
  known-status (num n) h = cc
  known-status (Json.literal s) h = cc
  known-status (arr xs) h = cc
  known-status (obj fs) h = cc

  raw-Mirrors :
      (view : Fields) (o : Option Fields)
      → raw_violations same_json o (get "session_id" view) (get "status" view) (get "metrics" view)
        ≡ []
      → (fs : Fields) × (o ≡ some fs) × Mirrors view fs
  raw-Mirrors view none h = cc
  raw-Mirrors view (some fs) h = go (has_raw_keys fs) refl h
    where
      go :
          (b : Bool)
          → has_raw_keys fs ≡ b
          → (if b
              then compared same_json fs
                  (get "session_id" view)
                  (get "status" view)
                  (get "metrics" view)
              else "raw_result must contain exactly session_id, status, and metrics" ∷ [])
            ≡ []
          → (gs : Fields) × (some fs ≡ some gs) × Mirrors view gs
      go false k e = cc
      go true k e =
          let (a, e₁) = unless-[] _ _ _ e in
          let (b, e₂) = unless-[] _ _ _ e₁ in
          let (c, e₃) = unless-[] _ _ _ e₂ in
          (fs, refl, record { exact = k; session = a; status = b; metrics = c })

  view-Accepted :
      (view : Fields) (known : Bool)
      → in_statuses (get "status" view) ≡ ok known
      → view_violations same_json view known ≡ []
      → Accepted view
  view-Accepted view known s e =
      let (a, e₁) = unless-[] _ _ _ e in
      let (b, e₂) = unless-[] _ _ _ e₁ in
      let (c, e₃) = unless-[] _ _ _ e₂ in
      let (d, e₄) = unless-[] known _ _ e₃ in
      let (f, e₅) = unless-[] _ _ _ e₄ in
      let (g, e₆) = unless-[] _ _ _ e₅ in
      let (i, e₇) = unless-[] _ _ _ e₆ in
      let (j, e₈) = unless-[] _ _ _ e₇ in
      record {
        version = a;
        transport = b;
        work_item = c;
        status = known-status (get "status" view) (cc (s, d));
        session = f;
        dashboard = g;
        metrics = i;
        no_error = j;
        raw = raw-Mirrors view (dict_of (get "raw_result" view)) e₈;
      }

  no-violations-Accepted :
      (result : Json)
      → execution_result_violations same_json result ≡ ok []
      → (view : Fields) × (result ≡ obj view) × Accepted view
  unfolding execution_result_violations
  no-violations-Accepted (obj view) h =
      let (known, s, e) = >>=-eq-ok (in_statuses (get "status" view)) _ h in
      (view, refl, view-Accepted view known s (ok-inj e))
  no-violations-Accepted null h = cc
  no-violations-Accepted (Json.bool b) h = cc
  no-violations-Accepted (num n) h = cc
  no-violations-Accepted (Json.literal s) h = cc
  no-violations-Accepted (str s) h = cc
  no-violations-Accepted (arr xs) h = cc

  Accepted-no-violations :
      (view : Fields) → Accepted view → execution_result_violations same_json (obj view) ≡ ok []
  unfolding execution_result_violations
  Accepted-no-violations view a =
      let (s, t, k) = a.status in
      let (fs, r, m) = a.raw in
      let known : in_statuses (get "status" view) ≡ ok true = rw t (ap (λ b. ok b) k) in
      let raw : raw_violations same_json (dict_of (get "raw_result" view)) (get "session_id" view)
            (get "status" view) (get "metrics" view)
          ≡ [] =
        rw r (rw m.exact (rw m.session (rw m.status (rw m.metrics refl)))) in
      rw known (
        rw a.version (
          rw a.transport (
            rw a.work_item
              (rw a.session (rw a.dashboard (rw a.metrics (rw a.no_error (ap (λ v. ok v) raw))))))))

  -- A result has no violations exactly where it is an object with schema version 1 and transport
  -- "jesse_mcp", a filled item id and session id, a known status, metrics, no error and a dashboard
  -- address that is text where it is given, and whose raw result has exactly the keys of a session, its
  -- status and its metrics and repeats the values of the envelope.
  pub execution_result_violations-Accepted :
      (result : Json)
      → (execution_result_violations same_json result ≡ ok []
          → (view : Fields) × (result ≡ obj view) × Accepted view)
        × ((view : Fields)
            → result ≡ obj view
            → Accepted view
            → execution_result_violations same_json result ≡ ok [])
  execution_result_violations-Accepted result = (
    no-violations-Accepted result,
    λ view e a. ap (λ r. execution_result_violations same_json r) e ∙ Accepted-no-violations view a,
  )

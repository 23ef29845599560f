-- ===== src/Gates/Findings.antt =====
-- The lists of gate names that an evaluation fills, and `list(dict.fromkeys(names))`.
use algorithmic_trading_stra.Base.{
  String, Bool, true, false, not, str_eq, select, ◌&&◌, List, [], ◌∷◌, ◌++◌, ◌≡◌, ◌≢◌, refl,
  if◌then◌else◌, arith,
}
use algorithmic_trading_stra.Base.Texts.{text_mem}

pub record Findings : Type 0 where
  pub passed : List String
  pub failed : List String
  pub missing : List String

abbrev pub no_findings : Findings
no_findings = record { passed = []; failed = []; missing = [] }

-- what one gate says
pub data Outcome : Type 0 where
  passes fails lacks : Outcome

-- `(passed | failed | missing).append(name)`
unfoldable pub mark : String → Outcome → Findings → Findings
mark name passes f = record f { passed = f.passed ++ name ∷ [] }
mark name fails f = record f { failed = f.failed ++ name ∷ [] }
mark name lacks f = record f { missing = f.missing ++ name ∷ [] }

-- Nothing failed and nothing is missing.
abbrev pub IsClean : Findings → Type 0
IsClean f = (f.failed ≡ []) × (f.missing ≡ [])

append-not-nil : {A : Type 0} (xs : List A) (y : A) → (xs ++ y ∷ []) ≡ [] → ⊥
append-not-nil [] y e = cc
append-not-nil (x ∷ xs) y e = cc

-- A gate leaves the findings clean only where it passes.
pub mark-IsClean :
    (name : String) (o : Outcome) (f : Findings)
    → IsClean (mark name o f)
    → IsClean f × (o ≡ passes)
unfolding mark
mark-IsClean name passes f h = ((h.0, h.1), refl)
mark-IsClean name fails f h = absurd (append-not-nil f.failed name h.0)
mark-IsClean name lacks f h = absurd (append-not-nil f.missing name h.1)

-- `dict.fromkeys`: each name once, where it first stands
unfoldable pub dedupe_from : List String → List String → List String
dedupe_from seen [] = []
dedupe_from seen (x ∷ xs) = elim (text_mem x seen) [
  | true ↦ dedupe_from seen xs
  | false ↦ x ∷ dedupe_from (x ∷ seen) xs
]

unfoldable pub dedupe : List String → List String
unfolding dedupe_from
dedupe = dedupe_from []

-- A gate that marks nothing where it passes.
unfoldable pub note : String → Outcome → Findings → Findings
note name passes f = f
note name fails f = record f { failed = f.failed ++ name ∷ [] }
note name lacks f = record f { missing = f.missing ++ name ∷ [] }

pub note-IsClean :
    (name : String) (o : Outcome) (f : Findings)
    → IsClean (note name o f)
    → IsClean f × (o ≡ passes)
unfolding note
note-IsClean name passes f h = (h, refl)
note-IsClean name fails f h = absurd (append-not-nil f.failed name h.0)
note-IsClean name lacks f h = absurd (append-not-nil f.missing name h.1)

-- `failed.append(name)` under a test
abbrev pub fail_if : Bool → String → Findings → Findings
fail_if b name f = note name (if b then fails else passes) f

-- the decision of `evaluate_promotion` and of `evaluate_hpo_candidate`
pub record Decision : Type 0 where
  pub allowed : Bool
  pub failed : List String
  pub missing : List String

abbrev pub is_nil : List String → Bool
is_nil [] = true
is_nil (_ ∷ _) = false

unfoldable pub decide : Findings → Decision
unfolding dedupe
decide f = record {
  allowed = is_nil (dedupe f.failed) && is_nil (dedupe f.missing);
  failed = dedupe f.failed;
  missing = dedupe f.missing;
}

pub dedupe-nil : (xs : List String) → is_nil (dedupe xs) ≡ true → xs ≡ []
unfolding dedupe dedupe_from
dedupe-nil [] h = refl
dedupe-nil (x ∷ xs) h = cc

-- What is allowed had no finding against it.
pub decide-IsClean : (f : Findings) → (decide f).allowed ≡ true → IsClean f
unfolding decide
decide-IsClean f h = (dedupe-nil f.failed (ground arith), dedupe-nil f.missing (ground arith))

-- `gate for gate in names if gate != "fees_cost_sensitivity"`
abbrev pub without_cost : List String → List String
without_cost = select (λ g. not (str_eq g "fees_cost_sensitivity"))

-- Nothing failed, and only the cost evidence may be missing.
abbrev pub IsCleanButCost : Findings → Type 0
IsCleanButCost f = (f.failed ≡ []) × (without_cost f.missing ≡ [])

select-append :
    (p : String → Bool) (xs : List String) (y : String)
    → select p (xs ++ y ∷ []) ≡ []
    → (select p xs ≡ []) × (p y ≡ false)
select-append p [] y e = ground arith
select-append p (x ∷ xs) y e = ground (arith, select-append p xs y)

pub IsClean→IsCleanButCost : (f : Findings) → IsClean f → IsCleanButCost f
IsClean→IsCleanButCost f h = (h.0, rw h.1 refl)

-- A gate of another name leaves them so only where it passes.
pub mark-IsCleanButCost :
    (name : String) (o : Outcome) (f : Findings)
    → not (str_eq name "fees_cost_sensitivity") ≡ true
    → IsCleanButCost (mark name o f)
    → IsCleanButCost f × (o ≡ passes)
unfolding mark
mark-IsCleanButCost name passes f e h = ((h.0, h.1), refl)
mark-IsCleanButCost name fails f e h = absurd (append-not-nil f.failed name h.0)
mark-IsCleanButCost name lacks f e h =
    ground
      (arith, select-append (λ g. not (str_eq g "fees_cost_sensitivity")) f.missing name h.1, e)

pub mark_cost-IsCleanButCost :
    (o : Outcome) (f : Findings)
    → IsCleanButCost (mark "fees_cost_sensitivity" o f)
    → IsCleanButCost f × (o ≢ fails)
unfolding mark
mark_cost-IsCleanButCost passes f h = ((h.0, h.1), λ e. cc)
mark_cost-IsCleanButCost fails f h = absurd (append-not-nil f.failed "fees_cost_sensitivity" h.0)
mark_cost-IsCleanButCost lacks f h = (
  (
    h.0,
    (select-append (λ g. not (str_eq g "fees_cost_sensitivity")) f.missing "fees_cost_sensitivity"
        h.1).0,
  ),
  λ e. cc,
)

pub append-nil : (xs ys : List String) → (xs ++ ys) ≡ [] → (xs ≡ []) × (ys ≡ [])
append-nil [] ys h = (refl, h)
append-nil (x ∷ xs) ys h = cc

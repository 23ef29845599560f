-- ===== src/Queue/Validations/Follows.antt =====
-- How the updates of `reconcile_hpo_validation_jobs` of src/ats_lab/database_hpo.py bring each job in line.
use algorithmic_trading_stra.Base.{
  Bool, true, false, ◌||◌, Option, none, some, List, [], ◌∷◌, ◌≡◌, ◌⊎◌, inl, inr, refl, sym, arith,
  str_eq, eq_refl, eq_iff, if◌then◌else◌, any, All, update_where, Bool-cases,
}
use algorithmic_trading_stra.Models.{state_value}
use algorithmic_trading_stra.Queue.Rows.{WorkRow, ValidationJob, Database}
use algorithmic_trading_stra.Queue.Invariant.{All-map}
use algorithmic_trading_stra.Queue.Validations.{
  is_terminal, item_of, is_misaligned, misaligned_jobs, aligned, align_each,
}

-- PRIMARY KEY: two jobs of one id are the same
abbrev pub IsKeyed : List ValidationJob → Type 0
IsKeyed jobs =
    All (λ (u : ValidationJob). All (λ (v : ValidationJob). str_eq v.id u.id ≡ true → v ≡ u) jobs)
      jobs

module _ (items : List WorkRow) where
  -- the job follows its item
  abbrev pub Follows : ValidationJob → Type 0
  Follows v = (w : WorkRow) → item_of items v.work_item_id ≡ some w → is_misaligned v w ≡ false

  abbrev pub Awaits : List (ValidationJob × WorkRow) → ValidationJob → Type 0
  Awaits rows v = any (λ (r : ValidationJob × WorkRow). str_eq r.0.id v.id) rows ≡ true

  -- a row joins its item to every job of its id
  abbrev pub Joins : List ValidationJob → ValidationJob × WorkRow → Type 0
  Joins jobs r =
      All
        (λ (v : ValidationJob). str_eq v.id r.0.id ≡ true → item_of items v.work_item_id ≡ some r.1)
        jobs

  abbrev pub Covered : List (ValidationJob × WorkRow) → List ValidationJob → Type 0
  Covered rows jobs = All (λ (x : ValidationJob). Follows x ⊎ Awaits rows x) jobs

  aligned-Follows :
      (v : ValidationJob) (w : WorkRow)
      → item_of items v.work_item_id ≡ some w
      → Follows (aligned w v)
  unfolding is_misaligned
  aligned-Follows v w e x k =
      let same : w ≡ x = cc in
      rw (sym same) (elim (Bool-cases (is_terminal w)) [
        | inl t ↦ ground (arith, t, eq_refl (state_value w.state))
        | inr t ↦ ground (arith, t, eq_refl (state_value w.state))
      ])

  rows-All :
      (P : ValidationJob × WorkRow → Type 0) (jobs : List ValidationJob)
      → All
          (λ (v : ValidationJob). (w : WorkRow) → item_of items v.work_item_id ≡ some w → P (v, w))
          jobs
      → All P (misaligned_jobs items jobs)
  unfolding misaligned_jobs
  rows-All P [] a = tt
  rows-All P (v ∷ vs) a = go (item_of items v.work_item_id) refl (rows-All P vs a.1)
    where
      pick :
          (w : WorkRow) (b : Bool)
          → P (v, w)
          → All P (misaligned_jobs items vs)
          → All P (if b then (v, w) ∷ misaligned_jobs items vs else misaligned_jobs items vs)
      pick w true p rest = (p, rest)
      pick w false p rest = rest

      go :
          (o : Option WorkRow)
          → item_of items v.work_item_id ≡ o
          → All P (misaligned_jobs items vs)
          → All P (elim o [
            | none ↦ misaligned_jobs items vs
            | some w ↦
                if is_misaligned v w
                then (v, w) ∷ misaligned_jobs items vs
                else misaligned_jobs items vs
          ])
      go none e rest = rest
      go (some w) e rest = pick w (is_misaligned v w) (a.0 w e) rest

  -- each job follows its item or is among the rows
  pub rows_cover :
      (jobs : List ValidationJob)
      → All (λ (v : ValidationJob). Follows v ⊎ Awaits (misaligned_jobs items jobs) v) jobs
  unfolding misaligned_jobs
  rows_cover [] = tt
  rows_cover (v ∷ vs) = go (item_of items v.work_item_id) refl (rows_cover vs)
    where
      pick :
          (w : WorkRow) (b : Bool)
          → item_of items v.work_item_id ≡ some w
          → is_misaligned v w ≡ b
          → Covered (misaligned_jobs items vs) vs
          → All
              (λ (x : ValidationJob).
                Follows x
                ⊎ Awaits
                    (if b then (v, w) ∷ misaligned_jobs items vs else misaligned_jobs items vs)
                    x)
              (v ∷ vs)
      pick w true e m rest = (
        inr (ground (arith, eq_refl v.id)),
        All-map _ _ vs (λ x h. elim h [ inl f ↦ inl f | inr t ↦ inr (ground (arith, t)) ]) rest,
      )
      pick w false e m rest = (inl (λ x k. let same : w ≡ x = cc in rw (sym same) m), rest)

      go :
          (o : Option WorkRow)
          → item_of items v.work_item_id ≡ o
          → Covered (misaligned_jobs items vs) vs
          → All
              (λ (x : ValidationJob).
                Follows x
                ⊎ Awaits
                    (elim o [
                      | none ↦ misaligned_jobs items vs
                      | some w ↦
                          if is_misaligned v w
                          then (v, w) ∷ misaligned_jobs items vs
                          else misaligned_jobs items vs
                    ])
                    x)
              (v ∷ vs)
      go none e rest = (inl (λ w k. cc), rest)
      go (some w) e rest = pick w (is_misaligned v w) e refl rest

  nothing_misaligned :
      (jobs : List ValidationJob) → All Follows jobs → misaligned_jobs items jobs ≡ []
  unfolding misaligned_jobs
  nothing_misaligned [] a = refl
  nothing_misaligned (v ∷ vs) a = go (item_of items v.work_item_id) refl (nothing_misaligned vs a.1)
    where
      go :
          (o : Option WorkRow)
          → item_of items v.work_item_id ≡ o
          → misaligned_jobs items vs ≡ []
          → (elim o [
            | none ↦ misaligned_jobs items vs
            | some w ↦
                if is_misaligned v w
                then (v, w) ∷ misaligned_jobs items vs
                else misaligned_jobs items vs
          ])
            ≡ []
      go none e rest = rest
      go (some w) e rest = rw (a.0 w e) rest

  abbrev turned : ValidationJob × WorkRow → List ValidationJob → List ValidationJob
  turned r jobs = update_where (λ (x : ValidationJob). str_eq x.id r.0.id) (aligned r.1) jobs

  -- an update keeps the ids and the items of the jobs
  turned-Joins :
      (r s : ValidationJob × WorkRow) (jobs : List ValidationJob)
      → Joins jobs s
      → Joins (turned r jobs) s
  turned-Joins r s [] j = tt
  turned-Joins r s (v ∷ vs) j = (go (str_eq v.id r.0.id), turned-Joins r s vs j.1)
    where
      go :
          (b : Bool)
          → str_eq (if b then aligned r.1 v else v).id s.0.id ≡ true
          → item_of items (if b then aligned r.1 v else v).work_item_id ≡ some s.1
      go true h = j.0 h
      go false h = j.0 h

  turned-Covered :
      (r : ValidationJob × WorkRow) (rows : List (ValidationJob × WorkRow))
      (jobs : List ValidationJob)
      → Joins jobs r
      → Covered (r ∷ rows) jobs
      → Covered rows (turned r jobs)
  turned-Covered r rows [] j c = tt
  turned-Covered r rows (v ∷ vs) j c =
      (go (str_eq v.id r.0.id) refl c.0, turned-Covered r rows vs j.1 c.1)
    where
      go :
          (b : Bool)
          → str_eq v.id r.0.id ≡ b
          → Follows v ⊎ Awaits (r ∷ rows) v
          → Follows (if b then aligned r.1 v else v) ⊎ Awaits rows (if b then aligned r.1 v else v)
      go true e h = inl (aligned-Follows v r.1 (j.0 e))
      go false e (inl f) = inl f
      go false e (inr t) = inr (other (str_eq r.0.id v.id) refl t)
        where
          other :
              (b : Bool)
              → str_eq r.0.id v.id ≡ b
              → (b || any (λ (x : ValidationJob × WorkRow). str_eq x.0.id v.id) rows) ≡ true
              → Awaits rows v
          other true k t =
              let same : r.0.id ≡ v.id = (eq_iff r.0.id v.id).0 k in
              let again : str_eq v.id r.0.id ≡ true = (eq_iff v.id r.0.id).1 (sym same) in cc
          other false k t = t

  pub align_each-Follows :
      (rows : List (ValidationJob × WorkRow)) (db : Database)
      → All (Joins db.hpo_validation_jobs) rows
      → Covered rows db.hpo_validation_jobs
      → All Follows (align_each rows db).hpo_validation_jobs
  unfolding align_each
  align_each-Follows [] db j c =
      All-map _ Follows db.hpo_validation_jobs (λ v h. elim h [ inl f ↦ f | inr t ↦ cc ]) c
  align_each-Follows (r ∷ rows) db j c =
      align_each-Follows rows (record db { hpo_validation_jobs = turned r db.hpo_validation_jobs })
        (All-map (Joins db.hpo_validation_jobs) (Joins (turned r db.hpo_validation_jobs)) rows
          (λ s h. turned-Joins r s db.hpo_validation_jobs h) j.1)
        (turned-Covered r rows db.hpo_validation_jobs j.0 c)

  -- the rows that a keyed table gives join each job of their id
  pub keyed-Joins :
      (jobs : List ValidationJob) → IsKeyed jobs → All (Joins jobs) (misaligned_jobs items jobs)
  keyed-Joins jobs keyed = rows-All (Joins jobs) jobs (
      All-map _ _ jobs
        (λ u same w e. All-map _ _ jobs (λ v h t. let one : v ≡ u = h t in rw one e) same) keyed)

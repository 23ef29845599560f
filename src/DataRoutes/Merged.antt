-- ===== src/DataRoutes/Merged.antt =====
-- What the merge of data routes in src/ats_lab/strategy_dependencies.py holds.
use algorithmic_trading_stra.Base.{
  String, Bool, true, false, List, [], ◌∷◌, ◌++◌, any, All, ◌≡◌, ◌∙◌, refl, arith, any-append,
  if◌then◌else◌, sym,
}
use algorithmic_trading_stra.Base.Json.{Json, Fields}
use algorithmic_trading_stra.Base.Outcome.{ok, >>=-eq-ok, ok-inj}
use algorithmic_trading_stra.Queue.Invariant.{All-map}
use algorithmic_trading_stra.DataRoutes.{
  DataRouteSpec, ManifestRoute, equal_route, add_route, add_routes, required_data_routes,
  merge_data_routes, coerce_sources,
}

module _ (same_json : Json → Json → Bool) where
  abbrev same : DataRouteSpec → DataRouteSpec → Bool
  same = equal_route same_json

  -- no route equals an earlier one
  abbrev pub Fresh : List DataRouteSpec → List DataRouteSpec → Type 0
  Fresh earlier [] = Unit
  Fresh earlier (r ∷ rs) = (any (same r) earlier ≡ false) × Fresh (earlier ++ r ∷ []) rs

  abbrev pub Unrepeated : List DataRouteSpec → Type 0
  Unrepeated = Fresh []

  Fresh-snoc :
      (earlier rs : List DataRouteSpec) (x : DataRouteSpec)
      → Fresh earlier rs
      → any (same x) (earlier ++ rs) ≡ false
      → Fresh earlier (rs ++ x ∷ [])
  Fresh-snoc earlier [] x f n = (ground (arith, n, any-append (same x) earlier []), tt)
  Fresh-snoc earlier (r ∷ rs) x f n = (f.0, Fresh-snoc (earlier ++ r ∷ []) rs x f.1 (assoc ∙ n))
    where
      assoc : any (same x) ((earlier ++ r ∷ []) ++ rs) ≡ any (same x) (earlier ++ r ∷ rs)
      assoc =
          any-append (same x) (earlier ++ r ∷ []) rs
          ∙ ground
              (arith, any-append (same x) earlier (r ∷ []), any-append (same x) earlier (r ∷ rs))

  add_routes-Unrepeated :
      (rs ms : List DataRouteSpec) → Unrepeated ms → Unrepeated (add_routes same_json rs ms)
  unfolding add_routes
  add_routes-Unrepeated [] ms u = u
  add_routes-Unrepeated (r ∷ rs) ms u =
      add_routes-Unrepeated rs (add_route same_json r ms) (go (any (same r) ms) refl)
    where
      go : (b : Bool) → any (same r) ms ≡ b → Unrepeated (if b then ms else ms ++ r ∷ [])
      go true e = u
      go false e = Fresh-snoc [] ms r u e

  -- the routes that were there stay, in front
  add_routes-keeps :
      (q : DataRouteSpec → Bool) (rs ms : List DataRouteSpec)
      → any q ms ≡ true
      → any q (add_routes same_json rs ms) ≡ true
  unfolding add_routes
  add_routes-keeps q [] ms h = h
  add_routes-keeps q (r ∷ rs) ms h =
      add_routes-keeps q rs (add_route same_json r ms) (go (any (same r) ms))
    where
      go : (b : Bool) → any q (if b then ms else ms ++ r ∷ []) ≡ true
      go true = h
      go false = ground (arith, h, any-append q ms (r ∷ []))

  -- `r` equals one of the routes
  abbrev pub IsIn : List DataRouteSpec → DataRouteSpec → Type 0
  IsIn ms r = any (same r) ms ≡ true

  module _ (same-refl : (a : Json) → same_json a a ≡ true) where
    add_routes-IsIn : (rs ms : List DataRouteSpec) → All (IsIn (add_routes same_json rs ms)) rs
    unfolding add_routes
    add_routes-IsIn [] ms = tt
    add_routes-IsIn (r ∷ rs) ms = (
      add_routes-keeps (same r) rs (add_route same_json r ms) (go (any (same r) ms) refl),
      add_routes-IsIn rs (add_route same_json r ms),
    )
      where
        go : (b : Bool) → any (same r) ms ≡ b → any (same r) (if b then ms else ms ++ r ∷ []) ≡ true
        go true e = e
        go false e = ground (
          arith,
          any-append (same r) ms (r ∷ []),
          same-refl r.exchange,
          same-refl r.symbol,
          same-refl r.timeframe,
        )

    -- the merge of explicit and required routes
    pub record Merged (explicit required merged : List DataRouteSpec) : Type 0 where
      pub unrepeated : Unrepeated merged
      pub all_explicit : All (IsIn merged) explicit
      pub all_required : All (IsIn merged) required

    -- A merge that succeeds repeats no route, and holds every explicit route of the sources and every
    -- route that the manifest requires of the strategy, if equality of JSON is reflexive.
    pub merge_data_routes-Merged :
        (manifest : String → List ManifestRoute) (strategy : String) (primary : List Fields)
        (sources : List Json) (merged : List DataRouteSpec)
        → merge_data_routes same_json manifest strategy primary sources ≡ ok merged
        → (explicit : List DataRouteSpec) × (coerce_sources 0 sources ≡ ok explicit)
          × Merged explicit (required_data_routes same_json manifest strategy primary) merged
    unfolding merge_data_routes
    merge_data_routes-Merged manifest strategy primary sources merged e =
        let (explicit, c, d) = >>=-eq-ok (coerce_sources 0 sources) _ e in
        let required = required_data_routes same_json manifest strategy primary in
        let eq : add_routes same_json required (add_routes same_json explicit []) ≡ merged =
          ok-inj d in
        (
          explicit,
          c,
          rw (sym eq) (record {
            unrepeated =
                add_routes-Unrepeated required (add_routes same_json explicit [])
                  (add_routes-Unrepeated explicit [] tt);
            all_explicit =
                All-map (IsIn (add_routes same_json explicit []))
                  (IsIn (add_routes same_json required (add_routes same_json explicit []))) explicit
                  (λ r h. add_routes-keeps (same r) required (add_routes same_json explicit []) h)
                  (add_routes-IsIn explicit []);
            all_required = add_routes-IsIn required (add_routes same_json explicit []);
          }),
        )

-- ===== src/Checkers/Results/Runner.antt =====
-- What the fan-out leaves in the map of results.
use ciel_sol.Base.{
  ℕ, zero, suc, ◌≡◌, refl, Bool, false, Bool-cases, Option, none, some, List, [], ◌∷◌, String,
  str_eq, str_eq_iff, if◌then◌else◌, map, get_elem?, drop, All, arith, inl, inr, ap, ◌∙◌, subst,
}
use ciel_sol.Checkers.Types.{CheckerOutput}
use ciel_sol.Checkers.Results.{
  CheckerStatus, completed, timed_out, CheckerContext, Checker, run_one, put, collect, run_checkers,
  lookup, completed_outputs,
}

lookup-put :
    (m : List (String × CheckerStatus)) (e : String × CheckerStatus) (k : String)
    → lookup (put m e) k ≡ (if str_eq e.0 k then some e.1 else lookup m k)
unfolding lookup put
lookup-put [] e k = refl
lookup-put (d ∷ m) e k =
    ground (arith, lookup-put m e k, str_eq_iff d.0 e.0, str_eq_iff d.0 k, str_eq_iff e.0 k)

-- The last of the entries with a name.
latest : Option CheckerStatus → List (String × CheckerStatus) → String → Option CheckerStatus
latest o [] k = o
latest o (e ∷ es) k = latest (if str_eq e.0 k then some e.1 else o) es k

lookup-collect :
    (m es : List (String × CheckerStatus)) (k : String)
    → lookup (collect m es) k ≡ latest (lookup m k) es k
unfolding collect latest
lookup-collect m [] k = refl
lookup-collect m (e ∷ es) k =
    lookup-collect (put m e) es k ∙ ap (λ o. latest o es k) (lookup-put m e k)

-- A checker's status.
abbrev pub status_of : (Checker → Bool) → CheckerContext → Checker → CheckerStatus
status_of in_time ctx c = if in_time c then completed (c.check ctx) else timed_out

module _ (in_time : Checker → Bool) (ctx : CheckerContext) where
  run_one-status_of : (c : Checker) → run_one in_time ctx c ≡ (c.name, status_of in_time ctx c)
  unfolding run_one
  run_one-status_of c = ground arith

  latest-other :
      (o : Option CheckerStatus) (cs : List Checker) (k : String)
      → All (λ d. str_eq d.name k ≡ false) cs
      → latest o (map (run_one in_time ctx) cs) k ≡ o
  unfolding latest
  latest-other o [] k h = refl
  latest-other o (d ∷ cs) k h = rw (run_one-status_of d, h.0) (latest-other o cs k h.1)

  latest-run_one :
      (o : Option CheckerStatus) (cs : List Checker) (i : ℕ) (c : Checker)
      → get_elem? cs i ≡ some c
      → All (λ d. str_eq d.name c.name ≡ false) (drop (suc i) cs)
      → latest o (map (run_one in_time ctx) cs) c.name ≡ some (status_of in_time ctx c)
  unfolding latest
  latest-run_one o [] i c h k = cc
  latest-run_one o (d ∷ cs) zero c h k =
      let q : d ≡ c = cc in
      rw (run_one-status_of d, q, (str_eq_iff c.name c.name).1 refl)
        (latest-other (some (status_of in_time ctx c)) cs c.name k)
  latest-run_one o (d ∷ cs) (suc i) c h k =
      latest-run_one
        (if str_eq (run_one in_time ctx d).0 c.name then some (run_one in_time ctx d).1 else o) cs i
        c h k

  -- The fan-out holds under a checker's name its output where it ends in time and TimedOut where it
  -- does not, if no later checker of the list has that name.
  pub lookup-run_checkers :
      (elapsed_ms : ℕ) (cs : List Checker) (i : ℕ) (c : Checker)
      → get_elem? cs i ≡ some c
      → All (λ d. str_eq d.name c.name ≡ false) (drop (suc i) cs)
      → lookup (run_checkers in_time elapsed_ms ctx cs).outputs c.name
        ≡ some (if in_time c then completed (c.check ctx) else timed_out)
  unfolding run_checkers lookup
  lookup-run_checkers elapsed_ms cs i c h k =
      lookup-collect [] (map (run_one in_time ctx) cs) c.name ∙ latest-run_one none cs i c h k

completed_inj : (x o : CheckerOutput) → some (completed x) ≡ some (completed o) → x ≡ o
completed_inj x o h = cc

-- What holds of each output that completed holds of the one that is looked up.
pub All-lookup :
    (P : CheckerOutput → Type 0) (m : List (String × CheckerStatus)) (k : String)
    (o : CheckerOutput)
    → lookup m k ≡ some (completed o)
    → All P (completed_outputs m)
    → P o
unfolding lookup
All-lookup P [] k o h a = cc
All-lookup P ((j, completed x) ∷ m) k o h a = elim (Bool-cases (str_eq j k)) [
  | inl e ↦ let q : x ≡ o = completed_inj x o (rw e at h) in subst P q a.0
  | inr e ↦ All-lookup P m k o (rw e at h) a.1
]
All-lookup P ((j, timed_out) ∷ m) k o h a = elim (Bool-cases (str_eq j k)) [
  | inl e ↦ ground (arith, e)
  | inr e ↦ All-lookup P m k o (rw e at h) a
]

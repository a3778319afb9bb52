-- ===== src/Checkers/Authority/Handoff.antt =====
-- What the checker never lets pass: a change of authority, and one that names a known protocol.
use ciel_sol.Base.{
  zero, suc, get_elem?, subst, ap, ℕ, ◌≤◌, ◌≡◌, refl, Bool, true, Option, none, some, List, [], ◌∷◌,
  if◌then◌else◌, is_some, map, arith, inl, inr, Option-cases, Bool-cases, All, All-imp, All-zip,
  ◌≢◌,
}
use ciel_sol.Checkers.Json.{Pubkey, get, get-remove}
use ciel_sol.Checkers.Types.{severity_u8, Flag, CpiCall, Intent}
use ciel_sol.Checkers.Registry.{ProgramRegistry, is_known_protocol, squads_v4_program_id}
use ciel_sol.Checkers.Results.{CheckerContext}
use ciel_sol.Checkers.Authority.Severity.{max_severity-ge}
use ciel_sol.Checkers.Authority.Match.{
  match_call, match_squads_proxy, find_target, find_name, lookup_known_protocol_in_call,
  has_durable_nonce_precursor,
}
use ciel_sol.Checkers.Authority.Check.{strip, check}
use ciel_sol.Checkers.Authority.Refine.{
  max_list, matched, names_protocol, effective, severities, effective-ge_low, effective-known,
  check-severity,
}

-- The public flags carry no scratch field.
strip-get : (flag : Flag) → get (strip flag).fields "computed_severity" ≡ none
unfolding strip
strip-get flag = rw get-remove refl

pub strip-All :
    (flags : List Flag) → All (λ f. get f.fields "computed_severity" ≡ none) (map strip flags)
strip-All [] = tt
strip-All (f ∷ fs) = (strip-get f, strip-All fs)

find_target-some :
    (registry : ProgramRegistry) (pks : List Pubkey)
    → All
        (λ pk.
          pk ≢ squads_v4_program_id
          → is_some (is_known_protocol registry pk) ≡ true
          → is_some (find_target registry pks) ≡ true)
        pks
unfolding find_target
find_target-some registry [] = tt
find_target-some registry (pk ∷ pks) = (
  λ n h. ground arith,
  All-imp (λ p ih n h. ground (arith, ih n h)) pks (find_target-some registry pks),
)

find_target-known :
    (registry : ProgramRegistry) (pks : List Pubkey) (target : Pubkey)
    → find_target registry pks ≡ some target
    → is_some (is_known_protocol registry target) ≡ true
unfolding find_target
find_target-known registry [] target h = cc
find_target-known registry (pk ∷ pks) target h =
    ground (arith, find_target-known registry pks target)

-- A Squads call with such a target has a flag.
match_squads_proxy-some :
    (call : CpiCall) (registry : ProgramRegistry)
    → call.program_id ≡ squads_v4_program_id
    → is_some (find_target registry call.accounts) ≡ true
    → matched registry call ≡ true
unfolding match_call match_squads_proxy
match_squads_proxy-some call registry e h =
    elim (Option-cases (find_target registry call.accounts)) [
      | inl n ↦ cc
      | inr (t, f) ↦ ground (arith, find_target-known registry call.accounts t f)
    ]

find_name-some :
    (registry : ProgramRegistry) (pks : List Pubkey)
    → All
        (λ pk.
          is_some (is_known_protocol registry pk) ≡ true → is_some (find_name registry pks) ≡ true)
        pks
unfolding find_name
find_name-some registry [] = tt
find_name-some registry (pk ∷ pks) =
    (λ h. ground arith, All-imp (λ p ih h. ground (arith, ih h)) pks (find_name-some registry pks))

module _ (is_alphanumeric : ℕ → Bool) (intent : Option Intent) (registry : ProgramRegistry)
    (durable : Bool) where
  abbrev top : List CpiCall → ℕ
  top calls = severity_u8 (max_list (severities is_alphanumeric intent registry durable calls))

  top-cons : (call : CpiCall) (calls : List CpiCall) → top calls ≤ top (call ∷ calls)
  top-cons call calls = elim (Option-cases (match_call call registry)) [
    | inl n ↦ ground arith
    | inr (flag, e) ↦ ground (
      arith,
      max_severity-ge (effective is_alphanumeric intent registry durable call flag.code)
          (max_list (severities is_alphanumeric intent registry durable calls)),
    )
  ]

  top-head :
      (call : CpiCall) (calls : List CpiCall) (flag : Flag)
      → match_call call registry ≡ some flag
      → severity_u8 (effective is_alphanumeric intent registry durable call flag.code)
        ≤ top (call ∷ calls)
  top-head call calls flag e = ground (
    arith,
    max_severity-ge (effective is_alphanumeric intent registry durable call flag.code)
        (max_list (severities is_alphanumeric intent registry durable calls)),
  )

  -- The bounds on the maximum that one call gives.
  abbrev Raises : ℕ → CpiCall → Type 0
  Raises n call =
      matched registry call ≡ true → (1 ≤ n) × (names_protocol registry call ≡ true → 3 ≤ n)

  Raises-head : (call : CpiCall) (calls : List CpiCall) → Raises (top (call ∷ calls)) call
  Raises-head call calls m = elim (Option-cases (match_call call registry)) [
    | inl n ↦ cc
    | inr (flag, e) ↦
        let above = top-head call calls flag e in
        (
          omega (
            arith,
            above,
            effective-ge_low is_alphanumeric intent registry durable call flag.code,
          ),
          λ h. omega (
            arith,
            above,
            effective-known is_alphanumeric intent registry durable call flag.code h,
          ),
        )
  ]

  Raises-All : (calls : List CpiCall) → All (Raises (top calls)) calls
  Raises-All [] = tt
  Raises-All (call ∷ calls) = (
    Raises-head call calls,
    All-imp
        (λ c r m.
          let (low', high') = r m in
          (
            omega (arith, low', top-cons call calls),
            λ h. omega (arith, high' h, top-cons call calls),
          ))
        calls (Raises-All calls),
  )

bounds-All :
    (is_alphanumeric : ℕ → Bool) (ctx : CheckerContext)
    → All
        (λ call.
          matched ctx.known_programs call ≡ true
          → (1 ≤ severity_u8 (check is_alphanumeric ctx).severity)
            × (names_protocol ctx.known_programs call ≡ true
                → 3 ≤ severity_u8 (check is_alphanumeric ctx).severity))
        ctx.trace.cpi_graph
bounds-All is_alphanumeric ctx = rw (check-severity is_alphanumeric ctx) (
    Raises-All is_alphanumeric ctx.intent ctx.known_programs
      (has_durable_nonce_precursor ctx.original_tx) ctx.trace.cpi_graph)

squads_names :
    (registry : ProgramRegistry) (call : CpiCall)
    → All
        (λ pk. is_some (is_known_protocol registry pk) ≡ true → names_protocol registry call ≡ true)
        call.accounts
unfolding lookup_known_protocol_in_call
squads_names registry call = find_name-some registry call.accounts

handoffs-All :
    (is_alphanumeric : ℕ → Bool) (ctx : CheckerContext)
    → All
        (λ call.
          call.program_id ≡ squads_v4_program_id
          → All
              (λ pk.
                pk ≢ squads_v4_program_id
                → is_some (is_known_protocol ctx.known_programs pk) ≡ true
                → 3 ≤ severity_u8 (check is_alphanumeric ctx).severity)
              call.accounts)
        ctx.trace.cpi_graph
handoffs-All is_alphanumeric ctx =
    All-imp
      (λ call bound p.
        All-zip
          (λ pk found named n k.
            (bound (match_squads_proxy-some call ctx.known_programs p (found n k))).1 (named k))
          call.accounts (find_target-some ctx.known_programs call.accounts)
          (squads_names ctx.known_programs call))
      ctx.trace.cpi_graph (bounds-All is_alphanumeric ctx)

at :
    {A : Type 0}
    → (P : A → Type 0) (xs : List A) (i : ℕ) (a : A) → All P xs
    → get_elem? xs i ≡ some a
    → P a
at P [] i a h e = cc
at {A} P (x ∷ xs) zero a h e = subst P (value_eq e) h.0
  where
    value : Option A → A
    value none = x
    value (some z) = z

    value_eq : some x ≡ some a → x ≡ a
    value_eq e = ap value e
at P (x ∷ xs) (suc i) a h e = at P xs i a h.1 e

-- Whatever the nonce, the stack height and the intent: a call of the trace that matches makes the
-- output at least Low, and at least High where a known protocol is among its accounts.
pub check-severity_bounds :
    (is_alphanumeric : ℕ → Bool) (ctx : CheckerContext) (i : ℕ) (call : CpiCall)
    → get_elem? ctx.trace.cpi_graph i ≡ some call
    → matched ctx.known_programs call ≡ true
    → (if names_protocol ctx.known_programs call then 3 else 1)
      ≤ severity_u8 (check is_alphanumeric ctx).severity
check-severity_bounds is_alphanumeric ctx i call e m =
    let bounds = at _ ctx.trace.cpi_graph i call (bounds-All is_alphanumeric ctx) e m in
    elim (Bool-cases (names_protocol ctx.known_programs call)) [
      | inl n ↦ rw n (bounds.1 n)
      | inr n ↦ rw n bounds.0
    ]

-- A call of Squads in the trace that carries a registered program other than Squads itself among
-- its accounts makes the output at least High.
pub squads_handoff_high :
    (is_alphanumeric : ℕ → Bool) (ctx : CheckerContext) (i j : ℕ) (call : CpiCall) (pk : Pubkey)
    → get_elem? ctx.trace.cpi_graph i ≡ some call
    → call.program_id ≡ squads_v4_program_id
    → get_elem? call.accounts j ≡ some pk
    → pk ≢ squads_v4_program_id
    → is_some (is_known_protocol ctx.known_programs pk) ≡ true
    → 3 ≤ severity_u8 (check is_alphanumeric ctx).severity
squads_handoff_high is_alphanumeric ctx i j call pk e p f n k =
    at _ call.accounts j pk (at _ ctx.trace.cpi_graph i call (handoffs-All is_alphanumeric ctx) e p)
      f n k

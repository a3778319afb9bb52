-- ===== src/Fork/Geyser/Backoff.antt =====
-- The reconnection loop of geyser.rs, and how long it sleeps.
use ciel_sol.Base.{
  ℕ, suc, ◌*◌, ◌^◌, ◌≤◌, ◌≡◌, refl, Bool, true, false, List, [], ◌∷◌, map, if◌then◌else◌, arith, ap,
  ap₂, ◌∙◌, Option, String, is_some, not,
}
use Prim.Native.Nat.{min}
use native.Mathlib.Nat.{pow-suc}
use ciel_sol.Fork.Error.{ForkError}
use ciel_sol.Fork.Geyser.{
  GeyserConfig, Message, Subscriber, RpcOps, connect_and_stream, rpc_gap_fill,
}

-- What happens in one round: whether the connection fails, the messages of the stream, and the time
-- of the gap fill.
pub record Round : Type 0 where
  pub connection : Option String
  pub messages : List (ℕ × Bool × Message)
  pub gap_at : ℕ

module _ {R : Type 0} (config : GeyserConfig) (rpc : RpcOps R) where
  abbrev streamed : Round → Subscriber → Option ForkError × Subscriber
  streamed round s =
      connect_and_stream config round.connection s.staleness.last_slot round.messages s

  -- Whether the stream of a round ends without an error, and how long the loop sleeps after it.
  unfoldable pub run_rounds : ℕ → Subscriber → R → List Round → List (Bool × ℕ)
  run_rounds backoff s r [] = []
  run_rounds backoff s r (round ∷ rounds) =
      let done = streamed round s in
      let clean = not (is_some done.0) in
      let slept = if clean then config.backoff_base else backoff in
      let filled = rpc_gap_fill rpc round.gap_at done.1 r in
      (clean, slept) ∷ run_rounds (min (slept * 2) config.backoff_max) filled.0.1 filled.1 rounds

  -- The loop, over the rounds so far.
  unfoldable pub run_loop : Subscriber → R → List Round → List (Bool × ℕ)
  unfolding run_rounds
  run_loop s r rounds = run_rounds config.backoff_base s r rounds

-- For each round, how many rounds went by since the last stream that ended cleanly or the start.
abbrev pub rounds_since : ℕ → List Bool → List ℕ
rounds_since n [] = []
rounds_since n (true ∷ rounds) = 0 ∷ rounds_since 1 rounds
rounds_since n (false ∷ rounds) = n ∷ rounds_since (suc n) rounds

abbrev pub delay : GeyserConfig → ℕ → ℕ
delay config n = min (config.backoff_base * 2 ^ n) config.backoff_max

doubled : (b n : ℕ) → b * 2 ^ suc n ≡ b * 2 ^ n * 2
doubled b n = ap (λ x. b * x) (pow-suc 2 n) ∙ omega arith

delay-suc :
    (config : GeyserConfig) (n : ℕ)
    → min (delay config n * 2) config.backoff_max ≡ delay config (suc n)
delay-suc config n = omega (arith, doubled config.backoff_base n)

abbrev pub slept_of : Bool × ℕ → ℕ
slept_of (clean, slept) = slept

abbrev pub is_clean : Bool × ℕ → Bool
is_clean (clean, slept) = clean

module _ {R : Type 0} (config : GeyserConfig) (rpc : RpcOps R) where
  -- One round's sleep, and the backoff after it.
  after_round :
      (n backoff : ℕ) (clean : Bool) (rest : List (Bool × ℕ))
      → config.backoff_base ≤ config.backoff_max
      → backoff ≡ delay config n
      → ((m : ℕ)
          → min ((if clean then config.backoff_base else backoff) * 2) config.backoff_max
            ≡ delay config m
          → map slept_of rest ≡ map (delay config) (rounds_since m (map is_clean rest)))
      → (if clean then config.backoff_base else backoff) ∷ map slept_of rest
        ≡ map (delay config) (rounds_since n (clean ∷ map is_clean rest))
  after_round n backoff true rest h e ih =
      let first : config.backoff_base ≡ delay config 0 = omega arith in
      ap₂ ◌∷◌ first (ih 1 (omega arith))
  after_round n backoff false rest h e ih =
      ap₂ ◌∷◌ e (ih (suc n) (ap (λ b. min (b * 2) config.backoff_max) e ∙ delay-suc config n))

  run_rounds-delay :
      (n backoff : ℕ) (s : Subscriber) (r : R) (rounds : List Round)
      → config.backoff_base ≤ config.backoff_max
      → backoff ≡ delay config n
      → map slept_of (run_rounds config rpc backoff s r rounds)
        ≡ map
            (delay config)
            (rounds_since n (map is_clean (run_rounds config rpc backoff s r rounds)))
  unfolding run_rounds
  run_rounds-delay n backoff s r [] h e = refl
  run_rounds-delay n backoff s r (round ∷ rounds) h e =
      let done = streamed config rpc round s in
      let clean = not (is_some done.0) in
      let slept = if clean then config.backoff_base else backoff in
      let filled = rpc_gap_fill rpc round.gap_at done.1 r in
      after_round n backoff clean
        (run_rounds config rpc (min (slept * 2) config.backoff_max) filled.0.1 filled.1 rounds) h e
        (λ m q.
          run_rounds-delay m (min (slept * 2) config.backoff_max) filled.0.1 filled.1 rounds h q)

  -- Where the base is at most the maximum, the loop sleeps after each round for the base doubled as
  -- often as rounds went by since the last stream that ended cleanly, capped at the maximum.
  pub run_loop-delay :
      (s : Subscriber) (r : R) (rounds : List Round)
      → config.backoff_base ≤ config.backoff_max
      → map slept_of (run_loop config rpc s r rounds)
        ≡ map (delay config) (rounds_since 0 (map is_clean (run_loop config rpc s r rounds)))
  unfolding run_loop
  run_loop-delay s r rounds h = run_rounds-delay 0 config.backoff_base s r rounds h (omega arith)

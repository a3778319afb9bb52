-- ===== src/Fork/Account.antt =====
-- The account of the Solana SDK, with the fields that the fork reads and writes.
use ciel_sol.Base.{ℕ, Bool, List}
use ciel_sol.Checkers.Json.{Pubkey}

pub record Account : Type 0 where
  pub lamports : ℕ
  pub bytes : List ℕ  -- `data`
  pub owner : Pubkey
  pub executable : Bool
  pub rent_epoch : ℕ

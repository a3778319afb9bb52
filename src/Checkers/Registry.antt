-- ===== src/Checkers/Registry.antt =====
-- crates/ciel-checkers/src/program_registry.rs.
use ciel_sol.Base.{
  ℕ, ◌≡◌, refl, Bool, Option, none, some, List, [], ◌∷◌, String, ◌==◌, arith, if◌then◌else◌, length,
  is_empty,
}
use ciel_sol.Checkers.Json.{Pubkey}

abbrev pub spl_token_program_id : Pubkey
spl_token_program_id = 0x06ddf6e1d765a193d9cbe146ceeb79ac1cb485ed5f5b37913a8cf5857eff00a9

abbrev pub spl_token_2022_program_id : Pubkey
spl_token_2022_program_id = 0x06ddf6e1ee758fde18425dbce46ccddab61afc4d83b90d27febdf928d8a18bfc

abbrev pub bpf_loader_upgradeable_program_id : Pubkey
bpf_loader_upgradeable_program_id =
    0x02a8f6914e88a1b0e210153ef763ae2b00c2b93d16c124d2c0537a1004800000

abbrev pub drift_v2_program_id : Pubkey
drift_v2_program_id = 0x0954dbbe9ec960c98a7a293fe21336966fe180d151ae4b8179561f89854a53f6

abbrev pub raydium_amm_v4_program_id : Pubkey
raydium_amm_v4_program_id = 0x4bd949c43602c33f207790ed16a3524ca1b9975cf121a2a90cffec7df8b68acd

abbrev pub jupiter_v6_program_id : Pubkey
jupiter_v6_program_id = 0x0479d55bf231c06eee74c56ece681507fdb1b2dea3f48e5102b1cda256bc138f

abbrev pub orca_whirlpool_program_id : Pubkey
orca_whirlpool_program_id = 0x0e03685f8e909053e458121c66f5a76aedc7706aa11c82f8aa952a8f2b7879a9

abbrev pub squads_v4_program_id : Pubkey
squads_v4_program_id = 0x0681c4ce47e22368b8b1555ec887af092efc7efbb66ca3f52fbf68d4ac9cb7a8

-- The hash map as an association list with one entry for a key.
pub record ProgramRegistry : Type 0 where
  pub known_protocols : List (Pubkey × String)

unfoldable pub new : ProgramRegistry
new = record { known_protocols = [] }

unfoldable pub put : List (Pubkey × String) → Pubkey → String → List (Pubkey × String)
put [] k v = (k, v) ∷ []
put ((j, w) ∷ m) k v = if j == k then (k, v) ∷ m else (j, w) ∷ put m k v

unfoldable pub find : List (Pubkey × String) → Pubkey → Option String
find [] k = none
find ((j, w) ∷ m) k = if j == k then some w else find m k

unfoldable pub register : ProgramRegistry → Pubkey → String → ProgramRegistry
unfolding put
register r k v = record { known_protocols = put r.known_protocols k v }

unfoldable pub is_known_protocol : ProgramRegistry → Pubkey → Option String
unfolding find
is_known_protocol r k = find r.known_protocols k

unfoldable pub len : ProgramRegistry → ℕ
len r = length r.known_protocols

unfoldable pub is_empty_registry : ProgramRegistry → Bool
is_empty_registry r = is_empty r.known_protocols

unfoldable pub with_mainnet_defaults : ProgramRegistry
unfolding new register
with_mainnet_defaults =
    let r1 = register new spl_token_program_id "SPL Token" in
    let r2 = register r1 spl_token_2022_program_id "SPL Token-2022" in
    let r3 = register r2 bpf_loader_upgradeable_program_id "BPF Loader Upgradeable" in
    let r4 = register r3 drift_v2_program_id "Drift v2" in
    let r5 = register r4 raydium_amm_v4_program_id "Raydium AMM v4" in
    let r6 = register r5 jupiter_v6_program_id "Jupiter V6" in
    let r7 = register r6 orca_whirlpool_program_id "Orca Whirlpool" in
    register r7 squads_v4_program_id "Squads v4"

find-put :
    (m : List (Pubkey × String)) (k j : Pubkey) (v : String)
    → find (put m k v) j ≡ (if k == j then some v else find m j)
unfolding find put
find-put [] k j v = refl
find-put ((i, w) ∷ m) k j v = ground (arith, find-put m k j v)

-- A registered name is read back, and every other key reads as before.
pub is_known_protocol-register :
    (r : ProgramRegistry) (k j : Pubkey) (v : String)
    → is_known_protocol (register r k v) j ≡ (if k == j then some v else is_known_protocol r j)
unfolding is_known_protocol register
is_known_protocol-register r k j v = find-put r.known_protocols k j v

-- ===== src/Checkers/Oracle/Feeds.antt =====
-- `CanonicalFeedMap` of oracle_cache.rs. The two maps from assets are association lists.
use ciel_sol.Base.{
  ◌≡◌, refl, Bool, Option, none, some, List, [], ◌∷◌, String, str_eq, str_eq_iff, if◌then◌else◌,
  arith, is_some, ◌==◌, ==_refl, Bool-cases, inl, inr,
}
use ciel_sol.Base.Assoc.{Assoc, find, put, find-put}
use ciel_sol.Checkers.Json.{Pubkey}
use ciel_sol.Checkers.Oracle.{OracleType, switchboard, pyth}

unfoldable pub put_asset : List (String × Pubkey) → String → Pubkey → List (String × Pubkey)
put_asset [] k p = (k, p) ∷ []
put_asset ((j, q) ∷ m) k p = if str_eq j k then (k, p) ∷ m else (j, q) ∷ put_asset m k p

unfoldable pub find_asset : List (String × Pubkey) → String → Option Pubkey
find_asset [] k = none
find_asset ((j, q) ∷ m) k = if str_eq j k then some q else find_asset m k

pub record CanonicalFeedMap : Type 0 where
  pub pubkey_to_asset : Assoc (String × OracleType)
  pub asset_to_switchboard : List (String × Pubkey)
  pub asset_to_pyth : List (String × Pubkey)

abbrev pub empty : CanonicalFeedMap
empty = record { pubkey_to_asset = []; asset_to_switchboard = []; asset_to_pyth = [] }

unfoldable pub register : CanonicalFeedMap → String → Pubkey → Pubkey → CanonicalFeedMap
unfolding put_asset
register m asset sb py = record {
  pubkey_to_asset = put (put m.pubkey_to_asset sb (asset, switchboard)) py (asset, pyth);
  asset_to_switchboard = put_asset m.asset_to_switchboard asset sb;
  asset_to_pyth = put_asset m.asset_to_pyth asset py;
}

unfoldable pub is_known : CanonicalFeedMap → Pubkey → Bool
is_known m pubkey = is_some (find m.pubkey_to_asset pubkey)

abbrev name_of : Option (String × OracleType) → Option String
name_of none = none
name_of (some (asset, t)) = some asset

unfoldable pub asset_for : CanonicalFeedMap → Pubkey → Option String
asset_for m pubkey = name_of (find m.pubkey_to_asset pubkey)

abbrev paired : CanonicalFeedMap → Option (String × OracleType) → Option Pubkey
paired m none = none
paired m (some (asset, switchboard)) = find_asset m.asset_to_pyth asset
paired m (some (asset, pyth)) = find_asset m.asset_to_switchboard asset

unfoldable pub cross_reference : CanonicalFeedMap → Pubkey → Option Pubkey
unfolding find_asset
cross_reference m pubkey = paired m (find m.pubkey_to_asset pubkey)

find_asset-put_asset :
    (m : List (String × Pubkey)) (k j : String) (p : Pubkey)
    → find_asset (put_asset m k p) j ≡ (if str_eq k j then some p else find_asset m j)
unfolding find_asset put_asset
find_asset-put_asset [] k j p = refl
find_asset-put_asset ((i, q) ∷ m) k j p =
    ground (arith, find_asset-put_asset m k j p, str_eq_iff i k, str_eq_iff i j, str_eq_iff k j)

found :
    (m : Assoc (String × OracleType)) (sb py k : Pubkey) (x y : String × OracleType)
    → find (put (put m sb x) py y) k
      ≡ (if py == k then some y else if sb == k then some x else find m k)
found m sb py k x y = ground (arith, find-put (put m sb x) py k y, find-put m sb k x)

-- The two feeds of a registered pair are each other's cross references, also where they are one
-- feed, and both carry the asset.
pub cross_reference-register :
    (m : CanonicalFeedMap) (asset : String) (sb py : Pubkey)
    → (cross_reference (register m asset sb py) sb ≡ some py)
      × (cross_reference (register m asset sb py) py ≡ some sb)
      × (asset_for (register m asset sb py) sb ≡ some asset)
      × (asset_for (register m asset sb py) py ≡ some asset)
unfolding cross_reference register asset_for
cross_reference-register m asset sb py =
    let at_sb = found m.pubkey_to_asset sb py sb (asset, switchboard) (asset, pyth) in
    let at_py = found m.pubkey_to_asset sb py py (asset, switchboard) (asset, pyth) in
    let same = (str_eq_iff asset asset).1 refl in
    rw (at_sb, at_py, ==_refl py, ==_refl sb)
      (elim (Bool-cases (py == sb)) [
        | inl e ↦
            let q : py ≡ sb = ground arith in
            rw e (rw (find_asset-put_asset, same, q) (refl, refl, refl, refl))
        | inr e ↦
            rw e (rw (find_asset-put_asset, find_asset-put_asset, same) (refl, refl, refl, refl))
      ])

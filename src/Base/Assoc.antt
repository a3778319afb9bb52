-- ===== src/Base/Assoc.antt =====
-- A hash map with numbers as keys: a list with one entry for a key, as insertions leave it.
pub mod Keyed
use Prim.Native.Nat.{ℕ}
use mathlib.Core.Path.{◌≡◌, refl}
use mathlib.Core.Option.{Option, none, some}
use mathlib.Core.List.{List, [], ◌∷◌}
use native.Mathlib.Omega.{arith}
use ciel_sol.Base.Tests.{◌==◌, if◌then◌else◌}

abbrev pub Assoc : Type 0 → Type 0
Assoc A = List (ℕ × A)

module _ {A : Type 0} where
  unfoldable pub find : Assoc A → ℕ → Option A
  find [] k = none
  find ((j, a) ∷ m) k = if j == k then some a else find m k

  unfoldable pub put : Assoc A → ℕ → A → Assoc A
  put [] k a = (k, a) ∷ []
  put ((j, b) ∷ m) k a = if j == k then (k, a) ∷ m else (j, b) ∷ put m k a

  pub find-put :
      (m : Assoc A) (k j : ℕ) (a : A) → find (put m k a) j ≡ (if k == j then some a else find m j)
  unfolding find put
  find-put [] k j a = refl
  find-put ((i, b) ∷ m) k j a = ground (arith, find-put m k j a)

  -- Insertions in their order.
  abbrev pub insert_all : Assoc A → List (ℕ × A) → Assoc A
  insert_all m [] = m
  insert_all m ((k, a) ∷ entries) = insert_all (put m k a) entries

-- ===== src/Base/Assoc/Keyed.antt =====
-- Maps with one entry for a key.
use Prim.Native.Nat.{ℕ}
use mathlib.Core.Path.{◌≡◌, refl, ap, ◌∙◌, sym}
use mathlib.Core.Bool.{false}
use mathlib.Core.Option.{none}
use mathlib.Core.List.{[], ◌∷◌, ◌++◌, append_assoc, append-nil}
use native.Mathlib.Omega.{arith}
use ciel_sol.Base.Tests.{◌==◌}
use ciel_sol.Base.Lists.{All, All-zip}
use ciel_sol.Base.Assoc.{Assoc, find, put, find-put, insert_all}

module _ {A : Type 0} where
  abbrev pub IsKeyed : Assoc A → Type 0
  IsKeyed [] = Unit
  IsKeyed ((j, a) ∷ m) = (find m j ≡ none) × IsKeyed m

  pub put-IsKeyed : (m : Assoc A) (k : ℕ) (a : A) → IsKeyed m → IsKeyed (put m k a)
  unfolding put find
  put-IsKeyed [] k a w = (refl, tt)
  put-IsKeyed ((j, b) ∷ m) k a w = ground (arith, put-IsKeyed m k a w.1, find-put m k j a)

  pub insert_all-IsKeyed : (m l : Assoc A) → IsKeyed m → IsKeyed (insert_all m l)
  insert_all-IsKeyed m [] w = w
  insert_all-IsKeyed m ((k, a) ∷ l) w = insert_all-IsKeyed (put m k a) l (put-IsKeyed m k a w)

  put-append : (m : Assoc A) (k : ℕ) (a : A) → find m k ≡ none → put m k a ≡ m ++ (k, a) ∷ []
  unfolding put find
  put-append [] k a h = refl
  put-append ((j, b) ∷ m) k a h = ground (arith, put-append m k a)

  find-append :
      (m : Assoc A) (k j : ℕ) (a : A)
      → find m j ≡ none
      → (k == j) ≡ false
      → find (m ++ (k, a) ∷ []) j ≡ none
  unfolding find
  find-append [] k j a h d = rw d refl
  find-append ((i, b) ∷ m) k j a h d = ground (arith, find-append m k j a)

  find-none : (l : Assoc A) (k : ℕ) → find l k ≡ none → All (λ e. (k == e.0) ≡ false) l
  unfolding find
  find-none [] k h = tt
  find-none ((j, a) ∷ l) k h = ground (arith, find-none l k)

  append-keyed :
      (m l : Assoc A) → IsKeyed l → All (λ e. find m e.0 ≡ none) l → insert_all m l ≡ m ++ l
  append-keyed m [] w h = sym (append-nil m)
  append-keyed m ((k, a) ∷ l) w h =
      ap (λ x. insert_all x l) (put-append m k a h.0)
      ∙ append-keyed (m ++ (k, a) ∷ []) l w.1
          (All-zip (λ e x y. find-append m k e.0 a x y) l h.1 (find-none l k w.0))
      ∙ append_assoc m ((k, a) ∷ []) l

  none_found : (l : Assoc A) → All (λ e. find {A = A} [] e.0 ≡ none) l
  unfolding find
  none_found [] = tt
  none_found (e ∷ l) = (refl, none_found l)

  -- Such a map is what the insertions of its entries leave.
  pub insert_all-keyed : (l : Assoc A) → IsKeyed l → insert_all [] l ≡ l
  insert_all-keyed l w = append-keyed [] l w (none_found l)

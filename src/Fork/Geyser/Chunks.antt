-- ===== src/Fork/Geyser/Chunks.antt =====
-- The batches of the gap fill.
use ciel_sol.Base.{
  ℕ, zero, suc, ◌-◌, ◌≤◌, ◌≡◌, refl, List, [], ◌∷◌, ◌++◌, length, take, drop, All, arith, ap, ◌∙◌,
  length-take,
}
use ciel_sol.Checkers.Json.{Pubkey}
use ciel_sol.Fork.Geyser.{chunks_100}

abbrev pub flatten {ℓ} : {A : Type ℓ} → List (List A) → List A
flatten [] = []
flatten (xs ∷ xss) = xs ++ flatten xss

take-drop {ℓ} : {A : Type ℓ} (n : ℕ) (xs : List A) → take n xs ++ drop n xs ≡ xs
take-drop zero xs = refl
take-drop (suc n) [] = refl
take-drop (suc n) (x ∷ xs) = ap (◌∷◌ x) (take-drop n xs)

length-drop {ℓ} : {A : Type ℓ} (n : ℕ) (xs : List A) → length (drop n xs) ≡ length xs - n
length-drop zero xs = omega arith
length-drop (suc n) [] = omega arith
length-drop (suc n) (x ∷ xs) = omega (arith, length-drop n xs)

-- On enough fuel the batches are the list in order.
pub flatten-chunks_100 :
    (n : ℕ) (keys : List Pubkey) → length keys ≤ n → flatten (chunks_100 n keys) ≡ keys
unfolding chunks_100
flatten-chunks_100 zero [] h = refl
flatten-chunks_100 zero (k ∷ keys) h = absurd (omega (arith, h))
flatten-chunks_100 (suc n) [] h = refl
flatten-chunks_100 (suc n) (k ∷ keys) h =
    ap (λ r. take 100 (k ∷ keys) ++ r)
      (flatten-chunks_100 n (drop 100 (k ∷ keys)) (omega (arith, length-drop 100 (k ∷ keys), h)))
    ∙ take-drop 100 (k ∷ keys)

-- `getMultipleAccounts` takes a hundred keys at most.
pub chunks_100-All : (n : ℕ) (keys : List Pubkey) → All (λ c. length c ≤ 100) (chunks_100 n keys)
unfolding chunks_100
chunks_100-All zero keys = tt
chunks_100-All (suc n) [] = tt
chunks_100-All (suc n) (k ∷ keys) =
    (omega (arith, length-take 100 (k ∷ keys)), chunks_100-All n (drop 100 (k ∷ keys)))

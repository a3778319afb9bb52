-- ===== src/Fork/Breaker/Window.antt =====
-- The sliding window: what the pruning of a sorted queue leaves.
use ciel_sol.Base.{
  ℕ, ◌+◌, ◌-◌, ◌≤◌, ◌≡◌, refl, List, [], ◌∷◌, ◌++◌, ltb, leb, length, if◌then◌else◌, arith,
  Bool-cases, inl, inr,
}
use ciel_sol.Fork.Breaker.{prune}

-- How many of the times lie at most a window back.
abbrev pub count_recent : ℕ → ℕ → List ℕ → ℕ
count_recent window now [] = 0
count_recent window now (t ∷ ts) =
    (if leb (now - t) window then 1 else 0) + count_recent window now ts

-- Ascending times from one time to another.
abbrev pub IsAscending : ℕ → ℕ → List ℕ → Type 0
IsAscending lo hi [] = lo ≤ hi
IsAscending lo hi (t ∷ ts) = (lo ≤ t) × IsAscending t hi ts

pub IsAscending-le : (lo hi : ℕ) (ts : List ℕ) → IsAscending lo hi ts → lo ≤ hi
IsAscending-le lo hi [] h = h
IsAscending-le lo hi (t ∷ ts) h = omega (arith, h.0, IsAscending-le t hi ts h.1)

pub IsAscending-later :
    (lo hi hi' : ℕ) (ts : List ℕ) → hi ≤ hi' → IsAscending lo hi ts → IsAscending lo hi' ts
IsAscending-later lo hi hi' [] k h = omega arith
IsAscending-later lo hi hi' (t ∷ ts) k h = (h.0, IsAscending-later t hi hi' ts k h.1)

pub IsAscending-from :
    (lo lo' hi : ℕ) (ts : List ℕ) → lo ≤ lo' → IsAscending lo' hi ts → IsAscending lo hi ts
IsAscending-from lo lo' hi [] k h = omega arith
IsAscending-from lo lo' hi (t ∷ ts) k h = (omega (arith, h.0), h.1)

pub IsAscending-push :
    (lo hi now : ℕ) (ts : List ℕ)
    → hi ≤ now
    → IsAscending lo hi ts
    → IsAscending lo now (ts ++ (now ∷ []))
IsAscending-push lo hi now [] k h = (omega arith, omega arith)
IsAscending-push lo hi now (t ∷ ts) k h = (h.0, IsAscending-push t hi now ts k h.1)

pub IsAscending-prune :
    (window now lo hi : ℕ) (ts : List ℕ)
    → IsAscending lo hi ts
    → IsAscending lo hi (prune window now ts)
unfolding prune
IsAscending-prune window now lo hi [] h = h
IsAscending-prune window now lo hi (t ∷ ts) h = elim (Bool-cases (ltb window (now - t))) [
  | inl e ↦ rw e (
      IsAscending-from lo t hi (prune window now ts) h.0 (IsAscending-prune window now t hi ts h.1))
  | inr e ↦ rw e h
]

-- Past the first recent time, all of an ascending list is recent.
count_recent-all :
    (window now lo hi : ℕ) (ts : List ℕ)
    → now - lo ≤ window
    → IsAscending lo hi ts
    → count_recent window now ts ≡ length ts
count_recent-all window now lo hi [] h k = refl
count_recent-all window now lo hi (t ∷ ts) h k =
    let le : now - t ≤ window = omega (arith, k.0) in
    ground (arith, count_recent-all window now t hi ts le k.1)

pub length-prune :
    (window now lo hi : ℕ) (ts : List ℕ)
    → IsAscending lo hi ts
    → length (prune window now ts) ≡ count_recent window now ts
unfolding prune
length-prune window now lo hi [] h = refl
length-prune window now lo hi (t ∷ ts) h = elim (Bool-cases (ltb window (now - t))) [
  | inl e ↦ rw e (ground (arith, length-prune window now t hi ts h.1))
  | inr e ↦ rw e (
      let le : now - t ≤ window = ground arith in
      ground (arith, count_recent-all window now t hi ts le h.1))
]

-- What the pruning drops is recent at no later time.
pub count_recent-prune :
    (window now later : ℕ) (ts : List ℕ)
    → now ≤ later
    → count_recent window later (prune window now ts) ≡ count_recent window later ts
unfolding prune
count_recent-prune window now later [] h = refl
count_recent-prune window now later (t ∷ ts) h =
    ground (arith, count_recent-prune window now later ts h)

pub count_recent-append :
    (window now : ℕ) (xs ys : List ℕ)
    → count_recent window now (xs ++ ys) ≡ count_recent window now xs + count_recent window now ys
count_recent-append window now [] ys = omega arith
count_recent-append window now (x ∷ xs) ys = omega (arith, count_recent-append window now xs ys)

pub prune-all :
    (window now lo hi : ℕ) (ts : List ℕ)
    → now - lo ≤ window
    → IsAscending lo hi ts
    → prune window now ts ≡ ts
unfolding prune
prune-all window now lo hi [] h k = refl
prune-all window now lo hi (t ∷ ts) h k =
    let le : now - t ≤ window = omega (arith, k.0) in ground arith

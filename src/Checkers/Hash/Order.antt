-- ===== src/Checkers/Hash/Order.antt =====
-- The hash of the outputs and the order of the hash map.
use ciel_sol.Base.{
  ◌≡◌, refl, Bool, true, Bool-cases, List, [], ◌∷◌, String, if◌then◌else◌, arith, All, ap, ap₂,
  subst, sym, ◌∙◌, ◌⊎◌, inl, inr,
}
use mathlib.Core.List.{Permᴰ}
use ciel_sol.Checkers.Types.{CheckerOutput}
use ciel_sol.Checkers.Results.{CheckerResults, all_completed}
use ciel_sol.Checkers.Hash.{
  HashLib, insert_sorted, sort_by_name, concat_bytes, checker_outputs_hash,
}

-- What the order of strings is: total, transitive and antisymmetric.
pub record IsOrder (le : String → String → Bool) : Type 0 where
  pub total : (s t : String) → (le s t ≡ true) ⊎ (le t s ≡ true)
  pub transitive : (s t u : String) → le s t ≡ true → le t u ≡ true → le s u ≡ true
  pub antisymmetric : (s t : String) → le s t ≡ true → le t s ≡ true → s ≡ t

module _ (le : String → String → Bool) (h : IsOrder le) (out : String → CheckerOutput) where
  -- The output is the one of its name.
  abbrev pub IsNamed : CheckerOutput → Type 0
  IsNamed o = o ≡ out o.checker_name

  same_of_both :
      (a b : CheckerOutput)
      → IsNamed a
      → IsNamed b
      → le a.checker_name b.checker_name ≡ true
      → le b.checker_name a.checker_name ≡ true
      → a ≡ b
  same_of_both a b ha hb p q =
      ha ∙ (ap out (h.antisymmetric a.checker_name b.checker_name p q) ∙ sym hb)

  insert_two :
      (a b : CheckerOutput) (m : List CheckerOutput)
      → IsNamed a
      → IsNamed b
      → (if le a.checker_name b.checker_name then a ∷ b ∷ m else b ∷ a ∷ m)
        ≡ (if le b.checker_name a.checker_name then b ∷ a ∷ m else a ∷ b ∷ m)
  insert_two a b m ha hb = elim (Bool-cases (le a.checker_name b.checker_name)) [
    | inl p ↦ elim (Bool-cases (le b.checker_name a.checker_name)) [
      | inl q ↦
          rw (p, q)
            (ap (λ x. x ∷ b ∷ m) (same_of_both a b ha hb p q)
              ∙ ap (λ x. b ∷ x ∷ m) (sym (same_of_both a b ha hb p q)))
      | inr q ↦ rw (p, q) refl
    ]
    | inr p ↦ elim (Bool-cases (le b.checker_name a.checker_name)) [
      | inl q ↦ rw (p, q) refl
      | inr q ↦ elim (h.total a.checker_name b.checker_name) [ inl t ↦ cc | inr t ↦ cc ]
    ]
  ]

  insert_sorted-commute :
      (a b : CheckerOutput) (m : List CheckerOutput)
      → IsNamed a
      → IsNamed b
      → insert_sorted le a (insert_sorted le b m) ≡ insert_sorted le b (insert_sorted le a m)
  unfolding insert_sorted
  insert_sorted-commute a b [] ha hb = insert_two a b [] ha hb
  insert_sorted-commute a b (q ∷ m) ha hb = ground (
    arith,
    insert_sorted-commute a b m ha hb,
    insert_two a b (q ∷ m) ha hb,
    h.transitive a.checker_name b.checker_name q.checker_name,
    h.transitive b.checker_name a.checker_name q.checker_name,
  )

  All-Perm : {l l' : List CheckerOutput} → Permᴰ l l' → All IsNamed l → All IsNamed l'
  All-Perm Permᴰ.nil n = n
  All-Perm (Permᴰ.cons e p) n = (subst IsNamed e n.0, All-Perm p n.1)
  All-Perm (Permᴰ.swap e f) n = (subst IsNamed f n.1.0, (subst IsNamed e n.0, n.1.1))
  All-Perm (Permᴰ.trans p q) n = All-Perm q (All-Perm p n)

  sort_by_name-Perm :
      {l l' : List CheckerOutput}
      → Permᴰ l l'
      → All IsNamed l
      → sort_by_name le l ≡ sort_by_name le l'
  unfolding sort_by_name
  sort_by_name-Perm Permᴰ.nil n = refl
  sort_by_name-Perm (Permᴰ.cons e p) n = ap₂ (insert_sorted le) e (sort_by_name-Perm p n.1)
  sort_by_name-Perm (Permᴰ.swap {a = a} {b = b} {l = l} e f) n =
      insert_sorted-commute a b (sort_by_name le l) n.0 n.1.0
      ∙ ap₂ (λ x y. insert_sorted le x (insert_sorted le y (sort_by_name le l))) f e
  sort_by_name-Perm (Permᴰ.trans p q) n = sort_by_name-Perm p n ∙ sort_by_name-Perm q (All-Perm p n)

-- Where the order of strings is an order and each completed output is the one of its name, the hash
-- does not depend on the order in which the hash map gives the outputs.
pub checker_outputs_hash-Perm :
    (lib : HashLib) (out : String → CheckerOutput) (r r' : CheckerResults)
    → IsOrder lib.string_le
    → All (λ o. o ≡ out o.checker_name) (all_completed r)
    → Permᴰ (all_completed r) (all_completed r')
    → checker_outputs_hash lib r ≡ checker_outputs_hash lib r'
unfolding checker_outputs_hash
checker_outputs_hash-Perm lib out r r' h n p =
    ap (λ l. lib.sha256 (concat_bytes lib l)) (sort_by_name-Perm lib.string_le h out p n)

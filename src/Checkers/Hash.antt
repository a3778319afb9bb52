-- ===== src/Checkers/Hash.antt =====
-- crates/ciel-checkers/src/hash.rs. The order of strings, Borsh's encoding of an output and SHA-256
-- are the libraries'.
pub mod Order
use ciel_sol.Base.{ℕ, Bool, List, [], ◌∷◌, ◌++◌, String, if◌then◌else◌}
use ciel_sol.Checkers.Types.{CheckerOutput}
use ciel_sol.Checkers.Results.{CheckerResults, all_completed}

pub record HashLib : Type 0 where
  pub string_le : String → String → Bool
  pub output_bytes : CheckerOutput → List ℕ
  pub sha256 : List ℕ → List ℕ

-- A stable sort by name: an output goes behind those whose name is not greater.
unfoldable pub insert_sorted :
    (String → String → Bool) → CheckerOutput → List CheckerOutput → List CheckerOutput
insert_sorted le o [] = o ∷ []
insert_sorted le o (q ∷ m) =
    let rest = insert_sorted le o m in
    if le o.checker_name q.checker_name then o ∷ q ∷ m else q ∷ rest

unfoldable pub sort_by_name : (String → String → Bool) → List CheckerOutput → List CheckerOutput
sort_by_name le [] = []
sort_by_name le (o ∷ m) = insert_sorted le o (sort_by_name le m)

unfoldable pub concat_bytes : HashLib → List CheckerOutput → List ℕ
concat_bytes lib [] = []
concat_bytes lib (o ∷ m) = lib.output_bytes o ++ concat_bytes lib m

unfoldable pub checker_outputs_hash : HashLib → CheckerResults → List ℕ
unfolding sort_by_name concat_bytes
checker_outputs_hash lib r =
    lib.sha256 (concat_bytes lib (sort_by_name lib.string_le (all_completed r)))

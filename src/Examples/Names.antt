-- ===== src/Examples/Names.antt =====
-- The hash of the outputs, under the lexicographic order of names.
use Prim.Native.Char.{Char, code}
use text.Mathlib.TextEquality.{Char-path}
use mathlib.Core.List.{Permᴰ}
use ciel_sol.Base.{
  ◌≡◌, refl, Bool, true, false, [], ◌∷◌, String, ◌==◌, leb, if◌then◌else◌, arith, ap₂, str_eq, ◌⊎◌,
  inl, inr,
}
use ciel_sol.Checkers.Types.{CheckerOutput, low, high, severity_u8}
use ciel_sol.Checkers.Results.{CheckerResults, completed, timed_out}
use ciel_sol.Checkers.Hash.{HashLib, checker_outputs_hash}
use ciel_sol.Checkers.Hash.Order.{IsOrder, checker_outputs_hash-Perm}
use ciel_sol.Examples.Data.{output}

unfoldable string_le : String → String → Bool
string_le String.[] t = true
string_le (String.◌∷◌ c s) String.[] = false
string_le (String.◌∷◌ c s) (String.◌∷◌ d t) =
    let rest = string_le s t in if code c == code d then rest else leb (code c) (code d)

total : (s t : String) → (string_le s t ≡ true) ⊎ (string_le t s ≡ true)
unfolding string_le
total String.[] t = inl refl
total (String.◌∷◌ c s) String.[] = inr refl
total (String.◌∷◌ c s) (String.◌∷◌ d t) = ground (arith, total s t)

transitive : (s t u : String) → string_le s t ≡ true → string_le t u ≡ true → string_le s u ≡ true
unfolding string_le
transitive String.[] t u h k = refl
transitive (String.◌∷◌ c s) String.[] u h k = cc
transitive (String.◌∷◌ c s) (String.◌∷◌ d t) String.[] h k = cc
transitive (String.◌∷◌ c s) (String.◌∷◌ d t) (String.◌∷◌ e u) h k = ground (arith, transitive s t u)

heads_equal :
    (c d : Char) (s t : String)
    → string_le (String.◌∷◌ c s) (String.◌∷◌ d t) ≡ true
    → string_le (String.◌∷◌ d t) (String.◌∷◌ c s) ≡ true
    → (code c ≡ code d) × (string_le s t ≡ true) × (string_le t s ≡ true)
unfolding string_le
heads_equal c d s t h k = ground arith

antisymmetric : (s t : String) → string_le s t ≡ true → string_le t s ≡ true → s ≡ t
unfolding string_le
antisymmetric String.[] String.[] h k = refl
antisymmetric String.[] (String.◌∷◌ d t) h k = cc
antisymmetric (String.◌∷◌ c s) String.[] h k = cc
antisymmetric (String.◌∷◌ c s) (String.◌∷◌ d t) h k =
    let e = heads_equal c d s t h k in
    ap₂ (λ x y. String.◌∷◌ x y) (Char-path c d e.0) (antisymmetric s t e.1 e.2)

string_le-IsOrder : IsOrder string_le
string_le-IsOrder = record { total = total; transitive = transitive; antisymmetric = antisymmetric }

abbrev lib : HashLib
lib = record {
  string_le = string_le;
  output_bytes = λ o. severity_u8 o.severity ∷ [];
  sha256 = λ bytes. bytes;
}

abbrev named : String → CheckerOutput
named name = output name (if str_eq name "intent_diff" then high else low)

abbrev results : CheckerResults
results = record {
  outputs =
      ("intent_diff", completed (named "intent_diff"))
      ∷ ("mev_sandwich", timed_out)
      ∷ ("approval_abuse", completed (named "approval_abuse"))
      ∷ [];
  total_duration_ms = 3;
}

abbrev reordered : CheckerResults
reordered = record {
  outputs =
      ("approval_abuse", completed (named "approval_abuse"))
      ∷ ("intent_diff", completed (named "intent_diff"))
      ∷ ("mev_sandwich", timed_out)
      ∷ [];
  total_duration_ms = 4;
}

checker_outputs_hash-Perm_example :
    checker_outputs_hash lib results ≡ checker_outputs_hash lib reordered
checker_outputs_hash-Perm_example =
    checker_outputs_hash-Perm lib named results reordered string_le-IsOrder (refl, (refl, tt))
      (Permᴰ.swap refl refl)

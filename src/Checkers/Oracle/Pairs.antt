-- ===== src/Checkers/Oracle/Pairs.antt =====
-- The pairs of feeds that the oracle checker has checked, and the deviations it flags for them.
use ciel_sol.Base.{
  ℕ, ◌≡◌, refl, Bool, true, false, Bool-cases, Option, none, some, List, [], ◌∷◌, any, ◌==◌, ◌&&◌,
  ◌||◌, str_eq, get_elem?, arith, ◌⊎◌, inl, inr, ap, ap₂, ◌∙◌, sym, subst, is_empty,
}
use ciel_sol.Base.Int.{pos}
use ciel_sol.Checkers.Json.{Pubkey}
use ciel_sol.Checkers.Types.{critical, Flag, OracleRead}
use ciel_sol.Checkers.Oracle.{F64Ops, OraclePrice, OracleCache, get}
use ciel_sol.Checkers.Oracle.Feeds.{cross_reference}
use ciel_sol.Checkers.Oracle.Check.{
  OracleSanityChecker, flag_deviation, max_flag, pair_of, has_pair, deviates, cross_flags,
  cross_check, check_read, zero_f64,
}

abbrev pub is_deviation : Flag → Bool
is_deviation f = str_eq f.code flag_deviation

pub max_flag-critical :
    (flags : List Flag) → any is_deviation flags ≡ true → max_flag flags ≡ critical
unfolding max_flag
max_flag-critical [] h = cc
max_flag-critical (f ∷ fs) h = elim (Bool-cases (is_deviation f)) [
  | inl e ↦ rw e (ground arith)
  | inr e ↦ rw (max_flag-critical fs (rw e at h)) (ground arith)
]

-- The pair of two keys says which two they are.
pub pair_of-inj :
    (a b c d : Pubkey)
    → (((pair_of a b).0 == (pair_of c d).0) && ((pair_of a b).1 == (pair_of c d).1)) ≡ true
    → ((a ≡ c) × (b ≡ d)) ⊎ ((a ≡ d) × (b ≡ c))
pair_of-inj a b c d h = ground arith

-- What `f64` promises, with every NaN counted as one value: the distance of two numbers is that of
-- the two swapped, and a positive maximum is that of the two swapped.
pub record IsFloat {F : Type 0} (ops : F64Ops F) : Type 0 where
  pub distance_comm : (a b : F) → ops.abs (ops.sub a b) ≡ ops.abs (ops.sub b a)
  pub max_comm :
      (a b : F) → ops.gt (ops.max a b) (ops.of_int (pos 0)) ≡ true → ops.max a b ≡ ops.max b a

pub and_left : (a b : Bool) → (a && b) ≡ true → a ≡ true
and_left a b h = ground arith

pub or_later : (a b c : Bool) → (b ≡ true → (a || c) ≡ true) → (b || c) ≡ true → (a || c) ≡ true
or_later a b c h k = ground (arith, h)

pub read_not_empty :
    (reads : List OracleRead) (i : ℕ) (read : OracleRead)
    → get_elem? reads i ≡ some read
    → is_empty reads ≡ false
read_not_empty [] i read h = cc
read_not_empty (r ∷ reads) i read h = refl

module _ {F : Type 0} (ops : F64Ops F) (c : OracleSanityChecker F) (cache : OracleCache F) where
  pub deviates_comm :
      (h : IsFloat ops) (x y : OraclePrice F)
      → deviates ops c cache x y ≡ true
      → deviates ops c cache y x ≡ true
  deviates_comm h x y e =
      let m = h.max_comm x.confidence y.confidence (and_left _ _ e) in
      sym (
        ap₂ (λ u s. ops.gt u (zero_f64 ops) && ops.gt (ops.div s u) c.sigma_threshold) m
          (h.distance_comm x.price y.price))
      ∙ e

  -- A feed that is cached, as its cross reference is, where the greater confidence of the two is
  -- positive and the distance of the prices, divided by it, exceeds the threshold.
  pub record IsDeviant (k cross : Pubkey) (price other : OraclePrice F) : Type 0 where
    pub cached : get cache k ≡ some price
    pub referenced : cross_reference c.feed_map k ≡ some cross
    pub crossed : get cache cross ≡ some other
    pub apart : deviates ops c cache price other ≡ true

  abbrev pub flags_of : List (Pubkey × Pubkey) → OracleRead → List Flag
  flags_of checked read = (check_read ops c cache checked read (get cache read.oracle_pubkey)).0

  abbrev pub pairs_of : List (Pubkey × Pubkey) → OracleRead → List (Pubkey × Pubkey)
  pairs_of checked read = (check_read ops c cache checked read (get cache read.oracle_pubkey)).1

  pub cross_flags-any :
      (x y : OraclePrice F)
      → deviates ops c cache x y ≡ true
      → any is_deviation (cross_flags ops c cache x (some y)) ≡ true
  cross_flags-any x y h = rw h refl

  -- A deviation is flagged unless its pair was checked.
  pub cross_check-flags :
      (checked : List (Pubkey × Pubkey)) (k cross : Pubkey) (price other : OraclePrice F)
      → get cache cross ≡ some other
      → deviates ops c cache price other ≡ true
      → (has_pair checked (pair_of k cross)
          || any is_deviation (cross_check ops c cache checked k price (some cross)).0)
        ≡ true
  cross_check-flags checked k cross price other g a =
      elim (Bool-cases (has_pair checked (pair_of k cross))) [
        | inl e ↦ rw e refl
        | inr e ↦ rw e (
            ap (λ o. any is_deviation (cross_flags ops c cache price o)) g
            ∙ cross_flags-any price other a)
      ]

  pub some_inj : (x y : OraclePrice F) → some x ≡ some y → x ≡ y
  some_inj x y h = cc

  -- The pair of a deviant read is flagged where another read is the first to check it.
  pub same_pair :
      (h : IsFloat ops) (checked : List (Pubkey × Pubkey)) (k cross j i : Pubkey)
      (price other x : OraclePrice F)
      → IsDeviant k cross price other
      → get cache j ≡ some x
      → ((j ≡ k) × (i ≡ cross)) ⊎ ((j ≡ cross) × (i ≡ k))
      → (has_pair checked (pair_of j i)
          || any is_deviation (cross_check ops c cache checked j x (some i)).0)
        ≡ true
  same_pair h checked k cross j i price other x d g (inl q) =
      let same = some_inj price x (sym d.cached ∙ (ap (get cache) (sym q.0) ∙ g)) in
      cross_check-flags checked j i x other (ap (get cache) q.1 ∙ d.crossed)
        (subst (λ y. deviates ops c cache y other ≡ true) same d.apart)
  same_pair h checked k cross j i price other x d g (inr q) =
      let same = some_inj other x (sym d.crossed ∙ (ap (get cache) (sym q.0) ∙ g)) in
      cross_check-flags checked j i x price (ap (get cache) q.1 ∙ d.cached) (
        subst (λ y. deviates ops c cache y price ≡ true) same (deviates_comm h price other d.apart))

  pub or_right : (a b : Bool) → a ≡ false → (a || b) ≡ true → b ≡ true
  or_right a b h k = ground arith

  pub or_of_right : (a b : Bool) → b ≡ true → (a || b) ≡ true
  or_of_right a b h = ground arith

  -- A pair that is checked from here on was checked, or is flagged if it deviates.
  pub crossed_or_flagged :
      (h : IsFloat ops) (checked : List (Pubkey × Pubkey)) (k cross j : Pubkey)
      (price other x : OraclePrice F) (o : Option Pubkey)
      → IsDeviant k cross price other
      → get cache j ≡ some x
      → has_pair (cross_check ops c cache checked j x o).1 (pair_of k cross) ≡ true
      → (has_pair checked (pair_of k cross)
          || any is_deviation (cross_check ops c cache checked j x o).0)
        ≡ true
  crossed_or_flagged h checked k cross j price other x none d g e = rw e refl
  crossed_or_flagged h checked k cross j price other x (some i) d g e =
      elim (Bool-cases (has_pair checked (pair_of j i))) [
        | inl f ↦ rw (f, rw f at e) refl
        | inr f ↦
            elim (Bool-cases (
              ((pair_of j i).0 == (pair_of k cross).0)
              && ((pair_of j i).1 == (pair_of k cross).1))) [
                | inl q ↦ or_of_right (has_pair checked (pair_of k cross)) _ (
                    or_right (has_pair checked (pair_of j i)) _ f (
                      same_pair h checked k cross j i price other x d g
                        (pair_of-inj j i k cross q)))
                | inr q ↦ rw (rw (f, q) at e) refl
              ]
      ]

-- ===== src/Signer/LittleEndian.antt =====
-- A Borsh library: little-endian numbers, one byte for a Bool, and byte arrays as they stand.
use ciel_sol.Base.{
  ℕ, zero, suc, ◌+◌, ◌-◌, ◌*◌, ◌/◌, ◌%◌, ◌<◌, ◌≡◌, refl, Bool, true, false, Option, none, some, [],
  ◌∷◌, ◌++◌, length, All, arith, ap, ltb, if◌then◌else◌, subst,
}
use ciel_sol.Base.Int.{ℤ, pos, negsuc}
use ciel_sol.Signer.Attestation.{Bytes}
use ciel_sol.Signer.Borsh.{Codec, IsCodec, IsByte, BorshLib, IsBorsh, InWord, InI64, IsArray}

abbrev pub bound : ℕ → ℕ
bound zero = 1
bound (suc w) = 256 * bound w

unfoldable pub le_encode : ℕ → ℕ → Bytes
le_encode zero n = []
le_encode (suc w) n = n % 256 ∷ le_encode w (n / 256)

abbrev pub with_digit : ℕ → Option (ℕ × Bytes) → Option (ℕ × Bytes)
with_digit b none = none
with_digit b (some (n, rest)) = some (b + 256 * n, rest)

unfoldable pub le_decode : ℕ → Bytes → Option (ℕ × Bytes)
le_decode zero bytes = some (0, bytes)
le_decode (suc w) [] = none
le_decode (suc w) (b ∷ bytes) = with_digit b (le_decode w bytes)

unfoldable pub le : ℕ → Codec ℕ
le w = record { encode = le_encode w; decode = le_decode w }

length-le_encode : (w n : ℕ) → length (le_encode w n) ≡ w
unfolding le_encode
length-le_encode zero n = refl
length-le_encode (suc w) n = omega (arith, length-le_encode w (n / 256))

le_read_back :
    (w n : ℕ) (rest : Bytes) → n < bound w → le_decode w (le_encode w n ++ rest) ≡ some (n, rest)
unfolding le_encode le_decode
le_read_back zero n rest h = ap (λ m. some (m, rest)) (omega arith)
le_read_back (suc w) n rest h =
    rw (le_read_back w (n / 256) rest (omega arith)) (ap (λ m. some (m, rest)) (omega arith))

abbrev IsRead : ℕ → Bytes → ℕ × Bytes → Type 0
IsRead w bytes p = (le_encode w p.0 ++ p.1 ≡ bytes) × (p.0 < bound w) × All IsByte p.1

eq_of_some : {A : Type 0} (x y : A) → some x ≡ some y → x ≡ y
eq_of_some {A} x y e = ap value e
  where
    value : Option A → A
    value none = x
    value (some z) = z

low_digit : (b m : ℕ) → b < 256 → ((b + 256 * m) % 256 ≡ b) × ((b + 256 * m) / 256 ≡ m)
low_digit b m h = (omega arith, omega arith)

IsRead-digit :
    (w b m : ℕ) (bytes r : Bytes)
    → b < 256
    → IsRead w bytes (m, r)
    → IsRead (suc w) (b ∷ bytes) (b + 256 * m, r)
unfolding le_encode
IsRead-digit w b m bytes r h c =
    (rw ((low_digit b m h).0, (low_digit b m h).1) (ap (λ t. b ∷ t) c.0), omega (arith, c.1), c.2)

le_canonical :
    (w n : ℕ) (bytes rest : Bytes)
    → All IsByte bytes
    → le_decode w bytes ≡ some (n, rest)
    → IsRead w bytes (n, rest)
unfolding le_encode le_decode
le_canonical zero n bytes rest h e =
    subst (IsRead 0 bytes) (eq_of_some (0, bytes) (n, rest) e) (refl, omega arith, h)
le_canonical (suc w) n [] rest h e = cc
le_canonical (suc w) n (b ∷ bytes) rest h e =
    step (le_decode w bytes) (λ m r f. le_canonical w m bytes r h.1 f) refl e
  where
    step :
        (x : Option (ℕ × Bytes))
        → ((m : ℕ) (r : Bytes) → le_decode w bytes ≡ some (m, r) → IsRead w bytes (m, r))
        → le_decode w bytes ≡ x
        → with_digit b x ≡ some (n, rest)
        → IsRead (suc w) (b ∷ bytes) (n, rest)
    step none ih f k = cc
    step (some (m, r)) ih f k =
        subst (IsRead (suc w) (b ∷ bytes)) (eq_of_some (b + 256 * m, r) (n, rest) k)
          (IsRead-digit w b m bytes r h.0 (ih m r f))

le-IsCodec : (w : ℕ) → IsCodec (InWord (bound w)) w (le w)
unfolding le
le-IsCodec w = record {
  width_eq = λ n h. length-le_encode w n;
  read_back = λ n rest h. le_read_back w n rest h;
  canonical = λ n bytes rest h e. le_canonical w n bytes rest h e;
}

-- Two's complement in 64 bits.
abbrev to_u64 : ℤ → ℕ
to_u64 (pos n) = n
to_u64 (negsuc n) = 18446744073709551615 - n

abbrev of_u64 : ℕ → ℤ
of_u64 n = if ltb n 9223372036854775808 then pos n else negsuc (18446744073709551615 - n)

of-to_u64 : (z : ℤ) → InI64 z → (of_u64 (to_u64 z) ≡ z) × (to_u64 z < 18446744073709551616)
of-to_u64 z h = ground arith

to-of_u64 : (n : ℕ) → n < 18446744073709551616 → (to_u64 (of_u64 n) ≡ n) × InI64 (of_u64 n)
to-of_u64 n h = ground arith

abbrev signed : Option (ℕ × Bytes) → Option (ℤ × Bytes)
signed none = none
signed (some (n, rest)) = some (of_u64 n, rest)

unfoldable pub i64 : Codec ℤ
unfolding le
i64 = record { encode = λ z. le_encode 8 (to_u64 z); decode = λ bytes. signed (le_decode 8 bytes) }

i64-canonical :
    (z : ℤ) (bytes rest : Bytes) (x : Option (ℕ × Bytes))
    → All IsByte bytes
    → le_decode 8 bytes ≡ x
    → signed x ≡ some (z, rest)
    → (le_encode 8 (to_u64 z) ++ rest ≡ bytes) × InI64 z × All IsByte rest
i64-canonical z bytes rest none h e k = cc
i64-canonical z bytes rest (some (n, r)) h e k =
    let c = le_canonical 8 n bytes r h e in
    let d = to-of_u64 n c.1 in
    subst (λ q. (le_encode 8 (to_u64 q.0) ++ q.1 ≡ bytes) × InI64 q.0 × All IsByte q.1)
      (eq_of_some (of_u64 n, r) (z, rest) k) (rw d.0 c.0, d.1, c.2)

i64-IsCodec : IsCodec InI64 8 i64
unfolding i64
i64-IsCodec = record {
  width_eq = λ z h. length-le_encode 8 (to_u64 z);
  read_back =
      λ z rest h. let d = of-to_u64 z h in rw (le_read_back 8 (to_u64 z) rest d.1) (rw d.0 refl);
  canonical = λ z bytes rest h e. i64-canonical z bytes rest (le_decode 8 bytes) h refl e;
}

abbrev bool_encode : Bool → Bytes
bool_encode false = 0 ∷ []
bool_encode true = 1 ∷ []

abbrev bool_decode : Bytes → Option (Bool × Bytes)
bool_decode (zero ∷ rest) = some (false, rest)
bool_decode (suc zero ∷ rest) = some (true, rest)
bool_decode _ = none

bool_canonical :
    (b : Bool) (bytes rest : Bytes)
    → All IsByte bytes
    → bool_decode bytes ≡ some (b, rest)
    → (bool_encode b ++ rest ≡ bytes) × Unit {0} × All IsByte rest
bool_canonical b [] rest h e = cc
bool_canonical b (zero ∷ bytes) rest h e =
    subst (λ q. (bool_encode q.0 ++ q.1 ≡ 0 ∷ bytes) × Unit {0} × All IsByte q.1)
      (eq_of_some (false, bytes) (b, rest) e) (refl, tt, h.1)
bool_canonical b (suc zero ∷ bytes) rest h e =
    subst (λ q. (bool_encode q.0 ++ q.1 ≡ 1 ∷ bytes) × Unit {0} × All IsByte q.1)
      (eq_of_some (true, bytes) (b, rest) e) (refl, tt, h.1)
bool_canonical b (suc (suc n) ∷ bytes) rest h e = cc

length-bool_encode : (b : Bool) → length (bool_encode b) ≡ 1
length-bool_encode true = refl
length-bool_encode false = refl

bool_read_back : (b : Bool) (rest : Bytes) → bool_decode (bool_encode b ++ rest) ≡ some (b, rest)
bool_read_back true rest = refl
bool_read_back false rest = refl

bool-IsCodec : IsCodec (λ b. Unit {0}) 1 (record { encode = bool_encode; decode = bool_decode })
bool-IsCodec = record {
  width_eq = λ b h. length-bool_encode b;
  read_back = λ b rest h. bool_read_back b rest;
  canonical = bool_canonical;
}

abbrev with_byte : ℕ → Option (Bytes × Bytes) → Option (Bytes × Bytes)
with_byte b none = none
with_byte b (some (bytes, rest)) = some (b ∷ bytes, rest)

unfoldable pub array_decode : ℕ → Bytes → Option (Bytes × Bytes)
array_decode zero bytes = some ([], bytes)
array_decode (suc n) [] = none
array_decode (suc n) (b ∷ bytes) = with_byte b (array_decode n bytes)

array_read_back :
    (n : ℕ) (a rest : Bytes) → length a ≡ n → array_decode n (a ++ rest) ≡ some (a, rest)
unfolding array_decode
array_read_back zero [] rest h = refl
array_read_back zero (b ∷ a) rest h = absurd (omega (arith, h))
array_read_back (suc n) [] rest h = absurd (omega (arith, h))
array_read_back (suc n) (b ∷ a) rest h = rw (array_read_back n a rest (omega (arith, h))) refl

abbrev IsSplit : ℕ → Bytes → Bytes × Bytes → Type 0
IsSplit n bytes p = (p.0 ++ p.1 ≡ bytes) × IsArray n p.0 × All IsByte p.1

array_canonical :
    (n : ℕ) (a bytes rest : Bytes)
    → All IsByte bytes
    → array_decode n bytes ≡ some (a, rest)
    → IsSplit n bytes (a, rest)
unfolding array_decode
array_canonical zero a bytes rest h e =
    subst (IsSplit 0 bytes) (eq_of_some ([], bytes) (a, rest) e) (refl, (refl, tt), h)
array_canonical (suc n) a [] rest h e = cc
array_canonical (suc n) a (b ∷ bytes) rest h e =
    step (array_decode n bytes) (λ a r f. array_canonical n a bytes r h.1 f) refl e
  where
    step :
        (x : Option (Bytes × Bytes))
        → ((a r : Bytes) → array_decode n bytes ≡ some (a, r) → IsSplit n bytes (a, r))
        → array_decode n bytes ≡ x
        → with_byte b x ≡ some (a, rest)
        → IsSplit (suc n) (b ∷ bytes) (a, rest)
    step none ih f k = cc
    step (some (m, r)) ih f k =
        let c = ih m r f in
        subst (IsSplit (suc n) (b ∷ bytes)) (eq_of_some (b ∷ m, r) (a, rest) k)
          (ap (λ t. b ∷ t) c.0, (omega (arith, c.1.0), (h.0, c.1.1)), c.2)

IsArray-IsCodec :
    (n : ℕ) → IsCodec (IsArray n) n (record { encode = λ a. a; decode = array_decode n })
IsArray-IsCodec n = record {
  width_eq = λ a h. h.0;
  read_back = λ a rest h. array_read_back n a rest h.0;
  canonical = λ a bytes rest h e. array_canonical n a bytes rest h e;
}

abbrev pub borsh : BorshLib
borsh = record {
  u8 = le 1;
  u16 = le 2;
  u64 = le 8;
  i64 = i64;
  bool = record { encode = bool_encode; decode = bool_decode };
  array = λ n. record { encode = λ a. a; decode = array_decode n };
}

pub borsh-IsBorsh : IsBorsh borsh
borsh-IsBorsh = record {
  u8_codec = le-IsCodec 1;
  u16_codec = le-IsCodec 2;
  u64_codec = le-IsCodec 8;
  i64_codec = i64-IsCodec;
  bool_codec = bool-IsCodec;
  array_codec = IsArray-IsCodec;
  array_bytes = λ n bytes. refl;
}

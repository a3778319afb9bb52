-- ===== src/Signer/Borsh.antt =====
-- Borsh, as attestation.rs uses it through `derive`: a codec for each field type, and a struct as
-- the sequence of its fields. The codecs of the primitive types are the library's, a parameter.
use ciel_sol.Base.{
  ℕ, ◌+◌, ◌<◌, ◌≡◌, refl, Bool, Option, none, some, ◌++◌, length, All, arith, length-append, ap,
  subst,
}
use ciel_sol.Base.Int.{ℤ, pos, negsuc}
use mathlib.Core.List.{append_assoc}
use ciel_sol.Signer.Attestation.{Bytes}

abbrev pub IsByte : ℕ → Type 0
IsByte b = b < 256

pub record Codec (A : Type 0) : Type 0 where
  pub encode : A → Bytes
  pub decode : Bytes → Option (A × Bytes)

-- On the values of P the encoding has a fixed width and is read back with what follows it, and
-- each byte string that decodes is the encoding of what it decodes to.
pub record IsCodec {A : Type 0} (P : A → Type 0) (width : ℕ) (c : Codec A) : Type 0 where
  pub width_eq : (a : A) → P a → length (c.encode a) ≡ width
  pub read_back : (a : A) (rest : Bytes) → P a → c.decode (c.encode a ++ rest) ≡ some (a, rest)
  pub canonical :
      (a : A) (bytes rest : Bytes)
      → All IsByte bytes
      → c.decode bytes ≡ some (a, rest)
      → (c.encode a ++ rest ≡ bytes) × P a × All IsByte rest

eq_of_some : {A : Type 0} (x y : A) → some x ≡ some y → x ≡ y
eq_of_some {A} x y e = ap value e
  where
    value : Option A → A
    value none = x
    value (some z) = z

module _ {A B : Type 0} where
  abbrev pair_with : A → Option (B × Bytes) → Option ((A × B) × Bytes)
  pair_with a none = none
  pair_with a (some (b, rest)) = some ((a, b), rest)

  -- A field, and the fields after it.
  abbrev decode_then : Codec B → Option (A × Bytes) → Option ((A × B) × Bytes)
  decode_then d none = none
  decode_then d (some (a, rest)) = pair_with a (d.decode rest)

  unfoldable pub seq : Codec A → Codec B → Codec (A × B)
  seq c d = record {
    encode = λ p. c.encode p.0 ++ d.encode p.1;
    decode = λ bytes. decode_then d (c.decode bytes);
  }

  abbrev pub Both : (A → Type 0) → (B → Type 0) → A × B → Type 0
  Both P Q p = P p.0 × Q p.1

  module _ {P : A → Type 0} {Q : B → Type 0} {m n : ℕ} {c : Codec A} {d : Codec B}
      (hc : IsCodec P m c) (hd : IsCodec Q n d) where
    seq-read_back :
        (p : A × B) (rest : Bytes)
        → Both P Q p
        → (seq c d).decode ((seq c d).encode p ++ rest) ≡ some (p, rest)
    unfolding seq
    seq-read_back (a, b) rest h =
        rw append_assoc
          (rw (hc.read_back a (d.encode b ++ rest) h.0) (rw (hd.read_back b rest h.1) refl))

    -- What is left of a decoding of both, once the two steps are known.
    seq-steps :
        (p : A × B) (bytes rest : Bytes) (x : Option (A × Bytes))
        → All IsByte bytes
        → c.decode bytes ≡ x
        → decode_then d x ≡ some (p, rest)
        → (c.encode p.0 ++ (d.encode p.1 ++ rest) ≡ bytes) × Both P Q p × All IsByte rest
    seq-steps p bytes rest none h e k = cc
    seq-steps p bytes rest (some (a, r)) h e k = last p bytes rest a r (d.decode r) h e refl k
      where
        last :
            (p : A × B) (bytes rest : Bytes) (a : A) (r : Bytes) (y : Option (B × Bytes))
            → All IsByte bytes
            → c.decode bytes ≡ some (a, r)
            → d.decode r ≡ y
            → pair_with a y ≡ some (p, rest)
            → (c.encode p.0 ++ (d.encode p.1 ++ rest) ≡ bytes) × Both P Q p × All IsByte rest
        last p bytes rest a r none h e f k = cc
        last p bytes rest a r (some (b, r')) h e f k =
            let first = hc.canonical a bytes r h e in
            let second = hd.canonical b r r' first.2 f in
            subst
              (λ q.
                (c.encode q.0.0 ++ (d.encode q.0.1 ++ q.1) ≡ bytes) × Both P Q q.0 × All IsByte q.1)
              (eq_of_some ((a, b), r') (p, rest) k)
              (rw second.0 first.0, (first.1, second.1), second.2)

    pub seq-IsCodec : IsCodec (Both P Q) (m + n) (seq c d)
    unfolding seq
    seq-IsCodec = record {
      width_eq = λ p h. omega (
        arith,
        length-append (c.encode p.0) (d.encode p.1),
        hc.width_eq p.0 h.0,
        hd.width_eq p.1 h.1,
      );
      read_back = seq-read_back;
      canonical =
          λ p bytes rest h e. rw append_assoc (seq-steps p bytes rest (c.decode bytes) h refl e);
    }

-- A struct is a codec through its tuple of fields.
module _ {A B : Type 0} (to : A → B) (from : B → A) where
  abbrev map_decoded : Option (B × Bytes) → Option (A × Bytes)
  map_decoded none = none
  map_decoded (some (b, rest)) = some (from b, rest)

  unfoldable pub through : Codec B → Codec A
  through c = record {
    encode = λ a. c.encode (to a);
    decode = λ bytes. map_decoded (c.decode bytes);
  }

  module _ (to_from : (b : B) → to (from b) ≡ b) (from_to : (a : A) → from (to a) ≡ a)
      {P : B → Type 0} {n : ℕ} {c : Codec B} (hc : IsCodec P n c) where
    through-canonical :
        (a : A) (bytes rest : Bytes) (x : Option (B × Bytes))
        → All IsByte bytes
        → c.decode bytes ≡ x
        → map_decoded x ≡ some (a, rest)
        → (c.encode (to a) ++ rest ≡ bytes) × P (to a) × All IsByte rest
    through-canonical a bytes rest none h e k = cc
    through-canonical a bytes rest (some (b, r)) h e k =
        subst (λ q. (c.encode (to q.0) ++ q.1 ≡ bytes) × P (to q.0) × All IsByte q.1)
          (eq_of_some (from b, r) (a, rest) k) (rw to_from (hc.canonical b bytes r h e))

    pub through-IsCodec : IsCodec (λ a. P (to a)) n (through c)
    unfolding through
    through-IsCodec = record {
      width_eq = λ a h. hc.width_eq (to a) h;
      read_back = λ a rest h. rw (hc.read_back (to a) rest h) (rw from_to refl);
      canonical = λ a bytes rest h e. through-canonical a bytes rest (c.decode bytes) h refl e;
    }

-- The primitive codecs.
pub record BorshLib : Type 0 where
  pub u8 : Codec ℕ
  pub u16 : Codec ℕ
  pub u64 : Codec ℕ
  pub i64 : Codec ℤ
  pub bool : Codec Bool
  pub array : ℕ → Codec Bytes  -- `[u8; n]`

abbrev pub InWord : ℕ → ℕ → Type 0
InWord n a = a < n

abbrev pub InI64 : ℤ → Type 0
InI64 (pos n) = n < 9223372036854775808
InI64 (negsuc n) = n < 9223372036854775808

abbrev pub IsArray : ℕ → Bytes → Type 0
IsArray n bytes = (length bytes ≡ n) × All IsByte bytes

-- What the Borsh specification says of them: fixed widths, no other byte string for a value, and an
-- array of bytes stands as it is.
pub record IsBorsh (lib : BorshLib) : Type 0 where
  pub u8_codec : IsCodec (InWord 256) 1 lib.u8
  pub u16_codec : IsCodec (InWord 65536) 2 lib.u16
  pub u64_codec : IsCodec (InWord 18446744073709551616) 8 lib.u64
  pub i64_codec : IsCodec InI64 8 lib.i64
  pub bool_codec : IsCodec (λ b. Unit {0}) 1 lib.bool
  pub array_codec : (n : ℕ) → IsCodec (IsArray n) n (lib.array n)
  pub array_bytes : (n : ℕ) (bytes : Bytes) → (lib.array n).encode bytes ≡ bytes

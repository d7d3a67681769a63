-- ===== src/Codec.antt =====
-- The crate's error type (src/error.rs), results, and the serialisation of records (src/codec.rs).
-- bincode is not part of the repository: a codec is an encoder and a decoder that inverts it.
use dal_service.Prelude.{◌≡◌, refl, Option, none, some, List, ℕ, String, arith}

pub data Error : Type 0 where
  config rocks codec raft search io : String → Error
  identity_mismatch : ℕ → ℕ → ℕ → ℕ → Error
  corrupt : String → String → Error

abbrev pub Bytes : Type 0
Bytes = List ℕ

pub data Result {μ} (T : Type μ) : Type μ where
  ok : T → Result T
  err : Error → Result T

-- What the code relies on of bincode: decoding what was encoded gives the value back.
pub record Codec (A : Type 0) : Type 0 where
  pub encode : A → Bytes
  pub deserialize : Bytes → Option A
  pub deserialize-encode : (a : A) → deserialize (encode a) ≡ some a

infixl 5 ◌>>=◌
abbrev pub ◌>>=◌ {μ ν} : {T : Type μ} {U : Type ν} → Result T → (T → Result U) → Result U
ok t >>= next = next t
err x >>= next = err x

module _ {A : Type 0} (c : Codec A) where
  unfoldable pub decode : Bytes → Result A
  decode bytes = elim (c.deserialize bytes) [ none ↦ err (codec "deserialize") | some a ↦ ok a ]

  pub decode-encode : (a : A) → decode (c.encode a) ≡ ok a
  unfolding decode
  decode-encode a = ground (arith, c.deserialize-encode a)

-- What a bind returns, it returns from the value of its first part.
pub >>=-eq-ok {μ ν} :
    {T : Type μ} {U : Type ν} (first : Result T) (next : T → Result U) {result : U}
    → (first >>= next) ≡ ok result
    → (t : T) × (first ≡ ok t) × (next t ≡ ok result)
>>=-eq-ok (ok t) next done = (t, refl, done)
>>=-eq-ok (err x) next done = ground arith

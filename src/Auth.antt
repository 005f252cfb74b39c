-- ===== src/Auth.antt =====
-- Salts, comparison in constant time and fingerprints: datamodel/auth.go and CreateFingerprint of
-- auth/keys.go. The random source, SHA-256 and MD5 are arguments.
pub mod Compare
use kappa.Base.{
  ℕ, ◌+◌, ◌-◌, ◌/◌, ◌%◌, ◌^◌, Bytes, List, [], ◌∷◌, ◌++◌, Bool, false, Option, none, some, ◌==◌,
  nat_eq, list_eq, if◌then◌else◌, length, ltb,
}

-- `rand.Reader` fills the buffer of `SaltSize` bytes, or fails: then the first argument is `none`.
unfoldable pub generate_salt : Option Bytes → (Bytes → Bytes) → Bytes → Option (Bytes × Bytes)
generate_salt none sha256 secret = none
generate_salt (some buf) sha256 secret = some (buf, sha256 (buf ++ secret))

abbrev int32 : ℕ → ℕ
int32 n = n % 2 ^ 32

-- The lengths are compared as 32-bit integers; ConstantTimeCompare compares the contents.
unfoldable pub secure_compare : Bytes → Bytes → Bool
secure_compare given actual =
    if int32 (length given) == int32 (length actual) then given == actual else false

-- A digit of `hex.EncodeToString`.
unfoldable pub hex_digit : ℕ → ℕ
hex_digit d = if ltb d 10 then b'0' + d else b'a' + (d - 10)

unfoldable pub encode_to_string : Bytes → Bytes
unfolding hex_digit
encode_to_string [] = []
encode_to_string (c ∷ s) = hex_digit (c / 16) ∷ hex_digit (c % 16) ∷ encode_to_string s

-- The loop over pairs of digits: a colon stands behind each pair but the last.
unfoldable pub colons : Bytes → Bytes
colons (x ∷ y ∷ z ∷ rest) = x ∷ y ∷ b':' ∷ colons (z ∷ rest)
colons digits = digits

unfoldable pub create_fingerprint : (Bytes → Bytes) → Bytes → Bytes
unfolding encode_to_string colons
create_fingerprint md5 key = colons (encode_to_string (md5 key))

-- ===== src/Uuid.antt =====
-- The random identifiers of pkg/uuid/uuid.go. What ReadFull gets from the source of random bytes, or its
-- error, is an argument.
pub mod Layout
use kappa.Base.{
  ℕ, zero, suc, ◌+◌, ◌-◌, ◌/◌, ◌%◌, Bytes, codes, [], ◌∷◌, ◌++◌, ◌==◌, nat_eq, ltb, not,
  if◌then◌else◌, length, Option, none, some, Result, ok, err,
}
use kappa.Auth.{encode_to_string}
use kappa.Text.{take, drop}
use Prim.Native.Nat.{bit_and, bit_or, bit_xor}

-- `a &^ mask`
abbrev pub and_not : ℕ → ℕ → ℕ
and_not a mask = bit_xor a (bit_and a mask)

-- `uuid[i] = f(uuid[i])`
abbrev pub update_at : ℕ → (ℕ → ℕ) → Bytes → Bytes
update_at i f [] = []
update_at zero f (b ∷ bs) = f b ∷ bs
update_at (suc i) f (b ∷ bs) = b ∷ update_at i f bs

abbrev pub variant : ℕ → ℕ
variant b = bit_or (and_not b 0xc0) 0x80

abbrev pub version : ℕ → ℕ
version b = bit_or (and_not b 0xf0) 0x40

-- `uuid[from:to]`
abbrev pub slice : ℕ → ℕ → Bytes → Bytes
slice from to bs = take (to - from) (drop from bs)

abbrev pub stamp : Bytes → Bytes
stamp uuid = update_at 6 version (update_at 8 variant uuid)

-- %x writes the digits that EncodeToString of package hex writes.
abbrev pub dashed : Bytes → Bytes
dashed uuid =
    encode_to_string (slice 0 4 uuid)
    ++ b'-' ∷ encode_to_string (slice 4 6 uuid)
    ++ b'-' ∷ encode_to_string (slice 6 8 uuid)
    ++ b'-' ∷ encode_to_string (slice 8 10 uuid)
    ++ b'-' ∷ encode_to_string (drop 10 uuid)

-- UUID4, by the bytes that were read and the error: `err` holds that error, which is `none` for nil.
unfoldable pub uuid4 : Bytes → Option Bytes → Result (Option Bytes) Bytes
unfolding encode_to_string
uuid4 read (some e) = err (some e)
uuid4 read none = if not (length read == 16) then err none else ok (dashed (stamp read))

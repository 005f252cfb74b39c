-- ===== src/Uuid/Layout.antt =====
-- The identifiers have the layout of RFC 4122, and no other random bit is lost.
use kappa.Base.{
  ℕ, zero, suc, ◌+◌, ◌*◌, ◌-◌, ◌/◌, ◌%◌, ◌<◌, Bytes, codes, [], ◌∷◌, ◌++◌, Bool, true, false, ◌==◌,
  ◌&&◌, nat_eq, nat_beq_iff, leb, if◌then◌else◌, length, Option, none, some, ok, ◌≡◌, refl, ap,
  arith, All, contains, list_beq, list_eq,
}
use kappa.Text.{drop}
use kappa.Auth.{hex_digit, encode_to_string}
use kappa.Uuid.{variant, version, slice, dashed, uuid4}

-- The test passes on the numbers under a bound, found by running it on each.
abbrev passes : (ℕ → Bool) → ℕ → Bool
passes test zero = true
passes test (suc bound) = if test bound then passes test bound else false

passes-below :
    (test : ℕ → Bool) (bound b : ℕ) → b < bound → passes test bound ≡ true → test b ≡ true
passes-below test zero b less all = absurd (omega arith)
passes-below test (suc bound) b less all = ground (arith, passes-below test bound b)

-- The top bits are the mark, and the other bits those of the byte.
abbrev is_variant : ℕ → Bool
is_variant b = variant b == 128 + b % 64

abbrev is_version : ℕ → Bool
is_version b = version b == 64 + b % 16

variant_bits : (b : ℕ) → b < 256 → variant b ≡ 128 + b % 64
variant_bits b h = (nat_beq_iff (variant b) (128 + b % 64)).0 (passes-below is_variant 256 b h refl)

version_bits : (b : ℕ) → b < 256 → version b ≡ 64 + b % 16
version_bits b h = (nat_beq_iff (version b) (64 + b % 16)).0 (passes-below is_version 256 b h refl)

-- The value of a hexadecimal digit.
abbrev pub unhex_digit : ℕ → Option ℕ
unhex_digit c =
    if leb b'0' c && leb c b'9'
    then some (c - b'0')
    else if leb b'a' c && leb c b'f'
    then some (c - b'a' + 10)
    else none

abbrev paired : Option ℕ → Option ℕ → Option Bytes → Option Bytes
paired (some h) (some l) (some bs) = some ((h * 16 + l) ∷ bs)
paired _ _ _ = none

-- The bytes of pairs of digits.
unfoldable pub unhex : Bytes → Option Bytes
unhex [] = some []
unhex (c ∷ []) = none
unhex (c ∷ d ∷ s) = paired (unhex_digit c) (unhex_digit d) (unhex s)

digit_back : (d : ℕ) → d < 16 → unhex_digit (hex_digit d) ≡ some d
unfolding hex_digit
digit_back d h = ground arith

unhex-encode_to_string :
    (bs : Bytes) → All (λ b. b < 256) bs → unhex (encode_to_string bs) ≡ some bs
unfolding unhex encode_to_string
unhex-encode_to_string [] h = refl
unhex-encode_to_string (b ∷ bs) (lt, h) =
    rw
      (
        digit_back (b / 16) (omega arith),
        digit_back (b % 16) (omega arith),
        unhex-encode_to_string bs h,
      )
      (ground arith)

-- Without the bytes at the places of the dashes.
abbrev pub undash : Bytes → Bytes
undash s = slice 0 8 s ++ slice 9 13 s ++ slice 14 18 s ++ slice 19 23 s ++ drop 24 s

-- What stands at the places of the dashes.
abbrev pub dashes : Bytes → Bytes
dashes s = slice 8 9 s ++ slice 13 14 s ++ slice 18 19 s ++ slice 23 24 s

version_digit : (b : ℕ) → hex_digit ((64 + b % 16) / 16) ≡ b'4'
unfolding hex_digit
version_digit b = ground arith

variant_digit :
    (b : ℕ)
    → contains
        (hex_digit ((128 + b % 64) / 16) ∷ [])
        (codes "8" ∷ codes "9" ∷ codes "a" ∷ codes "b" ∷ [])
      ≡ true
unfolding contains list_beq hex_digit
variant_digit b = ground arith

pub record IsUuid (s : Bytes) : Type 0 where
  pub size : length s ≡ 36
  pub separated : dashes s ≡ codes "----"
  pub version_4 : slice 14 15 s ≡ codes "4"
  pub variant_1 :
      contains (slice 19 20 s) (codes "8" ∷ codes "9" ∷ codes "a" ∷ codes "b" ∷ []) ≡ true

module _ (b0 b1 b2 b3 b4 b5 b6 b7 b8 b9 b10 b11 b12 b13 b14 b15 : ℕ) where
  -- From sixteen random bytes UUID4 makes a text of 36 characters in five groups, of version 4 and of
  -- variant 1, and its digits are those bytes in their order, but for the six bits of the version and the
  -- variant.
  pub uuid4-IsUuid :
      All
        (λ b. b < 256)
        (b0 ∷ b1 ∷ b2 ∷ b3 ∷ b4 ∷ b5 ∷ b6 ∷ b7 ∷ b8 ∷ b9 ∷ b10 ∷ b11 ∷ b12 ∷ b13 ∷ b14 ∷ b15 ∷ [])
      → (s : Bytes) × (uuid4
            (b0 ∷ b1 ∷ b2 ∷ b3 ∷ b4 ∷ b5 ∷ b6 ∷ b7 ∷ b8 ∷ b9 ∷ b10 ∷ b11 ∷ b12 ∷ b13 ∷ b14 ∷ b15
              ∷ [])
            none
          ≡ ok s)
        × IsUuid s
        × (unhex (undash s)
            ≡ some (
                b0
                ∷ b1
                ∷ b2
                ∷ b3
                ∷ b4
                ∷ b5
                ∷ (64 + b6 % 16)
                ∷ b7
                ∷ (128 + b8 % 64)
                ∷ b9
                ∷ b10
                ∷ b11
                ∷ b12
                ∷ b13
                ∷ b14
                ∷ b15
                ∷ []))
  unfolding uuid4
  uuid4-IsUuid
        (
          h0,
          (
            h1,
            (
              h2,
              (
                h3,
                (h4, (h5, (h6, (h7, (h8, (h9, (h10, (h11, (h12, (h13, (h14, (h15, tt)))))))))))),
              ),
            ),
          ),
        ) =
      rw (version_bits b6 h6, variant_bits b8 h8)
        (
          dashed (
              b0
              ∷ b1
              ∷ b2
              ∷ b3
              ∷ b4
              ∷ b5
              ∷ (64 + b6 % 16)
              ∷ b7
              ∷ (128 + b8 % 64)
              ∷ b9
              ∷ b10
              ∷ b11
              ∷ b12
              ∷ b13
              ∷ b14
              ∷ b15
              ∷ []),
          refl,
          unfold encode_to_string in
              record {
                size = refl;
                separated = refl;
                version_4 = ap (λ c. c ∷ []) (version_digit b6);
                variant_1 = variant_digit b8;
              },
          unfold encode_to_string in
              unhex-encode_to_string
                (b0
                  ∷ b1
                  ∷ b2
                  ∷ b3
                  ∷ b4
                  ∷ b5
                  ∷ (64 + b6 % 16)
                  ∷ b7
                  ∷ (128 + b8 % 64)
                  ∷ b9
                  ∷ b10
                  ∷ b11
                  ∷ b12
                  ∷ b13
                  ∷ b14
                  ∷ b15
                  ∷ [])
                (
                  h0,
                  (
                    h1,
                    (
                      h2,
                      (
                        h3,
                        (
                          h4,
                          (
                            h5,
                            (
                              omega arith,
                              (
                                h7,
                                (omega arith, (h9, (h10, (h11, (h12, (h13, (h14, (h15, tt)))))))),
                              ),
                            ),
                          ),
                        ),
                      ),
                    ),
                  ),
                ),
        )

-- ===== src/Tests/Uuid.antt =====
-- The identifier of sixteen equal bytes.
use kappa.Base.{Bytes, codes, [], ◌∷◌, ◌≡◌, none, some, ok, arith, refl}
use kappa.Auth.{encode_to_string, hex_digit}
use kappa.Uuid.{uuid4}
use kappa.Uuid.Layout.{IsUuid, unhex, undash, uuid4-IsUuid}

abbrev ones : Bytes
ones =
    255 ∷ 255 ∷ 255 ∷ 255 ∷ 255 ∷ 255 ∷ 255 ∷ 255 ∷ 255 ∷ 255 ∷ 255 ∷ 255 ∷ 255 ∷ 255 ∷ 255 ∷ 255
    ∷ []

uuid4-IsUuid_example :
    (s : Bytes) × (uuid4 ones none ≡ ok s)
    × IsUuid s
    × (unhex (undash s)
        ≡ some (
            255 ∷ 255 ∷ 255 ∷ 255 ∷ 255 ∷ 255 ∷ 79 ∷ 255 ∷ 191 ∷ 255 ∷ 255 ∷ 255 ∷ 255 ∷ 255 ∷ 255
            ∷ 255 ∷ []))
uuid4-IsUuid_example =
    uuid4-IsUuid 255 255 255 255 255 255 255 255 255 255 255 255 255 255 255 255 (
      omega arith,
      (
        omega arith,
        (
          omega arith,
          (
            omega arith,
            (
              omega arith,
              (
                omega arith,
                (
                  omega arith,
                  (
                    omega arith,
                    (
                      omega arith,
                      (
                        omega arith,
                        (
                          omega arith,
                          (
                            omega arith,
                            (omega arith, (omega arith, (omega arith, (omega arith, tt)))),
                          ),
                        ),
                      ),
                    ),
                  ),
                ),
              ),
            ),
          ),
        ),
      ),
    )

ones_run : uuid4 ones none ≡ ok (codes "ffffffff-ffff-4fff-bfff-ffffffffffff")
unfolding uuid4 encode_to_string hex_digit
ones_run = refl

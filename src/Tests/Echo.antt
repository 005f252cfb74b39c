-- ===== src/Tests/Echo.antt =====
-- Two messages to the echo handler.
use kappa.Base.{
  ℕ, ◌+◌, ◌*◌, ◌/◌, ◌%◌, ◌^◌, ◌<◌, length, Bytes, codes, List, [], ◌∷◌, ◌++◌, some, ◌≡◌, refl,
  arith,
}
use kappa.Ssh.Echo.{returns, waits, echo, framed, echoes, echo-framed}

-- A word in four bytes, the lowest first.
abbrev put_uint32 : ℕ → Bytes
put_uint32 n = n % 256 ∷ n / 256 % 256 ∷ n / 65536 % 256 ∷ n / 16777216 % 256 ∷ []

abbrev get_uint32 : Bytes → ℕ
get_uint32 (a ∷ b ∷ c ∷ d ∷ s) = a + b * 256 + c * 65536 + d * 16777216
get_uint32 _ = 0

four : (n : ℕ) → length (put_uint32 n) ≡ 4
four n = refl

back : (n : ℕ) → n < 2 ^ 32 → get_uint32 (put_uint32 n) ≡ n
back n h = omega arith

abbrev two_messages : List Bytes
two_messages = codes "one" ∷ codes "two" ∷ []

echo-framed_example :
    (echo get_uint32 put_uint32 3 (framed get_uint32 put_uint32 two_messages ++ put_uint32 0) []
      ≡ some (record { written = echoes get_uint32 put_uint32 [] two_messages; ending = returns }))
    × (echo get_uint32 put_uint32 3
          (framed get_uint32 put_uint32 two_messages
            ++ (put_uint32 0 ++ (put_uint32 5 ++ (codes "three" ++ []))))
          []
        ≡ some (record { written = echoes get_uint32 put_uint32 [] two_messages; ending = waits }))
echo-framed_example =
    echo-framed get_uint32 put_uint32 four back 3 two_messages [] (codes "three") [] (omega arith)
      ((omega arith, omega arith), ((omega arith, omega arith), tt)) (omega arith)

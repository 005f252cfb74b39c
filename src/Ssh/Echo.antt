-- ===== src/Ssh/Echo.antt =====
-- The EchoHandler of server/ssh.go: its two goroutines as one loop, for the second takes each message
-- before the first reads on. The bytes that the client sends have all come, with the end of the input
-- behind them; the tombs are not dying and every write succeeds. The codec of package xbinary is an
-- argument.
use kappa.Base.{
  ℕ, zero, suc, ◌^◌, ◌<◌, Bytes, List, [], ◌∷◌, ◌++◌, append_assoc, append-nil, not, Option, none,
  some, ◌==◌, nat_eq, if◌then◌else◌, length, ◌≡◌, refl, sym, ap, ◌∙◌, arith, All,
}
use kappa.Text.{take, drop}

-- Handle returns where both goroutines have ended. It waits for its parent where the writer waits for a
-- message, behind an error of the reader, or the reader for a writer that has ended, behind a message of no
-- bytes.
pub data Ending : Type 0 where
  returns waits : Ending

-- What is written to the channel, one entry for each write.
pub record Echoed : Type 0 where
  pub written : List Bytes
  pub ending : Ending

abbrev pub stopped : Ending → Option Echoed
stopped e = some (record { written = []; ending = e })

abbrev pub preceded : List Bytes → Option Echoed → Option Echoed
preceded ws none = none
preceded ws (some e) = some (record e { written = ws ++ e.written })

module _ (get_uint32 : Bytes → ℕ) (put_uint32 : ℕ → Bytes) where
  -- The writer ends at a message of no bytes, and the reader goes on with the input behind it: where it
  -- reads an error it ends too, and where it reads a message, no one takes it.
  unfoldable pub reader_alone : Bytes → Ending
  reader_alone input =
      let header = take 4 input in
      let l = get_uint32 header in
      let read = take l (drop 4 input) in
      if not (length header == 4)
      then returns
      else if not (length read == l)
      then returns
      else waits

  -- The message of `l` bytes, where `read` bytes of it have come and `buffer` holds what came before;
  -- `behind` is the input behind it, and `rest` the loop on that.
  abbrev on_message : ℕ → Bytes → Bytes → Bytes → Option Echoed → Option Echoed
  on_message l read buffer behind rest =
      if not (length read == l)
      then stopped waits
      else if l == 0
      then stopped (reader_alone behind)
      else preceded (put_uint32 l ∷ (buffer ++ read) ∷ []) rest

  -- A round for each message; `none` is a loop that still runs.
  unfoldable pub echo : ℕ → Bytes → Bytes → Option Echoed
  unfolding reader_alone
  echo zero input buffer = none
  echo (suc fuel) input buffer =
      let header = take 4 input in
      let l = get_uint32 header in
      let body = drop 4 input in
      let read = take l body in
      let rest = echo fuel (drop l body) (buffer ++ read) in
      if not (length header == 4)
      then stopped waits
      else on_message l read buffer (drop l body) rest

  -- The bytes of a client's messages, each behind its length.
  abbrev pub framed : List Bytes → Bytes
  framed [] = []
  framed (d ∷ ds) = put_uint32 (length d) ++ (d ++ framed ds)

  -- Each message answered by its length and by all the bytes so far.
  abbrev pub echoes : Bytes → List Bytes → List Bytes
  echoes buffer [] = []
  echoes buffer (d ∷ ds) = put_uint32 (length d) ∷ (buffer ++ d) ∷ echoes (buffer ++ d) ds

  take-append : (xs ys : Bytes) (n : ℕ) → n ≡ length xs → take n (xs ++ ys) ≡ xs
  take-append [] ys zero e = refl
  take-append [] ys (suc n) e = absurd (omega arith)
  take-append (x ∷ xs) ys zero e = absurd (omega arith)
  take-append (x ∷ xs) ys (suc n) e = ap (λ zs. x ∷ zs) (take-append xs ys n (omega arith))

  drop-append : (xs ys : Bytes) (n : ℕ) → n ≡ length xs → drop n (xs ++ ys) ≡ ys
  drop-append [] ys zero e = refl
  drop-append [] ys (suc n) e = absurd (omega arith)
  drop-append (x ∷ xs) ys zero e = absurd (omega arith)
  drop-append (x ∷ xs) ys (suc n) e = drop-append xs ys n (omega arith)

  module _ (four : (n : ℕ) → length (put_uint32 n) ≡ 4)
      (back : (n : ℕ) → n < 2 ^ 32 → get_uint32 (put_uint32 n) ≡ n) where
    -- A message is sent, with its size in a word of 32 bits and not zero.
    abbrev pub IsMessage : Bytes → Type 0
    IsMessage d = (0 < length d) × (length d < 2 ^ 32)

    header_of : (d rest : Bytes) → take 4 (put_uint32 (length d) ++ rest) ≡ put_uint32 (length d)
    header_of d rest = take-append (put_uint32 (length d)) rest 4 (sym (four (length d)))

    body_of : (d rest : Bytes) → drop 4 (put_uint32 (length d) ++ rest) ≡ rest
    body_of d rest = drop-append (put_uint32 (length d)) rest 4 (sym (four (length d)))

    on_whole :
        (d buffer behind : Bytes) (rest : Option Echoed)
        → IsMessage d
        → on_message (length d) d buffer behind rest
          ≡ preceded (put_uint32 (length d) ∷ (buffer ++ d) ∷ []) rest
    on_whole d buffer behind rest (some_bytes, small) = ground arith

    pub echo_step :
        (fuel : ℕ) (d rest buffer : Bytes)
        → IsMessage d
        → echo (suc fuel) (put_uint32 (length d) ++ (d ++ rest)) buffer
          ≡ preceded (put_uint32 (length d) ∷ (buffer ++ d) ∷ []) (echo fuel rest (buffer ++ d))
    unfolding echo
    echo_step fuel d rest buffer h =
        rw
          (
            header_of d (d ++ rest),
            body_of d (d ++ rest),
            back (length d) h.1,
            take-append d rest (length d) refl,
            drop-append d rest (length d) refl,
            four (length d),
          )
          (on_whole d buffer rest (echo fuel rest (buffer ++ d)) h)

    echo_end :
        (fuel : ℕ) (buffer tail : Bytes)
        → echo (suc fuel) (put_uint32 0 ++ tail) buffer ≡ stopped (reader_alone tail)
    unfolding echo
    echo_end fuel buffer tail =
        rw (header_of [] tail, body_of [] tail, back 0 (omega arith), four 0) refl

    -- The messages are answered, and then the reader is alone.
    echo-tail :
        (fuel : ℕ) (ds : List Bytes) (buffer tail : Bytes)
        → length ds < fuel
        → All IsMessage ds
        → echo fuel (framed ds ++ (put_uint32 0 ++ tail)) buffer
          ≡ some (record { written = echoes buffer ds; ending = reader_alone tail })
    echo-tail zero ds buffer tail enough h = absurd (omega arith)
    echo-tail (suc fuel) [] buffer tail enough h = echo_end fuel buffer tail
    echo-tail (suc fuel) (d ∷ ds) buffer tail enough (m, h) =
        rw
          (
            append_assoc (put_uint32 (length d)) (d ++ framed ds) (put_uint32 0 ++ tail),
            append_assoc d (framed ds) (put_uint32 0 ++ tail),
            echo_step fuel d (framed ds ++ (put_uint32 0 ++ tail)) buffer m,
            echo-tail fuel ds (buffer ++ d) tail (omega arith) h,
          )
          refl

    alone_at_end : reader_alone [] ≡ returns
    unfolding reader_alone
    alone_at_end = refl

    alone_with :
        (d more : Bytes)
        → length d < 2 ^ 32
        → reader_alone (put_uint32 (length d) ++ (d ++ more)) ≡ waits
    unfolding reader_alone
    alone_with d more small =
        rw
          (
            header_of d (d ++ more),
            body_of d (d ++ more),
            back (length d) small,
            take-append d more (length d) refl,
            four (length d),
          )
          (ground arith)

    -- To messages with some bytes and one without behind them, the handler answers each message by its length
    -- and by the bytes of this and of all the messages before it, and nothing behind the message without
    -- bytes. Then it returns, if the input ends there; but if one more whole message comes, of any bytes, it
    -- does not return until its parent dies. The fuel is above the number of messages, each is shorter than
    -- 2 ^ 32, and the codec turns each word of 32 bits into four bytes and back.
    pub echo-framed :
        (fuel : ℕ) (ds : List Bytes) (buffer d more : Bytes)
        → length ds < fuel
        → All IsMessage ds
        → length d < 2 ^ 32
        → (echo fuel (framed ds ++ put_uint32 0) buffer
            ≡ some (record { written = echoes buffer ds; ending = returns }))
          × (echo fuel
                (framed ds ++ (put_uint32 0 ++ (put_uint32 (length d) ++ (d ++ more))))
                buffer
              ≡ some (record { written = echoes buffer ds; ending = waits }))
    echo-framed fuel ds buffer d more enough h small = (
      ap (λ s. echo fuel (framed ds ++ s) buffer) (sym (append-nil (put_uint32 0)))
          ∙ echo-tail fuel ds buffer [] enough h
          ∙ ap (λ e. some (record { written = echoes buffer ds; ending = e })) alone_at_end,
      echo-tail fuel ds buffer (put_uint32 (length d) ++ (d ++ more)) enough h
          ∙ ap (λ e. some (record { written = echoes buffer ds; ending = e }))
              (alone_with d more small),
    )

-- ===== src/Cluster/Channels.antt =====
-- The channels behind the handlers of server/serf.go: a Reconcile that drops what does not fit, and a
-- HandleUserEvent that waits for room. server/server.go makes the channels, and no code of the program
-- receives from them. A user event is of any type.
use kappa.Base.{
  ℕ, suc, zero, ◌+◌, ◌≤◌, List, [], ◌∷◌, ◌++◌, append_assoc, append-nil, Bool, true, false, Option,
  none, some, if◌then◌else◌, ltb, leb, length, length-append, ◌≡◌, refl, sym, ap, ◌∙◌, arith,
}

-- A channel by its capacity and by what is in it.
pub record Channel (A : Type 0) : Type 0 where
  pub capacity : ℕ
  pub queue : List A

module _ {A : Type 0} where
  abbrev pub make_channel : ℕ → Channel A
  make_channel n = record { capacity = n; queue = [] }

  abbrev pub has_room : Channel A → Bool
  has_room ch = ltb (length ch.queue) ch.capacity

  abbrev pub with_item : A → Channel A → Channel A
  with_item a ch = record ch { queue = ch.queue ++ a ∷ [] }

  -- `select { case ch <- m: default: }`
  unfoldable pub reconcile : A → Channel A → Channel A
  reconcile m ch = if has_room ch then with_item m ch else ch

  -- `ch <- event`; `none` waits for room.
  unfoldable pub handle_user_event : A → Channel A → Option (Channel A)
  handle_user_event event ch = if has_room ch then some (with_item event ch) else none

  -- The calls for the members of a list, one behind the other.
  abbrev pub reconcile_all : List A → Channel A → Channel A
  reconcile_all [] ch = ch
  reconcile_all (m ∷ ms) ch = reconcile_all ms (reconcile m ch)

  abbrev pub handle_all : List A → Channel A → Option (Channel A)
  handle_all [] ch = some ch
  handle_all (e ∷ es) ch = elim (handle_user_event e ch) [
    | none ↦ none
    | some ch' ↦ handle_all es ch'
  ]

  abbrev pub first : ℕ → List A → List A
  first zero xs = []
  first (suc n) [] = []
  first (suc n) (x ∷ xs) = x ∷ first n xs

  no_first : (xs : List A) → first 0 xs ≡ []
  no_first [] = refl
  no_first (x ∷ xs) = refl

  length-first : (n : ℕ) (xs : List A) → length (first n xs) ≤ n
  length-first zero xs = omega arith
  length-first (suc n) [] = omega arith
  length-first (suc n) (x ∷ xs) = omega (arith, length-first n xs)

  full_channel : (ch : Channel A) → length ch.queue + 0 ≡ ch.capacity → has_room ch ≡ false
  full_channel ch e = ground arith

  free_channel :
      (ch : Channel A) (room : ℕ) → length ch.queue + suc room ≡ ch.capacity → has_room ch ≡ true
  free_channel ch room e = ground arith

  taken :
      (ch : Channel A) (m : A) (room : ℕ)
      → length ch.queue + suc room ≡ ch.capacity
      → length (with_item m ch).queue + room ≡ ch.capacity
  taken ch m room e = omega (arith, length-append ch.queue (m ∷ []))

  reconcile_full : (m : A) (ch : Channel A) → has_room ch ≡ false → reconcile m ch ≡ ch
  unfolding reconcile
  reconcile_full m ch e = rw e refl

  reconcile_free : (m : A) (ch : Channel A) → has_room ch ≡ true → reconcile m ch ≡ with_item m ch
  unfolding reconcile
  reconcile_free m ch e = rw e refl

  reconcile_all_lem :
      (ms : List A) (ch : Channel A) (room : ℕ)
      → length ch.queue + room ≡ ch.capacity
      → (reconcile_all ms ch).queue ≡ ch.queue ++ first room ms
  reconcile_all_lem [] ch zero e = sym (append-nil ch.queue)
  reconcile_all_lem [] ch (suc room) e = sym (append-nil ch.queue)
  reconcile_all_lem (m ∷ ms) ch zero e =
      ap (λ (c : Channel A). (reconcile_all ms c).queue) (reconcile_full m ch (full_channel ch e))
      ∙ reconcile_all_lem ms ch zero e
      ∙ ap (λ xs. ch.queue ++ xs) (no_first ms)
  reconcile_all_lem (m ∷ ms) ch (suc room) e =
      ap (λ (c : Channel A). (reconcile_all ms c).queue)
        (reconcile_free m ch (free_channel ch room e))
      ∙ reconcile_all_lem ms (with_item m ch) room (taken ch m room e)
      ∙ append_assoc ch.queue (m ∷ []) (first room ms)

  -- The channel of n places holds the first n of the members that were to be reconciled, and those that
  -- came later are dropped.
  pub reconcile_all-first :
      (n : ℕ) (ms : List A)
      → ((reconcile_all ms (make_channel n)).queue ≡ first n ms)
        × (length (reconcile_all ms (make_channel n)).queue ≤ n)
  reconcile_all-first n ms =
      rw (reconcile_all_lem ms (make_channel n) n (omega arith)) (refl, length-first n ms)

  abbrev holding : Channel A → List A → Channel A
  holding ch es = record ch { queue = ch.queue ++ es }

  handle_full : (m : A) (ch : Channel A) → has_room ch ≡ false → handle_user_event m ch ≡ none
  unfolding handle_user_event
  handle_full m ch e = rw e refl

  handle_free :
      (m : A) (ch : Channel A) → has_room ch ≡ true → handle_user_event m ch ≡ some (with_item m ch)
  unfolding handle_user_event
  handle_free m ch e = rw e refl

  abbrev and_handle : List A → Option (Channel A) → Option (Channel A)
  and_handle es none = none
  and_handle es (some ch) = handle_all es ch

  handle_all_lem :
      (es : List A) (ch : Channel A) (room : ℕ)
      → length ch.queue + room ≡ ch.capacity
      → handle_all es ch ≡ (if leb (length es) room then some (holding ch es) else none)
  handle_all_lem [] ch room e = rw (append-nil ch.queue) (ground arith)
  handle_all_lem (m ∷ ms) ch zero e =
      ap (and_handle ms) (handle_full m ch (full_channel ch e)) ∙ ground arith
  handle_all_lem (m ∷ ms) ch (suc room) e =
      ap (and_handle ms) (handle_free m ch (free_channel ch room e))
      ∙ handle_all_lem ms (with_item m ch) room (taken ch m room e)
      ∙ rw (append_assoc ch.queue (m ∷ []) ms) (ground arith)

  -- HandleUserEvent returns for each of the first n events, which stand in the channel of n places in
  -- their order, and never returns for the event behind them, for nothing is received.
  pub handle_all-holds :
      (n : ℕ) (es : List A)
      → handle_all es (make_channel n)
        ≡ (if leb (length es) n then some (record { capacity = n; queue = es }) else none)
  handle_all-holds n es = handle_all_lem es (make_channel n) n (omega arith)

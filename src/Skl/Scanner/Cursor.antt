-- ===== src/Skl/Scanner/Cursor.antt =====
-- The buffer behaves as a cursor into the source that can go back three tokens.
use kappa.Base.{
  ℕ, ◌+◌, ◌-◌, ◌%◌, ◌≤◌, ◌<◌, ◌≡◌, ◌⊎◌, inl, inr, ap, arith, ltb, Bool-cases, ltb→lt, ltb-false,
  false, sym, ◌∙◌, nat_eq,
}
use kappa.Skl.Scanner.{Source, Lexeme, BufScanner, entry, set_entry, curr, scan, unscan}

-- The scanner stands in front of the token `c`, and the last three tokens read are in the buffer.
pub record IsAt (source : Source) (c : ℕ) (s : BufScanner) : Type 0 where
  pub in_range : s.i < 3
  pub room : s.n ≤ 3
  pub behind : c + s.n ≡ s.read
  pub last_0 : 0 < s.read → entry s s.i ≡ source (s.read - 1)
  pub last_1 : 1 < s.read → entry s ((s.i + 2) % 3) ≡ source (s.read - 2)
  pub last_2 : 2 < s.read → entry s ((s.i + 1) % 3) ≡ source (s.read - 3)

one_to_three : (n : ℕ) → 0 < n → n ≤ 3 → (n ≡ 1) ⊎ ((n ≡ 2) ⊎ (n ≡ 3))
one_to_three n pos le = grind arith

ltb-none : (n : ℕ) → ltb 0 n ≡ false → n ≡ 0
ltb-none n h = let le = ltb-false 0 n h in omega arith

slot_1 : (i n : ℕ) → n ≡ 1 → i < 3 → (i + 3 - (n - 1)) % 3 ≡ i
slot_1 i n e h = omega arith

slot_2 : (i n : ℕ) → n ≡ 2 → i < 3 → (i + 3 - (n - 1)) % 3 ≡ (i + 2) % 3
slot_2 i n e h = omega arith

slot_3 : (i n : ℕ) → n ≡ 3 → i < 3 → (i + 3 - (n - 1)) % 3 ≡ (i + 1) % 3
slot_3 i n e h = omega arith

below_three : (i : ℕ) → i < 3 → (i ≡ 0) ⊎ ((i ≡ 1) ⊎ (i ≡ 2))
below_three i h = grind arith

module _ (source : Source) (c : ℕ) (s : BufScanner) (h : IsAt source c s) where
  -- The unread token under the cursor.
  unread_entry : 0 < s.n → entry s ((s.i + 3 - (s.n - 1)) % 3) ≡ source c
  unread_entry pos = elim (one_to_three s.n pos h.room) [
    | inl e ↦ rw (slot_1 s.i s.n e h.in_range, h.last_0 (omega arith)) (ap source (omega arith))
    | inr (inl e) ↦
        rw (slot_2 s.i s.n e h.in_range, h.last_1 (omega arith)) (ap source (omega arith))
    | inr (inr e) ↦
        rw (slot_3 s.i s.n e h.in_range, h.last_2 (omega arith)) (ap source (omega arith))
  ]

  -- The entry at a known index.
  known : (k j : ℕ) (x : Lexeme) → k ≡ j → entry s k ≡ x → entry s j ≡ x
  known k j x e same = ap (entry s) (sym e) ∙ same

  abbrev after_fresh : BufScanner
  after_fresh =
      set_entry ((s.i + 1) % 3) (source s.read) (record s { i = (s.i + 1) % 3; read = s.read + 1 })

  -- A fresh token is put over the oldest one.
  fresh : s.n ≡ 0 → (curr after_fresh ≡ source c) × IsAt source (c + 1) after_fresh
  unfolding curr
  fresh z = elim (below_three s.i h.in_range) [
    | inl e ↦
        rw (e, z)
          (
            ap source (omega arith),
            record {
              in_range = omega arith;
              room = omega arith;
              behind = omega arith;
              last_0 = λ _. ap source (omega arith);
              last_1 = λ p.
                  known s.i 0 (source (s.read - 1)) e (h.last_0 (omega arith))
                  ∙ ap source (omega arith);
              last_2 = λ p.
                  known ((s.i + 2) % 3) 2 (source (s.read - 2)) (omega arith)
                    (h.last_1 (omega arith))
                  ∙ ap source (omega arith);
            },
          )
    | inr (inl e) ↦
        rw (e, z)
          (
            ap source (omega arith),
            record {
              in_range = omega arith;
              room = omega arith;
              behind = omega arith;
              last_0 = λ _. ap source (omega arith);
              last_1 = λ p.
                  known s.i 1 (source (s.read - 1)) e (h.last_0 (omega arith))
                  ∙ ap source (omega arith);
              last_2 = λ p.
                  known ((s.i + 2) % 3) 0 (source (s.read - 2)) (omega arith)
                    (h.last_1 (omega arith))
                  ∙ ap source (omega arith);
            },
          )
    | inr (inr e) ↦
        rw (e, z)
          (
            ap source (omega arith),
            record {
              in_range = omega arith;
              room = omega arith;
              behind = omega arith;
              last_0 = λ _. ap source (omega arith);
              last_1 = λ p.
                  known s.i 2 (source (s.read - 1)) e (h.last_0 (omega arith))
                  ∙ ap source (omega arith);
              last_2 = λ p.
                  known ((s.i + 2) % 3) 1 (source (s.read - 2)) (omega arith)
                    (h.last_1 (omega arith))
                  ∙ ap source (omega arith);
            },
          )
  ]

  -- Scan returns the token at the cursor, unread or fresh from the lexer, and moves on by one.
  pub scan_refines : ((scan source s).0 ≡ source c) × IsAt source (c + 1) (scan source s).1
  unfolding scan
  scan_refines = elim (Bool-cases (ltb 0 s.n)) [
    | inl some_unread ↦
        let pos : 0 < s.n = ltb→lt 0 s.n some_unread in
        rw some_unread (
          unread_entry pos,
          record {
            in_range = h.in_range;
            room = omega arith;
            behind = omega arith;
            last_0 = h.last_0;
            last_1 = h.last_1;
            last_2 = h.last_2;
          },
        )
    | inr none_unread ↦ rw none_unread (fresh (ltb-none s.n none_unread))
  ]

  -- Behind a call of Scan there is room to unread one token.
  pub scan_room : (scan source s).1.n < 3
  unfolding scan
  scan_room = let le = h.room in ground arith

  -- Unscan moves back by one, if fewer than three tokens are unread and the cursor is not at the start.
  pub unscan_refines : s.n < 3 → 0 < c → IsAt source (c - 1) (unscan s)
  unfolding unscan
  unscan_refines room pos = record {
    in_range = h.in_range;
    room = omega arith;
    behind = omega arith;
    last_0 = h.last_0;
    last_1 = h.last_1;
    last_2 = h.last_2;
  }

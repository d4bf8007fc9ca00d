-- ===== src/Ledger/Positions.antt =====
-- Positions: `open_position` and `close_position`.
use mathlib.Core.Path.{subst}
use mathlib.Core.Option.{some-injective}
use atlas_ai_trading.Decimal.{Decimal}
use atlas_ai_trading.Ledger.{
  Opening, close_position, closed_with, has_position_id, has_strategy_id, is_of_strategy, is_open,
  new_position, open_position, open_positions, pnl_of, position,
}
use atlas_ai_trading.Prelude.{
  Bool, Bool-cases, List, Option-cases, [], any, arith, false, find, if◌then◌else◌, inl, inr, keep,
  length, none, refl, some, sym, true, update_where, ℕ, ◌&&◌, ◌++◌, ◌+◌, ◌∙◌, ◌∷◌, ◌≡◌, ◌≢◌,
}
use atlas_ai_trading.Prelude.Tables.{IsDistinct, find-update_where, find_hits, update_where-eq}
use atlas_ai_trading.World.{Position, World, integrity_error, ok, raised, value_error}

abbrev pub opened : Opening → World → World
opened a w = record w {
  uuids = w.uuids + 1;
  positions = w.positions ++ new_position a w.uuids w.clock ∷ [];
}

pub open_position_lem :
    (a : Opening) (w : World)
    → open_position a w ≡ (
        if any (has_strategy_id a.strategy_id) w.strategies
        then (ok w.uuids, opened a w)
        else (raised integrity_error, record w { uuids = w.uuids + 1 }))
unfolding open_position
open_position_lem a w = ground arith

abbrev pub closed_rows : ℕ → Position → Decimal → World → World
closed_rows i p exit w = record w {
  positions =
      update_where (has_position_id i) (closed_with w.clock exit (pnl_of p exit)) w.positions;
}

-- The cases of `close_position`.
pub close_position_lem :
    (i : ℕ) (exit : Decimal) (w : World)
    → close_position i exit w ≡ elim (position i w) [
      | none ↦ (raised value_error, w)
      | some p ↦
          if is_open p
          then (ok (pnl_of p exit), closed_rows i p exit w)
          else (raised value_error, w)
    ]
unfolding close_position
close_position_lem i exit w = ground arith

-- A closed position cannot be closed again, at whatever price: the second call raises and changes
-- nothing, so no profit is realised twice.
pub close_position_once :
    (i : ℕ) (exit again pnl : Decimal) (w : World)
    → (close_position i exit w).0 ≡ ok pnl
    → let w' = (close_position i exit w).1 in close_position i again w' ≡ (raised value_error, w')
unfolding position
close_position_once i exit again pnl w = elim (Option-cases (position i w)) [
  | inl n ↦ rw (close_position_lem, n) λ e. cc
  | inr (p, f) ↦ elim (Bool-cases (is_open p)) [
    | inl o ↦
        rw (close_position_lem i exit w, f, o)
          λ e. ground (
            arith,
            close_position_lem i again (closed_rows i p exit w),
            find-update_where (has_position_id i) (has_position_id i)
                (closed_with w.clock exit (pnl_of p exit)) (λ x. refl) w.positions,
            find_hits (has_position_id i) w.positions p f,
          )
    | inr c ↦ rw (close_position_lem, f, c) λ e. cc
  ]
]

other_row :
    (i j : ℕ) (f : Position → Position) (ps : List Position)
    → i ≢ j
    → (elim (find (has_position_id j) ps) [
      | none ↦ none
      | some x ↦ some (if has_position_id i x then f x else x)
    ])
      ≡ find (has_position_id j) ps
other_row i j f ps ne = elim (Option-cases (find (has_position_id j) ps)) [
  | inl n ↦ rw n
  | inr (p, e) ↦ ground (arith, find_hits (has_position_id j) ps p e)
]

-- Closing a position leaves every other position as it was.
pub close_position_others :
    (i j : ℕ) (exit : Decimal) (w : World)
    → i ≢ j
    → position j (close_position i exit w).1 ≡ position j w
unfolding position
close_position_others i j exit w ne = elim (Option-cases (position i w)) [
  | inl n ↦ rw (close_position_lem, n)
  | inr (p, f) ↦ elim (Bool-cases (is_open p)) [
    | inl o ↦
        rw (close_position_lem i exit w, f, o)
          (find-update_where (has_position_id j) (has_position_id i)
              (closed_with w.clock exit (pnl_of p exit)) (λ x. refl) w.positions
            ∙ other_row i j (closed_with w.clock exit (pnl_of p exit)) w.positions ne)
    | inr c ↦ rw (close_position_lem, f, c)
  ]
]

abbrev pub same_position : Position → Position → Bool
same_position p q = has_position_id p.id q

open_rows : List Position → List Position
open_rows ps = keep (λ p. is_open p && is_of_strategy none p) ps

id_of_hit : (i : ℕ) (q : Position) → has_position_id i q ≡ true → q.id ≡ i
id_of_hit i q h = ground arith

one_less :
    (i : ℕ) (f : Position → Position)
    → ((p : Position) → is_open (f p) ≡ false)
    → (ps : List Position) (p : Position) → IsDistinct same_position ps
    → find (has_position_id i) ps ≡ some p
    → is_open p ≡ true
    → length (open_rows ps) ≡ length (open_rows (update_where (has_position_id i) f ps)) + 1
unfolding open_rows
one_less i f shut [] p u e o = cc
one_less i f shut (q ∷ ps) p u e o = elim (Bool-cases (has_position_id i q)) [
  | inl h ↦
      let here : q ≡ p = some-injective q p (rw h at e) in
      let alone : any (has_position_id i) ps ≡ false =
        subst (λ k. any (has_position_id k) ps ≡ false) (id_of_hit i q h) u.0 in
      let is_open_q : is_open q ≡ true = subst (λ x. is_open x ≡ true) (sym here) o in
      rw (h, update_where-eq (has_position_id i) f ps alone) (ground (arith, shut q))
  | inr m ↦ rw m (ground (arith, one_less i f shut ps p u.1 (rw m at e) o))
]

-- A successful closing takes exactly one position off the open ones, where position ids are unique.
pub close_position_open_count :
    (i : ℕ) (exit pnl : Decimal) (w : World)
    → IsDistinct same_position w.positions
    → (close_position i exit w).0 ≡ ok pnl
    → length (open_positions none w) ≡ length (open_positions none (close_position i exit w).1) + 1
unfolding open_positions position open_rows
close_position_open_count i exit pnl w u = elim (Option-cases (position i w)) [
  | inl n ↦ rw (close_position_lem, n) λ e. cc
  | inr (p, f) ↦ elim (Bool-cases (is_open p)) [
    | inl o ↦
        rw (close_position_lem i exit w, f, o)
          λ e. one_less i (closed_with w.clock exit (pnl_of p exit)) (λ x. refl) w.positions p u f o
    | inr c ↦ rw (close_position_lem, f, c) λ e. cc
  ]
]

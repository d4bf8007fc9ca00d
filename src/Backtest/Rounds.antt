-- ===== src/Backtest/Rounds.antt =====
-- A bar keeps what holds of the state of a run.
use mathlib.Core.Option.{some-injective}
use mathlib.Core.Path.{subst}
use atlas_ai_trading.Backtest.{
  Engine, Setup, arm_of, arm_signal, book, booked, enter, entry_request, fill_pending,
  fill_pending_of, manage, managed, marked, on_bar, signal_on,
}
use atlas_ai_trading.Backtest.Exits.{
  ExitReason, OpenPosition, close_trade, exit_end_of_data, exit_stop, exit_target, exit_time,
  resolve_exit,
}
use atlas_ai_trading.Backtest.Guard.{on_bar_inverse}
use atlas_ai_trading.Backtest.Trades.{
  EndedBy, Follow, Follow-append, Follow-later, IsHeld, IsRunning, IsTrade, OpenOk, PendingOk,
  next_entry,
}
use atlas_ai_trading.Decimal.{Decimal}
use atlas_ai_trading.Evaluator.{Signal}
use atlas_ai_trading.Market.{Kline}
use atlas_ai_trading.Prelude.{
  All, All-append, Bool-cases, List, Option, Option-cases, [], arith, get_elem?, inl, inr, none,
  refl, some, sym, true, ℕ, ◌+◌, ◌<◌, ◌==◌, ◌∷◌, ◌≡◌,
}
use atlas_ai_trading.Prelude.Tables.{find_hits}
use atlas_ai_trading.Sizing.{SizingResult, size_position}

module _ (u : Setup) (ks : List Kline) (i : ℕ) (k : Kline) where
  -- After the first part of a round nothing waits.
  record IsFilled (e : Engine) : Type 0 where
    idle : e.pending ≡ none
    holding : OpenOk u (i + 1) e.position
    past : Follow 0 e.trades (next_entry i e.position)
    made : All (IsTrade u ks) e.trades

  enter-IsFilled :
      (g : Signal) (r : SizingResult) (e : Engine)
      → e.position ≡ none
      → signal_on g.bar_index u.signals ≡ some g
      → g.bar_index + 1 ≡ i
      → Follow 0 e.trades i
      → All (IsTrade u ks) e.trades
      → IsFilled (enter u i k g r e)
  unfolding enter
  enter-IsFilled g r e q f n past made = elim (Bool-cases r.accepted) [
    | inl y ↦ rw y (record {
      idle = refl;
      holding =
          (omega arith, record { signal = g; first = f; next_bar = n; same = (refl, refl, refl) });
      past = past;
      made = made;
    })
    | inr m ↦ rw m (record { idle = refl; holding = rw q tt; past = rw q past; made = made })
  ]

  fill_pending_of-IsFilled :
      (open_now : Option OpenPosition) (waiting : Option Signal) (e mid : Engine)
      → e.position ≡ open_now
      → e.pending ≡ waiting
      → PendingOk u i open_now waiting
      → OpenOk u i open_now
      → Follow 0 e.trades (next_entry i open_now)
      → All (IsTrade u ks) e.trades
      → fill_pending_of u i k open_now waiting e ≡ some mid
      → IsFilled mid
  unfolding fill_pending_of
  fill_pending_of-IsFilled none none e mid q r w o past made h =
      subst IsFilled (some-injective e mid h)
        (record { idle = r; holding = rw q tt; past = rw q past; made = made })
  fill_pending_of-IsFilled (some p) none e mid q r w o past made h =
      subst IsFilled (some-injective e mid h)
        (record { idle = r; holding = rw q (omega arith, o.1); past = rw q past; made = made })
  fill_pending_of-IsFilled (some p) (some g) e mid q r w o past made h = absurd w
  fill_pending_of-IsFilled none (some g) e mid q r w o past made h =
      elim (Option-cases (size_position (entry_request u k g e.equity))) [
        | inl n ↦ absurd (cc (rw n at h))
        | inr (s, y) ↦
            subst IsFilled (some-injective (enter u i k g s e) mid (rw y at h))
              (enter-IsFilled g s e q w.0 w.1 past made)
      ]

  -- Why a position is closed on a bar.
  resolve_exit-EndedBy :
      (p : OpenPosition) (raw : Decimal) (reason : ExitReason)
      → p.entry_index < i + 1
      → resolve_exit p k i u.max_bars ≡ some (raw, reason)
      → EndedBy u ks (close_trade u.costs p i k raw reason).0 k reason
  unfolding resolve_exit close_trade
  resolve_exit-EndedBy p raw exit_stop b h = (ground arith, ground arith, ground arith)
  resolve_exit-EndedBy p raw exit_target b h =
      (ground arith, ground arith, ground arith, ground arith)
  resolve_exit-EndedBy p raw exit_time b h =
      (ground arith, ground arith, ground arith, ground arith)
  resolve_exit-EndedBy p raw exit_end_of_data b h = absurd (ground arith)

  record IsManaged (e : Engine) : Type 0 where
    idle : e.pending ≡ none
    holding : OpenOk u (i + 1) e.position
    past : Follow 0 e.trades (next_entry (i + 1) e.position)
    made : All (IsTrade u ks) e.trades

  booked-IsManaged :
      (p : OpenPosition) (e : Engine) (exit : Option (Decimal × ExitReason))
      → get_elem? ks i ≡ some k
      → resolve_exit p k i u.max_bars ≡ exit
      → e.position ≡ some p
      → IsFilled e
      → IsManaged (booked u p i k e exit)
  unfolding book
  booked-IsManaged p e none at_bar x q f =
      let past : Follow 0 e.trades p.entry_index = rw q at f.past in
      record { idle = f.idle; holding = f.holding; past = rw q past; made = f.made }
  booked-IsManaged p e (some (raw, reason)) at_bar x q f =
      let held : (p.entry_index < i + 1) × IsHeld u p = rw q at f.holding in
      let past : Follow 0 e.trades p.entry_index = rw q at f.past in
      let t = (close_trade u.costs p i k raw reason).0 in
      record {
        idle = f.idle;
        holding = tt;
        past = Follow-append 0 p.entry_index e.trades t (omega arith) (omega arith) past;
        made = All-append (IsTrade u ks) e.trades (t ∷ []) f.made (
          record {
            entered = held.1;
            bar = k;
            on_exit = at_bar;
            ended = resolve_exit-EndedBy p raw reason held.0 x;
          },
          tt,
        );
      }

  managed-IsManaged :
      (e : Engine) (open_now : Option OpenPosition)
      → get_elem? ks i ≡ some k
      → e.position ≡ open_now
      → IsFilled e
      → IsManaged (managed u i k e open_now)
  managed-IsManaged e none at_bar q f =
      let past : Follow 0 e.trades i = rw q at f.past in
      record {
        idle = f.idle;
        holding = f.holding;
        past = rw q (Follow-later 0 i (i + 1) e.trades (omega arith) past);
        made = f.made;
      }
  managed-IsManaged e (some p) at_bar q f =
      booked-IsManaged p e (resolve_exit p k i u.max_bars) at_bar refl q f

  found_here : (g : Signal) → signal_on i u.signals ≡ some g → g.bar_index ≡ i
  unfolding signal_on
  found_here g h =
      let hit : (g.bar_index == i) ≡ true =
        find_hits (λ (s : Signal). s.bar_index == i) u.signals g h in
      ground arith

  armed_waits : (w : Option Signal) → signal_on i u.signals ≡ w → PendingOk u (i + 1) none w
  armed_waits none q = tt
  armed_waits (some g) q =
      let here : g.bar_index ≡ i = found_here g q in
      (subst (λ j. signal_on j u.signals ≡ some g) (sym here) q, omega arith)

  armed-IsRunning :
      (e : Engine) (open_now : Option OpenPosition)
      → e.position ≡ open_now
      → IsManaged e
      → IsRunning u ks (i + 1) (marked (arm_of u i open_now none e))
  unfolding arm_of
  armed-IsRunning e none q m = record {
    waiting = rw q (armed_waits (signal_on i u.signals) refl);
    holding = m.holding;
    past = m.past;
    made = m.made;
  }
  armed-IsRunning e (some p) q m = record {
    waiting = rw m.idle tt;
    holding = m.holding;
    past = m.past;
    made = m.made;
  }

  -- A bar keeps what holds of the state of a run.
  pub on_bar-IsRunning :
      (e e' : Engine)
      → get_elem? ks i ≡ some k
      → on_bar u i k e ≡ some e'
      → IsRunning u ks i e
      → IsRunning u ks (i + 1) e'
  unfolding fill_pending manage arm_signal
  on_bar-IsRunning e e' at_bar h r =
      let (mid, q, same) = on_bar_inverse u i k e e' h in
      let filled =
        fill_pending_of-IsFilled e.position e.pending e mid refl refl r.waiting r.holding r.past
          r.made q in
      let done = managed-IsManaged mid mid.position at_bar refl filled in
      let late = managed u i k mid mid.position in
      let armed : IsRunning u ks (i + 1) (marked (arm_of u i late.position late.pending late)) =
        rw done.idle (armed-IsRunning late late.position refl done) in
      subst (IsRunning u ks (i + 1)) same armed

-- ===== src/Trading/Entries/Kept.antt =====
-- What every change keeps is kept by one strategy, and by those of one symbol.
use atlas_ai_trading.Brackets.{attempt, open_bracketed_position}
use atlas_ai_trading.Evaluator.{Signal, evaluate}
use atlas_ai_trading.Evaluator.Report.{explain}
use atlas_ai_trading.KillSwitch.{arm}
use atlas_ai_trading.Limits.{can_open_symbol}
use atlas_ai_trading.Market.{Kline, KlineSeries}
use atlas_ai_trading.Market.Validation.{age_of, is_stale, validate_series}
use atlas_ai_trading.Prelude.{
  All, List, Option, [], any, arith, false, find, if◌then◌else◌, last, length, none, not, refl,
  some, true, ℕ, ◌-◌, ◌==◌, ◌||◌, ◌∷◌, ◌≡◌,
}
use atlas_ai_trading.Prelude.Text.{Text, text_eq}
use atlas_ai_trading.Promotion.{risk_multiplier_for}
use atlas_ai_trading.Regime.{classify_regime, default_regime_thresholds}
use atlas_ai_trading.Sizing.{
  ExchangeFilters, RejectReason, SizingResult, filters_unavailable, size_position,
}
use atlas_ai_trading.Spec.{StrategySpec}
use atlas_ai_trading.Trading.{Inputs, Service, series_for, trading_actor}
use atlas_ai_trading.Trading.Decisions.{SymbolDecision, bare_decision, is_entry}
use atlas_ai_trading.Trading.Entries.{
  act_on, consider, consider_each, decline, find_filters, halt_stale, judge, observe, observe_in,
  on_size, seen_bars, size_entry, submit, with_series,
}
use atlas_ai_trading.Trading.Steps.{
  Loop, after_submit, bracket_for, concluded, continue_with, goes_on, halting, is_atlas_or_os,
  of_result, reason_name, refused_for, rejecting, request_for, seen_in, stops, with_decision,
}
use atlas_ai_trading.Trading.Steps.Rules.{
  Holds, IsClosed, MayEnter, StandsAs, StandsFor, after_submit-Gives, continue_with-Gives,
  decided-Gives, halted-Gives, is_declined, rejected-Gives,
}
use atlas_ai_trading.World.{
  Gives, Result, arithmetic_error, bind-Gives, bind-Gives_from, data_invalid, data_stale,
  data_staleness, declined, filters_not_available, gets, if-Gives, if-Gives_by, log, no_market_data,
  no_signal, ok, or_raise, position_already_open, pure, pure-Gives, raise, raise-Gives, raised,
  risk_rejected, risk_rejection, spec_missing,
}

module _ (v : Service) (t : Inputs) (reference : ℕ) (Q : Text → Type 0) (P : Loop → Type 0)
    (closed : IsClosed t Q P) where
  decline-Gives :
      (i : ℕ) (reason : RejectReason) (d : SymbolDecision) (l : Loop)
      → is_entry d.outcome ≡ false
      → is_declined d.outcome ≡ true
      → P l
      → Gives (Holds P) (decline v t reference i reason d l)
  unfolding decline
  decline-Gives i reason d l n m c =
      bind-Gives (Holds P) (log risk_rejection (declined i (reason_name reason)) trading_actor)
        (λ _. pure (goes_on (rejecting (refused_for reason d) l)))
        (λ _. rejected-Gives t Q P closed (refused_for reason d) l n m c)

  submit-Gives :
      (d : SymbolDecision) (i : ℕ) (s : StrategySpec) (k : Kline) (g : Signal) (z : SizingResult)
      (f : ExchangeFilters) (l : Loop)
      → MayEnter t s.symbol l
      → StandsAs Q d.symbol s.symbol
      → P l
      → Gives (Holds P) (submit v t reference d i s k g z f l)
  unfolding submit
  submit-Gives d i s k g z f l free same c =
      bind-Gives (Holds P)
        (attempt (open_bracketed_position v.hexdigest (bracket_for v i s k g z f)))
        (after_submit d s.symbol z l)
        (λ o. after_submit-Gives t Q P closed d s.symbol z l o free same c)

  on_size-Gives :
      (d : SymbolDecision) (i : ℕ) (s : StrategySpec) (k : Kline) (g : Signal) (f : ExchangeFilters)
      (l : Loop) (z : SizingResult)
      → MayEnter t s.symbol l
      → StandsAs Q d.symbol s.symbol
      → P l
      → Gives (Holds P) (on_size v t reference d i s k g f l z)
  unfolding on_size
  on_size-Gives d i s k g f l z free same c =
      if-Gives (Holds P) z.accepted (submit v t reference d i s k g z f l)
        (decline v t reference i z.reason (concluded risk_rejected d) l)
        (submit-Gives d i s k g z f l free same c)
        (decline-Gives i z.reason (concluded risk_rejected d) l refl refl c)

  find_filters-Gives :
      (d : SymbolDecision) (i : ℕ) (s : StrategySpec) (k : Kline) (g : Signal) (l : Loop)
      (f : Result ExchangeFilters)
      → MayEnter t s.symbol l
      → StandsAs Q d.symbol s.symbol
      → P l
      → Gives (Holds P) (find_filters v t reference d i s k g l f)
  unfolding find_filters size_entry
  find_filters-Gives d i s k g l (ok f) free same c =
      bind-Gives (Holds P) (gets (risk_multiplier_for i (length (t.live_returns i)) v.promotion))
        (size_entry v t reference d i s k g f l)
        (λ m.
          bind-Gives (Holds P) (or_raise (size_position (request_for v t g f m l)) arithmetic_error)
            (on_size v t reference d i s k g f l) (λ z. on_size-Gives d i s k g f l z free same c))
  find_filters-Gives d i s k g l (raised e) free same c =
      if-Gives (Holds P) (is_atlas_or_os e)
        (decline v t reference i filters_unavailable (concluded filters_not_available d) l)
        (raise e)
        (decline-Gives i filters_unavailable (concluded filters_not_available d) l refl refl c)
        (raise-Gives (Holds P) e)

  act_on-Gives :
      (d : SymbolDecision) (i : ℕ) (s : StrategySpec) (k : Kline) (l : Loop) (g : Option Signal)
      → MayEnter t s.symbol l
      → StandsAs Q d.symbol s.symbol
      → P l
      → Gives (Holds P) (act_on v t reference d i s k l g)
  unfolding act_on
  act_on-Gives d i s k l none free same c =
      decided-Gives t Q P closed (concluded no_signal d) l refl refl c
  act_on-Gives d i s k l (some g) free same c =
      find_filters-Gives (record d { signal = some g }) i s k g l (v.filters_for s.symbol) free same
        c

  free_of :
      (l : Loop) (symbol : Text)
      → (not (can_open_symbol t.account symbol) || any (text_eq symbol) l.open_now) ≡ false
      → MayEnter t symbol l
  free_of l symbol q = (ground arith, ground arith)

  judge-Gives :
      (d : SymbolDecision) (i : ℕ) (s : StrategySpec) (ks : List Kline) (k : Kline) (l : Loop)
      → StandsAs Q d.symbol s.symbol
      → P l
      → Gives (Holds P) (judge v t reference d i s ks k l)
  unfolding judge
  judge-Gives d i s ks k l same c =
      let last_signal = find (λ (g : Signal). g.bar_index == length ks - 1) (evaluate s ks) in
      let explained = record d { rules = explain s ks none } in
      let taken = not (can_open_symbol t.account s.symbol) || any (text_eq s.symbol) l.open_now in
      if-Gives_by (Holds P) taken
        (pure (goes_on (with_decision (concluded position_already_open d) l)))
        (act_on v t reference explained i s k l last_signal)
        (λ _. decided-Gives t Q P closed (concluded position_already_open d) l refl refl c)
        (λ q. act_on-Gives explained i s k l last_signal (free_of l s.symbol q) same c)

  halt_stale-Gives :
      (s : StrategySpec) (k : Kline) (d : SymbolDecision) (l : Loop)
      → P l
      → Gives (Holds P) (halt_stale v t reference s k d l)
  unfolding halt_stale
  halt_stale-Gives s k d l c =
      bind-Gives (Holds P)
        (arm data_staleness (v.stale_text s.symbol (age_of k.close_time reference)) trading_actor)
        (λ _. pure (stops (halting (v.halt_text s.symbol) (concluded data_stale d) l)))
        (λ _.
          halted-Gives t Q P closed (v.halt_text s.symbol) (concluded data_stale d) l refl refl c)

  observe-Gives :
      (d : SymbolDecision) (i : ℕ) (s : StrategySpec) (series : KlineSeries) (k : Kline) (l : Loop)
      → StandsAs Q d.symbol s.symbol
      → P l
      → Gives (Holds P) (observe v t reference d i s series k l)
  unfolding observe
  observe-Gives d i s series k l same c =
      let invalid = concluded data_invalid (record d { data_valid = some false }) in
      let valid = record d { data_valid = some true } in
      if-Gives (Holds P) (not (validate_series series false).valid)
        (pure (goes_on (with_decision invalid l)))
        (if is_stale k.close_time series.timeframe reference 2
          then halt_stale v t reference s k valid l
          else judge v t reference valid i s series.bars k l)
        (decided-Gives t Q P closed invalid l refl refl c)
        (if-Gives (Holds P) (is_stale k.close_time series.timeframe reference 2)
          (halt_stale v t reference s k valid l) (judge v t reference valid i s series.bars k l)
          (halt_stale-Gives s k valid l c) (judge-Gives valid i s series.bars k l same c))

  seen_bars-Gives :
      (d : SymbolDecision) (i : ℕ) (s : StrategySpec) (series : KlineSeries) (l : Loop)
      (k : Option Kline)
      → StandsAs Q d.symbol s.symbol
      → P l
      → Gives (Holds P) (seen_bars v t reference d i s series l k)
  unfolding seen_bars observe_in
  seen_bars-Gives d i s series l none same c =
      decided-Gives t Q P closed (concluded no_market_data (record d { num_bars = some 0 })) l refl
        refl c
  seen_bars-Gives d i s series l (some k) same c =
      bind-Gives (Holds P) (of_result (classify_regime default_regime_thresholds series.bars))
        (observe_in v t reference d i s series k l)
        (λ r.
          observe-Gives (seen_in series k (age_of k.close_time reference) r d) i s series k l same
            c)

  series-Gives :
      (i : ℕ) (s : StrategySpec) (l : Loop) (d : SymbolDecision) (series : Option KlineSeries)
      → StandsAs Q d.symbol s.symbol
      → P l
      → Gives (Holds P) (with_series v t reference d i s l series)
  unfolding with_series
  series-Gives i s l d none same c =
      decided-Gives t Q P closed (concluded no_market_data d) l refl refl c
  series-Gives i s l d (some series) same c =
      seen_bars-Gives d i s series l (last series.bars) same c

  consider-Gives :
      (symbol : Text) (i : ℕ) (s : Option StrategySpec) (l : Loop)
      → StandsFor Q symbol s
      → P l
      → Gives (Holds P) (consider v t reference symbol i s l)
  unfolding consider
  consider-Gives symbol i none l h c =
      decided-Gives t Q P closed
        (record (bare_decision symbol spec_missing) { strategy_id = some i }) l refl refl c
  consider-Gives symbol i (some s) l h c =
      series-Gives i s l (record (bare_decision symbol no_market_data) { strategy_id = some i })
        (series_for s.symbol t.series_by_symbol) h c

  -- The strategies of one symbol keep the predicate.
  pub consider_each-Gives :
      (symbol : Text) (ps : List (ℕ × Option StrategySpec)) (l : Loop)
      → All (λ (p : ℕ × Option StrategySpec). StandsFor Q symbol p.1) ps
      → P l
      → Gives (Holds P) (consider_each v t reference symbol ps l)
  unfolding consider_each
  consider_each-Gives symbol [] l h c = pure-Gives (Holds P) (goes_on l) c
  consider_each-Gives symbol ((i, s) ∷ rest) l h c =
      bind-Gives_from (Holds P) (Holds P) (consider v t reference symbol i s l)
        (continue_with (consider_each v t reference symbol rest))
        (consider-Gives symbol i s l h.0 c)
        (λ st d.
          continue_with-Gives t Q P closed (consider_each v t reference symbol rest) st
            (λ l' e. consider_each-Gives symbol rest l' h.1 e) d)

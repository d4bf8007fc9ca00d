-- ===== src/Trading/Tick/Single.antt =====
-- One position per symbol (RISK-08), within a tick.
use mathlib.Core.Path.{subst}
use atlas_ai_trading.Limits.{AccountState, can_open_symbol}
use atlas_ai_trading.Prelude.{
  All, All-append, Bool-cases, List, [], any, any-append, ap, arith, false, if◌then◌else◌, inl, inr,
  keep, map, not, refl, some, sym, true, ◌++◌, ◌+◌, ◌∙◌, ◌∷◌, ◌≡◌,
}
use atlas_ai_trading.Prelude.Tables.{All-map, IsDistinct, append-IsDistinct}
use atlas_ai_trading.Prelude.Text.{Text, text_eq, text_eq-eq, text_eq_refl, upper}
use atlas_ai_trading.Sizing.{SizingResult}
use atlas_ai_trading.Spec.{StrategySpec}
use atlas_ai_trading.Trading.{Inputs, Service, TickResult, decide, fill_remaining, names}
use atlas_ai_trading.Trading.Decisions.{SymbolDecision, bare_decision, is_entry}
use atlas_ai_trading.Trading.Steps.{Loop, add_symbol, concluded, entering}
use atlas_ai_trading.Trading.Steps.Rules.{IsClosed, MayEnter, StandsAs}
use atlas_ai_trading.Trading.Tick.{tick}
use atlas_ai_trading.Trading.Tick.Kept.{IsBlank, IsFraming, tick-Gives}
use atlas_ai_trading.World.{DecisionOutcome, World, entered, ok}

-- The symbols of the decisions ENTERED.
abbrev pub entered_in : List SymbolDecision → List Text
entered_in [] = []
entered_in (d ∷ ds) = if is_entry d.outcome then d.symbol ∷ entered_in ds else entered_in ds

-- No symbol is entered twice, and none that is open in the account.
pub record IsSingle (a : AccountState) (r : TickResult) : Type 0 where
  pub once : IsDistinct text_eq (entered_in r.decisions)
  pub free : All (λ s. can_open_symbol a s ≡ true) (entered_in r.decisions)

-- A symbol that is written in upper case.
abbrev pub IsUpper : Text → Type 0
IsUpper symbol = upper symbol ≡ symbol

-- The loop knows the symbols that it entered.
record IsTracked (t : Inputs) (l : Loop) : Type 0 where
  single : IsSingle t.account l.result
  seen : All (λ s. any (text_eq s) l.open_now ≡ true) (entered_in l.result.decisions)

entered_in-append :
    (ds es : List SymbolDecision) → entered_in (ds ++ es) ≡ entered_in ds ++ entered_in es
entered_in-append [] es = refl
entered_in-append (d ∷ ds) es = elim (Bool-cases (is_entry d.outcome)) [
  | inl e ↦ rw (e, entered_in-append ds es) refl
  | inr n ↦ rw (n, entered_in-append ds es) refl
]

append-nil : {A : Type 0} (xs : List A) → xs ++ [] ≡ xs
append-nil [] = refl
append-nil (x ∷ xs) = ap (λ ys. x ∷ ys) (append-nil xs)

entered_in-bare :
    (outcome : DecisionOutcome) (ss : List Text)
    → is_entry outcome ≡ false
    → entered_in (map (λ s. bare_decision s outcome) ss) ≡ []
entered_in-bare outcome [] n = refl
entered_in-bare outcome (s ∷ ss) n = rw n (entered_in-bare outcome ss n)

-- A decision that enters nothing.
entered_in-other :
    (ds : List SymbolDecision) (d : SymbolDecision)
    → is_entry d.outcome ≡ false
    → entered_in (ds ++ d ∷ []) ≡ entered_in ds
entered_in-other ds d n =
    entered_in-append ds (d ∷ [])
    ∙ ap (λ x. entered_in ds ++ (if x then d.symbol ∷ [] else [])) n
    ∙ append-nil (entered_in ds)

other-IsTracked :
    (t : Inputs) (d : SymbolDecision) (r : TickResult) (l : Loop)
    → is_entry d.outcome ≡ false
    → r.decisions ≡ l.result.decisions
    → IsTracked t l
    → IsTracked t (record l { result = decide d r })
other-IsTracked t d r l n e c =
    let same : entered_in l.result.decisions ≡ entered_in (r.decisions ++ d ∷ []) =
      sym (entered_in-other r.decisions d n ∙ ap entered_in e) in
    record {
      single = record {
        once = subst (IsDistinct text_eq) same c.single.once;
        free = subst (All (λ s. can_open_symbol t.account s ≡ true)) same c.single.free;
      };
      seen = subst (All (λ s. any (text_eq s) l.open_now ≡ true)) same c.seen;
    }

-- What is seen is not a symbol that is not.
any-unseen :
    (symbol : Text) (open_now : List Text) (ss : List Text)
    → any (text_eq symbol) open_now ≡ false
    → All (λ s. any (text_eq s) open_now ≡ true) ss
    → any (λ s. text_eq s symbol) ss ≡ false
any-unseen symbol open_now [] f a = refl
any-unseen symbol open_now (s ∷ ss) f a = elim (Bool-cases (text_eq s symbol)) [
  | inl e ↦
      let there : any (text_eq symbol) open_now ≡ true =
        subst (λ x. any (text_eq x) open_now ≡ true) (text_eq-eq s symbol e) a.0 in
      absurd cc
  | inr n ↦ rw n (any-unseen symbol open_now ss f a.1)
]

seen-add_symbol :
    (symbol s : Text) (ss : List Text)
    → any (text_eq s) ss ≡ true
    → any (text_eq s) (add_symbol symbol ss) ≡ true
seen-add_symbol symbol s ss h = elim (Bool-cases (any (text_eq symbol) ss)) [
  | inl e ↦ rw e h
  | inr n ↦ rw n (ground (arith, any-append (text_eq s) ss (symbol ∷ [])))
]

added-seen : (symbol : Text) (ss : List Text) → any (text_eq symbol) (add_symbol symbol ss) ≡ true
added-seen symbol ss = elim (Bool-cases (any (text_eq symbol) ss)) [
  | inl e ↦ rw e e
  | inr n ↦ rw n (ground (arith, any-append (text_eq symbol) ss (symbol ∷ []), text_eq_refl symbol))
]

entering-IsTracked :
    (t : Inputs) (d : SymbolDecision) (symbol : Text) (z : SizingResult) (l : Loop)
    → MayEnter t symbol l
    → StandsAs IsUpper d.symbol symbol
    → IsTracked t l
    → IsTracked t (entering (concluded entered d) symbol z l)
entering-IsTracked t d symbol z l may stands c =
    let ds = l.result.decisions in
    let shown : symbol ≡ d.symbol = sym (stands.0 ∙ stands.1) in
    let same : entered_in ds ++ symbol ∷ [] ≡ entered_in (ds ++ concluded entered d ∷ []) =
      ap (λ s. entered_in ds ++ s ∷ []) shown
      ∙ sym (entered_in-append ds (concluded entered d ∷ [])) in
    record {
      single = record {
        once = subst (IsDistinct text_eq) same (
            append-IsDistinct text_eq (entered_in ds) symbol c.single.once
              (any-unseen symbol l.open_now (entered_in ds) may.1 c.seen));
        free = subst (All (λ s. can_open_symbol t.account s ≡ true)) same (
            All-append (λ s. can_open_symbol t.account s ≡ true) (entered_in ds) (symbol ∷ [])
              c.single.free (may.0, tt));
      };
      seen = subst (All (λ s. any (text_eq s) (add_symbol symbol l.open_now) ≡ true)) same (
          All-append (λ s. any (text_eq s) (add_symbol symbol l.open_now) ≡ true) (entered_in ds)
            (symbol ∷ [])
            (All-map (λ s. any (text_eq s) l.open_now ≡ true)
              (λ s. any (text_eq s) (add_symbol symbol l.open_now) ≡ true)
              (λ s h. seen-add_symbol symbol s l.open_now h) (entered_in ds) c.seen)
            (added-seen symbol l.open_now, tt));
    }

IsTracked-IsClosed : (t : Inputs) → IsClosed t IsUpper (IsTracked t)
IsTracked-IsClosed t = record {
  plain = λ d l n m c. other-IsTracked t d l.result l n refl c;
  refusal = λ d l n m c.
      other-IsTracked t d (record l.result { entries_rejected = l.result.entries_rejected + 1 }) l n
        refl c;
  halt = λ reason d l n m c.
      other-IsTracked t d (record l.result { halted = true; halt_reason = reason }) l n refl c;
  entry = λ d symbol z l may stands c. entering-IsTracked t d symbol z l may stands c;
}

blank-IsSingle : (a : AccountState) (r : TickResult) → IsBlank r → IsSingle a r
blank-IsSingle a r c = record { once = rw c.undecided tt; free = rw c.undecided tt }

fill_remaining-IsSingle :
    (a : AccountState) (universe : List Text) (outcome : DecisionOutcome) (r : TickResult)
    → is_entry outcome ≡ false
    → IsSingle a r
    → IsSingle a (fill_remaining universe outcome r)
unfolding fill_remaining
fill_remaining-IsSingle a universe outcome r n c =
    let left = keep (λ symbol. not (any (names symbol) r.decisions)) universe in
    let more = map (λ symbol. bare_decision symbol outcome) left in
    let same : entered_in r.decisions ≡ entered_in (r.decisions ++ more) = sym (
      entered_in-append r.decisions more
      ∙ ap (λ ss. entered_in r.decisions ++ ss) (entered_in-bare outcome left n)
      ∙ append-nil (entered_in r.decisions)) in
    record {
      once = subst (IsDistinct text_eq) same c.once;
      free = subst (All (λ s. can_open_symbol a s ≡ true)) same c.free;
    }

IsSingle-IsFraming : (v : Service) (t : Inputs) → IsFraming v t (IsTracked t) (IsSingle t.account)
IsSingle-IsFraming v t = record {
  begins = λ r c. record { single = blank-IsSingle t.account r c; seen = rw c.undecided tt };
  blank = λ r c. blank-IsSingle t.account r c;
  ends = λ l c. c.single;
  retire = λ gone r c. record { once = c.once; free = c.free };
  fill = λ universe outcome r n m c. fill_remaining-IsSingle t.account universe outcome r n c;
}

module _ (v : Service) (t : Inputs)
    (cased : (spec_hash : Text) (s : StrategySpec)
      → v.specs spec_hash ≡ some s
      → IsUpper s.symbol) where
  -- Where every spec names its symbol in upper case and a tick returns, no two of its decisions
  -- ENTERED are of one symbol, and none of them is of a symbol that is open in the account.
  pub tick-IsSingle : (w : World) (r : TickResult) → (tick v t w).0 ≡ ok r → IsSingle t.account r
  tick-IsSingle w r h =
      tick-Gives v t IsUpper (IsTracked t) (IsSingle t.account) (IsTracked-IsClosed t)
        (IsSingle-IsFraming v t) cased w r h

-- ===== src/Ledger/Fills.antt =====
-- Fills: `record_fill` and the filled quantity of an order.
use mathlib.Core.Path.{subst}
use mathlib.Core.Option.{some-injective}
use mathlib.Core.Bool.{false≢true}
use atlas_ai_trading.Decimal.{Decimal, nought, sum_from, ◌⊕◌}
use atlas_ai_trading.Ledger.{
  Fill, filled_quantity, has_client, has_order_id, has_trade, insert_fill, is_of_client,
  ledger_actor, new_fill, order_row, quantities, record_fill,
}
use atlas_ai_trading.Prelude.{
  Bool, Bool-cases, List, Option-cases, [], any, any-append, ap, arith, false, find, if◌then◌else◌,
  inl, inr, is_some, keep, none, refl, some, true, ℕ, ◌&&◌, ◌++◌, ◌+◌, ◌∷◌, ◌≡◌,
}
use atlas_ai_trading.Prelude.Tables.{IsDistinct, find_misses}
use atlas_ai_trading.Prelude.Text.{Text, text_eq, text_eq-eq}
use atlas_ai_trading.World.{FillRow, Order, World, fill_of, fill_recorded, ok, raised, value_error}

abbrev pub filled : Fill → ℕ → World → World
filled f order_id w = record w {
  uuids = w.uuids + 1;
  fills = w.fills ++ new_fill f order_id w.uuids ∷ [];
  audit =
      w.audit
      ++ record {
        event_type = fill_recorded;
        payload = fill_of f.order_client_id f.exchange_trade_id;
        actor = ledger_actor;
        at = w.clock;
      }
        ∷ [];
}

insert_fill_lem : (f : Fill) (i : ℕ) (w : World) → insert_fill f i w ≡ (ok true, filled f i w)
unfolding insert_fill
insert_fill_lem f i w = refl

-- The cases of `record_fill`.
pub record_fill_lem :
    (f : Fill) (w : World)
    → record_fill f w ≡ elim (order_row f.order_client_id w) [
      | none ↦ (raised value_error, w)
      | some o ↦
          if any (has_trade f.exchange_trade_id) w.fills
          then (ok false, w)
          else (ok true, filled f o.id w)
    ]
unfolding record_fill
record_fill_lem f w = elim (Option-cases (order_row f.order_client_id w)) [
  | inl n ↦ ground arith
  | inr (o, e) ↦ ground (arith, insert_fill_lem f o.id w)
]

-- A trade that was recorded, or seen before, is seen in the new table.
trade_seen :
    (f : Fill) (w : World) {b : Bool}
    → (record_fill f w).0 ≡ ok b
    → any (has_trade f.exchange_trade_id) (record_fill f w).1.fills ≡ true
trade_seen f w = elim (Option-cases (order_row f.order_client_id w)) [
  | inl n ↦ rw (record_fill_lem, n) λ e. cc
  | inr (o, s) ↦ elim (Bool-cases (any (has_trade f.exchange_trade_id) w.fills)) [
    | inl seen ↦ rw (record_fill_lem, s, seen) λ e. seen
    | inr new ↦
        rw (record_fill_lem, s, new)
          λ e. ground (
            arith,
            any-append (has_trade f.exchange_trade_id) w.fills (new_fill f o.id w.uuids ∷ []),
          )
  ]
]

-- The orders stand as they were.
orders-record_fill : (f : Fill) (w : World) → (record_fill f w).1.orders ≡ w.orders
orders-record_fill f w = rw record_fill_lem (ground arith)

order_row-record_fill :
    (c : Text) (f : Fill) (w : World) → order_row c (record_fill f w).1 ≡ order_row c w
unfolding order_row
order_row-record_fill c f w = ap (find (has_client c)) (orders-record_fill f w)

abbrev pub same_id : Order → Order → Bool
same_id o p = has_order_id o.id p

-- A trade that the exchange delivers again, with whatever quantity or price, for whatever order that is
-- known, is not recorded again: `record_fill` answers False and nothing changes.
pub record_fill_idempotent :
    (f again : Fill) (w : World) (b : Bool)
    → (record_fill f w).0 ≡ ok b
    → again.exchange_trade_id ≡ f.exchange_trade_id
    → is_some (order_row again.order_client_id w) ≡ true
    → let w' = (record_fill f w).1 in record_fill again w' ≡ (ok false, w')
record_fill_idempotent f again w b e same known =
    let w' = (record_fill f w).1 in
    let seen : any (has_trade again.exchange_trade_id) w'.fills ≡ true =
      rw same (trade_seen f w e) in
    elim (Option-cases (order_row again.order_client_id w')) [
      | inl n ↦ absurd (false≢true (cc (order_row-record_fill again.order_client_id f w)))
      | inr (o, r) ↦ rw (record_fill_lem again w', r, seen)
    ]

-- A sum from the left takes one more summand at its end.
sum_from-append :
    (acc : Decimal) (xs : List Decimal) (x : Decimal)
    → sum_from acc (xs ++ x ∷ []) ≡ sum_from acc xs ⊕ x
unfolding sum_from
sum_from-append acc [] x = refl
sum_from-append acc (y ∷ xs) x = sum_from-append (acc ⊕ y) xs x

quantities_of_new :
    (test : FillRow → Bool) (fs : List FillRow) (f : FillRow)
    → quantities (keep test (fs ++ f ∷ []))
      ≡ (if test f then quantities (keep test fs) ++ f.quantity ∷ [] else quantities (keep test fs))
quantities_of_new test [] f = ground arith
quantities_of_new test (g ∷ fs) f = ground (arith, quantities_of_new test fs f)

no_client_with_id :
    (os : List Order) (i : ℕ) (c : Text)
    → any (has_order_id i) os ≡ false
    → any (λ o. has_order_id i o && has_client c o) os ≡ false
no_client_with_id [] i c h = refl
no_client_with_id (o ∷ os) i c h = ground (arith, no_client_with_id os i c)

client_of_first :
    (os : List Order) (p : Order) (c d : Text)
    → has_client c p ≡ true
    → any (has_order_id p.id) os ≡ false
    → any (λ q. has_order_id p.id q && has_client d q) (p ∷ os) ≡ text_eq c d
client_of_first os p c d hit n =
    let same : text_eq p.client_order_id d ≡ text_eq c d =
      ap (λ t. text_eq t d) (text_eq-eq p.client_order_id c hit) in
    ground (arith, no_client_with_id os p.id d n)

-- Where order ids are unique, the order that `order_row` finds is the one that its id is joined to.
client_of_id :
    (os : List Order) (c d : Text) (o : Order)
    → IsDistinct same_id os
    → find (has_client c) os ≡ some o
    → any (λ p. has_order_id o.id p && has_client d p) os ≡ text_eq c d
client_of_id [] c d o u e = cc
client_of_id (p ∷ os) c d o u e = elim (Bool-cases (has_client c p)) [
  | inl hit ↦
      let here : p ≡ o = some-injective p o (rw hit at e) in
      subst (λ (x : Order). any (λ q. has_order_id x.id q && has_client d q) (p ∷ os) ≡ text_eq c d)
        here (client_of_first os p c d hit u.0)
  | inr miss ↦
      let found : find (has_client c) os ≡ some o = rw miss at e in
      ground (
        arith,
        client_of_id os c d o u.1 found,
        find_misses (has_order_id p.id) (has_client c) os o found u.0,
      )
]

added :
    (fs : List FillRow) (f : FillRow) (test : FillRow → Bool) (b : Bool)
    → test f ≡ b
    → sum_from nought (quantities (keep test (fs ++ f ∷ []))) ≡ (
        if b
        then sum_from nought (quantities (keep test fs)) ⊕ f.quantity
        else sum_from nought (quantities (keep test fs)))
added fs f test true e =
    rw (quantities_of_new test fs f, e)
      (sum_from-append nought (quantities (keep test fs)) f.quantity)
added fs f test false e = rw (quantities_of_new test fs f, e)

-- A new fill adds its quantity to what its order has filled, and nothing to any other order's.
pub filled_quantity-record_fill :
    (f : Fill) (c : Text) (w : World)
    → IsDistinct same_id w.orders
    → (record_fill f w).0 ≡ ok true
    → filled_quantity c (record_fill f w).1 ≡ (
        if text_eq f.order_client_id c
        then filled_quantity c w ⊕ f.quantity
        else filled_quantity c w)
unfolding filled_quantity order_row
filled_quantity-record_fill f c w u = elim (Option-cases (order_row f.order_client_id w)) [
  | inl n ↦ rw (record_fill_lem, n) λ e. cc
  | inr (o, s) ↦ elim (Bool-cases (any (has_trade f.exchange_trade_id) w.fills)) [
    | inl seen ↦ rw (record_fill_lem, s, seen) λ e. cc
    | inr new ↦
        rw (record_fill_lem, s, new)
          λ e.
            added w.fills (new_fill f o.id w.uuids) (is_of_client w.orders c)
              (text_eq f.order_client_id c) (client_of_id w.orders f.order_client_id c o u s)
  ]
]

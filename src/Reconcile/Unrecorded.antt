-- ===== src/Reconcile/Unrecorded.antt =====
-- Which exchange orders `reconcile` reports as unreconcilable.
use mathlib.Core.Path.{subst}
use atlas_ai_trading.Ledger.{has_client}
use atlas_ai_trading.Prelude.{
  Bool, Bool-cases, List, Option, [], any, arith, false, inl, inr, keep, none, not, refl, some, sym,
  true, ◌&&◌, ◌∙◌, ◌∷◌, ◌≡◌,
}
use atlas_ai_trading.Prelude.Text.{Text, starts_with, text, text_eq, text_eq-eq}
use atlas_ai_trading.Reconcile.{
  Remote, RemoteOrder, is_clean, is_empty, is_open_status, local_open_orders, remote_add,
  remote_from, remote_of, remote_set, report_on, unrecorded,
}
use atlas_ai_trading.World.{Order, World}

-- The order is open in the database.
abbrev pub is_open_here : World → Text → Bool
is_open_here w c = any (λ o. has_client c o && is_open_status o.status) w.orders

-- An exchange order with an ATLAS id that is not among the local open orders.
abbrev pub is_unknown : World → RemoteOrder → Bool
is_unknown w x = elim x.client_order_id [
  | none ↦ false
  | some c ↦ starts_with c (text "atlas") && not (is_open_here w c)
]

any-keep :
    (test held : Order → Bool) (os : List Order)
    → any test (keep held os) ≡ any (λ o. test o && held o) os
any-keep test held [] = refl
any-keep test held (o ∷ os) = elim (Bool-cases (held o)) [
  | inl e ↦ rw e (ground (arith, any-keep test held os))
  | inr n ↦ rw n (ground (arith, any-keep test held os))
]

-- An id that passes a test.
abbrev passes : (Text → Bool) → Option Text → Bool
passes test none = false
passes test (some c) = test c

-- Some key of the dict passes a test that no empty text passes.
module _ (test : Text → Bool) (empty : test [] ≡ false) where
  abbrev has_key : Remote → Bool
  has_key m = any (λ (p : Text × RemoteOrder). test p.0) m

  remote_set-hit :
      (c : Text) (r : RemoteOrder) (m : Remote) → test c ≡ true → has_key (remote_set c r m) ≡ true
  unfolding remote_set
  remote_set-hit c r [] h = ground arith
  remote_set-hit c r ((d, s) ∷ m) h = elim (Bool-cases (text_eq d c)) [
    | inl e ↦
        let same : test d ≡ true = subst (λ x. test x ≡ true) (sym (text_eq-eq d c e)) h in
        rw e (ground arith)
    | inr n ↦ rw n (ground (arith, remote_set-hit c r m h))
  ]

  remote_set-keeps :
      (c : Text) (r : RemoteOrder) (m : Remote)
      → has_key m ≡ true
      → has_key (remote_set c r m) ≡ true
  unfolding remote_set
  remote_set-keeps c r [] h = absurd cc
  remote_set-keeps c r ((d, s) ∷ m) h = elim (Bool-cases (text_eq d c)) [
    | inl e ↦ rw e h
    | inr n ↦ rw n (ground (arith, remote_set-keeps c r m))
  ]

  remote_add-keeps :
      (c : Option Text) (r : RemoteOrder) (m : Remote)
      → has_key m ≡ true
      → has_key (remote_add c r m) ≡ true
  remote_add-keeps none r m h = h
  remote_add-keeps (some []) r m h = h
  remote_add-keeps (some (a ∷ c)) r m h = remote_set-keeps (a ∷ c) r m h

  remote_from-keeps :
      (m : Remote) (xs : List RemoteOrder) → has_key m ≡ true → has_key (remote_from m xs) ≡ true
  unfolding remote_from
  remote_from-keeps m [] h = h
  remote_from-keeps m (x ∷ xs) h =
      remote_from-keeps (remote_add x.client_order_id x m) xs
        (remote_add-keeps x.client_order_id x m h)

  remote_add-hit :
      (c : Option Text) (r : RemoteOrder) (m : Remote)
      → passes test c ≡ true
      → has_key (remote_add c r m) ≡ true
  remote_add-hit none r m h = absurd cc
  remote_add-hit (some []) r m h = absurd cc
  remote_add-hit (some (a ∷ c)) r m h = remote_set-hit (a ∷ c) r m h

  remote_from-hit :
      (m : Remote) (xs : List RemoteOrder)
      → any (λ (x : RemoteOrder). passes test x.client_order_id) xs ≡ true
      → has_key (remote_from m xs) ≡ true
  unfolding remote_from
  remote_from-hit m [] h = absurd cc
  remote_from-hit m (x ∷ xs) h = elim (Bool-cases (passes test x.client_order_id)) [
    | inl e ↦
        remote_from-keeps (remote_add x.client_order_id x m) xs
          (remote_add-hit x.client_order_id x m e)
    | inr n ↦ remote_from-hit (remote_add x.client_order_id x m) xs (ground arith)
  ]

-- A key that is to be reported keeps the report from being clean.
unrecorded-hit :
    (locals : List Order) (m : Remote)
    → any
        (λ (p : Text × RemoteOrder).
          starts_with p.0 (text "atlas") && not (any (has_client p.0) locals))
        m
      ≡ true
    → is_empty (unrecorded locals m) ≡ false
unfolding unrecorded
unrecorded-hit locals [] h = absurd cc
unrecorded-hit locals ((c, r) ∷ m) h =
    elim (Bool-cases (not (any (has_client c) locals) && starts_with c (text "atlas"))) [
      | inl e ↦ rw e refl
      | inr n ↦ rw n (unrecorded-hit locals m (ground arith))
    ]

open_here_lem : (w : World) (c : Text) → is_open_here w c ≡ any (has_client c) (local_open_orders w)
unfolding local_open_orders
open_here_lem w c = sym (any-keep (has_client c) (λ o. is_open_status o.status) w.orders)

abbrev is_new : World → Text → Bool
is_new w c = starts_with c (text "atlas") && not (any (has_client c) (local_open_orders w))

new-empty : (w : World) → is_new w [] ≡ false
unfolding starts_with
new-empty w = refl

unknown-passes :
    (w : World) (x : RemoteOrder) (c : Option Text)
    → x.client_order_id ≡ c
    → is_unknown w x ≡ passes (is_new w) c
unknown-passes w x none e = rw e refl
unknown-passes w x (some c) e = rw (e, open_here_lem w c) refl

any-unknown :
    (w : World) (xs : List RemoteOrder)
    → any (is_unknown w) xs ≡ any (λ (x : RemoteOrder). passes (is_new w) x.client_order_id) xs
any-unknown w [] = refl
any-unknown w (x ∷ xs) = ground (arith, unknown-passes w x x.client_order_id refl, any-unknown w xs)

-- The report on such an order is not clean.
pub report-unclean :
    (xs : List RemoteOrder) (w : World)
    → any (is_unknown w) xs ≡ true
    → is_clean (report_on w (remote_of xs)) ≡ false
unfolding remote_of
report-unclean xs w h =
    unrecorded-hit (local_open_orders w) (remote_from [] xs)
      (remote_from-hit (is_new w) (new-empty w) [] xs (sym (any-unknown w xs) ∙ h))

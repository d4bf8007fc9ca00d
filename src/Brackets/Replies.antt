-- ===== src/Brackets/Replies.antt =====
-- Which replies of the exchange an entry and its exits take.
use atlas_ai_trading.Brackets.{
  Bracket, enter, entry_request, is_refusal, levels_of, place_entry, record_failure, record_for,
  record_submitted, require_fill,
}
use atlas_ai_trading.Broker.{
  OcoAck, OcoRequest, gate, log_refusal, parse_oco, place, place_oco, post, report_of, reports_in,
}
use atlas_ai_trading.Broker.Gate.{has_transport}
use atlas_ai_trading.Ledger.{
  Opening, OrderRequest, link_order_to_position, open_position, record_order, submitted,
  update_order_status,
}
use atlas_ai_trading.Ledger.Orders.{record_order_lem}
use atlas_ai_trading.Ledger.Positions.{open_position_lem}
use atlas_ai_trading.Prelude.{
  Bool, Bool-cases, List, Option-cases, [], any, ap, arith, if◌then◌else◌, inl, inr, or_default,
  refl, some, sym, true, ℕ, ◌∙◌, ◌∷◌, ◌≡◌,
}
use atlas_ai_trading.Prelude.Text.{Text, text_eq}
use atlas_ai_trading.World.{
  Action, Answer, Error, ExchangeEnv, Never, OrderAck, OrderReport, PostOutcome, Reply, Result,
  Result-cases, World, answers, answers_otherwise, atlas_error, bind-Never, catch-ok, catch-raised,
  fails, ok, ok_inverse, pure, raise, raise-Never, raised, ◌>>=◌, ◌>>◌,
}

abbrev pub rest_of : List Reply → List Reply
rest_of [] = []
rest_of (r ∷ rs) = rs

-- What the exchange acknowledges of a pair of exits that is sent in a state.
abbrev oco_answer : OcoRequest → List Reply → Result OcoAck
oco_answer q [] = raised atlas_error
oco_answer q (r ∷ rs) = parse_oco q r.outcome

place_oco-answer : (q : OcoRequest) (w : World) → (place_oco q w).0 ≡ oco_answer q w.replies
unfolding place_oco post log_refusal parse_oco
place_oco-answer q w = ground arith

place-takes :
    (r : OrderRequest) (w : World) (a : OrderAck)
    → (place r w).0 ≡ ok a
    → (has_transport w ≡ true) × ((place r w).1.replies ≡ rest_of w.replies)
unfolding place gate post log_refusal
place-takes r w a h = (ground arith, ground arith)

-- The reply that is taken first.
abbrev Takes : List Reply → List Reply → Type 0
Takes before after = (r : Reply) × (before ≡ r ∷ after)

taken :
    (rs after : List Reply) (w : World)
    → w.replies ≡ rs
    → has_transport w ≡ true
    → after ≡ rest_of rs
    → Takes rs after
taken [] after w e h q = absurd (cc (rw e at h))
taken (r ∷ rs) after w e h q = (r, ap (λ x. r ∷ x) (sym q))

answered :
    (q : OcoRequest) (rs : List Reply) (a : OcoAck)
    → oco_answer q rs ≡ ok a
    → (r : Reply) × (rest : List Reply) × (rs ≡ r ∷ rest) × (parse_oco q r.outcome ≡ ok a)
answered q [] a h = absurd cc
answered q (r ∷ rs) a h = (r, rs, refl, h)

record_order-replies :
    (r : OrderRequest) (i : ℕ) (env : ExchangeEnv) (s : Text) (w : World)
    → (record_order r i env s w).1.replies ≡ w.replies
record_order-replies r i env s w = ground (arith, record_order_lem r i env s w)

require_fill-replies :
    (b : Bracket) (ack : OrderAck) (w : World) → (require_fill b ack w).1.replies ≡ w.replies
require_fill-replies b ack w = ground arith

pub levels_of-replies :
    (b : Bracket) (ack : OrderAck) (w : World) → (levels_of b ack w).1.replies ≡ w.replies
unfolding levels_of
levels_of-replies b ack w = ground arith

pub open_position-replies : (a : Opening) (w : World) → (open_position a w).1.replies ≡ w.replies
open_position-replies a w = ground (arith, open_position_lem a w)

pub record_for-replies :
    (b : Bracket) (r : OrderRequest) (i : ℕ) (w : World)
    → (record_for b r i w).1.replies ≡ w.replies
unfolding link_order_to_position
record_for-replies b r i w =
    ground (arith, record_order_lem r b.strategy_id b.exchange_env submitted w)

module _ (hexdigest : Text → Text) where
  handler-Never :
      (b : Bracket) (e : Error)
      → Never {A = OrderAck} (
          if is_refusal e
          then record_failure (entry_request hexdigest b).client_order_id e >> raise e
          else raise e)
  handler-Never b e = elim (Bool-cases (is_refusal e)) [
    | inl y ↦
        let c = (entry_request hexdigest b).client_order_id in
        rw y (bind-Never (record_failure c e) (λ _. raise e) (λ _. raise-Never e))
    | inr n ↦ rw n (raise-Never e)
  ]

  place_entry-ok :
      (b : Bracket) (ack : OrderAck) (u v : World)
      → place_entry hexdigest b u ≡ (ok ack, v)
      → place (entry_request hexdigest b) u ≡ (ok ack, v)
  place_entry-ok b ack u v h =
      let request = entry_request hexdigest b in
      let handler : Error → Action OrderAck = λ e.
        if is_refusal e then record_failure request.client_order_id e >> raise e else raise e in
      elim (Result-cases (place request u)) [
        | inl (a, x, e) ↦ e ∙ sym (catch-ok (place request) handler a u x e) ∙ h
        | inr (r, x, e) ↦
            let runs = catch-raised (place request) handler r u x e in
            absurd (handler-Never b r x ack (ap (λ p. p.0) (sym runs ∙ h)))
      ]

  -- An entry that fills takes one reply.
  pub enter-Takes :
      (b : Bracket) (w : World) (ack : OrderAck)
      → (enter hexdigest b w).0 ≡ ok ack
      → Takes w.replies (enter hexdigest b w).1.replies
  unfolding enter update_order_status
  enter-Takes b w ack h =
      let request = entry_request hexdigest b in
      let c = request.client_order_id in
      let check : OrderAck → Action OrderAck = λ a. require_fill b a >>= λ _. pure a in
      let update : OrderAck → Action OrderAck =
        λ a. update_order_status c a.status >>= λ _. check a in
      let (x, u, e, hu, r1) =
        ok_inverse (record_submitted b request) (λ _. place_entry hexdigest b >>= update) w ack h in
      let (a, v, f, hv, r2) = ok_inverse (place_entry hexdigest b) update u ack hu in
      let (y, z, g, hz, r3) = ok_inverse (update_order_status c a.status) (λ _. check a) v ack hv in
      let (o, q, k, hq, r4) = ok_inverse (require_fill b a) (λ _. pure a) z ack hz in
      let placed = place_entry-ok b a u v f in
      let takes = place-takes request u a (ap (λ p. p.0) placed) in
      let kept_u : u.replies ≡ w.replies =
        sym (ap (λ p. p.1.replies) e)
        ∙ record_order-replies request b.strategy_id b.exchange_env submitted w in
      let kept_z : z.replies ≡ v.replies = sym (ap (λ p. p.1.replies) g) in
      let kept_q : q.replies ≡ z.replies =
        sym (ap (λ p. p.1.replies) k) ∙ require_fill-replies b a z in
      let took : v.replies ≡ rest_of u.replies = sym (ap (λ p. p.1.replies) placed) ∙ takes.1 in
      let end : (enter hexdigest b w).1.replies ≡ rest_of u.replies =
        ap (λ p. p.1.replies) (r1 ∙ r2 ∙ r3 ∙ r4) ∙ kept_q ∙ kept_z ∙ took in
      let (reply, first) = taken u.replies (enter hexdigest b w).1.replies u refl takes.0 end in
      (reply, sym kept_u ∙ first)

-- An answer has a report under a client order id.
abbrev pub reports : Text → Answer → Bool
reports c a = any (λ r. text_eq (or_default r.client_order_id []) c) (reports_in a)

-- A reply is an answer that reports both legs of an order list, and these are its acknowledgement.
abbrev pub AcksLegs : OcoRequest → Reply → OcoAck → Type 0
AcksLegs q r exits =
    (a : Answer) × (r.outcome ≡ answers a)
    × (reports q.stop_client_order_id a ≡ true)
    × (reports q.limit_client_order_id a ≡ true)
    × (parse_oco q (answers a) ≡ ok exits)

report_of-reports :
    (c : Text) (rs : List OrderReport) (r : OrderReport)
    → report_of c rs ≡ some r
    → any (λ (x : OrderReport). text_eq (or_default x.client_order_id []) c) rs ≡ true
unfolding report_of
report_of-reports c [] r h = absurd cc
report_of-reports c (x ∷ rs) r h = elim (Option-cases (report_of c rs)) [
  | inl n ↦ elim (Bool-cases (text_eq (or_default x.client_order_id []) c)) [
    | inl e ↦ rw e refl
    | inr m ↦ absurd (cc (rw (n, m) at h))
  ]
  | inr (s, e) ↦ ground (arith, report_of-reports c rs s e)
]

parse_oco-legs :
    (q : OcoRequest) (r : Reply) (o : PostOutcome) (exits : OcoAck)
    → r.outcome ≡ o
    → parse_oco q o ≡ ok exits
    → AcksLegs q r exits
unfolding parse_oco
parse_oco-legs q r answers_otherwise exits e h = absurd cc
parse_oco-legs q r (fails x) exits e h = absurd cc
parse_oco-legs q r (answers a) exits e h =
    elim (Option-cases (report_of q.stop_client_order_id (reports_in a))) [
      | inl n ↦ absurd (cc (rw n at h))
      | inr (s, f) ↦ elim (Option-cases (report_of q.limit_client_order_id (reports_in a))) [
        | inl n ↦ absurd (cc (rw (f, n) at h))
        | inr (t, g) ↦ (
          a,
          e,
          report_of-reports q.stop_client_order_id (reports_in a) s f,
          report_of-reports q.limit_client_order_id (reports_in a) t g,
          h,
        )
      ]
    ]

-- The reply that comes next acknowledges the exits.
abbrev pub Acknowledges : OcoRequest → List Reply → OcoAck → Type 0
Acknowledges q rs exits = (r : Reply) × (rest : List Reply) × (rs ≡ r ∷ rest) × AcksLegs q r exits

-- Exits that are acknowledged take the reply that acknowledges them.
pub place_oco-Acknowledges :
    (q : OcoRequest) (w : World) (a : OcoAck)
    → (place_oco q w).0 ≡ ok a
    → Acknowledges q w.replies a
place_oco-Acknowledges q w a h =
    let (r, rest, e, read) = answered q w.replies a (sym (place_oco-answer q w) ∙ h) in
    (r, rest, e, parse_oco-legs q r r.outcome a refl read)

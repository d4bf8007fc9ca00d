-- ===== src/Broker/Legs.antt =====
-- `_parse_oco` of src/atlas/execution/broker.py: the legs of an order list.
use mathlib.Core.List.{Permᴰ}
use atlas_ai_trading.Broker.{OcoRequest, parse_oco, report_of, reports_in}
use atlas_ai_trading.Prelude.{
  Bool, List, [], arith, if◌then◌else◌, or_default, refl, suc, ℕ, ◌∙◌, ◌∷◌, ◌≡◌, ◌≤◌,
}
use atlas_ai_trading.Prelude.Text.{Text, text_eq}
use atlas_ai_trading.World.{Answer, OrderReport, answers}

-- The reports with an id.
abbrev is_report_of : Text → OrderReport → Bool
is_report_of c r = text_eq (or_default r.client_order_id []) c

abbrev pub num_reports : Text → List OrderReport → ℕ
num_reports c [] = 0
num_reports c (r ∷ rs) = if is_report_of c r then suc (num_reports c rs) else num_reports c rs

num_reports-Perm :
    (c : Text) {xs ys : List OrderReport} → Permᴰ xs ys → num_reports c xs ≡ num_reports c ys
num_reports-Perm c Permᴰ.nil = refl
num_reports-Perm c (Permᴰ.cons {a} {b} e p) = ground (arith, num_reports-Perm c p)
num_reports-Perm c (Permᴰ.swap {a} {b} {a'} {b'} e f) = ground arith
num_reports-Perm c (Permᴰ.trans p q) = num_reports-Perm c p ∙ num_reports-Perm c q

report_of-Perm :
    (c : Text) {xs ys : List OrderReport}
    → Permᴰ xs ys
    → num_reports c xs ≤ 1
    → report_of c xs ≡ report_of c ys
unfolding report_of
report_of-Perm c Permᴰ.nil h = refl
report_of-Perm c (Permᴰ.cons {a} {b} e p) h = ground (arith, report_of-Perm c p)
report_of-Perm c (Permᴰ.swap {a} {b} {a'} {b'} e f) h = ground arith
report_of-Perm c (Permᴰ.trans p q) h =
    report_of-Perm c p h ∙ report_of-Perm c q (omega (arith, num_reports-Perm c p))

-- An answer that names no id twice reads the same in whatever order its reports stand.
pub parse_oco-Perm :
    (q : OcoRequest) (a b : Answer)
    → a.order_list_id ≡ b.order_list_id
    → Permᴰ (reports_in a) (reports_in b)
    → ((c : Text) → num_reports c (reports_in a) ≤ 1)
    → parse_oco q (answers a) ≡ parse_oco q (answers b)
unfolding parse_oco
parse_oco-Perm q a b i p once = rw (
  i,
  report_of-Perm q.stop_client_order_id p (once q.stop_client_order_id),
  report_of-Perm q.limit_client_order_id p (once q.limit_client_order_id),
)

-- ===== src/World/Monad.antt =====
-- Methods run over the shared state and may raise; what was written before a raise stays written.
use atlas_ai_trading.Prelude.{
  Bool, List, Option, [], ap, false, inl, inr, none, refl, some, true, ℕ, ◌++◌, ◌+◌, ◌∷◌, ◌≡◌, ◌⊎◌,
}
use atlas_ai_trading.Prelude.Text.{Text}
use atlas_ai_trading.World.Rows.{
  AuditEventType, Entry, Error, FileStore, FillRow, Order, Payload, Position, Promotion, Reply,
  RowStore, Sent, Strategy, WriteFault,
}

pub record World : Type 0 where
  pub clock : ℕ
  pub uuids : ℕ  -- the next value of `uuid4`: all its values are distinct
  pub kill_file : FileStore
  pub kill_row : RowStore
  pub write_faults : List (Option WriteFault)  -- how the next writes of the kill switch end
  pub audit : List Entry
  pub orders : List Order
  pub fills : List FillRow
  pub positions : List Position
  pub strategies : List Strategy
  pub promotions : List Promotion
  pub replies : List Reply  -- how the next signed POSTs end
  pub sent : List Sent

pub data Result (A : Type 0) : Type 0 where
  ok : A → Result A
  raised : Error → Result A

abbrev pub Action : Type 0 → Type 0
Action A = World → Result A × World

module _ {A : Type 0} where
  abbrev pub pure : A → Action A
  pure a w = (ok a, w)

  abbrev pub raise : Error → Action A
  raise e w = (raised e, w)

  abbrev pub gets : (World → A) → Action A
  gets f w = (ok (f w), w)

  abbrev pub or_raise : Option A → Error → Action A
  or_raise none e = raise e
  or_raise (some a) e = pure a

infixl 5 ◌>>=◌ ◌>>◌
abbrev pub ◌>>=◌ : {A B : Type 0} → Action A → (A → Action B) → Action B
◌>>=◌ m f w = let (r, w') = m w in elim r [ ok a ↦ f a w' | raised e ↦ raise e w' ]

abbrev pub ◌>>◌ : {A B : Type 0} → Action A → Action B → Action B
m >> k = m >>= λ _. k

-- `try: m except e: handler(e)`
abbrev pub catch : {A : Type 0} → Action A → (Error → Action A) → Action A
catch m handler w = let (r, w') = m w in elim r [ ok a ↦ pure a w' | raised e ↦ handler e w' ]

abbrev pub Done : Type 0
Done = Unit

abbrev pub done : Action Done
done = pure tt

abbrev pub modify : (World → World) → Action Done
modify f w = (ok tt, f w)

abbrev pub raise_if : Bool → Error → Action Done
raise_if true e = raise e
raise_if false e = done

-- `uuid4()`
abbrev pub uuid4 : Action ℕ
uuid4 w = (ok w.uuids, record w { uuids = w.uuids + 1 })

-- `AuditLog.append`: atlas_ai_trading.Audit has the rows and their hash chain.
abbrev pub log : AuditEventType → Payload → Text → Action Done
log event_type payload actor w = (
  ok tt,
  record w {
    audit =
        w.audit
        ++ record { event_type = event_type; payload = payload; actor = actor; at = w.clock } ∷ [];
  },
)

-- An action returns or raises.
pub Result-cases :
    {A : Type 0} (m : Result A × World)
    → ((a : A) × (w : World) × (m ≡ (ok a, w))) ⊎ ((e : Error) × (w : World) × (m ≡ (raised e, w)))
Result-cases (ok a, w) = inl (a, w, refl)
Result-cases (raised e, w) = inr (e, w, refl)

-- How a sequence runs, by how its first part ends.
module _ {A B : Type 0} where
  pub bind-ok :
      (m : Action A) (k : A → Action B) (a : A) (w v : World)
      → m w ≡ (ok a, v)
      → (m >>= k) w ≡ k a v
  bind-ok m k a w v e =
      ap {A = Result A × World} (λ p. elim p.0 [ ok x ↦ k x p.1 | raised r ↦ raise r p.1 ]) e

  pub bind-raised :
      (m : Action A) (k : A → Action B) (r : Error) (w v : World)
      → m w ≡ (raised r, v)
      → (m >>= k) w ≡ (raised r, v)
  bind-raised m k r w v e =
      ap {A = Result A × World} (λ p. elim p.0 [ ok x ↦ k x p.1 | raised s ↦ raise s p.1 ]) e

module _ {A : Type 0} where
  pub catch-ok :
      (m : Action A) (handler : Error → Action A) (a : A) (w v : World)
      → m w ≡ (ok a, v)
      → catch m handler w ≡ (ok a, v)
  catch-ok m handler a w v e =
      ap {A = Result A × World} (λ p. elim p.0 [ ok x ↦ pure x p.1 | raised r ↦ handler r p.1 ]) e

  pub catch-raised :
      (m : Action A) (handler : Error → Action A) (r : Error) (w v : World)
      → m w ≡ (raised r, v)
      → catch m handler w ≡ handler r v
  catch-raised m handler r w v e =
      ap {A = Result A × World} (λ p. elim p.0 [ ok x ↦ pure x p.1 | raised s ↦ handler s p.1 ]) e

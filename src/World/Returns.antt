-- ===== src/World/Returns.antt =====
-- Actions that return, taken apart, and actions that never do.
use mathlib.Core.Path.{subst}
use atlas_ai_trading.Prelude.{ap, inl, inr, ◌≡◌, ◌≢◌}
use atlas_ai_trading.World.Monad.{
  Action, Result-cases, World, bind-ok, bind-raised, ok, raise, raised, ◌>>=◌,
}
use atlas_ai_trading.World.Rows.{Error}

-- The parts of a sequence that returned.
pub ok_inverse :
    {A B : Type 0} (m : Action A) (k : A → Action B) (w : World) (b : B)
    → ((m >>= k) w).0 ≡ ok b
    → (a : A) × (v : World) × (m w ≡ (ok a, v)) × ((k a v).0 ≡ ok b) × ((m >>= k) w ≡ k a v)
ok_inverse m k w b h = elim (Result-cases (m w)) [
  | inl (a, v, e) ↦
      let runs = bind-ok m k a w v e in (a, v, e, subst (λ p. p.0 ≡ ok b) runs h, runs)
  | inr (r, v, e) ↦ absurd (cc (bind-raised m k r w v e))
]

pub ok-injective : {A : Type 0} (a b : A) → ok a ≡ ok b → a ≡ b
ok-injective a b h = ap (λ r. elim r [ ok x ↦ x | raised e ↦ a ]) h

-- An action that never returns.
abbrev pub Never : {A : Type 0} → Action A → Type 0
Never {A} m = (w : World) (a : A) → (m w).0 ≢ ok a

pub bind-Never :
    {A B : Type 0} (m : Action A) (k : A → Action B) → ((a : A) → Never (k a)) → Never (m >>= k)
bind-Never m k f w b h = let (a, v, e, d, p) = ok_inverse m k w b h in f a v b d

pub raise-Never : {A : Type 0} (e : Error) → Never {A = A} (raise e)
raise-Never e w a h = cc

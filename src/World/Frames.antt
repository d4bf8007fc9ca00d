-- ===== src/World/Frames.antt =====
-- What actions keep of the state, and what holds of the results that they return.
use mathlib.Core.Path.{subst}
use atlas_ai_trading.Prelude.{
  Bool, Option, ap, if◌then◌else◌, inl, inr, none, refl, some, sym, true, false, ◌∙◌, ◌≡◌,
}
use atlas_ai_trading.World.Monad.{
  Action, Result-cases, World, bind-ok, bind-raised, ok, or_raise, pure, raise, ◌>>=◌,
}
use atlas_ai_trading.World.Returns.{ok-injective, ok_inverse}
use atlas_ai_trading.World.Rows.{Error}

-- An action that leaves a part of the state as it is, whether it returns or raises.
abbrev pub Keeps : {A B : Type 0} → (World → B) → Action A → Type 0
Keeps f m = (w : World) → f (m w).1 ≡ f w

-- Every result that an action returns satisfies a predicate.
abbrev pub Gives {ℓ} : {A : Type 0} → (A → Type ℓ) → Action A → Type ℓ
Gives {A = A} P m = (w : World) (a : A) → (m w).0 ≡ ok a → P a

pub bind-Keeps :
    {A B C : Type 0} (f : World → C) (m : Action A) (k : A → Action B)
    → Keeps f m
    → ((a : A) → Keeps f (k a))
    → Keeps f (m >>= k)
bind-Keeps f m k h g w = elim (Result-cases (m w)) [
  | inl (a, v, e) ↦
      let before : f v ≡ f w = subst (λ p. f p.1 ≡ f w) e (h w) in
      let after : f (k a v).1 ≡ f w = g a v ∙ before in
      subst (λ p. f p.1 ≡ f w) (sym (bind-ok m k a w v e)) after
  | inr (r, v, e) ↦
      let before : f v ≡ f w = subst (λ p. f p.1 ≡ f w) e (h w) in
      subst (λ p. f p.1 ≡ f w) (sym (bind-raised m k r w v e)) before
]

pub bind-Gives {ℓ} :
    {A B : Type 0} (P : B → Type ℓ) (m : Action A) (k : A → Action B)
    → ((a : A) → Gives P (k a))
    → Gives P (m >>= k)
bind-Gives P m k g w b h = let (a, v, e, d, r) = ok_inverse m k w b h in g a v b d

-- The same, with what the first part gives.
pub bind-Gives_from {ℓ κ} :
    {A B : Type 0} (Q : A → Type κ) (P : B → Type ℓ) (m : Action A) (k : A → Action B)
    → Gives Q m
    → ((a : A) → Q a → Gives P (k a))
    → Gives P (m >>= k)
bind-Gives_from Q P m k q g w b h =
    let (a, v, e, d, r) = ok_inverse m k w b h in g a (q w a (ap (λ p. p.0) e)) v b d

pub pure-Gives {ℓ} : {A : Type 0} (P : A → Type ℓ) (a : A) → P a → Gives P (pure a)
pure-Gives P a p w b h = subst P (ok-injective a b h) p

pub raise-Gives {ℓ} : {A : Type 0} (P : A → Type ℓ) (e : Error) → Gives P (raise e)
raise-Gives P e w b h = absurd cc

pub if-Gives {ℓ} :
    {A : Type 0} (P : A → Type ℓ) (b : Bool) (m n : Action A)
    → Gives P m
    → Gives P n
    → Gives P (if b then m else n)
if-Gives P true m n h g = h
if-Gives P false m n h g = g

-- The same, where each branch may use the test.
pub if-Gives_by {ℓ} :
    {A : Type 0} (P : A → Type ℓ) (b : Bool) (m n : Action A)
    → (b ≡ true → Gives P m)
    → (b ≡ false → Gives P n)
    → Gives P (if b then m else n)
if-Gives_by P true m n h g = h refl
if-Gives_by P false m n h g = g refl

pub if-Keeps :
    {A C : Type 0} (f : World → C) (b : Bool) (m n : Action A)
    → Keeps f m
    → Keeps f n
    → Keeps f (if b then m else n)
if-Keeps f true m n h g = h
if-Keeps f false m n h g = g

pub or_raise-Keeps :
    {A C : Type 0} (f : World → C) (a : Option A) (e : Error) → Keeps f (or_raise a e)
or_raise-Keeps f none e w = refl
or_raise-Keeps f (some a) e w = refl

-- The same at one state, with what is known of the state after the first part.
pub bind-keeps_at :
    {A B C : Type 0} (f : World → C) (m : Action A) (k : A → Action B) (w : World)
    → f (m w).1 ≡ f w
    → ((a : A) (v : World) → m w ≡ (ok a, v) → f (k a v).1 ≡ f v)
    → f ((m >>= k) w).1 ≡ f w
bind-keeps_at f m k w h g = elim (Result-cases (m w)) [
  | inl (a, v, e) ↦
      let before : f v ≡ f w = subst (λ p. f p.1 ≡ f w) e h in
      subst (λ p. f p.1 ≡ f w) (sym (bind-ok m k a w v e)) (g a v e ∙ before)
  | inr (r, v, e) ↦
      let before : f v ≡ f w = subst (λ p. f p.1 ≡ f w) e h in
      subst (λ p. f p.1 ≡ f w) (sym (bind-raised m k r w v e)) before
]

-- ===== src/Prelude/Tables.antt =====
-- Tables as lists of rows: unique keys, finding a row, updating rows.
use mathlib.Core.Path.{◌≡◌, refl, ◌∙◌, fun_ext, subst}
use mathlib.Core.Logic.{inl, inr}
use mathlib.Core.Bool.{Bool, true, false}
use mathlib.Core.List.{List, [], ◌∷◌, ◌++◌}
use mathlib.Core.Option.{none, some, some-injective}
use native.Mathlib.Omega.{arith}
use atlas_ai_trading.Prelude.Tests.{if◌then◌else◌, Bool-cases, is_some}
use atlas_ai_trading.Prelude.Lists.{any, any-append, update_where, find, All}

module _ {ℓ} {A : Type ℓ} where
  -- `same x y` compares the keys of two rows: no two rows of the table have one key.
  abbrev pub IsDistinct : (A → A → Bool) → List A → Type 0
  IsDistinct same [] = Unit
  IsDistinct same (x ∷ xs) = (any (same x) xs ≡ false) × IsDistinct same xs

module _ {ℓ} {A : Type ℓ} where
  pub append-IsDistinct :
      (same : A → A → Bool) (xs : List A) (x : A)
      → IsDistinct same xs
      → any (λ y. same y x) xs ≡ false
      → IsDistinct same (xs ++ x ∷ [])
  append-IsDistinct same [] x h n = (refl, tt)
  append-IsDistinct same (y ∷ xs) x h n = (
    ground (arith, any-append (same y) xs (x ∷ [])),
    append-IsDistinct same xs x h.1 (ground arith),
  )

  pub any-update_where :
      (test hit : A → Bool) (f : A → A)
      → ((x : A) → test (f x) ≡ test x)
      → (xs : List A) → any test (update_where hit f xs) ≡ any test xs
  any-update_where test hit f keeps [] = refl
  any-update_where test hit f keeps (x ∷ xs) =
      ground (arith, keeps x, any-update_where test hit f keeps xs)

  -- Rows may be rewritten in columns that the key does not depend on.
  pub update_where-IsDistinct :
      (same : A → A → Bool) (hit : A → Bool) (f : A → A)
      → ((x y : A) → same (f x) y ≡ same x y)
      → ((x y : A) → same x (f y) ≡ same x y)
      → (xs : List A) → IsDistinct same xs
      → IsDistinct same (update_where hit f xs)
  update_where-IsDistinct same hit f left right [] h = tt
  update_where-IsDistinct same hit f left right (x ∷ xs) h =
      let rest : any (same x) (update_where hit f xs) ≡ false =
        any-update_where (same x) hit f (right x) xs ∙ h.0 in
      (
        elim (Bool-cases (hit x)) [ inl e ↦ rw (e, fun_ext (left x)) rest | inr e ↦ rw e rest ],
        update_where-IsDistinct same hit f left right xs h.1,
      )

-- Finding in a table to which a row was appended.
pub find-append {ℓ} :
    {A : Type ℓ} (test : A → Bool) (xs : List A) (x : A)
    → find test (xs ++ x ∷ [])
      ≡ elim (find test xs) [ some y ↦ some y | none ↦ if test x then some x else none ]
find-append test [] x = refl
find-append test (y ∷ xs) x = elim (Bool-cases (test y)) [
  | inl e ↦ rw e
  | inr e ↦ rw e (find-append test xs x)
]

-- Updates that leave the tested column alone update the row that is found.
pub find-update_where {ℓ} :
    {A : Type ℓ} (test hit : A → Bool) (f : A → A)
    → ((x : A) → test (f x) ≡ test x)
    → (xs : List A)
    → find test (update_where hit f xs)
      ≡ elim (find test xs) [ none ↦ none | some x ↦ some (if hit x then f x else x) ]
find-update_where test hit f keeps [] = refl
find-update_where test hit f keeps (x ∷ xs) = elim (Bool-cases (hit x)) [
  | inl h ↦ elim (Bool-cases (test x)) [
    | inl t ↦ rw (h, keeps x, t) (rw h)
    | inr t ↦ rw (h, keeps x, t) (find-update_where test hit f keeps xs)
  ]
  | inr h ↦ elim (Bool-cases (test x)) [
    | inl t ↦ rw (h, t) (rw h)
    | inr t ↦ rw (h, t) (find-update_where test hit f keeps xs)
  ]
]

pub find_misses {ℓ} :
    {A : Type ℓ} (hit test : A → Bool) (xs : List A) (x : A)
    → find test xs ≡ some x
    → any hit xs ≡ false
    → hit x ≡ false
find_misses hit test [] x e n = cc
find_misses hit test (y ∷ xs) x e n = elim (Bool-cases (test y)) [
  | inl h ↦ rw (← some-injective y x (rw h at e)) (ground arith)
  | inr h ↦ find_misses hit test xs x (rw h at e) (ground arith)
]

-- The row that is found satisfies the condition.
pub find_hits {ℓ} :
    {A : Type ℓ} (test : A → Bool) (xs : List A) (x : A) → find test xs ≡ some x → test x ≡ true
find_hits test [] x e = cc
find_hits test (y ∷ xs) x e = elim (Bool-cases (test y)) [
  | inl h ↦ subst (λ z. test z ≡ true) (some-injective y x (rw h at e)) h
  | inr h ↦ find_hits test xs x (rw h at e)
]

-- An update that hits no row changes nothing.
pub update_where-eq {ℓ} :
    {A : Type ℓ} (hit : A → Bool) (f : A → A) (xs : List A)
    → any hit xs ≡ false
    → update_where hit f xs ≡ xs
update_where-eq hit f [] n = refl
update_where-eq hit f (x ∷ xs) n = ground (arith, update_where-eq hit f xs)

module _ {ℓ κ} {A : Type ℓ} where
  pub All-update_where :
      (P : A → Type κ) (hit : A → Bool) (f : A → A)
      → ((x : A) → P x → P (f x))
      → (xs : List A) → All P xs
      → All P (update_where hit f xs)
  All-update_where P hit f keeps [] h = tt
  All-update_where P hit f keeps (x ∷ xs) h = (
    elim (Bool-cases (hit x)) [ inl e ↦ rw e (keeps x h.0) | inr e ↦ rw e h.0 ],
    All-update_where P hit f keeps xs h.1,
  )

  pub All-map {μ} :
      (P : A → Type κ) (Q : A → Type μ)
      → ((x : A) → P x → Q x)
      → (xs : List A) → All P xs
      → All Q xs
  All-map P Q g [] h = tt
  All-map P Q g (x ∷ xs) h = (g x h.0, All-map P Q g xs h.1)

pub any-find {ℓ} :
    {A : Type ℓ} (test : A → Bool) (xs : List A) → any test xs ≡ is_some (find test xs)
any-find test [] = refl
any-find test (x ∷ xs) = ground (arith, any-find test xs)

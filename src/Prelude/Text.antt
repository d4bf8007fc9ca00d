-- ===== src/Prelude/Text.antt =====
-- Python text as its list of code points: identifiers, symbols, reasons, actors.
use Prim.Native.String.{String}
use Prim.Native.Char.{code}
use atlas_ai_trading.Prelude.Tests.{ltb, leb, ◌==◌, if◌then◌else◌}
use atlas_ai_trading.Prelude.Lists.{all}
use Prim.Native.Nat.{ℕ, zero, suc, ◌+◌, ◌-◌, ◌/◌, ◌%◌}
use mathlib.Core.Path.{◌≡◌, refl}
use mathlib.Core.Logic.{◌↔◌}
use mathlib.Core.Bool.{Bool, true, false, ◌&&◌, ◌||◌}
use mathlib.Core.List.{List, [], ◌∷◌, ◌++◌, map}
use native.Mathlib.Omega.{arith}

abbrev pub Text : Type 0
Text = List ℕ

-- A text literal.
abbrev pub text : String → Text
text String.[] = []
text (String.◌∷◌ c s) = code c ∷ text s

-- `s == t`
unfoldable pub text_eq : Text → Text → Bool
text_eq [] [] = true
text_eq (a ∷ s) (b ∷ t) = a == b && text_eq s t
text_eq _ _ = false

pub text_eq_refl : (s : Text) → text_eq s s ≡ true
unfolding text_eq
text_eq_refl [] = refl
text_eq_refl (a ∷ s) = ground (arith, text_eq_refl s)

pub text_eq-eq : (s t : Text) → text_eq s t ≡ true → s ≡ t
unfolding text_eq
text_eq-eq [] [] h = refl
text_eq-eq [] (b ∷ t) h = cc
text_eq-eq (a ∷ s) [] h = cc
text_eq-eq (a ∷ s) (b ∷ t) h = ground (arith, text_eq-eq s t)

pub text_eq_iff : (s t : Text) → (text_eq s t ≡ true) ↔ (s ≡ t)
text_eq_iff s t = (text_eq-eq s t, λ e. ground (arith, text_eq_refl s))

-- `s.startswith(p)`
unfoldable pub starts_with : Text → Text → Bool
starts_with s [] = true
starts_with [] (b ∷ p) = false
starts_with (a ∷ s) (b ∷ p) = a == b && starts_with s p

-- `s.upper()`, of ASCII letters; exchange symbols are ASCII.
abbrev pub upper_code : ℕ → ℕ
upper_code c = if leb b'a' c && leb c b'z' then c - 32 else c

unfoldable pub upper : Text → Text
upper s = map upper_code s

-- What `str.strip` removes.
abbrev is_space : ℕ → Bool
is_space c =
    (leb 9 c && leb c 13)
    || (leb 28 c && leb c 32)
    || c == 0x85
    || c == 0xa0
    || c == 0x1680
    || (leb 0x2000 c && leb c 0x200a)
    || c == 0x2028
    || c == 0x2029
    || c == 0x202f
    || c == 0x205f
    || c == 0x3000

-- `not s.strip()`
unfoldable pub is_blank : Text → Bool
is_blank s = all is_space s

-- `str(n)`: the decimal digits, least significant first in `rest`. `n` rounds are enough.
digits_onto : ℕ → ℕ → Text → Text
digits_onto zero n rest = rest
digits_onto (suc fuel) n rest =
    let here = (b'0' + n % 10) ∷ rest in
    let more = digits_onto fuel (n / 10) here in if ltb n 10 then here else more

unfoldable pub show_ℕ : ℕ → Text
unfolding digits_onto
show_ℕ n = digits_onto (suc n) n []

-- `repr` of a list of texts without quotes or backslashes: `['a', 'b']`.
abbrev pub quoted : Text → Text
quoted s = text "'" ++ (s ++ text "'")

unfoldable pub repr_tail : List Text → Text
repr_tail [] = text "]"
repr_tail (s ∷ ss) = text ", " ++ (quoted s ++ repr_tail ss)

unfoldable pub repr_texts : List Text → Text
unfolding repr_tail
repr_texts [] = text "[]"
repr_texts (s ∷ ss) = text "[" ++ (quoted s ++ repr_tail ss)

shows : show_ℕ 207 ≡ text "207"
unfolding show_ℕ
shows = refl

reprs : repr_texts (text "a" ∷ text "b" ∷ []) ≡ text "['a', 'b']"
unfolding repr_texts
reprs = refl

-- ===== src/Prelude/Text.antt =====
-- Texts: their code points where the program looks inside them, and the operations on texts that
-- it uses of Python.
use Prim.Native.Nat.{ℕ, zero, suc, ◌/◌, ◌%◌, ◌≤◌}
use Prim.Native.Char.{code}
use Prim.Native.String.{String, ◌++◌ as append}
use Prim.Native.String.append as append_laws
use mathlib.Core.Path.{◌≡◌, refl, sym, ◌∙◌}
use mathlib.Core.Logic.{◌≢◌, inl, inr}
use native.Mathlib.Omega.{arith}
use mathlib.Core.Bool.{true, false, not, ◌&&◌}
use mathlib.Core.List.{List, [], ◌∷◌}
use backend_live_canvas.Prelude.Tests.{ltb, ◌==◌, truthy, if◌then◌else◌, str_eq_iff, Bool-cases}

-- The code points of a text.
abbrev pub codes : String → List ℕ
codes String.[] = []
codes (String.◌∷◌ c s) = code c ∷ codes s

-- `a + b` on texts.
abbrev pub concat : String → String → String
concat a b = append a b

-- `s[:n]`
unfoldable pub take_text : ℕ → String → String
take_text zero s = ""
take_text (suc n) String.[] = ""
take_text (suc n) (String.◌∷◌ c s) = String.◌∷◌ c (take_text n s)

-- `s.lstrip(".")`
unfoldable pub lstrip_dot : String → String
lstrip_dot String.[] = ""
lstrip_dot (String.◌∷◌ c s) = elim (code c == b'.') [ true ↦ lstrip_dot s | false ↦ String.◌∷◌ c s ]

-- `s.rstrip("/")`
unfoldable pub rstrip_slash : String → String
rstrip_slash String.[] = ""
rstrip_slash (String.◌∷◌ c s) =
    let rest = rstrip_slash s in
    if (code c == b'/') && not (truthy rest) then "" else String.◌∷◌ c rest

abbrev digit : ℕ → String
digit zero = "0"
digit (suc zero) = "1"
digit (suc (suc zero)) = "2"
digit (suc (suc (suc zero))) = "3"
digit (suc (suc (suc (suc zero)))) = "4"
digit (suc (suc (suc (suc (suc zero))))) = "5"
digit (suc (suc (suc (suc (suc (suc zero)))))) = "6"
digit (suc (suc (suc (suc (suc (suc (suc zero))))))) = "7"
digit (suc (suc (suc (suc (suc (suc (suc (suc zero)))))))) = "8"
digit _ = "9"

unfoldable pub decimal_in : ℕ → ℕ → String
decimal_in zero n = ""
decimal_in (suc fuel) n = elim (ltb n 10) [
  | true ↦ digit n
  | false ↦ concat (decimal_in fuel (n / 10)) (digit (n % 10))
]

-- `str(n)`: a number has no more digits than its successor.
unfoldable pub decimal : ℕ → String
unfolding decimal_in
decimal n = decimal_in (suc n) n

decimal_run : decimal 524288000 ≡ "524288000"
unfolding decimal
decimal_run = refl

pub truthy-false : (s : String) → truthy s ≡ false → s ≡ ""
truthy-false s h = (str_eq_iff s "").0 (ground arith)

pub not_truthy : (s : String) → s ≡ "" → truthy s ≡ false
not_truthy s e = ground (arith, (str_eq_iff s "").1 e)

pub truthy_of_ne : (s : String) → s ≢ "" → truthy s ≡ true
truthy_of_ne s h = elim (Bool-cases (truthy s)) [
  | inl e ↦ e
  | inr e ↦ absurd (h (truthy-false s e))
]

-- A text with something behind it is not blank.
pub concat-ne-blank : (s t : String) → t ≢ "" → concat s t ≢ ""
concat-ne-blank String.[] t h e = h (sym (append_laws.nil t) ∙ e)
concat-ne-blank (String.◌∷◌ c s) t h e = cc (append_laws.cons c s t, e)

pub cons-ne-blank : (c s : String) → c ≢ "" → concat c s ≢ ""
cons-ne-blank String.[] s h e = h refl
cons-ne-blank (String.◌∷◌ c t) s h e = cc (append_laws.cons c t s, e)

abbrev pub text_length : String → ℕ
text_length String.[] = 0
text_length (String.◌∷◌ c s) = suc (text_length s)

-- `s[-n:]`, where n is not zero
unfoldable pub last_text : ℕ → String → String
last_text n String.[] = ""
last_text n (String.◌∷◌ c s) = elim (ltb (text_length s) n) [
  | true ↦ String.◌∷◌ c s
  | false ↦ last_text n s
]

pub last_text-length : (n : ℕ) (s : String) → text_length (last_text n s) ≤ n
unfolding last_text
last_text-length n String.[] = omega arith
last_text-length n (String.◌∷◌ c s) = elim (Bool-cases (ltb (text_length s) n)) [
  | inl e ↦ rw (e, last_text) (ground arith)
  | inr e ↦ rw (e, last_text) (last_text-length n s)
]

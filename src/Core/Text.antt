-- ===== src/Core/Text.antt =====
-- What the apps use of Python's texts: `strip`, and `split` at commas.
use Prim.Native.String as NativeString
use Prim.Native.Char.{code}
use backend_live_canvas.Prelude.{
  ℕ, String, Bool, true, false, ◌&&◌, ◌||◌, not, List, [], ◌∷◌, leb, ◌==◌, truthy, if◌then◌else◌,
}

-- The white space of `str.isspace`.
abbrev is_space : ℕ → Bool
is_space c =
    (leb 9 c && leb c 13)
    || (leb 28 c && leb c 32)
    || c == 133
    || c == 160
    || c == 5760
    || (leb 8192 c && leb c 8202)
    || c == 8232
    || c == 8233
    || c == 8239
    || c == 8287
    || c == 12288

unfoldable pub lstrip : String → String
lstrip NativeString.[] = ""
lstrip (NativeString.◌∷◌ c s) = elim (is_space (code c)) [
  | true ↦ lstrip s
  | false ↦ NativeString.◌∷◌ c s
]

unfoldable pub rstrip : String → String
rstrip NativeString.[] = ""
rstrip (NativeString.◌∷◌ c s) =
    let rest = rstrip s in
    if is_space (code c) && not (truthy rest) then "" else NativeString.◌∷◌ c rest

-- `s.strip()`
unfoldable pub strip : String → String
unfolding lstrip rstrip
strip s = rstrip (lstrip s)

abbrev with_char : Bool → String → List String → List String
with_char true c parts = "" ∷ parts
with_char false c [] = c ∷ []
with_char false c (p ∷ parts) = NativeString.◌++◌ c p ∷ parts

-- `s.split(",")`
unfoldable pub split_comma : String → List String
split_comma NativeString.[] = "" ∷ []
split_comma (NativeString.◌∷◌ c s) =
    with_char (code c == b',') (NativeString.◌∷◌ c "") (split_comma s)

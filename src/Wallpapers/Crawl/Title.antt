-- ===== src/Wallpapers/Crawl/Title.antt =====
-- scripts/build_seed_fixture.py: the texts that it makes of a path and an address.
use Prim.Native.String as NativeString
use Prim.Native.Char.{code}
use backend_live_canvas.Prelude.{
  ℕ, zero, suc, ◌-◌, String, concat, decimal, rstrip_slash, ◌≡◌, refl, Bool, true, false, ◌&&◌, leb,
  ◌==◌, str_eq, if◌then◌else◌,
}

-- `s.split("/", 1)[0]`
unfoldable pub first_part : String → String
first_part NativeString.[] = ""
first_part (NativeString.◌∷◌ c s) = elim (code c == b'/') [
  | true ↦ ""
  | false ↦ NativeString.◌∷◌ c (first_part s)
]

unfoldable has_slash : String → Bool
has_slash NativeString.[] = false
has_slash (NativeString.◌∷◌ c s) = if code c == b'/' then true else has_slash s

-- `s.rsplit("/", 1)[-1]`
unfoldable last_part : String → String
unfolding has_slash
last_part NativeString.[] = ""
last_part (NativeString.◌∷◌ c s) = elim (has_slash s) [
  | true ↦ last_part s
  | false ↦ if code c == b'/' then s else NativeString.◌∷◌ c s
]

-- `s[:-len(suffix)]` where `s` ends with the suffix, which is not empty, and `s` where not.
unfoldable without_suffix : String → String → String
without_suffix suffix NativeString.[] = ""
without_suffix suffix (NativeString.◌∷◌ c s) = elim (str_eq (NativeString.◌∷◌ c s) suffix) [
  | true ↦ ""
  | false ↦ NativeString.◌∷◌ c (without_suffix suffix s)
]

-- One letter of a text.
abbrev letter : ℕ → String → String
letter n NativeString.[] = ""
letter zero (NativeString.◌∷◌ c s) = NativeString.◌∷◌ c ""
letter (suc n) (NativeString.◌∷◌ c s) = letter n s

abbrev is_lower : ℕ → Bool
is_lower c = leb 97 c && leb c 122

abbrev is_upper : ℕ → Bool
is_upper c = leb 65 c && leb c 90

-- `s.replace("-", " ").title()`: a letter is a capital at the start of a run of letters, and small
-- behind another letter. An address holds ASCII only.
unfoldable titled : Bool → String → String
titled cased NativeString.[] = ""
titled cased (NativeString.◌∷◌ c s) =
    if is_lower (code c)
    then concat
        (if cased then NativeString.◌∷◌ c "" else letter (code c - 97) "ABCDEFGHIJKLMNOPQRSTUVWXYZ")
        (titled true s)
    else if is_upper (code c)
    then concat
        (if cased then letter (code c - 65) "abcdefghijklmnopqrstuvwxyz" else NativeString.◌∷◌ c "")
        (titled true s)
    else if code c == b'-'
    then concat " " (titled false s)
    else NativeString.◌∷◌ c (titled false s)

-- `title_from_page_url`
unfoldable pub title_from_page_url : String → ℕ → String
unfolding last_part without_suffix titled
title_from_page_url page_url pexels_id =
    titled false
      (without_suffix (concat "-" (decimal pexels_id)) (last_part (rstrip_slash page_url)))

title_run :
    title_from_page_url "https://www.pexels.com/video/calm-sea-at-dawn-42/" 42 ≡ "Calm Sea At Dawn"
unfolding title_from_page_url last_part without_suffix titled has_slash decimal rstrip_slash str_eq
title_run = refl

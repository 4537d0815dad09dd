-- ===== src/Audit/Lower.antt =====
-- What the guard of apps/audit/services.py uses of Python's texts: `lower`, `in` and equality,
-- on lists of code points.
use backend_live_canvas.Prelude.{
  ℕ, ◌+◌, ◌≡◌, refl, ap, ◌⊎◌, sym, Bool, true, false, ◌&&◌, ◌||◌, List, [], ◌∷◌, ◌++◌, In, inl, inr,
  leb, ◌==◌, if◌then◌else◌, Bool-cases, arith,
}

-- `str.lower` of one character. Of the characters outside ASCII only U+212A and U+0130 have a
-- lower case with ASCII letters in it; the others are left alone, since their lower case cannot
-- take part in a match with the ASCII words that the guard looks for.
unfoldable pub lower_char : ℕ → List ℕ
lower_char c =
    if leb 65 c && leb c 90
    then (c + 32) ∷ []
    else if c == 0x212A
    then 107 ∷ []
    else if c == 0x130
    then 105 ∷ 775 ∷ []
    else c ∷ []

unfoldable pub lower : List ℕ → List ℕ
unfolding lower_char
lower [] = []
lower (c ∷ s) = lower_char c ++ lower s

unfoldable pub equal : List ℕ → List ℕ → Bool
equal [] [] = true
equal [] (d ∷ t) = false
equal (c ∷ s) [] = false
equal (c ∷ s) (d ∷ t) = c == d && equal s t

unfoldable pub is_prefix : List ℕ → List ℕ → Bool
is_prefix [] t = true
is_prefix (c ∷ s) [] = false
is_prefix (c ∷ s) (d ∷ t) = c == d && is_prefix s t

-- `marker in text`
unfoldable pub contains : List ℕ → List ℕ → Bool
unfolding is_prefix
contains m [] = is_prefix m []
contains m (c ∷ t) = is_prefix m (c ∷ t) || contains m t

-- `s in words` for a set of words, and `any word in s`.
unfoldable pub any_equal : List (List ℕ) → List ℕ → Bool
unfolding equal
any_equal [] s = false
any_equal (w ∷ ws) s = equal w s || any_equal ws s

unfoldable pub any_within : List (List ℕ) → List ℕ → Bool
unfolding contains
any_within [] s = false
any_within (w ∷ ws) s = contains w s || any_within ws s

equal-eq : (s t : List ℕ) → equal s t ≡ true → s ≡ t
unfolding equal
equal-eq [] [] h = refl
equal-eq [] (d ∷ t) h = cc
equal-eq (c ∷ s) [] h = cc
equal-eq (c ∷ s) (d ∷ t) h = ground (arith, equal-eq s t)

equal_refl : (s : List ℕ) → equal s s ≡ true
unfolding equal
equal_refl [] = refl
equal_refl (c ∷ s) = ground (arith, equal_refl s)

pub any_equal_sound : (ws : List (List ℕ)) (s : List ℕ) → any_equal ws s ≡ true → In s ws
unfolding any_equal
any_equal_sound [] s h = cc
any_equal_sound (w ∷ ws) s h = elim (Bool-cases (equal w s)) [
  | inl e ↦ inl (sym (equal-eq w s e))
  | inr e ↦ inr (any_equal_sound ws s (rw e at h))
]

pub any_equal_complete : (ws : List (List ℕ)) (s : List ℕ) → In s ws → any_equal ws s ≡ true
unfolding any_equal
any_equal_complete [] s m = elim m [ ]
any_equal_complete (w ∷ ws) s (inl e) = rw (e, equal_refl)
any_equal_complete (w ∷ ws) s (inr m) = ground (arith, any_equal_complete ws s m)

is_prefix-append : (m post : List ℕ) → is_prefix m (m ++ post) ≡ true
unfolding is_prefix
is_prefix-append [] post = refl
is_prefix-append (c ∷ m) post = ground (arith, is_prefix-append m post)

is_prefix_sound : (m t : List ℕ) → is_prefix m t ≡ true → (post : List ℕ) × (t ≡ m ++ post)
unfolding is_prefix
is_prefix_sound [] t h = (t, refl)
is_prefix_sound (c ∷ m) [] h = cc
is_prefix_sound (c ∷ m) (d ∷ t) h = elim (Bool-cases (c == d)) [
  | inl e ↦ let (post, p) = is_prefix_sound m t (rw e at h) in (post, ground arith)
  | inr e ↦ absurd (cc (rw e at h))
]

-- A text holds a marker exactly when it is the marker between two other texts.
abbrev pub Within : List ℕ → List ℕ → Type 0
Within m t = (pre : List ℕ) × (post : List ℕ) × (t ≡ pre ++ (m ++ post))

contains_sound : (m t : List ℕ) → contains m t ≡ true → Within m t
unfolding contains
contains_sound m [] h = let (post, p) = is_prefix_sound m [] h in ([], post, p)
contains_sound m (c ∷ t) h = elim (Bool-cases (is_prefix m (c ∷ t))) [
  | inl e ↦ let (post, p) = is_prefix_sound m (c ∷ t) e in ([], post, p)
  | inr e ↦ let (pre, post, p) = contains_sound m t (rw e at h) in (c ∷ pre, post, ap (◌∷◌ c) p)
]

contains-append : (m pre post : List ℕ) → contains m (pre ++ (m ++ post)) ≡ true
unfolding contains
contains-append m [] post = contains_of_prefix (m ++ post) (is_prefix-append m post)
  where
    contains_of_prefix : (t : List ℕ) → is_prefix m t ≡ true → contains m t ≡ true
    contains_of_prefix [] h = h
    contains_of_prefix (c ∷ t) h = rw h
contains-append m (c ∷ pre) post = ground (arith, contains-append m pre post)

-- Some marker of a list stands in the text.
abbrev pub AnyWithin : List (List ℕ) → List ℕ → Type 0
AnyWithin [] t = ⊥
AnyWithin (m ∷ ms) t = Within m t ⊎ AnyWithin ms t

pub any_within_sound : (ms : List (List ℕ)) (t : List ℕ) → any_within ms t ≡ true → AnyWithin ms t
unfolding any_within
any_within_sound [] t h = cc
any_within_sound (m ∷ ms) t h = elim (Bool-cases (contains m t)) [
  | inl e ↦ inl (contains_sound m t e)
  | inr e ↦ inr (any_within_sound ms t (rw e at h))
]

pub any_within_complete :
    (ms : List (List ℕ)) (t : List ℕ) → AnyWithin ms t → any_within ms t ≡ true
unfolding any_within
any_within_complete [] t w = elim w [ ]
any_within_complete (m ∷ ms) t (inl (pre, post, p)) = rw (p, contains-append)
any_within_complete (m ∷ ms) t (inr w) = ground (arith, any_within_complete ms t w)

-- ===== src/Prelude/Text.antt =====
-- Texts: equality of identifiers, and the blank texts that `str.strip` empties.
use Prim.Native.Nat.{ℕ, zero, suc}
use Prim.Native.Char.{code}
use Prim.Native.String.{String, ◌++◌ as append, compare as compare_text}
use mathlib.Core.List.{List, [], ◌∷◌}
use mathlib.Core.Path.{◌≡◌, refl, ap}
use mathlib.Core.Logic.{◌≢◌}
use mathlib.Core.Bool.{Bool, true, false, ◌&&◌, ◌||◌}
use native.Mathlib.Omega.{arith}
use text.Mathlib.Text.{◌==◌ as str_eq, is_le}
use text.Mathlib.TextEquality.{eq_iff}
use dayjaview.Prelude.Tests.{leb, ◌==◌, if◌then◌else◌}

-- The kept equation of a Boolean test decides the equality that the test stands for.
decide_by {ℓ} :
    {A : Type ℓ} (a b : A) (t : Bool) → (t ≡ true → a ≡ b) → (a ≡ b → t ≡ true) → Dec (a ≡ b)
decide_by a b true sound complete = yes (sound refl)
decide_by a b false sound complete = no λ e. false_is_not_true (complete e)
  where
    false_is_not_true : false ≡ true → ⊥
    false_is_not_true e = ground arith

unfoldable pub String-discrete : Discrete String
unfolding decide_by
String-discrete s t = decide_by s t (str_eq s t) (eq_iff s t).0 (eq_iff s t).1

-- The characters that `str.strip` removes: those of `str.isspace`.
is_space : ℕ → Bool
is_space c =
    (leb 9 c && leb c 13)
    || (leb 28 c && leb c 32)
    || c == 133
    || c == 160
    || c == 5760
    || (leb 8192 c && leb c 8202)
    || c == 8232
    || c == 8233
    || c == 8239
    || c == 8287
    || c == 12288

-- `not value.strip()`
unfoldable pub is_blank : String → Bool
unfolding is_space
is_blank String.[] = true
is_blank (String.◌∷◌ c s) = is_space (code c) && is_blank s

is_blank-empty : is_blank "" ≡ true
unfolding is_blank
is_blank-empty = refl

-- A text that is not blank is not empty.
pub ne-empty_of_not_blank : (s : String) → is_blank s ≡ false → s ≢ ""
ne-empty_of_not_blank s h e = cc (ap is_blank e, is_blank-empty)

-- `s[:n]`
unfoldable pub take_text : ℕ → String → String
take_text zero s = ""
take_text (suc n) String.[] = ""
take_text (suc n) (String.◌∷◌ c s) = String.◌∷◌ c (take_text n s)

is_empty_text : String → Bool
is_empty_text String.[] = true
is_empty_text (String.◌∷◌ c s) = false

strip_right : String → String
unfolding is_space is_empty_text
strip_right String.[] = ""
strip_right (String.◌∷◌ c s) =
    let rest = strip_right s in
    if is_space (code c) && is_empty_text rest then "" else String.◌∷◌ c rest

strip_left : String → String
unfolding is_space
strip_left String.[] = ""
strip_left (String.◌∷◌ c s) =
    let rest = strip_left s in if is_space (code c) then rest else String.◌∷◌ c s

-- `s.strip()`
unfoldable pub strip : String → String
unfolding strip_left strip_right
strip s = strip_left (strip_right s)

-- The word that a text starts with, which may be empty, and the words after it.
words : String → String × List String
unfolding is_space is_empty_text
words String.[] = ("", [])
words (String.◌∷◌ c s) =
    let (w, ws) = words s in
    if is_space (code c) then ("", if is_empty_text w then ws else w ∷ ws) else (String.◌∷◌ c w, ws)

-- `" ".join(ws)`
join_words : List String → String
join_words [] = ""
join_words (w ∷ ws) =
    let rest = join_words ws in elim ws [ [] ↦ w | v ∷ vs ↦ append w (append " " rest) ]

-- `" ".join(s.split())`
unfoldable pub normal_spaces : String → String
unfolding words join_words is_empty_text
normal_spaces s =
    let (w, ws) = words s in if is_empty_text w then join_words ws else join_words (w ∷ ws)

-- The order of texts in Python, by code points: the first of two may stand first.
unfoldable pub text_first : String → String → Bool
text_first a b = is_le (compare_text a b)

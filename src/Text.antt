-- ===== src/Text.antt =====
-- Python strings as lists of code points, with the operations on them that the program calls, and
-- sets of strings as lists of which only the members count.
use Prim.Native.Char.{code}
use reportportal_analyzer_ng.Prelude.{
  leb, ◌==◌, if◌then◌else◌, any, all, ℕ, String, ◌≡◌, refl, Bool, true, false, ◌&&◌, ◌||◌, List, [],
  ◌∷◌, arith,
}

abbrev pub Text : Type 0
Text = List ℕ

abbrev pub codes : String → Text
codes String.[] = []
codes (String.◌∷◌ c s) = code c ∷ codes s

abbrev pub text_eq : Text → Text → Bool
text_eq [] [] = true
text_eq [] (y ∷ ys) = false
text_eq (x ∷ xs) [] = false
text_eq (x ∷ xs) (y ∷ ys) = let rest = text_eq xs ys in x == y && rest

abbrev pub member : Text → List Text → Bool
member t ts = any (text_eq t) ts

abbrev pub subset : List Text → List Text → Bool
subset xs ys = all (λ x. member x ys) xs

-- `set(xs) == set(ys)`
abbrev pub same_set : List Text → List Text → Bool
same_set xs ys = subset xs ys && subset ys xs

abbrev pub between : ℕ → ℕ → ℕ → Bool
between lo hi c = leb lo c && leb c hi

-- what `str.split()` and `str.strip()` take for white space
abbrev pub is_space : ℕ → Bool
is_space c =
    between 9 13 c
    || between 28 32 c
    || c == 0x85
    || c == 0xa0
    || c == 0x1680
    || between 0x2000 0x200a c
    || c == 0x2028
    || c == 0x2029
    || c == 0x202f
    || c == 0x205f
    || c == 0x3000

abbrev close_word : Text → List Text → List Text
close_word [] words = words
close_word (c ∷ w) words = (c ∷ w) ∷ words

-- the first word, which may be empty, and the words after it
split_from : Text → Text × List Text
split_from [] = ([], [])
split_from (c ∷ cs) =
    let (w, words) = split_from cs in
    if is_space c then ([], close_word w words) else (c ∷ w, words)

-- `str.split()`
unfoldable pub split : Text → List Text
unfolding split_from
split t = let (w, words) = split_from t in close_word w words

-- `s.rstrip(chars)`, and `s.rstrip()` with the test for white space
abbrev close : Bool → ℕ → Text → Text
close drops c [] = if drops then [] else c ∷ []
close drops c (d ∷ t) = c ∷ d ∷ t

unfoldable pub rstrip : (ℕ → Bool) → Text → Text
rstrip drops [] = []
rstrip drops (c ∷ t) = let rest = rstrip drops t in close (drops c) c rest

abbrev drop_while : (ℕ → Bool) → Text → Text
drop_while drops [] = []
drop_while drops (c ∷ t) = let rest = drop_while drops t in if drops c then rest else c ∷ t

-- `s.strip()`
unfoldable pub strip : Text → Text
unfolding rstrip
strip t = drop_while is_space (rstrip is_space t)

pub text_eq_sound : (s t : Text) → text_eq s t ≡ true → s ≡ t
text_eq_sound [] [] h = refl
text_eq_sound [] (y ∷ ys) h = cc
text_eq_sound (x ∷ xs) [] h = cc
text_eq_sound (x ∷ xs) (y ∷ ys) h = ground (arith, text_eq_sound xs ys)

pub text_eq_refl : (t : Text) → text_eq t t ≡ true
text_eq_refl [] = refl
text_eq_refl (x ∷ xs) = ground (arith, text_eq_refl xs)

split_example : split (codes " a  bc ") ≡ codes "a" ∷ codes "bc" ∷ []
unfolding split
split_example = refl

-- ===== src/Prelude/Text.antt =====
-- Go's strings. Every text that the program takes from JSON is valid UTF-8, so a text is the list
-- of its code points, and `byte_length` is Go's `len`. The functions of package strings that the
-- program calls are written out here.
use Prim.Native.Char.{code}
use pulse_data.Prelude.Tests.{ltb, leb, ◌==◌, if◌then◌else◌}
use Prim.Native.Nat.{ℕ, zero, suc, ◌+◌, ◌/◌, ◌%◌}
use Prim.Native.String.{String}
use mathlib.Core.Bool.{Bool, false, ◌&&◌, ◌||◌}
use mathlib.Core.List.{List, [], ◌∷◌, ◌++◌, reverse}
use mathlib.Core.Logic.{◌≢◌}
use mathlib.Core.Path.{◌≡◌, refl, sym, ap₂}
use native.Mathlib.Decide.{ℕ_discrete}

abbrev pub Text : Type 0
Text = List ℕ

pub heads_differ : (c d : ℕ) (s t : Text) → c ≢ d → (c ∷ s) ≢ (d ∷ t)
heads_differ c d s t h p = h (cc)

pub tails_differ : (c d : ℕ) (s t : Text) → s ≢ t → (c ∷ s) ≢ (d ∷ t)
tails_differ c d s t h p = h (cc)

pub nil_ne_cons : (c : ℕ) (s : Text) → ◌≢◌ {A = Text} [] (c ∷ s)
nil_ne_cons c s p = cc

decide_cons : (c d : ℕ) (s t : Text) → Dec (c ≡ d) → Dec (s ≡ t) → Dec ((c ∷ s) ≡ (d ∷ t))
decide_cons c d s t (yes p) (yes q) = yes (ap₂ ◌∷◌ p q)
decide_cons c d s t (yes p) (no q) = no (tails_differ c d s t q)
decide_cons c d s t (no p) q = no (heads_differ c d s t p)

unfoldable pub Text-discrete : Discrete Text
unfolding ℕ_discrete decide_cons
Text-discrete [] [] = yes refl
Text-discrete [] (d ∷ t) = no (nil_ne_cons d t)
Text-discrete (c ∷ s) [] = no (λ p. nil_ne_cons c s (sym p))
Text-discrete (c ∷ s) (d ∷ t) = decide_cons c d s t (ℕ_discrete c d) (Text-discrete s t)

-- A string literal.
abbrev pub codes : String → Text
codes String.[] = []
codes (String.◌∷◌ c s) = code c ∷ codes s

-- The bytes that a code point takes in UTF-8.
abbrev pub rune_length : ℕ → ℕ
rune_length c = if ltb c 0x80 then 1 else if ltb c 0x800 then 2 else if ltb c 0x10000 then 3 else 4

-- len(s)
abbrev pub byte_length : Text → ℕ
byte_length [] = 0
byte_length (c ∷ s) = rune_length c + byte_length s

-- The UTF-8 bytes of a code point, and []byte(s).
abbrev pub rune_bytes : ℕ → List ℕ
rune_bytes c =
    if ltb c 0x80
    then c ∷ []
    else if ltb c 0x800
    then (0xc0 + c / 64) ∷ (0x80 + c % 64) ∷ []
    else if ltb c 0x10000
    then (0xe0 + c / 4096) ∷ (0x80 + c / 64 % 64) ∷ (0x80 + c % 64) ∷ []
    else (0xf0 + c / 262144) ∷ (0x80 + c / 4096 % 64) ∷ (0x80 + c / 64 % 64) ∷ (0x80 + c % 64) ∷ []

unfoldable pub utf8 : Text → List ℕ
utf8 [] = []
utf8 (c ∷ s) = rune_bytes c ++ utf8 s

-- unicode.IsSpace
unfoldable pub is_space : ℕ → Bool
is_space c =
    (leb 0x09 c && leb c 0x0d)
    || c == 0x20
    || c == 0x85
    || c == 0xa0
    || c == 0x1680
    || (leb 0x2000 c && leb c 0x200a)
    || c == 0x2028
    || c == 0x2029
    || c == 0x202f
    || c == 0x205f
    || c == 0x3000

unfoldable pub trim_left : Text → Text
trim_left [] = []
trim_left (c ∷ s) = if is_space c then trim_left s else c ∷ s

-- strings.TrimSpace
unfoldable pub trim_space : Text → Text
unfolding trim_left is_space
trim_space s = reverse (trim_left (reverse (trim_left s)))

unfoldable pub has_rune : Text → ℕ → Bool
has_rune [] c = false
has_rune (d ∷ ds) c = c == d || has_rune ds c

-- strings.ContainsAny(s, chars)
unfoldable pub contains_any : Text → Text → Bool
unfolding has_rune
contains_any [] chars = false
contains_any (c ∷ s) chars = has_rune chars c || contains_any s chars

-- strconv.Itoa of a number that is not negative; the number of digits is at most the number.
unfoldable pub digits_from : ℕ → ℕ → Text → Text
digits_from zero n acc = acc
digits_from (suc fuel) n acc =
    let rest = digits_from fuel (n / 10) ((b'0' + n % 10) ∷ acc) in if n == 0 then acc else rest

unfoldable pub decimal : ℕ → Text
unfolding digits_from
decimal n = if n == 0 then codes "0" else digits_from n n []

-- strings.Trim(s, chars) for one character.
unfoldable pub drop_rune : ℕ → Text → Text
drop_rune c [] = []
drop_rune c (d ∷ s) = if d == c then drop_rune c s else d ∷ s

unfoldable pub trim_rune : ℕ → Text → Text
unfolding drop_rune
trim_rune c s = reverse (drop_rune c (reverse (drop_rune c s)))

-- One more character in front of the first part.
abbrev pub cons_first : ℕ → List Text → List Text
cons_first c [] = (c ∷ []) ∷ []
cons_first c (t ∷ ts) = (c ∷ t) ∷ ts

-- strings.Split(s, sep) for a separator of one character.
unfoldable pub split : ℕ → Text → List Text
split sep [] = [] ∷ []
split sep (c ∷ s) = let parts = split sep s in if c == sep then [] ∷ parts else cons_first c parts

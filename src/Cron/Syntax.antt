-- ===== src/Cron/Syntax.antt =====
-- What the cron parser uses of the packages strings and strconv. A string is the list of its code
-- points; an `int` is its 64-bit pattern.
use golang_journey.Prelude.{
  ℕ, ◌+◌, ◌-◌, ◌*◌, ◌%◌, ◌<◌, ◌≡◌, Bool, true, false, ◌&&◌, ◌||◌, List, [], ◌∷◌, ◌++◌, Option, none,
  some, ltb, leb, ◌==◌, if◌then◌else◌, arith,
}
use golang_journey.Prelude.Int64.{half, modulus}
use golang_journey.Prelude.Text.{Text}
use mathlib.Core.List.{reverse}

-- `unicode.IsSpace`
pub is_space : ℕ → Bool
is_space c =
    (leb 9 c && leb c 13)
    || c == 32
    || c == 0x85
    || c == 0xa0
    || c == 0x1680
    || (leb 0x2000 c && leb c 0x200a)
    || c == 0x2028
    || c == 0x2029
    || c == 0x202f
    || c == 0x205f
    || c == 0x3000

pub drop_spaces : Text → Text
drop_spaces [] = []
drop_spaces (c ∷ s) = let rest = drop_spaces s in if is_space c then rest else c ∷ s

-- `strings.TrimSpace`
unfoldable pub trim_space : Text → Text
unfolding drop_spaces is_space
trim_space s = reverse (drop_spaces (reverse (drop_spaces s)))

-- Puts a code point in front of the first piece.
abbrev pub extend_first : ℕ → List Text → List Text
extend_first c [] = (c ∷ []) ∷ []
extend_first c (p ∷ ps) = (c ∷ p) ∷ ps

-- `strings.Split` by one code point.
unfoldable pub split : ℕ → Text → List Text
split sep [] = [] ∷ []
split sep (c ∷ s) = let rest = split sep s in if c == sep then [] ∷ rest else extend_first c rest

-- A field that is not empty is put in front of the fields behind it.
abbrev pub flush : Text → List Text → List Text
flush [] rest = rest
flush (c ∷ cs) rest = (c ∷ cs) ∷ rest

-- `strings.Fields`: the pieces between runs of spaces; `field` is the piece being read.
fields_from : Text → Text → List Text
fields_from field [] = flush field []
fields_from field (c ∷ s) = elim (is_space c) [
  | true ↦ flush field (fields_from [] s)
  | false ↦ fields_from (field ++ c ∷ []) s
]

unfoldable pub fields : Text → List Text
unfolding fields_from is_space
fields s = fields_from [] s

-- `strings.Index(s, sep)` with the two parts around the position.
unfoldable pub cut : ℕ → Text → Option (Text × Text)
cut sep [] = none
cut sep (c ∷ s) =
    let rest = cut sep s in
    if c == sep
    then some ([], s)
    else elim rest [ none ↦ none | some (before, after) ↦ some (c ∷ before, after) ]

is_digit : ℕ → Bool
is_digit c = leb b'0' c && leb c b'9'

-- The value of a text of digits, read behind `n`.
digits_from : ℕ → Text → Option ℕ
unfolding is_digit
digits_from n [] = some n
digits_from n (c ∷ s) =
    let rest = digits_from (n * 10 + (c - b'0')) s in if is_digit c then rest else none

-- One digit at least.
unsigned : Text → Option ℕ
unfolding digits_from
unsigned [] = none
unsigned (c ∷ s) = digits_from 0 (c ∷ s)

-- A value is in range up to 2^63 - 1, and a negated one up to 2^63.
positive_int : Option ℕ → Option ℕ
positive_int none = none
positive_int (some n) = if ltb n half then some n else none

negative_int : Option ℕ → Option ℕ
negative_int none = none
negative_int (some n) = if leb n half then some ((modulus - n) % modulus) else none

-- `strconv.Atoi`; `none` is an error, of syntax or of range.
unfoldable pub atoi : Text → Option ℕ
unfolding unsigned positive_int negative_int
atoi [] = none
atoi (c ∷ s) =
    if c == b'-'
    then negative_int (unsigned s)
    else if c == b'+'
    then positive_int (unsigned s)
    else positive_int (unsigned (c ∷ s))

-- A number that is read is a 64-bit pattern.
positive_int-lt : (o : Option ℕ) (n : ℕ) → positive_int o ≡ some n → n < modulus
unfolding positive_int
positive_int-lt none n h = cc
positive_int-lt (some m) n h = ground arith

negative_int-lt : (o : Option ℕ) (n : ℕ) → negative_int o ≡ some n → n < modulus
unfolding negative_int
negative_int-lt none n h = cc
negative_int-lt (some m) n h = ground arith

pub atoi-lt : (s : Text) (n : ℕ) → atoi s ≡ some n → n < modulus
unfolding atoi
atoi-lt [] n h = cc
atoi-lt (c ∷ s) n h = ground (
  arith,
  negative_int-lt (unsigned s) n,
  positive_int-lt (unsigned s) n,
  positive_int-lt (unsigned (c ∷ s)) n,
)

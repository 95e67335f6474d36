-- ===== src/Sql/Lexer.antt =====
-- The lexer of projects/01-log-query-engine/engine/planner/sql.go. A lexer is the list of the runes
-- from `pos` on; `pos` never passes the end of the input.
pub mod Progress
pub mod Written
use golang_journey.Prelude.{ℕ, Bool, true, false, ◌&&◌, ◌||◌, List, [], ◌∷◌, ◌==◌, if◌then◌else◌}
use golang_journey.Prelude.Text.{Text, bytes}
use golang_journey.Sql.Syntax.{
  Unicode, Token, TokenKind, eof, ident, str, number, star, comma, l_paren, r_paren, op, semi,
}

-- `peek`
unfoldable pub peek : List ℕ → ℕ
peek [] = 0
peek (c ∷ cs) = c

-- `next`, behind the rune.
unfoldable pub advance_rune : List ℕ → List ℕ
advance_rune [] = []
advance_rune (c ∷ cs) = cs

abbrev pub token : TokenKind → Text → Token
token kind val = record { kind = kind; val = val }

-- The loop of a string literal, behind its quote: the value, and the runes behind the literal.
unfoldable pub scan_string : ℕ → List ℕ → Text × List ℕ
scan_string quote [] = ([], [])
scan_string quote (c ∷ []) = if c == quote then ([], []) else (c ∷ [], [])
scan_string quote (c ∷ d ∷ cs) =
    let escaped = scan_string quote cs in
    let plain = scan_string quote (d ∷ cs) in
    if c == quote
    then ([], d ∷ cs)
    else if c == b'\\'
    then (d ∷ escaped.0, escaped.1)
    else (c ∷ plain.0, plain.1)

-- A loop that takes runes while the test holds.
unfoldable pub scan_while : (ℕ → Bool) → List ℕ → Text × List ℕ
scan_while test [] = ([], [])
scan_while test (c ∷ cs) =
    let rest = scan_while test cs in if test c then (c ∷ rest.0, rest.1) else ([], c ∷ cs)

-- An operator that `=` may follow: `!`, `<` and `>`.
unfoldable pub with_equals : ℕ → List ℕ → Token × List ℕ
with_equals c cs =
    if peek cs == b'=' then (token op (c ∷ bytes "="), advance_rune cs) else (token op (c ∷ []), cs)

module _ (u : Unicode) where
  open u use {is_space, is_letter, is_digit}

  unfoldable pub in_number : ℕ → Bool
  in_number c = is_digit c || c == b'.'

  unfoldable pub in_ident : ℕ → Bool
  in_ident c = is_letter c || is_digit c || c == b'_' || c == b'-' || c == b'.'

  -- `ch == '-' && l.pos+1 < len(l.input) && unicode.IsDigit(l.input[l.pos+1])`
  unfoldable pub negates : ℕ → List ℕ → Bool
  negates c [] = false
  negates c (d ∷ cs) = c == b'-' && is_digit d

  -- The identifier, or else what the skipped rune is followed by.
  unfoldable pub ident_token : ℕ → List ℕ → Token × List ℕ → Token × List ℕ
  ident_token c cs skipped =
      if is_letter c || c == b'_'
      then (let word = scan_while in_ident (c ∷ cs) in (token ident word.0, word.1))
      else skipped

  -- The `switch`.
  unfoldable pub operator_token : ℕ → List ℕ → Token × List ℕ → Token × List ℕ
  operator_token c cs skipped =
      if c == b'*'
      then (token star (bytes "*"), cs)
      else if c == b','
      then (token comma (bytes ","), cs)
      else if c == b'('
      then (token l_paren (bytes "("), cs)
      else if c == b')'
      then (token r_paren (bytes ")"), cs)
      else if c == b';'
      then (token semi (bytes ";"), cs)
      else if c == b'!'
      then with_equals c cs
      else if c == b'<'
      then with_equals c cs
      else if c == b'>'
      then with_equals c cs
      else if c == b'='
      then (token op (bytes "="), cs)
      else ident_token c cs skipped

  -- The token at a rune that is no space; `skipped` is the token behind the rune.
  unfoldable pub token_at : ℕ → List ℕ → Token × List ℕ → Token × List ℕ
  token_at c cs skipped =
      if c == b'\'' || c == b'"'
      then (let literal = scan_string c cs in (token str literal.0, literal.1))
      else if is_digit c || negates c cs
      then (let digits = scan_while in_number cs in (token number (c ∷ digits.0), digits.1))
      else operator_token c cs skipped

  -- `NextToken`: a space is a round of `skipWS`, an unknown rune a call of its own.
  unfoldable pub next_token : List ℕ → Token × List ℕ
  next_token [] = (token eof [], [])
  next_token (c ∷ cs) = let rest = next_token cs in if is_space c then rest else token_at c cs rest

-- ===== src/Sql/Lexer/Written.antt =====
-- The lexer reads a token that is written with a space behind it.
use golang_journey.Prelude.{
  ℕ, ◌≤◌, ◌≡◌, inl, inr, refl, Bool, true, false, ◌||◌, List, [], ◌∷◌, ◌++◌, ◌==◌, arith,
  Bool-cases, All,
}
use golang_journey.Prelude.Text.{Text, bytes}
use golang_journey.Sql.Syntax.{Unicode, Token, eof, ident, str, star, comma, l_paren, r_paren}
use golang_journey.Sql.Lexer.{
  token, scan_string, scan_while, in_ident, negates, ident_token, operator_token, token_at,
  next_token,
}
use golang_journey.Sql.Printer.{escape, render_token}
use mathlib.Core.List.{append_assoc}

-- The runes that the lexer treats in a way of their own.
abbrev pub is_mark : ℕ → Bool
is_mark c =
    c == b'\''
    || c == b'"'
    || c == b'*'
    || c == b','
    || c == b'('
    || c == b')'
    || c == b';'
    || c == b'!'
    || c == b'<'
    || c == b'>'
    || c == b'='
    || c == b'-'
    || c == b'_'

-- What the lexer relies on of the package unicode.
pub record IsAscii (u : Unicode) : Type 0 where
  pub space : u.is_space b' ' ≡ true
  pub space_not_letter : u.is_letter b' ' ≡ false
  pub space_not_digit : u.is_digit b' ' ≡ false
  pub mark_not_space : (c : ℕ) → is_mark c ≡ true → u.is_space c ≡ false
  pub mark_not_digit : (c : ℕ) → is_mark c ≡ true → u.is_digit c ≡ false
  pub mark_not_letter : (c : ℕ) → is_mark c ≡ true → u.is_letter c ≡ false
  pub letter_not_space : (c : ℕ) → u.is_letter c ≡ true → u.is_space c ≡ false
  pub letter_not_digit : (c : ℕ) → u.is_letter c ≡ true → u.is_digit c ≡ false
  pub capital_letter : (c : ℕ) → b'A' ≤ c → c ≤ b'Z' → u.is_letter c ≡ true

scan_plain :
    (quote c : ℕ) (cs : Text)
    → (c == quote) ≡ false
    → (c == b'\\') ≡ false
    → scan_string quote (c ∷ cs) ≡ (c ∷ (scan_string quote cs).0, (scan_string quote cs).1)
unfolding scan_string
scan_plain quote c [] h g = rw (h)
scan_plain quote c (d ∷ cs) h g = rw (h, g)

scan_string-escape : (v cs : Text) → scan_string b'\'' (escape v ++ b'\'' ∷ cs) ≡ (v, cs)
unfolding scan_string escape
scan_string-escape [] [] = refl
scan_string-escape [] (c ∷ cs) = refl
scan_string-escape (c ∷ v) cs = elim (Bool-cases (c == b'\'' || c == b'\\')) [
  | inl e ↦ rw (e, scan_string-escape v cs)
  | inr e ↦ rw (
    e,
    scan_plain b'\'' c (escape v ++ b'\'' ∷ cs) (ground (arith, e)) (ground (arith, e)),
    scan_string-escape v cs,
  )
]

module _ (u : Unicode) (h : IsAscii u) where
  -- An identifier.
  abbrev pub IsName : Text → Type 0
  IsName [] = ⊥
  IsName (c ∷ cs) = ((u.is_letter c || c == b'_') ≡ true) × All (λ d. in_ident u d ≡ true) cs

  -- The tokens that the lexer can return, but for numbers and operators.
  pub data IsWritten (t : Token) : Type 0 where
    string_written : (v : Text) → t ≡ token str v → IsWritten t
    name_written : (v : Text) → t ≡ token ident v → IsName v → IsWritten t
    star_written : t ≡ token star (bytes "*") → IsWritten t
    comma_written : t ≡ token comma (bytes ",") → IsWritten t
    open_written : t ≡ token l_paren (bytes "(") → IsWritten t
    close_written : t ≡ token r_paren (bytes ")") → IsWritten t

  pub starts_in_ident : (c : ℕ) → (u.is_letter c || c == b'_') ≡ true → in_ident u c ≡ true
  unfolding in_ident
  starts_in_ident c e = ground arith

  scan_ident :
      (v cs : Text)
      → All (λ d. in_ident u d ≡ true) v
      → scan_while (in_ident u) (v ++ b' ' ∷ cs) ≡ (v, b' ' ∷ cs)
  unfolding scan_while in_ident
  scan_ident [] cs a = ground (arith, h.space_not_letter, h.space_not_digit)
  scan_ident (c ∷ v) cs a = rw (a.0, scan_ident v cs a.1)

  negates_other : (c : ℕ) (cs : Text) → (c == b'-') ≡ false → negates u c cs ≡ false
  unfolding negates
  negates_other c [] e = refl
  negates_other c (d ∷ cs) e = rw (e)

  star-token : (cs : Text) → next_token u (b'*' ∷ cs) ≡ (token star (bytes "*"), cs)
  unfolding next_token token_at operator_token
  star-token cs =
      rw (h.mark_not_space b'*' refl, h.mark_not_digit b'*' refl, negates_other b'*' cs refl)

  comma-token : (cs : Text) → next_token u (b',' ∷ cs) ≡ (token comma (bytes ","), cs)
  unfolding next_token token_at operator_token
  comma-token cs =
      rw (h.mark_not_space b',' refl, h.mark_not_digit b',' refl, negates_other b',' cs refl)

  open-token : (cs : Text) → next_token u (b'(' ∷ cs) ≡ (token l_paren (bytes "("), cs)
  unfolding next_token token_at operator_token
  open-token cs =
      rw (h.mark_not_space b'(' refl, h.mark_not_digit b'(' refl, negates_other b'(' cs refl)

  close-token : (cs : Text) → next_token u (b')' ∷ cs) ≡ (token r_paren (bytes ")"), cs)
  unfolding next_token token_at operator_token
  close-token cs =
      rw (h.mark_not_space b')' refl, h.mark_not_digit b')' refl, negates_other b')' cs refl)

  string-token : (v cs : Text) → next_token u (b'\'' ∷ (escape v ++ b'\'' ∷ cs)) ≡ (token str v, cs)
  unfolding next_token token_at
  string-token v cs = rw (h.mark_not_space b'\'' refl, scan_string-escape v cs)

  -- The first rune of an identifier is neither a space nor a digit, and of the marks only `_`.
  module _ (c : ℕ) (e : (u.is_letter c || c == b'_') ≡ true) where
    name_not_space : u.is_space c ≡ false
    name_not_space = elim (Bool-cases (u.is_letter c)) [
      | inl l ↦ h.letter_not_space c l
      | inr l ↦
          let underscore : c ≡ b'_' = ground (arith, e, l) in
          rw underscore (h.mark_not_space b'_' refl)
    ]

    name_not_digit : u.is_digit c ≡ false
    name_not_digit = elim (Bool-cases (u.is_letter c)) [
      | inl l ↦ h.letter_not_digit c l
      | inr l ↦
          let underscore : c ≡ b'_' = ground (arith, e, l) in
          rw underscore (h.mark_not_digit b'_' refl)
    ]

    not_rune : (m : ℕ) → u.is_letter m ≡ false → (m == b'_') ≡ false → (c == m) ≡ false
    not_rune m l n = ground (arith, e, l, n)

    not_mark : (m : ℕ) → is_mark m ≡ true → (m == b'_') ≡ false → (c == m) ≡ false
    not_mark m k n = not_rune m (h.mark_not_letter m k) n

    ident_token_at :
        (cs : Text) (skipped : Token × List ℕ)
        → token_at u c cs skipped ≡ ident_token u c cs skipped
    unfolding token_at operator_token
    ident_token_at cs skipped = rw (
      not_mark b'\'' refl refl,
      not_mark b'"' refl refl,
      name_not_digit,
      negates_other c cs (not_mark b'-' refl refl),
      not_mark b'*' refl refl,
      not_mark b',' refl refl,
      not_mark b'(' refl refl,
      not_mark b')' refl refl,
      not_mark b';' refl refl,
      not_mark b'!' refl refl,
      not_mark b'<' refl refl,
      not_mark b'>' refl refl,
      not_mark b'=' refl refl,
    )

  name-token :
      (c : ℕ) (v cs : Text)
      → IsName (c ∷ v)
      → next_token u (c ∷ (v ++ b' ' ∷ cs)) ≡ (token ident (c ∷ v), b' ' ∷ cs)
  unfolding next_token ident_token
  name-token c v cs n = rw (
    name_not_space c n.0,
    ident_token_at c n.0 (v ++ b' ' ∷ cs) (next_token u (v ++ b' ' ∷ cs)),
    n.0,
    scan_ident (c ∷ v) cs (starts_in_ident c n.0, n.1),
  )

  pub space-token : (cs : Text) → next_token u (b' ' ∷ cs) ≡ next_token u cs
  unfolding next_token
  space-token cs = rw (h.space)

  -- A written token is read back, and the space behind it is left.
  pub next_token-render_token :
      (t : Token) (cs : Text) → IsWritten t → next_token u (render_token t ++ cs) ≡ (t, b' ' ∷ cs)
  unfolding render_token
  next_token-render_token t cs (string_written v e) =
      rw (e, append_assoc (escape v) (b'\'' ∷ b' ' ∷ []) cs) (string-token v (b' ' ∷ cs))
  next_token-render_token t cs (name_written [] e n) = absurd n
  next_token-render_token t cs (name_written (c ∷ v) e n) =
      rw (e, append_assoc v (b' ' ∷ []) cs) (name-token c v cs n)
  next_token-render_token t cs (star_written e) = rw (e) (star-token (b' ' ∷ cs))
  next_token-render_token t cs (comma_written e) = rw (e) (comma-token (b' ' ∷ cs))
  next_token-render_token t cs (open_written e) = rw (e) (open-token (b' ' ∷ cs))
  next_token-render_token t cs (close_written e) = rw (e) (close-token (b' ' ∷ cs))

  pub next_token_end : next_token u [] ≡ (token eof [], [])
  unfolding next_token
  next_token_end = refl

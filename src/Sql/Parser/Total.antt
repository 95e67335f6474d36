-- ===== src/Sql/Parser/Total.antt =====
-- `ParseExpr` returns for every input.
use golang_journey.Prelude.{
  ℕ, zero, suc, ◌≤◌, ◌<◌, ◌≡◌, inl, inr, refl, true, false, if◌then◌else◌, length, arith,
  Bool-cases, ap,
}
use golang_journey.Prelude.Text.{Text, bytes}
use golang_journey.Sql.Syntax.{
  Unicode, Expr, Exprs, no_exprs, append_expr, binary_expr, TokenKind, eof, ident, str, number,
  star, comma, l_paren, r_paren, op, semi,
}
use golang_journey.Sql.Lexer.{next_token}
use golang_journey.Sql.Lexer.Progress.{next_token-Progresses}
use golang_journey.Sql.Parser.{
  Parser, Parsed, ok, err, out_of_fuel, and_then, is_kind, advance, new_parser, expect, keyword,
  skip_keyword, parse_args, parse_func_call, primary_of, parse_primary, parse_comparison, parse_not,
  parse_and, parse_or_rest, parse_or, parse_expr,
}

-- The runes that are left, and one for the current token; nothing at the end of the input.
abbrev pub size : Parser → ℕ
size p = if is_kind p.current.kind eof then 0 else suc (length p.lex)

-- An error, or a result behind which less than `n` is left.
abbrev pub Shrinks {ℓ} : {A : Type ℓ} → ℕ → Parsed A → Type 0
Shrinks n (ok a p) = size p < n
Shrinks n (err e p) = Unit
Shrinks n out_of_fuel = ⊥

Shrinks-mono : {A : Type 0} {m n : ℕ} (r : Parsed A) → m ≤ n → Shrinks m r → Shrinks n r
Shrinks-mono (ok a p) h s = omega arith
Shrinks-mono (err e p) h s = tt
Shrinks-mono out_of_fuel h s = s

and_then-Shrinks :
    {A B : Type 0} (m n : ℕ) (r : Parsed A) (k : A → Parser → Parsed B)
    → Shrinks m r
    → ((a : A) (p : Parser) → size p < m → Shrinks n (k a p))
    → Shrinks n (and_then r k)
and_then-Shrinks m n (ok a p) k s f = f a p s
and_then-Shrinks m n (err e p) k s f = tt
and_then-Shrinks m n out_of_fuel k s f = s

-- The inner call of `ParseExpr`, on a parser with less than `n` left.
abbrev Good : ℕ → (Parser → Parsed Expr) → Type 0
Good n expr = (p : Parser) → size p < n → Shrinks (size p) (expr p)

is_eof : (k : TokenKind) → k ≡ eof → is_kind k eof ≡ true
is_eof k e = rw (e)

other_kind : (k j : TokenKind) → is_kind k j ≡ true → is_kind j eof ≡ false → is_kind k eof ≡ false
other_kind eof eof h g = g
other_kind eof ident h g = cc
other_kind eof str h g = cc
other_kind eof number h g = cc
other_kind eof star h g = cc
other_kind eof comma h g = cc
other_kind eof l_paren h g = cc
other_kind eof r_paren h g = cc
other_kind eof op h g = cc
other_kind eof semi h g = cc
other_kind _ j h g = refl

module _ (u : Unicode) where
  advance-size : (p : Parser) → is_kind p.current.kind eof ≡ false → size (advance u p) < size p
  unfolding advance
  advance-size p h = elim (next_token-Progresses u p.lex) [
    | inl e ↦ ground (arith, h, is_eof (next_token u p.lex).0.kind e)
    | inr l ↦ ground (arith, h, l)
  ]

  expect-Shrinks :
      (kind : TokenKind) (p : Parser)
      → is_kind kind eof ≡ false
      → Shrinks (size p) (expect u kind p)
  unfolding expect
  expect-Shrinks kind p h = elim (Bool-cases (is_kind p.current.kind kind)) [
    | inl e ↦ rw (e) (advance-size p (other_kind p.current.kind kind e h))
    | inr e ↦ rw (e) tt
  ]

  skip_keyword-size :
      (kw : Text) (p : Parser)
      → (skip_keyword u kw p).1 ≡ true
      → size (skip_keyword u kw p).0 < size p
  unfolding skip_keyword keyword
  skip_keyword-size kw p h = elim (Bool-cases (is_kind p.current.kind ident)) [
    | inl e ↦ ground (arith, e, h, advance-size p (other_kind p.current.kind ident e refl))
    | inr e ↦ absurd (ground (arith, e, h))
  ]

  skip_keyword_same :
      (kw : Text) (p : Parser) → (skip_keyword u kw p).1 ≡ false → (skip_keyword u kw p).0 ≡ p
  unfolding skip_keyword
  skip_keyword_same kw p h = ground (arith, h)

  parse_args-Shrinks :
      {n : ℕ} (fuel : ℕ) (expr : Parser → Parsed Expr) (args : Exprs) (p : Parser)
      → Good n expr
      → size p < fuel
      → size p < n
      → Shrinks (size p) (parse_args u fuel expr args p)
  unfolding parse_args
  parse_args-Shrinks zero expr args p g f h = absurd (omega arith)
  parse_args-Shrinks (suc fuel) expr args p g f h =
      and_then-Shrinks (size p) (size p) (expr p) _ (g p h) λ arg q s.
        elim (Bool-cases (is_kind q.current.kind r_paren)) [
          | inl e ↦
              rw (e) (omega (arith, advance-size q (other_kind q.current.kind r_paren e refl)))
          | inr e ↦ rw (e) (
              and_then-Shrinks (size q) (size p) (expect u comma q) _ (expect-Shrinks comma q refl)
                λ t r s'.
                  Shrinks-mono (parse_args u fuel expr (append_expr args arg) r) (omega arith) (
                    parse_args-Shrinks fuel expr (append_expr args arg) r g (omega arith)
                      (omega arith)))
        ]

  -- Behind the name of a call, whose next token is the opening parenthesis.
  parse_func_call-Shrinks :
      {n : ℕ} (fuel : ℕ) (expr : Parser → Parsed Expr) (name : Text) (p : Parser)
      → is_kind p.current.kind eof ≡ false
      → Good n expr
      → size p ≤ fuel
      → size p < n
      → Shrinks (size p) (parse_func_call u fuel expr name p)
  unfolding parse_func_call
  parse_func_call-Shrinks fuel expr name p open_paren g f h =
      let q = advance u p in
      let behind = advance-size p open_paren in
      elim (Bool-cases (is_kind q.current.kind r_paren)) [
        | inl e ↦
            rw (e)
              (omega (arith, behind, advance-size q (other_kind q.current.kind r_paren e refl)))
        | inr e ↦ elim (Bool-cases (is_kind q.current.kind star)) [
          | inl s ↦
              let r = advance u q in
              let further = advance-size q (other_kind q.current.kind star s refl) in
              rw (e, s)
                (and_then-Shrinks (size r) (size p) (expect u r_paren r) _
                  (expect-Shrinks r_paren r refl) λ t r' l. omega (arith, behind, further))
          | inr s ↦
              rw (e, s)
                (and_then-Shrinks (size q) (size p) (parse_args u fuel expr no_exprs q) _
                  (parse_args-Shrinks fuel expr no_exprs q g (omega (arith, behind))
                    (omega (arith, behind)))
                  λ args r l. omega (arith, behind))
        ]
      ]

  primary_of-Shrinks :
      {n : ℕ} (fuel : ℕ) (expr : Parser → Parsed Expr) (p : Parser) (k : TokenKind)
      → p.current.kind ≡ k
      → Good n expr
      → size p ≤ fuel
      → size p ≤ n
      → Shrinks (size p) (primary_of u k fuel expr p)
  unfolding primary_of
  primary_of-Shrinks fuel expr p l_paren e g f h =
      let q = advance u p in
      let behind = advance-size p (ap (λ k. is_kind k eof) e) in
      and_then-Shrinks (size q) (size p) (expr q) _ (g q (omega (arith, behind))) λ x r l.
        and_then-Shrinks (size r) (size p) (expect u r_paren r) _ (expect-Shrinks r_paren r refl)
          λ t r' l'. omega (arith, behind)
  primary_of-Shrinks fuel expr p str e g f h = advance-size p (ap (λ k. is_kind k eof) e)
  primary_of-Shrinks fuel expr p number e g f h = advance-size p (ap (λ k. is_kind k eof) e)
  primary_of-Shrinks fuel expr p ident e g f h =
      let q = advance u p in
      let behind = advance-size p (ap (λ k. is_kind k eof) e) in
      elim (Bool-cases (is_kind q.current.kind l_paren)) [
        | inl o ↦ rw (o) (
            Shrinks-mono (parse_func_call u fuel expr p.current.val q) (omega (arith, behind)) (
              parse_func_call-Shrinks fuel expr p.current.val q
                (other_kind q.current.kind l_paren o refl) g (omega (arith, behind))
                (omega (arith, behind))))
        | inr o ↦ rw (o) behind
      ]
  primary_of-Shrinks fuel expr p star e g f h = advance-size p (ap (λ k. is_kind k eof) e)
  primary_of-Shrinks fuel expr p _ e g f h = tt

  parse_and-Shrinks :
      {n : ℕ} (fuel : ℕ) (expr : Parser → Parsed Expr) (p : Parser)
      → Good n expr
      → size p ≤ fuel
      → size p ≤ n
      → Shrinks (size p) (parse_and u fuel expr p)
  unfolding parse_and parse_not parse_comparison parse_primary
  parse_and-Shrinks fuel expr p g f h =
      let q = (skip_keyword u (bytes "NOT") p).0 in
      elim (Bool-cases (skip_keyword u (bytes "NOT") p).1) [
        | inl e ↦
            let behind = skip_keyword-size (bytes "NOT") p e in
            rw (e) (
              and_then-Shrinks (size q) (size p) (primary_of u q.current.kind fuel expr q) _
                (primary_of-Shrinks fuel expr q q.current.kind refl g (omega (arith, behind))
                  (omega (arith, behind)))
                λ x r l. omega (arith, behind))
        | inr e ↦
            rw (e, skip_keyword_same (bytes "NOT") p e)
              (primary_of-Shrinks fuel expr p p.current.kind refl g f h)
      ]

  -- The loop may find nothing behind what `parseAnd` has read.
  parse_or_rest-Shrinks :
      {n : ℕ} (rounds fuel : ℕ) (expr : Parser → Parsed Expr) (left : Expr) (p : Parser)
      → Good n expr
      → size p < rounds
      → size p ≤ fuel
      → size p ≤ n
      → Shrinks (suc (size p)) (parse_or_rest u rounds fuel expr left p)
  unfolding parse_or_rest
  parse_or_rest-Shrinks zero fuel expr left p g r f h = absurd (omega arith)
  parse_or_rest-Shrinks (suc rounds) fuel expr left p g r f h =
      let q = (skip_keyword u (bytes "OR") p).0 in
      elim (Bool-cases (skip_keyword u (bytes "OR") p).1) [
        | inl e ↦
            let behind = skip_keyword-size (bytes "OR") p e in
            rw (e) (
              and_then-Shrinks (size q) (suc (size p)) (parse_and u fuel expr q) _
                (parse_and-Shrinks fuel expr q g (omega (arith, behind)) (omega (arith, behind)))
                λ right s l.
                  let left' = binary_expr left (bytes "OR") right in
                  Shrinks-mono (parse_or_rest u rounds fuel expr left' s) (omega (arith, behind)) (
                    parse_or_rest-Shrinks rounds fuel expr left' s g (omega (arith, behind))
                      (omega (arith, behind)) (omega (arith, behind))))
        | inr e ↦ rw (e, skip_keyword_same (bytes "OR") p e) (omega arith)
      ]

  parse_expr-Shrinks :
      (fuel : ℕ) (p : Parser) → size p < fuel → Shrinks (size p) (parse_expr u fuel p)
  unfolding parse_expr parse_or
  parse_expr-Shrinks zero p h = absurd (omega arith)
  parse_expr-Shrinks (suc fuel) p h =
      let inner : Good fuel (parse_expr u fuel) = λ q l. parse_expr-Shrinks fuel q l in
      and_then-Shrinks (size p) (size p) (parse_and u (suc fuel) (parse_expr u fuel) p) _
        (parse_and-Shrinks (suc fuel) (parse_expr u fuel) p inner (omega arith) (omega arith))
        λ left q l.
          Shrinks-mono (parse_or_rest u (suc fuel) (suc fuel) (parse_expr u fuel) left q)
            (omega arith)
            (parse_or_rest-Shrinks (suc fuel) (suc fuel) (parse_expr u fuel) left q inner
              (omega arith) (omega arith) (omega arith))

  new_parser-size : (sql : Text) → size (new_parser u sql) ≤ length sql
  unfolding new_parser advance
  new_parser-size sql = elim (next_token-Progresses u sql) [
    | inl e ↦ ground (arith, is_eof (next_token u sql).0.kind e)
    | inr l ↦ ground (arith, l)
  ]

  -- On every text, given more fuel than it has runes, ParseExpr returns: an error, or an
  -- expression behind which less of the text is left than before it.
  pub parse_expr-total :
      (sql : Text) (fuel : ℕ)
      → length sql < fuel
      → Shrinks (size (new_parser u sql)) (parse_expr u fuel (new_parser u sql))
  parse_expr-total sql fuel h =
      parse_expr-Shrinks fuel (new_parser u sql) (omega (arith, new_parser-size sql))

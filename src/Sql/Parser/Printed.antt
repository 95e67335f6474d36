-- ===== src/Sql/Parser/Printed.antt =====
-- The parser reads back the text of an expression.
use golang_journey.Prelude.{
  ℕ, zero, suc, ◌≤◌, ◌<◌, ◌||◌, ◌==◌, ◌≡◌, refl, ap, ◌∙◌, true, false, List, [], ◌∷◌, ◌++◌, length,
  All, All-append, arith,
}
use golang_journey.Prelude.Text.{Text, bytes}
use golang_journey.Sql.Syntax.{
  Unicode, Expr, Exprs, column_ref, literal, binary_expr, func_call_expr, unary_expr, no_exprs,
  more_exprs, Token, eof, ident, l_paren,
}
use golang_journey.Sql.Lexer.{token, next_token, in_ident}
use golang_journey.Sql.Lexer.Written.{
  IsAscii, IsName, starts_in_ident, IsWritten, string_written, name_written, star_written,
  comma_written, open_written, close_written, next_token-render_token, next_token_end, space-token,
}
use golang_journey.Sql.Parser.{Parser, ok, is_kind, advance, new_parser, keyword, parse_expr}
use golang_journey.Sql.Parser.Levels.{behind, Shows}
use golang_journey.Sql.Parser.RoundTrip.{parse_expr-tokens}
use golang_journey.Sql.Printer.{
  in_parens, close_paren, ArePrintable, tokens, tokens_args, tokens_rest, IsPrintable, render,
}

module _ (u : Unicode) (h : IsAscii u) where
  -- A parser in front of the written tokens.
  abbrev Before : List Token → Parser → Type 0
  Before ts p = next_token u p.lex ≡ next_token u (render ts)

  advance_written :
      (t : Token) (ts : List Token) (p : Parser)
      → IsWritten u h t
      → Before (t ∷ ts) p
      → ((advance u p).current ≡ t) × Before ts (advance u p)
  unfolding advance render
  advance_written t ts p w b =
      let e : next_token u p.lex ≡ (t, b' ' ∷ render ts) =
        b ∙ next_token-render_token u h t (render ts) w in
      (ap (λ n. n.0) e, ap (λ n. next_token u n.1) e ∙ space-token u h (render ts))

  advance_end : (p : Parser) → Before [] p → (advance u p).current ≡ token eof []
  unfolding advance render
  advance_end p b = ap (λ n. n.0) (b ∙ next_token_end u h)

  Shows-written :
      (ts : List Token) (p : Parser)
      → All (IsWritten u h) ts
      → Before ts p
      → Shows u (advance u p) ts
  Shows-written [] p a b = tt
  Shows-written (t ∷ ts) p a b =
      let step = advance_written t ts p a.0 b in (step.0, Shows-written ts (advance u p) a.1 step.1)

  ends_written :
      (ts : List Token) (p : Parser)
      → All (IsWritten u h) ts
      → Before ts p
      → (behind u (length ts) (advance u p)).current ≡ token eof []
  ends_written [] p a b = advance_end p b
  ends_written (t ∷ ts) p a b = ends_written ts (advance u p) a.1 (advance_written t ts p a.0 b).1

  abbrev mutual
    -- Every name in the expression is an identifier.
    pub IsNamed : Expr → Type 0
    IsNamed (column_ref name) = IsName u h name
    IsNamed (literal value) = Unit
    IsNamed (binary_expr left op right) = IsNamed left × IsNamed right
    IsNamed (func_call_expr name args star) = IsName u h name × AreNamed args
    IsNamed (unary_expr op expr) = IsNamed expr

    pub AreNamed : Exprs → Type 0
    AreNamed no_exprs = Unit
    AreNamed (more_exprs e es) = IsNamed e × AreNamed es

  capital-in_ident : (c : ℕ) → b'A' ≤ c → c ≤ b'Z' → in_ident u c ≡ true
  capital-in_ident c l m = starts_in_ident u h c (rw (h.capital_letter c l m))

  capital : (c : ℕ) → b'A' ≤ c → c ≤ b'Z' → (u.is_letter c || c == b'_') ≡ true
  capital c l m = rw (h.capital_letter c l m)

  or_IsWritten : IsWritten u h (token ident (bytes "OR"))
  or_IsWritten = name_written (bytes "OR") refl (
    capital b'O' (omega arith) (omega arith),
    (capital-in_ident b'R' (omega arith) (omega arith), tt),
  )

  not_IsWritten : IsWritten u h (token ident (bytes "NOT"))
  not_IsWritten = name_written (bytes "NOT") refl (
    capital b'N' (omega arith) (omega arith),
    (
      capital-in_ident b'O' (omega arith) (omega arith),
      (capital-in_ident b'T' (omega arith) (omega arith), tt),
    ),
  )

  in_parens-IsWritten :
      (ts : List Token) → All (IsWritten u h) ts → All (IsWritten u h) (in_parens ts)
  in_parens-IsWritten ts a = (
    open_written refl,
    All-append (IsWritten u h) ts (close_paren ∷ []) a (close_written refl, tt),
  )

  binary-IsWritten :
      (left : Expr) (op : Text) (right : Expr)
      → op ≡ bytes "OR"
      → All (IsWritten u h) (tokens 0 left)
      → All (IsWritten u h) (tokens 1 right)
      → All (IsWritten u h) (tokens 0 left ++ (token ident op ∷ tokens 1 right))
  binary-IsWritten left op right e a b =
      All-append (IsWritten u h) (tokens 0 left) (token ident op ∷ tokens 1 right) a
        (rw (e) or_IsWritten, b)

  unary-IsWritten :
      (op : Text) (e : Expr)
      → op ≡ bytes "NOT"
      → All (IsWritten u h) (tokens 2 e)
      → All (IsWritten u h) (token ident op ∷ tokens 2 e)
  unary-IsWritten op e q a = (rw (q) not_IsWritten, a)

  mutual
    tokens-IsWritten :
        (k : ℕ) (e : Expr) → IsPrintable u e → IsNamed e → All (IsWritten u h) (tokens k e)
    tokens-IsWritten k (column_ref name) p n = (name_written name refl n, tt)
    tokens-IsWritten k (literal value) p n = (string_written value refl, tt)
    tokens-IsWritten zero (binary_expr left op right) p n =
        binary-IsWritten left op right p.0 (tokens-IsWritten 0 left p.1 n.0)
          (tokens-IsWritten 1 right p.2 n.1)
    tokens-IsWritten (suc k) (binary_expr left op right) p n =
        in_parens-IsWritten (tokens 0 left ++ (token ident op ∷ tokens 1 right)) (
          binary-IsWritten left op right p.0 (tokens-IsWritten 0 left p.1 n.0)
            (tokens-IsWritten 1 right p.2 n.1))
    tokens-IsWritten k (func_call_expr name args true) p n = (
      name_written name refl n.0,
      (open_written refl, (star_written refl, (close_written refl, tt))),
    )
    tokens-IsWritten k (func_call_expr name args false) p n =
        (name_written name refl n.0, (open_written refl, args-IsWritten args p.2 n.1))
    tokens-IsWritten zero (unary_expr op e) p n =
        unary-IsWritten op e p.0 (tokens-IsWritten 2 e p.1 n)
    tokens-IsWritten (suc zero) (unary_expr op e) p n =
        unary-IsWritten op e p.0 (tokens-IsWritten 2 e p.1 n)
    tokens-IsWritten (suc (suc k)) (unary_expr op e) p n =
        in_parens-IsWritten (token ident op ∷ tokens 2 e)
          (unary-IsWritten op e p.0 (tokens-IsWritten 2 e p.1 n))

    args-IsWritten :
        (es : Exprs) → ArePrintable u es → AreNamed es → All (IsWritten u h) (tokens_args es)
    args-IsWritten no_exprs p n = (close_written refl, tt)
    args-IsWritten (more_exprs e es) p n =
        All-append (IsWritten u h) (tokens 0 e) (tokens_rest es) (tokens-IsWritten 0 e p.0 n.0)
          (rest-IsWritten es p.1 n.1)

    rest-IsWritten :
        (es : Exprs) → ArePrintable u es → AreNamed es → All (IsWritten u h) (tokens_rest es)
    rest-IsWritten no_exprs p n = (close_written refl, tt)
    rest-IsWritten (more_exprs e es) p n = (
      comma_written refl,
      All-append (IsWritten u h) (tokens 0 e) (tokens_rest es) (tokens-IsWritten 0 e p.0 n.0)
          (rest-IsWritten es p.1 n.1),
    )

  -- With a package unicode that tells spaces, letters, digits and the marks of ASCII apart, and
  -- a reflexive EqualFold, ParseExpr reads the written text of an expression back to that
  -- expression, up to the end of the text, given more fuel than the text has tokens: an
  -- expression of names, strings, calls, OR and NOT, whose names are identifiers other than
  -- NOT, whose functions are in upper case and whose starred calls have no arguments, written
  -- with as few parentheses as the grammar allows.
  pub parse_expr-render :
      ((s : Text) → u.equal_fold s s ≡ true)
      → (e : Expr) (fuel : ℕ) → IsPrintable u e
      → IsNamed e
      → length (tokens 0 e) < fuel
      → (q : Parser) × (parse_expr u fuel (new_parser u (render (tokens 0 e))) ≡ ok e q)
        × (q.current ≡ token eof [])
  unfolding new_parser keyword
  parse_expr-render fold_refl e fuel p n l =
      let ts = tokens 0 e in
      let start : Parser = record { lex = render ts; current = token eof [] } in
      let written = tokens-IsWritten 0 e p n in
      let q = behind u (length ts) (advance u start) in
      let ends = ends_written ts start written refl in
      (
        q,
        parse_expr-tokens u fold_refl e fuel (advance u start) p l
            (Shows-written ts start written refl) (ap (λ t. is_kind t.kind l_paren) ends)
            (ground (arith, ends)),
        ends,
      )

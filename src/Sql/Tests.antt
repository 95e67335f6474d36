-- ===== src/Sql/Tests.antt =====
-- The parser over ASCII, and the theorems there.
use golang_journey.Prelude.{
  ℕ, ◌-◌, ◌≡◌, refl, true, false, ◌||◌, ◌&&◌, [], ◌==◌, leb, if◌then◌else◌, map, ite, if_pos, arith,
  ℕ_discrete,
}
use golang_journey.Prelude.Text.{Text, Text-discrete, bytes}
use golang_journey.Sql.Syntax.{
  Unicode, Expr, column_ref, literal, binary_expr, func_call_expr, unary_expr, no_exprs, more_exprs,
  eof, op,
}
use golang_journey.Sql.Lexer.{
  token, peek, advance_rune, scan_string, scan_while, with_equals, in_number, in_ident, negates,
  ident_token, operator_token, token_at, next_token,
}
use golang_journey.Sql.Lexer.Written.{IsAscii}
use golang_journey.Sql.Parser.{
  Parser, Parsed, ok, advance, new_parser, expect, keyword, skip_keyword, parse_args,
  parse_func_call, primary_of, parse_primary, parse_comparison, parse_not, parse_and, parse_or_rest,
  parse_or, parse_expr, parse_select,
}
use golang_journey.Sql.Parser.Printed.{parse_expr-render}
use golang_journey.Sql.Parser.Total.{size, Shrinks, parse_expr-total}
use golang_journey.Sql.Printer.{tokens, escape, render_token, render}

program : Unit {0}
unfolding Text-discrete ℕ_discrete render render_token escape peek advance_rune scan_string
    scan_while with_equals in_number in_ident negates ident_token operator_token token_at next_token
    advance new_parser expect keyword skip_keyword parse_args parse_func_call primary_of
    parse_primary parse_comparison parse_not parse_and parse_or_rest parse_or parse_expr
    parse_select
program = tt

abbrev upper : ℕ → ℕ
upper c = if leb b'a' c && leb c b'z' then c - 32 else c

abbrev ascii : Unicode
ascii = record {
  is_space = λ c. c == b' ' || (leb 9 c && leb c 13);
  is_letter = λ c. (leb b'A' c && leb c b'Z') || (leb b'a' c && leb c b'z');
  is_digit = λ c. leb b'0' c && leb c b'9';
  equal_fold = λ s t. ite (Text-discrete (map upper s) (map upper t)) true false;
  to_upper = λ s. map upper s;
}

ascii-fold_refl : (s : Text) → ascii.equal_fold s s ≡ true
ascii-fold_refl s = if_pos (Text-discrete (map upper s) (map upper s)) refl _ _

ascii-IsAscii : IsAscii ascii
ascii-IsAscii = record {
  space = refl;
  space_not_letter = refl;
  space_not_digit = refl;
  mark_not_space = λ c h. ground arith;
  mark_not_digit = λ c h. ground arith;
  mark_not_letter = λ c h. ground arith;
  letter_not_space = λ c h. ground arith;
  letter_not_digit = λ c h. ground arith;
  capital_letter = λ c l m. ground arith;
}

-- COUNT(level, 'it\'s') OR NOT (a OR b)
abbrev query : Expr
query =
    binary_expr
      (func_call_expr (bytes "COUNT")
        (more_exprs (column_ref (bytes "level")) (more_exprs (literal (bytes "it's")) no_exprs))
        false)
      (bytes "OR")
      (unary_expr (bytes "NOT")
        (binary_expr (column_ref (bytes "a")) (bytes "OR") (column_ref (bytes "b"))))

parse_expr-total_example :
    Shrinks
      (size (new_parser ascii (bytes "((")))
      (parse_expr ascii 3 (new_parser ascii (bytes "((")))
parse_expr-total_example = parse_expr-total ascii (bytes "((") 3 (omega arith)

parse_expr-render_example :
    (q : Parser) × (parse_expr ascii 20 (new_parser ascii (render (tokens 0 query))) ≡ ok query q)
    × (q.current ≡ token eof [])
unfolding program
parse_expr-render_example =
    parse_expr-render ascii ascii-IsAscii ascii-fold_refl query 20
      (refl, (refl, refl, (refl, (tt, tt))), (refl, (refl, refl, refl)))
      (
        (
          (refl, (refl, (refl, (refl, (refl, tt))))),
          ((refl, (refl, (refl, (refl, (refl, tt))))), (tt, tt)),
        ),
        ((refl, tt), (refl, tt)),
      )
      (omega arith)

query_text : render (tokens 0 query) ≡ bytes "COUNT ( level , 'it\\'s' ) OR NOT ( a OR b ) "
unfolding program
query_text = refl

-- A comparison is not read: the name is the whole expression, and `=` is left.
abbrev status : Parsed Expr
status = parse_expr ascii 20 (new_parser ascii (bytes "status = 500"))

status_left :
    status
    ≡ ok
        (column_ref (bytes "status"))
        (record { lex = bytes " 500"; current = token op (bytes "=") })
unfolding program
status_left = refl

-- ===== src/Sql/Parser.antt =====
-- The parser of projects/01-log-query-engine/engine/planner/sql.go. `ParseExpr` takes fuel for the
-- depth of the recursion and for the rounds of its loops; Parser/Total shows how much is enough.
pub mod Total
pub mod Levels
pub mod Args
pub mod RoundTrip
pub mod Printed
use golang_journey.Prelude.{
  ℕ, zero, suc, Bool, true, false, List, [], ◌∷◌, Option, none, some, if◌then◌else◌,
}
use golang_journey.Prelude.Text.{Text, bytes}
use golang_journey.Sql.Syntax.{
  Unicode, Expr, Exprs, column_ref, literal, binary_expr, func_call_expr, unary_expr, no_exprs,
  append_expr, SelectStmt, Token, TokenKind, eof, ident, str, number, star, comma, l_paren, r_paren,
  op, semi, SqlError, expected_kind, expected_select, unexpected_token, not_implemented,
}
use golang_journey.Sql.Lexer.{token, next_token}

-- The field `peeked` is never used.
pub record Parser : Type 0 where
  pub lex : List ℕ
  pub current : Token

-- A result or an error, with the parser afterwards, or the lack of fuel.
pub data Parsed {ℓ} (A : Type ℓ) : Type ℓ where
  ok : A → Parser → Parsed A
  err : SqlError → Parser → Parsed A
  out_of_fuel : Parsed A

abbrev pub and_then : {A B : Type 0} → Parsed A → (A → Parser → Parsed B) → Parsed B
and_then (ok a p) k = k a p
and_then (err e p) k = err e p
and_then out_of_fuel k = out_of_fuel

-- `t.kind == kind`
abbrev pub is_kind : TokenKind → TokenKind → Bool
is_kind eof eof = true
is_kind ident ident = true
is_kind str str = true
is_kind number number = true
is_kind star star = true
is_kind comma comma = true
is_kind l_paren l_paren = true
is_kind r_paren r_paren = true
is_kind op op = true
is_kind semi semi = true
is_kind _ _ = false

module _ (u : Unicode) where
  open u use {equal_fold, to_upper}

  unfoldable pub advance : Parser → Parser
  advance p = let next = next_token u p.lex in record { lex = next.1; current = next.0 }

  unfoldable pub new_parser : Text → Parser
  unfolding advance
  new_parser sql = advance (record { lex = sql; current = token eof [] })

  unfoldable pub expect : TokenKind → Parser → Parsed Token
  expect kind p =
      if is_kind p.current.kind kind
      then ok p.current (advance p)
      else err (expected_kind kind p.current.val) p

  unfoldable pub keyword : Text → Parser → Bool
  keyword kw p = if is_kind p.current.kind ident then equal_fold p.current.val kw else false

  unfoldable pub skip_keyword : Text → Parser → Parser × Bool
  skip_keyword kw p = if keyword kw p then (advance p, true) else (p, false)

  -- The loop over a call's arguments, from the arguments that are read on.
  unfoldable pub parse_args : ℕ → (Parser → Parsed Expr) → Exprs → Parser → Parsed Exprs
  parse_args zero expr args p = out_of_fuel
  parse_args (suc fuel) expr args p =
      let rest = parse_args fuel expr in
      and_then (expr p) λ arg q.
        let args' = append_expr args arg in
        if is_kind q.current.kind r_paren
        then ok args' (advance q)
        else and_then (expect comma q) (λ t r. rest args' r)

  unfoldable pub parse_func_call : ℕ → (Parser → Parsed Expr) → Text → Parser → Parsed Expr
  parse_func_call fuel expr name p =
      let name' = to_upper name in
      let q = advance p in
      if is_kind q.current.kind r_paren
      then ok (func_call_expr name' no_exprs false) (advance q)
      else if is_kind q.current.kind star
      then and_then (expect r_paren (advance q)) (λ t r. ok (func_call_expr name' no_exprs true) r)
      else and_then (parse_args fuel expr no_exprs q)
          (λ args r. ok (func_call_expr name' args false) r)

  -- The `switch` of `parsePrimary`. Here and below `expr` is the inner call of `ParseExpr`.
  unfoldable pub primary_of : TokenKind → ℕ → (Parser → Parsed Expr) → Parser → Parsed Expr
  primary_of l_paren fuel expr p =
      and_then (expr (advance p)) λ e q. and_then (expect r_paren q) (λ t r. ok e r)
  primary_of str fuel expr p = ok (literal p.current.val) (advance p)
  primary_of number fuel expr p = ok (literal p.current.val) (advance p)
  primary_of ident fuel expr p =
      let q = advance p in
      if is_kind q.current.kind l_paren
      then parse_func_call fuel expr p.current.val q
      else ok (column_ref p.current.val) q
  primary_of star fuel expr p = ok (column_ref (bytes "*")) (advance p)
  primary_of _ fuel expr p = err (unexpected_token p.current.val) p

  unfoldable pub parse_primary : ℕ → (Parser → Parsed Expr) → Parser → Parsed Expr
  parse_primary fuel expr p = primary_of p.current.kind fuel expr p

  unfoldable pub parse_comparison : ℕ → (Parser → Parsed Expr) → Parser → Parsed Expr
  parse_comparison fuel expr p = parse_primary fuel expr p

  unfoldable pub parse_not : ℕ → (Parser → Parsed Expr) → Parser → Parsed Expr
  parse_not fuel expr p =
      let (q, found) = skip_keyword (bytes "NOT") p in
      if found
      then and_then (parse_comparison fuel expr q) (λ e r. ok (unary_expr (bytes "NOT") e) r)
      else parse_comparison fuel expr q

  unfoldable pub parse_and : ℕ → (Parser → Parsed Expr) → Parser → Parsed Expr
  parse_and fuel expr p = parse_not fuel expr p

  -- The loop of `parseOr`, which has `fuel` rounds at most.
  unfoldable pub parse_or_rest : ℕ → ℕ → (Parser → Parsed Expr) → Expr → Parser → Parsed Expr
  parse_or_rest zero fuel expr left p = out_of_fuel
  parse_or_rest (suc rounds) fuel expr left p =
      let rest = parse_or_rest rounds fuel expr in
      let (q, found) = skip_keyword (bytes "OR") p in
      if found
      then and_then (parse_and fuel expr q)
          (λ right r. rest (binary_expr left (bytes "OR") right) r)
      else ok left q

  unfoldable pub parse_or : ℕ → (Parser → Parsed Expr) → Parser → Parsed Expr
  parse_or fuel expr p =
      and_then (parse_and fuel expr p) (λ left q. parse_or_rest fuel fuel expr left q)

  unfoldable pub parse_expr : ℕ → Parser → Parsed Expr
  parse_expr zero p = out_of_fuel
  parse_expr (suc fuel) p = parse_or (suc fuel) (parse_expr fuel) p

  -- `ParseSelect` returns an error in every case: the parser afterwards, the statement or nil, the
  -- error.
  unfoldable pub parse_select : Parser → Parser × Option SelectStmt × SqlError
  parse_select p =
      let (q, found) = skip_keyword (bytes "SELECT") p in
      if found
      then (
        q,
        some (record {
          columns = [];
          from = [];
          where_clause = none;
          group_by = [];
          order_by = [];
          limit = 0;
          has_limit = false;
        }),
        not_implemented,
      )
      else (q, none, expected_select q.current.val)

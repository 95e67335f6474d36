-- ===== src/Sql/Syntax.antt =====
-- The AST, the tokens and the errors of projects/01-log-query-engine/engine/planner/sql.go. A text
-- is the list of its runes. The parser makes no literal but a string, so a literal is a text.
use golang_journey.Prelude.{ℕ, Bool, List, [], ◌++◌, Option, if◌then◌else◌}
use golang_journey.Prelude.Text.{Text, bytes}

-- What the planner uses of the packages unicode and strings.
pub record Unicode : Type 0 where
  pub is_space : ℕ → Bool
  pub is_letter : ℕ → Bool
  pub is_digit : ℕ → Bool
  pub equal_fold : Text → Text → Bool
  pub to_upper : Text → Text

mutual
  pub data Expr : Type 0 where
    column_ref : Text → Expr
    literal : Text → Expr
    binary_expr : Expr → Text → Expr → Expr
    func_call_expr : Text → Exprs → Bool → Expr
    unary_expr : Text → Expr → Expr

  pub data Exprs : Type 0 where
    no_exprs : Exprs
    more_exprs : Expr → Exprs → Exprs

mutual
  -- `String`
  pub show : Expr → Text
  show (column_ref name) = name
  show (literal value) = value
  show (binary_expr left op right) =
      bytes "(" ++ (show left ++ (bytes " " ++ (op ++ (bytes " " ++ (show right ++ bytes ")")))))
  show (func_call_expr name args star) =
      let listed = show_args args in
      if star then name ++ bytes "(*)" else name ++ (bytes "(" ++ (listed ++ bytes ")"))
  show (unary_expr op expr) = op ++ (bytes " " ++ show expr)

  -- `strings.Join(args, ", ")`
  pub show_args : Exprs → Text
  show_args no_exprs = []
  show_args (more_exprs e es) = show e ++ show_rest es

  pub show_rest : Exprs → Text
  show_rest no_exprs = []
  show_rest (more_exprs e es) = bytes ", " ++ (show e ++ show_rest es)

-- `append(fn.Args, arg)`
unfoldable pub append_expr : Exprs → Expr → Exprs
append_expr no_exprs e = more_exprs e no_exprs
append_expr (more_exprs x xs) e = more_exprs x (append_expr xs e)

pub record SelectExpr : Type 0 where
  pub expr : Expr
  pub alias : Text

pub record OrderExpr : Type 0 where
  pub expr : Expr
  pub desc : Bool

pub record SelectStmt : Type 0 where
  pub columns : List SelectExpr
  pub from : Text
  pub where_clause : Option Expr
  pub group_by : List Expr
  pub order_by : List OrderExpr
  pub limit : ℕ
  pub has_limit : Bool

pub data TokenKind : Type 0 where
  eof : TokenKind
  ident : TokenKind
  str : TokenKind
  number : TokenKind
  star : TokenKind
  comma : TokenKind
  l_paren : TokenKind
  r_paren : TokenKind
  op : TokenKind
  semi : TokenKind

pub record Token : Type 0 where
  pub kind : TokenKind
  pub val : Text

-- The errors, with the parts that their messages show.
pub data SqlError : Type 0 where
  expected_kind : TokenKind → Text → SqlError
  expected_select : Text → SqlError
  unexpected_token : Text → SqlError
  not_implemented : SqlError

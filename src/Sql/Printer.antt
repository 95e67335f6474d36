-- ===== src/Sql/Printer.antt =====
-- The tokens of an expression, with as few parentheses as the grammar of `ParseExpr` allows.
use golang_journey.Prelude.{
  ℕ, zero, suc, ◌≡◌, Bool, true, false, List, [], ◌∷◌, ◌++◌, ◌||◌, ◌==◌, if◌then◌else◌,
}
use golang_journey.Prelude.Text.{Text, bytes}
use golang_journey.Sql.Syntax.{
  Unicode, Expr, Exprs, column_ref, literal, binary_expr, func_call_expr, unary_expr, no_exprs,
  more_exprs, Token, TokenKind, ident, str, star, comma, l_paren, r_paren,
}
use golang_journey.Sql.Lexer.{token}

abbrev pub open_paren : Token
open_paren = token l_paren (bytes "(")

abbrev pub close_paren : Token
close_paren = token r_paren (bytes ")")

abbrev pub in_parens : List Token → List Token
in_parens ts = open_paren ∷ (ts ++ close_paren ∷ [])

abbrev mutual
  -- The operands of OR stand at level 1, what NOT negates at level 2.
  pub tokens : ℕ → Expr → List Token
  tokens k (column_ref name) = token ident name ∷ []
  tokens k (literal value) = token str value ∷ []
  tokens zero (binary_expr left op right) = tokens 0 left ++ (token ident op ∷ tokens 1 right)
  tokens (suc k) (binary_expr left op right) =
      in_parens (tokens 0 left ++ (token ident op ∷ tokens 1 right))
  tokens k (func_call_expr name args true) =
      token ident name ∷ open_paren ∷ token star (bytes "*") ∷ close_paren ∷ []
  tokens k (func_call_expr name args false) = token ident name ∷ open_paren ∷ tokens_args args
  tokens zero (unary_expr op expr) = token ident op ∷ tokens 2 expr
  tokens (suc zero) (unary_expr op expr) = token ident op ∷ tokens 2 expr
  tokens (suc (suc k)) (unary_expr op expr) = in_parens (token ident op ∷ tokens 2 expr)

  pub tokens_args : Exprs → List Token
  tokens_args no_exprs = close_paren ∷ []
  tokens_args (more_exprs e es) = tokens 0 e ++ tokens_rest es

  pub tokens_rest : Exprs → List Token
  tokens_rest no_exprs = close_paren ∷ []
  tokens_rest (more_exprs e es) = token comma (bytes ",") ∷ (tokens 0 e ++ tokens_rest es)

module _ (u : Unicode) where
  open u use {equal_fold, to_upper}

  abbrev mutual
    -- What the parser can return, but for the column `*`: OR and NOT alone, names that are not NOT,
    -- functions in upper case, and no arguments beside a star.
    pub IsPrintable : Expr → Type 0
    IsPrintable (column_ref name) = equal_fold name (bytes "NOT") ≡ false
    IsPrintable (literal value) = Unit
    IsPrintable (binary_expr left op right) =
        (op ≡ bytes "OR") × IsPrintable left × IsPrintable right
    IsPrintable (func_call_expr name args true) =
        (equal_fold name (bytes "NOT") ≡ false) × (to_upper name ≡ name) × (args ≡ no_exprs)
    IsPrintable (func_call_expr name args false) =
        (equal_fold name (bytes "NOT") ≡ false) × (to_upper name ≡ name) × ArePrintable args
    IsPrintable (unary_expr op expr) = (op ≡ bytes "NOT") × IsPrintable expr

    pub ArePrintable : Exprs → Type 0
    ArePrintable no_exprs = Unit
    ArePrintable (more_exprs e es) = IsPrintable e × ArePrintable es

abbrev pub is_str : TokenKind → Bool
is_str str = true
is_str _ = false

-- A quote or a backslash takes a backslash in front.
unfoldable pub escape : Text → Text
escape [] = []
escape (c ∷ cs) =
    let rest = escape cs in if c == b'\'' || c == b'\\' then b'\\' ∷ c ∷ rest else c ∷ rest

-- A token, and the space behind it.
unfoldable pub render_token : Token → Text
render_token t =
    if is_str t.kind then b'\'' ∷ (escape t.val ++ (b'\'' ∷ b' ' ∷ [])) else t.val ++ b' ' ∷ []

unfoldable pub render : List Token → Text
render [] = []
render (t ∷ ts) = render_token t ++ render ts

-- ===== src/Sql/Parser/Args.antt =====
-- How a call's arguments are read off their tokens.
use golang_journey.Prelude.{
  ℕ, zero, suc, ◌≤◌, ◌<◌, ◌≡◌, refl, ap, ◌∙◌, false, [], ◌∷◌, ◌++◌, length, length-append, arith,
}
use golang_journey.Prelude.Text.{bytes}
use golang_journey.Sql.Syntax.{
  Unicode, Expr, Exprs, no_exprs, more_exprs, append_expr, comma, l_paren, r_paren,
}
use golang_journey.Sql.Parser.{Parser, ok, is_kind, advance, keyword, parse_args, parse_expr}
use golang_journey.Sql.Parser.Levels.{
  behind, Shows, Shows-left, Shows-right, behind-append, Reads0, parse_expr-Reads0, expect_shown,
}
use golang_journey.Sql.Printer.{close_paren, tokens, tokens_rest}

-- The arguments that a loop has read, with those that it goes on to read.
pub appends : Exprs → Exprs → Exprs
appends acc no_exprs = acc
appends acc (more_exprs e es) = appends (append_expr acc e) es

appends_more :
    (x : Expr) (acc es : Exprs) → appends (more_exprs x acc) es ≡ more_exprs x (appends acc es)
unfolding appends append_expr
appends_more x acc no_exprs = refl
appends_more x acc (more_exprs e es) = appends_more x (append_expr acc e) es

pub appends_none : (es : Exprs) → appends no_exprs es ≡ es
unfolding appends append_expr
appends_none no_exprs = refl
appends_none (more_exprs e es) = appends_more e no_exprs es ∙ ap (more_exprs e) (appends_none es)

pub count : Exprs → ℕ
count no_exprs = 0
count (more_exprs e es) = suc (count es)

pub count_lt : (es : Exprs) → count es < length (tokens_rest es)
unfolding count
count_lt no_exprs = omega arith
count_lt (more_exprs e es) = omega (arith, count_lt es, length-append (tokens 0 e) (tokens_rest es))

module _ (u : Unicode) where
  abbrev pub AllReads : Exprs → Type 0
  AllReads no_exprs = Unit
  AllReads (more_exprs e es) = Reads0 u e × AllReads es

  -- A comma or a parenthesis ends an argument.
  rest_ends :
      (es : Exprs) (q : Parser)
      → Shows u q (tokens_rest es)
      → (is_kind q.current.kind l_paren ≡ false) × (keyword u (bytes "OR") q ≡ false)
  unfolding keyword
  rest_ends no_exprs q s = ground (arith, s.0)
  rest_ends (more_exprs e es) q s = ground (arith, s.0)

  read_arg :
      (e : Expr) (es : Exprs) (f : ℕ) (p : Parser)
      → Reads0 u e
      → length (tokens 0 e ++ tokens_rest es) ≤ suc f
      → Shows u p (tokens 0 e ++ tokens_rest es)
      → parse_expr u (suc f) p ≡ ok e (behind u (length (tokens 0 e)) p)
  read_arg e es f p r l s =
      let ends =
        rest_ends es (behind u (length (tokens 0 e)) p)
          (Shows-right u (tokens 0 e) (tokens_rest es) p s) in
      parse_expr-Reads0 u e r f p (omega (arith, l, length-append (tokens 0 e) (tokens_rest es)))
        (Shows-left u (tokens 0 e) (tokens_rest es) p s) ends.0 ends.1

  pub parse_args-tokens :
      (e : Expr) (es : Exprs) (f rounds : ℕ) (acc : Exprs) (p : Parser)
      → Reads0 u e
      → AllReads es
      → length (tokens 0 e ++ tokens_rest es) ≤ suc f
      → count es < rounds
      → Shows u p (tokens 0 e ++ tokens_rest es)
      → parse_args u rounds (parse_expr u (suc f)) acc p
        ≡ ok (appends acc (more_exprs e es)) (behind u (length (tokens 0 e ++ tokens_rest es)) p)
  unfolding parse_args appends count
  parse_args-tokens e es f zero acc p r rs l c s = absurd (omega (arith, c))
  parse_args-tokens e no_exprs f (suc rounds) acc p r rs l c s =
      let q = behind u (length (tokens 0 e)) p in
      let s' : Shows u q (close_paren ∷ []) =
        Shows-right u (tokens 0 e) (tokens_rest no_exprs) p s in
      rw (
        read_arg e no_exprs f p r l s,
        behind-append u (tokens 0 e) (tokens_rest no_exprs) p,
        ap (λ t. is_kind t.kind r_paren) s'.0,
      )
  parse_args-tokens e (more_exprs x es) f (suc rounds) acc p r rs l c s =
      let q = behind u (length (tokens 0 e)) p in
      let s' : Shows u q (tokens_rest (more_exprs x es)) =
        Shows-right u (tokens 0 e) (tokens_rest (more_exprs x es)) p s in
      let length_rest = length-append (tokens 0 e) (tokens_rest (more_exprs x es)) in
      rw
        (
          read_arg e (more_exprs x es) f p r l s,
          behind-append u (tokens 0 e) (tokens_rest (more_exprs x es)) p,
          ap (λ t. is_kind t.kind r_paren) s'.0,
          expect_shown u comma q (ap (λ t. is_kind t.kind comma) s'.0),
        )
        (parse_args-tokens x es f rounds (append_expr acc e) (advance u q) rs.0 rs.1
          (omega (arith, l, length_rest)) (omega (arith, c)) s'.1)

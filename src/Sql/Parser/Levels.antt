-- ===== src/Sql/Parser/Levels.antt =====
-- How the levels of the grammar read an expression off its tokens.
use golang_journey.Prelude.{
  ℕ, zero, suc, ◌+◌, ◌-◌, ◌≤◌, ◌<◌, ◌≡◌, refl, ap, ◌∙◌, subst, true, false, List, [], ◌∷◌, ◌++◌,
  length, length-append, arith,
}
use golang_journey.Prelude.Text.{Text, bytes}
use golang_journey.Sql.Syntax.{
  Unicode, Expr, column_ref, literal, binary_expr, func_call_expr, unary_expr, Token, TokenKind,
  ident, l_paren, r_paren,
}
use golang_journey.Sql.Lexer.{token}
use golang_journey.Sql.Parser.{
  Parser, Parsed, ok, and_then, is_kind, advance, expect, keyword, skip_keyword, primary_of,
  parse_primary, parse_comparison, parse_not, parse_and, parse_or_rest, parse_or, parse_expr,
}
use golang_journey.Sql.Printer.{close_paren, in_parens, tokens}

module _ (u : Unicode) where
  -- The parser some tokens further on.
  abbrev pub behind : ℕ → Parser → Parser
  behind zero p = p
  behind (suc n) p = behind n (advance u p)

  -- The parser is at these tokens.
  abbrev pub Shows : Parser → List Token → Type 0
  Shows p [] = Unit
  Shows p (t ∷ ts) = (p.current ≡ t) × Shows (advance u p) ts

  pub behind-append :
      (xs ys : List Token) (p : Parser)
      → behind (length (xs ++ ys)) p ≡ behind (length ys) (behind (length xs) p)
  behind-append [] [] p = refl
  behind-append [] (y ∷ ys) p = refl
  behind-append (x ∷ xs) ys p = behind-append xs ys (advance u p)

  pub Shows-left : (xs ys : List Token) (p : Parser) → Shows p (xs ++ ys) → Shows p xs
  Shows-left [] ys p s = tt
  Shows-left (x ∷ xs) ys p s = (s.0, Shows-left xs ys (advance u p) s.1)

  pub Shows-right :
      (xs ys : List Token) (p : Parser) → Shows p (xs ++ ys) → Shows (behind (length xs) p) ys
  Shows-right [] [] p s = tt
  Shows-right [] (y ∷ ys) p s = s
  Shows-right (x ∷ xs) ys p s = Shows-right xs ys (advance u p) s.1

  -- No parenthesis follows, which would make a name a call.
  abbrev pub NoParen : Parser → Type 0
  NoParen q = is_kind q.current.kind l_paren ≡ false

  pub not_keyword :
      (p : Parser) (kw name : Text)
      → p.current ≡ token ident name
      → u.equal_fold name kw ≡ false
      → skip_keyword u kw p ≡ (p, false)
  unfolding skip_keyword keyword
  not_keyword p kw name e h = ground (arith, e, h)

  pub no_keyword :
      (p : Parser) (kw : Text)
      → is_kind p.current.kind ident ≡ false
      → skip_keyword u kw p ≡ (p, false)
  unfolding skip_keyword keyword
  no_keyword p kw h = ground (arith, h)

  pub found_keyword :
      (p : Parser) (kw : Text)
      → u.equal_fold kw kw ≡ true
      → p.current ≡ token ident kw
      → skip_keyword u kw p ≡ (advance u p, true)
  unfolding skip_keyword keyword
  found_keyword p kw h e = ground (arith, e, h)

  -- One call of `parseOr`, with the rounds of its loop.
  abbrev pub or_from : ℕ → ℕ → Parser → Parsed Expr
  or_from rounds f p =
      and_then (parse_and u (suc f) (parse_expr u f) p)
        λ left q. parse_or_rest u rounds (suc f) (parse_expr u f) left q

  -- The ORs that the loop of the outermost `parseOr` reads.
  unfoldable pub ors : Expr → ℕ
  ors (binary_expr left op right) = suc (ors left)
  ors e = 0

  -- How the three levels of the grammar read an expression off its tokens.
  abbrev pub Reads2 : Expr → Type 0
  Reads2 e =
      (f : ℕ) (p : Parser)
      → length (tokens 2 e) ≤ suc f
      → Shows p (tokens 2 e)
      → NoParen (behind (length (tokens 2 e)) p)
      → parse_primary u (suc f) (parse_expr u f) p ≡ ok e (behind (length (tokens 2 e)) p)

  abbrev pub Reads1 : Expr → Type 0
  Reads1 e =
      (f : ℕ) (p : Parser)
      → length (tokens 1 e) ≤ suc f
      → Shows p (tokens 1 e)
      → NoParen (behind (length (tokens 1 e)) p)
      → parse_and u (suc f) (parse_expr u f) p ≡ ok e (behind (length (tokens 1 e)) p)

  abbrev pub Reads0 : Expr → Type 0
  Reads0 e =
      (f rounds : ℕ) (p : Parser)
      → length (tokens 0 e) ≤ suc f
      → Shows p (tokens 0 e)
      → NoParen (behind (length (tokens 0 e)) p)
      → or_from (ors e + rounds) f p
        ≡ parse_or_rest u rounds (suc f) (parse_expr u f) e (behind (length (tokens 0 e)) p)

  ors_lt : (e : Expr) → ors e < length (tokens 0 e)
  unfolding ors
  ors_lt (column_ref name) = omega arith
  ors_lt (literal value) = omega arith
  ors_lt (binary_expr left op right) =
      omega (arith, ors_lt left, length-append (tokens 0 left) (token ident op ∷ tokens 1 right))
  ors_lt (func_call_expr name args true) = omega arith
  ors_lt (func_call_expr name args false) = omega arith
  ors_lt (unary_expr op expr) = omega arith

  -- The loop ends where no OR follows.
  parse_or_rest_done :
      (rounds fuel : ℕ) (expr : Parser → Parsed Expr) (left : Expr) (p : Parser)
      → keyword u (bytes "OR") p ≡ false
      → parse_or_rest u (suc rounds) fuel expr left p ≡ ok left p
  unfolding parse_or_rest skip_keyword
  parse_or_rest_done rounds fuel expr left p k = rw (k)

  -- `ParseExpr` as a whole, where the loop ends.
  pub parse_expr-Reads0 :
      (e : Expr)
      → Reads0 e
      → (f : ℕ) (p : Parser) → length (tokens 0 e) ≤ suc f
      → Shows p (tokens 0 e)
      → NoParen (behind (length (tokens 0 e)) p)
      → keyword u (bytes "OR") (behind (length (tokens 0 e)) p) ≡ false
      → parse_expr u (suc f) p ≡ ok e (behind (length (tokens 0 e)) p)
  unfolding parse_expr parse_or
  parse_expr-Reads0 e reads f p l s n k =
      let spare : suc f ≡ ors e + suc (f - ors e) = omega (arith, l, ors_lt e) in
      let whole : or_from (suc f) f p ≡ or_from (ors e + suc (f - ors e)) f p =
        ap (λ r. or_from r f p) spare in
      whole
      ∙ reads f (suc (f - ors e)) p l s n
      ∙ parse_or_rest_done (f - ors e) (suc f) (parse_expr u f) e (behind (length (tokens 0 e)) p) k

  -- Level 1 is level 2 where no NOT stands in front.
  pub Reads1-of_2 :
      (e : Expr)
      → ((p : Parser) → Shows p (tokens 1 e) → skip_keyword u (bytes "NOT") p ≡ (p, false))
      → tokens 1 e ≡ tokens 2 e
      → Reads2 e
      → Reads1 e
  unfolding parse_and parse_not parse_comparison
  Reads1-of_2 e plain same reads f p l s n =
      rw (plain p s, same)
        (reads f p (subst (λ ts. length ts ≤ suc f) same l) (subst (Shows p) same s)
          (subst (λ ts. NoParen (behind (length ts) p)) same n))

  pub Reads0-of_1 : (e : Expr) → ors e ≡ 0 → tokens 0 e ≡ tokens 1 e → Reads1 e → Reads0 e
  Reads0-of_1 e none_here same reads f rounds p l s n =
      rw
        (
          none_here,
          same,
          reads f p (subst (λ ts. length ts ≤ suc f) same l) (subst (Shows p) same s)
              (subst (λ ts. NoParen (behind (length ts) p)) same n),
        )
        (let none_more : 0 + rounds ≡ rounds = omega arith in
          ap (λ r. parse_or_rest u r (suc f) (parse_expr u f) e (behind (length (tokens 1 e)) p))
            none_more)

  pub expect_shown :
      (kind : TokenKind) (q : Parser)
      → is_kind q.current.kind kind ≡ true
      → expect u kind q ≡ ok q.current (advance u q)
  unfolding expect
  expect_shown kind q h = rw (h)

  -- A parenthesis takes the inner expression back to level 0.
  primary_in_parens :
      (e : Expr)
      → Reads0 e
      → (f : ℕ) (p : Parser) → length (in_parens (tokens 0 e)) ≤ suc f
      → Shows p (in_parens (tokens 0 e))
      → parse_primary u (suc f) (parse_expr u f) p
        ≡ ok e (behind (length (in_parens (tokens 0 e))) p)
  unfolding parse_primary primary_of keyword
  primary_in_parens e reads zero p l s =
      absurd (omega (arith, l, length-append (tokens 0 e) (close_paren ∷ [])))
  primary_in_parens e reads (suc f) p l s =
      let ts = tokens 0 e in
      let inner = advance u p in
      let q = behind (length ts) inner in
      let closing : q.current ≡ close_paren = (Shows-right ts (close_paren ∷ []) inner s.1).0 in
      let read : parse_expr u (suc f) inner ≡ ok e q =
        parse_expr-Reads0 e reads f inner (omega (arith, l, length-append ts (close_paren ∷ [])))
          (Shows-left ts (close_paren ∷ []) inner s.1) (ap (λ t. is_kind t.kind l_paren) closing)
          (no_ident q (ap (λ t. is_kind t.kind ident) closing)) in
      ap (λ t. primary_of u t.kind (suc (suc f)) (parse_expr u (suc f)) p) s.0
      ∙ rw (
        read,
        expect_shown r_paren q (ap (λ t. is_kind t.kind r_paren) closing),
        behind-append ts (close_paren ∷ []) inner,
      )
    where
      no_ident :
          (q : Parser) → is_kind q.current.kind ident ≡ false → keyword u (bytes "OR") q ≡ false
      no_ident q h = rw (h)

  pub Reads2-in_parens : (e : Expr) → tokens 2 e ≡ in_parens (tokens 0 e) → Reads0 e → Reads2 e
  Reads2-in_parens e same reads f p l s n = rw (same) (
      primary_in_parens e reads f p (subst (λ ts. length ts ≤ suc f) same l)
        (subst (Shows p) same s))

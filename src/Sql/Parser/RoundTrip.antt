-- ===== src/Sql/Parser/RoundTrip.antt =====
-- The parser reads back the tokens of an expression.
use golang_journey.Prelude.{
  ℕ, zero, suc, ◌+◌, ◌<◌, ◌≡◌, refl, sym, ap, ◌∙◌, subst, true, false, ◌∷◌, ◌++◌, length,
  length-append, arith,
}
use golang_journey.Prelude.Text.{Text, bytes}
use golang_journey.Sql.Syntax.{
  Unicode, Expr, Exprs, column_ref, literal, binary_expr, func_call_expr, unary_expr, no_exprs,
  more_exprs, ident, star, l_paren, r_paren,
}
use golang_journey.Sql.Lexer.{token}
use golang_journey.Sql.Parser.{
  Parser, ok, is_kind, advance, keyword, skip_keyword, parse_func_call, primary_of, parse_primary,
  parse_comparison, parse_not, parse_and, parse_or_rest, parse_expr,
}
use golang_journey.Sql.Parser.Args.{AllReads, parse_args-tokens, appends_none, count, count_lt}
use golang_journey.Sql.Parser.Levels.{
  behind, Shows, Shows-left, Shows-right, behind-append, NoParen, not_keyword, no_keyword,
  found_keyword, ors, Reads0, Reads1, Reads2, parse_expr-Reads0, Reads1-of_2, Reads0-of_1,
  Reads2-in_parens, expect_shown,
}
use golang_journey.Sql.Printer.{open_paren, tokens, tokens_rest, IsPrintable, ArePrintable}

module _ (u : Unicode) where
  -- The first token of an expression ends no argument list and is no star.
  starts_expr :
      (k : ℕ) (e : Expr) (p : Parser)
      → Shows u p (tokens k e)
      → (is_kind p.current.kind r_paren ≡ false) × (is_kind p.current.kind star ≡ false)
  starts_expr k (column_ref name) p s = ground (arith, s.0)
  starts_expr k (literal value) p s = ground (arith, s.0)
  starts_expr zero (binary_expr left op right) p s =
      starts_expr 0 left p (Shows-left u (tokens 0 left) (token ident op ∷ tokens 1 right) p s)
  starts_expr (suc k) (binary_expr left op right) p s = ground (arith, s.0)
  starts_expr k (func_call_expr name args true) p s = ground (arith, s.0)
  starts_expr k (func_call_expr name args false) p s = ground (arith, s.0)
  starts_expr zero (unary_expr op expr) p s = ground (arith, s.0)
  starts_expr (suc zero) (unary_expr op expr) p s = ground (arith, s.0)
  starts_expr (suc (suc k)) (unary_expr op expr) p s = ground (arith, s.0)

  record Reads (e : Expr) : Type 0 where
    level0 : Reads0 u e
    level1 : Reads1 u e
    level2 : Reads2 u e

  -- An expression that is the same at every level.
  one_level :
      (e : Expr)
      → ors u e ≡ 0
      → tokens 0 e ≡ tokens 1 e
      → tokens 1 e ≡ tokens 2 e
      → ((p : Parser) → Shows u p (tokens 1 e) → skip_keyword u (bytes "NOT") p ≡ (p, false))
      → Reads2 u e
      → Reads e
  one_level e none_here same same' plain r2 =
      let r1 = Reads1-of_2 u e plain same' r2 in
      record { level0 = Reads0-of_1 u e none_here same r1; level1 = r1; level2 = r2 }

  call_starts :
      (name : Text) (f : ℕ) (p : Parser)
      → p.current ≡ token ident name
      → (advance u p).current ≡ open_paren
      → parse_primary u (suc f) (parse_expr u f) p
        ≡ parse_func_call u (suc f) (parse_expr u f) name (advance u p)
  unfolding parse_primary primary_of
  call_starts name f p e o = ground (arith, e, o)

  column-Reads : (name : Text) → IsPrintable u (column_ref name) → Reads (column_ref name)
  unfolding ors parse_primary primary_of
  column-Reads name h =
      one_level (column_ref name) refl refl refl (λ p s. not_keyword u p (bytes "NOT") name s.0 h)
        λ f p l s n. ground (arith, s.0, n)

  literal-Reads : (value : Text) → Reads (literal value)
  unfolding ors parse_primary primary_of
  literal-Reads value =
      one_level (literal value) refl refl refl
        (λ p s. no_keyword u p (bytes "NOT") (ap (λ t. is_kind t.kind ident) s.0))
        λ f p l s n. ground (arith, s.0)

  star_call-Reads :
      (name : Text)
      → IsPrintable u (func_call_expr name no_exprs true)
      → Reads (func_call_expr name no_exprs true)
  unfolding ors parse_func_call
  star_call-Reads name h =
      one_level (func_call_expr name no_exprs true) refl refl refl
        (λ p s. not_keyword u p (bytes "NOT") name s.0 h.0)
        λ f p l s n.
          let q = advance u (advance u p) in
          rw (
            call_starts name f p s.0 s.1.0,
            ap (λ t. is_kind t.kind r_paren) s.1.1.0,
            ap (λ t. is_kind t.kind star) s.1.1.0,
            expect_shown u r_paren (advance u q) (ap (λ t. is_kind t.kind r_paren) s.1.1.1.0),
            h.1,
          )

  empty_call-Reads :
      (name : Text)
      → IsPrintable u (func_call_expr name no_exprs false)
      → Reads (func_call_expr name no_exprs false)
  unfolding ors parse_func_call
  empty_call-Reads name h =
      one_level (func_call_expr name no_exprs false) refl refl refl
        (λ p s. not_keyword u p (bytes "NOT") name s.0 h.0)
        λ f p l s n.
          rw (call_starts name f p s.0 s.1.0, ap (λ t. is_kind t.kind r_paren) s.1.1.0, h.1)

  call_args :
      (name : Text) (e : Expr) (es : Exprs)
      → u.to_upper name ≡ name
      → Reads0 u e
      → AllReads u es
      → (f : ℕ) (p : Parser) → length (tokens 0 e ++ tokens_rest es) < f
      → Shows u (advance u p) (tokens 0 e ++ tokens_rest es)
      → parse_func_call u (suc f) (parse_expr u f) name p
        ≡ ok
            (func_call_expr name (more_exprs e es) false)
            (behind u (length (tokens 0 e ++ tokens_rest es)) (advance u p))
  unfolding parse_func_call
  call_args name e es upper r rs zero p l s = absurd (omega (arith, l))
  call_args name e es upper r rs (suc f) p l s =
      let q = advance u p in
      let starts = starts_expr 0 e q (Shows-left u (tokens 0 e) (tokens_rest es) q s) in
      let rounds : count es < suc (suc f) =
        omega (arith, l, count_lt es, length-append (tokens 0 e) (tokens_rest es)) in
      rw (
        starts.0,
        starts.1,
        parse_args-tokens u e es f (suc (suc f)) no_exprs q r rs (omega (arith, l)) rounds s,
        upper,
        appends_none (more_exprs e es),
      )

  call-Reads :
      (name : Text) (e : Expr) (es : Exprs)
      → IsPrintable u (func_call_expr name (more_exprs e es) false)
      → Reads0 u e
      → AllReads u es
      → Reads (func_call_expr name (more_exprs e es) false)
  unfolding ors
  call-Reads name e es h r rs =
      one_level (func_call_expr name (more_exprs e es) false) refl refl refl
        (λ p s. not_keyword u p (bytes "NOT") name s.0 h.0)
        λ f p l s n.
          call_starts name f p s.0 s.1.0
          ∙ call_args name e es h.1 r rs f (advance u p) (omega (arith, l)) s.1.1

  module _ (fold_refl : (s : Text) → u.equal_fold s s ≡ true) where
    not_level1 : (e : Expr) → Reads2 u e → Reads1 u (unary_expr (bytes "NOT") e)
    unfolding parse_and parse_not parse_comparison
    not_level1 e r2 f p l s n = rw (
      found_keyword u p (bytes "NOT") (fold_refl (bytes "NOT")) s.0,
      r2 f (advance u p) (omega (arith, l)) s.1 n,
    )

    not-Reads : (e : Expr) → Reads2 u e → Reads (unary_expr (bytes "NOT") e)
    unfolding ors
    not-Reads e r2 =
        let r1 = not_level1 e r2 in
        let r0 = Reads0-of_1 u (unary_expr (bytes "NOT") e) refl refl r1 in
        record {
          level0 = r0;
          level1 = r1;
          level2 = Reads2-in_parens u (unary_expr (bytes "NOT") e) refl r0;
        }

    -- One round of the loop of `parseOr`.
    or_round :
        (rounds f : ℕ) (left right : Expr) (q : Parser)
        → q.current ≡ token ident (bytes "OR")
        → parse_and u (suc f) (parse_expr u f) (advance u q)
          ≡ ok right (behind u (length (tokens 1 right)) (advance u q))
        → parse_or_rest u (suc rounds) (suc f) (parse_expr u f) left q
          ≡ parse_or_rest u rounds
              (suc f)
              (parse_expr u f)
              (binary_expr left (bytes "OR") right)
              (behind u (length (tokens 1 right)) (advance u q))
    unfolding parse_or_rest
    or_round rounds f left right q e read =
        rw (found_keyword u q (bytes "OR") (fold_refl (bytes "OR")) e, read)

    or_level0 :
        (left right : Expr)
        → Reads0 u left
        → Reads1 u right
        → Reads0 u (binary_expr left (bytes "OR") right)
    unfolding ors
    or_level0 left right r0 r1 f rounds p l s n =
        let behind_left = token ident (bytes "OR") ∷ tokens 1 right in
        let q = behind u (length (tokens 0 left)) p in
        let s' : Shows u q behind_left = Shows-right u (tokens 0 left) behind_left p s in
        let lengths = length-append (tokens 0 left) behind_left in
        let move : suc (ors u left) + rounds ≡ ors u left + suc rounds = omega arith in
        let same : behind u (length (tokens 0 left ++ behind_left)) p
            ≡ behind u (length behind_left) q =
          behind-append u (tokens 0 left) behind_left p in
        let read = r1 f (advance u q) (omega (arith, l, lengths)) s'.1 (subst (NoParen u) same n) in
        rw (same, move)
          (r0 f (suc rounds) p (omega (arith, l, lengths))
              (Shows-left u (tokens 0 left) behind_left p s) (ap (λ t. is_kind t.kind l_paren) s'.0)
            ∙ or_round rounds f left right q s'.0 read)

    or-Reads :
        (left right : Expr)
        → Reads0 u left
        → Reads1 u right
        → Reads (binary_expr left (bytes "OR") right)
    or-Reads left right r0 r1 =
        let e = binary_expr left (bytes "OR") right in
        let whole = or_level0 left right r0 r1 in
        let r2 = Reads2-in_parens u e refl whole in
        record {
          level0 = whole;
          level1 =
              Reads1-of_2 u e
                (λ p s. no_keyword u p (bytes "NOT") (ap (λ t. is_kind t.kind ident) s.0)) refl r2;
          level2 = r2;
        }

    mutual
      expr-Reads : (e : Expr) → IsPrintable u e → Reads e
      expr-Reads (column_ref name) h = column-Reads name h
      expr-Reads (literal value) h = literal-Reads value
      expr-Reads (binary_expr left op right) h =
          subst (λ o. Reads (binary_expr left o right)) (sym h.0)
            (or-Reads left right (expr-Reads left h.1).level0 (expr-Reads right h.2).level1)
      expr-Reads (func_call_expr name args true) h =
          subst (λ es. Reads (func_call_expr name es true)) (sym h.2)
            (star_call-Reads name (h.0, h.1, refl))
      expr-Reads (func_call_expr name no_exprs false) h = empty_call-Reads name h
      expr-Reads (func_call_expr name (more_exprs e es) false) h =
          call-Reads name e es h (expr-Reads e h.2.0).level0 (exprs-AllReads es h.2.1)
      expr-Reads (unary_expr op e) h =
          subst (λ o. Reads (unary_expr o e)) (sym h.0) (not-Reads e (expr-Reads e h.1).level2)

      exprs-AllReads : (es : Exprs) → ArePrintable u es → AllReads u es
      exprs-AllReads no_exprs h = tt
      exprs-AllReads (more_exprs e es) h = ((expr-Reads e h.0).level0, exprs-AllReads es h.1)

    -- A printable expression whose tokens come next is read back, up to what follows them.
    pub parse_expr-tokens :
        (e : Expr) (fuel : ℕ) (p : Parser)
        → IsPrintable u e
        → length (tokens 0 e) < fuel
        → Shows u p (tokens 0 e)
        → is_kind (behind u (length (tokens 0 e)) p).current.kind l_paren ≡ false
        → keyword u (bytes "OR") (behind u (length (tokens 0 e)) p) ≡ false
        → parse_expr u fuel p ≡ ok e (behind u (length (tokens 0 e)) p)
    parse_expr-tokens e zero p h l s n k = absurd (omega (arith, l))
    parse_expr-tokens e (suc f) p h l s n k =
        parse_expr-Reads0 u e (expr-Reads e h).level0 f p (omega (arith, l)) s n k

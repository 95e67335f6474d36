-- ===== src/Sql/Lexer/Progress.antt =====
-- Every token takes at least a rune of the input.
use golang_journey.Prelude.{
  ℕ, suc, ◌≤◌, ◌<◌, ◌≡◌, ◌⊎◌, inl, inr, refl, Bool, true, ◌||◌, List, [], ◌∷◌, ◌==◌, length, arith,
  Bool-cases,
}
use golang_journey.Sql.Syntax.{Unicode, Token, eof}
use golang_journey.Sql.Lexer.{
  advance_rune, scan_string, scan_while, with_equals, in_number, in_ident, ident_token,
  operator_token, token_at, next_token,
}

scan_string-length : (quote : ℕ) (cs : List ℕ) → length (scan_string quote cs).1 ≤ length cs
unfolding scan_string
scan_string-length quote [] = omega arith
scan_string-length quote (c ∷ []) = ground arith
scan_string-length quote (c ∷ d ∷ cs) =
    ground (arith, scan_string-length quote cs, scan_string-length quote (d ∷ cs))

scan_while-length : (test : ℕ → Bool) (cs : List ℕ) → length (scan_while test cs).1 ≤ length cs
unfolding scan_while
scan_while-length test [] = omega arith
scan_while-length test (c ∷ cs) = ground (arith, scan_while-length test cs)

advance_rune-length : (cs : List ℕ) → length (advance_rune cs) ≤ length cs
unfolding advance_rune
advance_rune-length [] = omega arith
advance_rune-length (c ∷ cs) = omega arith

-- What is left is shorter, or the token is the end of the input.
abbrev pub Progresses : ℕ → Token × List ℕ → Type 0
Progresses n t = (t.0.kind ≡ eof) ⊎ (length t.1 < n)

later : {m n : ℕ} (t : Token × List ℕ) → m ≤ n → Progresses m t → Progresses n t
later t h (inl e) = inl e
later t h (inr l) = inr (omega arith)

module _ (u : Unicode) where
  scan_ident-length :
      (c : ℕ) (cs : List ℕ)
      → in_ident u c ≡ true
      → length (scan_while (in_ident u) (c ∷ cs)).1 ≤ length cs
  unfolding scan_while
  scan_ident-length c cs h = rw (h) (scan_while-length (in_ident u) cs)

  starts_ident : (c : ℕ) → (u.is_letter c || c == b'_') ≡ true → in_ident u c ≡ true
  unfolding in_ident
  starts_ident c h = ground arith

  ident_token-Progresses :
      (c : ℕ) (cs : List ℕ) (skipped : Token × List ℕ)
      → Progresses (suc (length cs)) skipped
      → Progresses (suc (length cs)) (ident_token u c cs skipped)
  unfolding ident_token
  ident_token-Progresses c cs skipped h = elim (Bool-cases (u.is_letter c || c == b'_')) [
    | inl e ↦ rw (e) (inr (omega (arith, scan_ident-length c cs (starts_ident c e))))
    | inr e ↦ rw (e) h
  ]

  operator_token-Progresses :
      (c : ℕ) (cs : List ℕ) (skipped : Token × List ℕ)
      → Progresses (suc (length cs)) skipped
      → Progresses (suc (length cs)) (operator_token u c cs skipped)
  unfolding operator_token with_equals
  operator_token-Progresses c cs skipped h =
      ground (arith, ident_token-Progresses c cs skipped h, advance_rune-length cs)

  token_at-Progresses :
      (c : ℕ) (cs : List ℕ) (skipped : Token × List ℕ)
      → Progresses (suc (length cs)) skipped
      → Progresses (suc (length cs)) (token_at u c cs skipped)
  unfolding token_at
  token_at-Progresses c cs skipped h = ground (
    arith,
    operator_token-Progresses c cs skipped h,
    scan_string-length c cs,
    scan_while-length (in_number u) cs,
  )

  pub next_token-Progresses : (cs : List ℕ) → Progresses (length cs) (next_token u cs)
  unfolding next_token
  next_token-Progresses [] = inl refl
  next_token-Progresses (c ∷ cs) =
      let rest = later (next_token u cs) (omega arith) (next_token-Progresses cs) in
      elim (Bool-cases (u.is_space c)) [
        | inl e ↦ rw (e) rest
        | inr e ↦ rw (e) (token_at-Progresses c cs (next_token u cs) rest)
      ]

-- ===== src/Hive/Fuel.antt =====
-- The loop of `hive_parse_buf` in libwebtester/hive.c ends.
use web_tester.Prelude.{
  ℕ, zero, suc, ◌<◌, ◌≡◌, ◌≢◌, refl, Option, Text, codes, eq_text, length, arith, Bool-cases, inl,
  inr,
}
use web_tester.Hive.Lexer.{Lexed, at_end, unexpected_end, overrun, lexed, parser_iteration}
use web_tester.Hive.Tree.{Items}
use web_tester.Hive.Shorter.{Shorter, parser_iteration-Shorter}
use web_tester.Hive.Parser.{
  Parser, Parsed, goes_on, parsed, failed, faulted, unfinished, and_then, parse_token, is_directive,
  include_file, include_round, parse_round, parse_loop,
}

and_then-same :
    (x : Parsed) (f g : Parser → Parsed) → ((q : Parser) → f q ≡ g q) → and_then x f ≡ and_then x g
and_then-same (goes_on p) f g h = h p
and_then-same (parsed nodes) f g h = refl
and_then-same (failed m) f g h = refl
and_then-same faulted f g h = refl
and_then-same unfinished f g h = refl

-- The two agree on all texts that are shorter than `n`.
abbrev SameBelow : ℕ → (Text → Parser → Parsed) → (Text → Parser → Parsed) → Type 0
SameBelow n f g = (rest : Text) → length rest < n → (q : Parser) → f rest q ≡ g rest q

-- What follows ends on all texts that are shorter than `n`.
abbrev EndsBelow : ℕ → (Text → Parser → Parsed) → Type 0
EndsBelow n f = (rest : Text) → length rest < n → (q : Parser) → f rest q ≢ unfinished

module _ (include : Text → Option Items) (cur_dir : Text) where
  include_round-same :
      (n : ℕ) (f g : Text → Parser → Parsed) (p : Parser) (l : Lexed)
      → SameBelow n f g
      → Shorter n l
      → include_round include cur_dir f p l ≡ include_round include cur_dir g p l
  unfolding include_round
  include_round-same n f g p at_end h short = refl
  include_round-same n f g p unexpected_end h short = refl
  include_round-same n f g p overrun h short = refl
  include_round-same n f g p (lexed t rest) h short =
      and_then-same (include_file include cur_dir t.text p) (f rest) (g rest) (h rest short)

  parse_round-same :
      (n : ℕ) (f g : Text → Parser → Parsed) (p : Parser) (l : Lexed)
      → SameBelow n f g
      → Shorter n l
      → parse_round include cur_dir f p l ≡ parse_round include cur_dir g p l
  unfolding parse_round
  parse_round-same n f g p at_end h short = refl
  parse_round-same n f g p unexpected_end h short = refl
  parse_round-same n f g p overrun h short = refl
  parse_round-same n f g p (lexed t rest) h short = elim (Bool-cases (is_directive t p)) [
    | inl e ↦ elim (Bool-cases (eq_text t.text (codes "#include"))) [
      | inl i ↦
          rw (e, i)
            (include_round-same (length rest) f g p (parser_iteration rest)
              (λ r less. h r (omega arith)) (parser_iteration-Shorter rest))
      | inr i ↦ rw (e, i) refl
    ]
    | inr e ↦ rw e (and_then-same (parse_token t p) (f rest) (g rest) (h rest short))
  ]

  -- More rounds than the text has characters make no difference.
  pub parse_loop-fuel :
      (k j : ℕ) (s : Text) (p : Parser)
      → length s < k
      → length s < j
      → parse_loop include cur_dir k s p ≡ parse_loop include cur_dir j s p
  unfolding parse_loop
  parse_loop-fuel zero j s p less below = let no : ⊥ = omega arith in elim no [ ]
  parse_loop-fuel (suc k) zero s p less below = let no : ⊥ = omega arith in elim no [ ]
  parse_loop-fuel (suc k) (suc j) s p less below =
      parse_round-same (length s) _ _ p (parser_iteration s)
        (λ rest short q. parse_loop-fuel k j rest q (omega arith) (omega arith))
        (parser_iteration-Shorter s)

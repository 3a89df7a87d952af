-- ===== src/Parser/Ending.antt =====
-- `parse_module` reads the tokens up to the end of the file.
use sunder.Prelude.{
  ℕ, zero, suc, List, [], ◌∷◌, Bool, true, false, if◌then◌else◌, ◌≡◌, refl, length, ◌+◌, ◌*◌, ◌≤◌,
}
use sunder.Lexer.Kind.{TokenKind, token_eof}
use sunder.Parser.Tokens.{Parser, pure, if_any}
use sunder.Lexer.Scan.{Token}
use sunder.Parser.Tokens.{check_any, check_current, until_rounds, ok}
use sunder.Parser.Symbols.{Calls}
use sunder.Parser.Module.{calls, parse_module}
use sunder.Parser.Progress.Rules.{Ends}
use sunder.Parser.Progress.Whole.{enough_fuel, module-Keeps}
use sunder.Parser.Precedence.Rules.{
  Gives, Gives->>=-any, Gives-map, Gives-stuck, Gives-rounds, WhenOk, returned, Ends-WhenOk,
}
use sunder.Prelude.{arith}

module _ {Double : Type 0} where
  stop_or :
      {L : Type 0} (stops : List TokenKind) (nil : L) {q : Parser Double L}
      → Gives (λ l ts. check_any ts stops ≡ true) q
      → Gives (λ l ts. check_any ts stops ≡ true) (if_any stops (pure nil) q)
  stop_or stops nil {q} s = record {
    gives = λ ts. unfold if_any pure in go ts (check_any ts stops) refl;
  }
    where
      go :
          (ts : List (Token Double)) (b : Bool)
          → check_any ts stops ≡ b
          → WhenOk (λ r. check_any r.1 stops ≡ true) (if b then ok (nil, ts) else q ts)
      go ts true stop = returned stop
      go ts false more = s.gives ts

  -- A loop ends in front of the tokens that stop it.
  until-Gives :
      {A L : Type 0} (stops : List TokenKind) (p : Parser Double A) (nil : L) (cons : A → L → L)
      (n : ℕ)
      → Gives (λ l ts. check_any ts stops ≡ true) (until_rounds stops p nil cons n)
  unfolding until_rounds
  until-Gives stops p nil cons zero = Gives-stuck
  until-Gives stops p nil cons (suc n) = stop_or stops nil (
      Gives->>=-any p
        (λ a. Gives-map (cons a) (until-Gives stops p nil cons n) (λ l ts stop. stop)))

  module-Gives :
      (intern : List ℕ → ℕ) (c : Calls Double)
      → Gives (λ m ts. check_current ts token_eof ≡ true) (parse_module intern c)
  unfolding parse_module
  module-Gives intern c = Gives->>=-any _ (λ namespace. Gives->>=-any _ (λ imports.
      Gives-map _ (Gives-rounds (until-Gives (token_eof ∷ []) c.decl [] (λ d ds. d ∷ ds)))
        (λ decls ts stop. ground (arith, stop))))

  -- With three units of fuel for each token and three more, `parse_module` ends with an error, or it
  -- returns a module when the current token is the end of the file, and has added no token.
  pub module-at_end :
      (intern : List ℕ → ℕ) (ts : List (Token Double)) (f : ℕ)
      → 3 * length ts + 3 ≤ f
      → Ends
          (λ r. length r.1 ≤ length ts × check_current r.1 token_eof ≡ true)
          (parse_module intern (calls intern f) ts)
  module-at_end intern ts f le =
      Ends-WhenOk
        ((module-Keeps intern (enough_fuel intern (suc (length ts)) f (omega arith))).run ts
          (omega arith))
        ((module-Gives intern (calls intern f)).gives ts)

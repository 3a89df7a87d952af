-- ===== src/Parser/Progress/Loops.antt =====
-- The loops, and the set of the rules.
use sunder.Prelude.{ℕ, zero, suc, ◌≤◌, ◌≡◌, refl, List, Bool, false, true, arith}
use sunder.Lexer.Kind.{TokenKind, token_eof}
use sunder.Parser.Tokens.{Parser, until_rounds, until, while_rounds, while_current, separated}
use sunder.Parser.Kinds.{same_kind}
use sunder.Parser.Progress.Rules.{
  Shrinks, Keeps, ShrinksAt, Keeps-Shrinks, Shrinks-less, Shrinks-before, Keeps-before, Keeps-zero,
  Keeps-pure, Shrinks-fatal, Keeps-fatal, Shrinks-expect_current, Keeps-expect_current,
  ShrinksAt-advance_token, Shrinks->>=, Shrinks->>, ShrinksAt->>=, ShrinksAt->>, Keeps->>=,
  Keeps->>, Shrinks-late,
}
use sunder.Parser.Progress.Branches.{
  Shrinks-if_current, Keeps-if_current, Shrinks-if_any, Keeps-if_any, Shrinks-if_next,
  Keeps-if_next, Shrinks-on_kind, Keeps-on_kind_at, ShrinksAt-always, Keeps-rounds,
}

module _ {Double : Type 0} {A L : Type 0} {p : Parser Double A} (nil : L) (cons : A → L → L) where
  until-Keeps :
      (stops : List TokenKind) {n : ℕ} (m : ℕ)
      → Shrinks n p
      → m ≤ n
      → Keeps m (until_rounds stops p nil cons m)
  unfolding until_rounds
  until-Keeps stops zero s le = Keeps-zero _
  until-Keeps stops (suc m) s le = Keeps-if_any stops (Keeps-pure (suc m) nil) (
      Keeps-Shrinks (
        Shrinks->>= (Shrinks-less le s)
          (λ a. Keeps->>= (until-Keeps stops m s (omega arith)) (λ l. Keeps-pure m (cons a l)))))

  pub Keeps-until :
      (stops : List TokenKind) (n : ℕ) → Shrinks n p → Keeps n (until stops p nil cons)
  Keeps-until stops n s = Keeps-rounds _ (λ m le. until-Keeps stops m s le)

  while-Keeps :
      (kind : TokenKind) {n : ℕ} (m : ℕ)
      → Shrinks n p
      → m ≤ n
      → Keeps m (while_rounds kind p nil cons m)
  unfolding while_rounds
  while-Keeps kind zero s le = Keeps-zero _
  while-Keeps kind (suc m) s le =
      Keeps-if_current kind
        (Keeps-Shrinks (
          Shrinks->>= (Shrinks-less le s)
            (λ a. Keeps->>= (while-Keeps kind m s (omega arith)) (λ l. Keeps-pure m (cons a l)))))
        (Keeps-pure (suc m) nil)

  pub Keeps-while_current :
      (kind : TokenKind) (n : ℕ) → Shrinks n p → Keeps n (while_current kind p nil cons)
  Keeps-while_current kind n s = Keeps-rounds _ (λ m le. while-Keeps kind m s le)

module _ {Double : Type 0} {A L : Type 0} {p : Parser Double A} (nil : L) (cons : A → L → L) where
  pub Shrinks-separated :
      (separator : TokenKind) (n : ℕ)
      → same_kind token_eof separator ≡ false
      → Shrinks (suc n) p
      → Shrinks (suc n) (separated separator p nil cons)
  Shrinks-separated separator zero e s = Shrinks->>= s (λ a. Keeps-zero _)
  Shrinks-separated separator (suc n) e s = Shrinks->>= s (λ a.
      Keeps->>=
        (Keeps-while_current nil cons separator (suc n) (
          Shrinks->> (Shrinks-expect_current (suc n) separator e)
            (Keeps-before (Shrinks-before s))))
        (λ l. Keeps-pure (suc n) (cons a l)))

  pub Keeps-separated :
      (separator : TokenKind) (n : ℕ)
      → same_kind token_eof separator ≡ false
      → Shrinks n p
      → Keeps n (separated separator p nil cons)
  Keeps-separated separator zero e s = Keeps-zero _
  Keeps-separated separator (suc n) e s = Keeps-Shrinks (Shrinks-separated separator n e s)

-- The rules by the form of the parser, and what shrinks keeps.
pub ruleset steps = (
  refl, Keeps-pure, Shrinks-fatal, Keeps-fatal, Shrinks-expect_current, Keeps-expect_current,
  Shrinks->>=, Shrinks->>, Keeps->>=, Keeps->>, Shrinks-if_current, Keeps-if_current,
  Shrinks-if_any, Keeps-if_any, Shrinks-if_next, Keeps-if_next, Shrinks-separated, Keeps-separated,
  Keeps-until, Keeps-while_current,
)

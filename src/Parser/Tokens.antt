-- ===== src/Parser/Tokens.antt =====
-- `struct parser` of parse.c and its access to the tokens. The lexer gives the tokens one by one up
-- to the end of the file, and then the token of the end again and again: the parser's two tokens and
-- its lexer are the list of the tokens that are left before the end.
use sunder.Prelude.{ℕ, zero, suc, List, [], ◌∷◌, Bool, false, ◌&&◌, ◌||◌, if◌then◌else◌, length}
use sunder.Lexer.Kind.{TokenKind, token_eof}
use sunder.Parser.Kinds.{same_kind}
use sunder.Lexer.Scan.{Token, identifier, bytes}

-- The calls of `fatal`, without the token that is found.
pub data ParseError : Type 0 where
  expected : TokenKind → ParseError
  expected_declaration expected_member expected_type : ParseError
  unrecognized_prefix : TokenKind → ParseError
  no_template_parameters no_template_arguments : ParseError
  uninitialized_requires_type : ℕ → ParseError

-- `out_of_fuel` has no counterpart in the program.
pub data Result (A : Type 0) : Type 0 where
  out_of_fuel : Result A
  failed : ParseError → Result A
  ok : A → Result A

abbrev pub bind : {A B : Type 0} → Result A → (A → Result B) → Result B
bind out_of_fuel next = out_of_fuel
bind (failed e) next = failed e
bind (ok a) next = next a

module _ {Double : Type 0} where
  -- `parser->current_token.kind` and `parser->peek_token.kind`.
  abbrev pub current_kind : List (Token Double) → TokenKind
  current_kind [] = token_eof
  current_kind (t ∷ ts) = t.kind

  abbrev pub advanced : List (Token Double) → List (Token Double)
  advanced [] = []
  advanced (t ∷ ts) = ts

  abbrev pub check_current : List (Token Double) → TokenKind → Bool
  check_current ts kind = same_kind (current_kind ts) kind

  abbrev pub check_peek : List (Token Double) → TokenKind → Bool
  check_peek ts kind = check_current (advanced ts) kind

-- A function of the parser, with the tokens that it leaves.
abbrev pub Parser : Type 0 → Type 0 → Type 0
Parser Double A = List (Token Double) → Result (A × List (Token Double))

module _ {Double : Type 0} where
  unfoldable pub pure : {A : Type 0} → A → Parser Double A
  pure a ts = ok (a, ts)

  unfoldable pub fatal : {A : Type 0} → ParseError → Parser Double A
  fatal e ts = failed e

  infixl 5 ◌>>=◌ ◌>>◌
  unfoldable pub ◌>>=◌ : {A B : Type 0} → Parser Double A → (A → Parser Double B) → Parser Double B
  p >>= f = λ ts. bind (p ts) (λ r. f r.0 r.1)

  unfoldable pub ◌>>◌ : {A B : Type 0} → Parser Double A → Parser Double B → Parser Double B
  p >> q = λ ts. bind (p ts) (λ r. q r.1)

  -- The text of the identifier or of the bytes of a token.
  abbrev word : Token Double → List ℕ
  word t = elim t.contents [ identifier w ↦ w | bytes w ↦ w | other ↦ [] ]

  -- `advance_token`: the text of the token that is read, and that of its identifier or its bytes.
  unfoldable pub advance_token : Parser Double (List ℕ × List ℕ)
  advance_token [] = ok (([], []), [])
  advance_token (t ∷ ts) = ok ((t.text, word t), ts)

  unfoldable pub expect_current : TokenKind → Parser Double (List ℕ × List ℕ)
  unfolding advance_token
  expect_current kind ts =
      if check_current ts kind then advance_token ts else failed (expected kind)

  -- Branches on the kinds of the two tokens.
  unfoldable pub if_current :
      {A : Type 0} → TokenKind → Parser Double A → Parser Double A → Parser Double A
  if_current kind p q ts = if check_current ts kind then p ts else q ts

  abbrev pub check_any : List (Token Double) → List TokenKind → Bool
  check_any ts [] = false
  check_any ts (kind ∷ kinds) = check_current ts kind || check_any ts kinds

  unfoldable pub if_any :
      {A : Type 0} → List TokenKind → Parser Double A → Parser Double A → Parser Double A
  if_any kinds p q ts = if check_any ts kinds then p ts else q ts

  unfoldable pub if_next :
      {A : Type 0} → TokenKind → TokenKind → Parser Double A → Parser Double A → Parser Double A
  if_next kind peek p q ts = if check_current ts kind && check_peek ts peek then p ts else q ts

  unfoldable pub on_kind : {A : Type 0} → (TokenKind → Parser Double A) → Parser Double A
  on_kind f ts = f (current_kind ts) ts

  -- A loop that takes a token at least in every round, with a round for each token that is left.
  unfoldable pub stuck : {A : Type 0} → Parser Double A
  stuck ts = out_of_fuel

  unfoldable pub rounds : {A : Type 0} → (ℕ → Parser Double A) → Parser Double A
  rounds loop ts = loop (suc (length ts)) ts

  -- `while (!check_current(stops)) { push(item()); }`.
  unfoldable pub until_rounds :
      {A L : Type 0} → List TokenKind → Parser Double A → L → (A → L → L) → ℕ → Parser Double L
  until_rounds stops item nil cons zero = stuck
  until_rounds stops item nil cons (suc n) =
      let rest = until_rounds stops item nil cons n in
      if_any stops (pure nil) (item >>= λ a. rest >>= λ l. pure (cons a l))

  abbrev pub until :
      {A L : Type 0} → List TokenKind → Parser Double A → L → (A → L → L) → Parser Double L
  until stops item nil cons = rounds (until_rounds stops item nil cons)

  -- `while (check_current(kind)) { push(item()); }`.
  unfoldable pub while_rounds :
      {A L : Type 0} → TokenKind → Parser Double A → L → (A → L → L) → ℕ → Parser Double L
  while_rounds kind item nil cons zero = stuck
  while_rounds kind item nil cons (suc n) =
      let rest = while_rounds kind item nil cons n in
      if_current kind (item >>= λ a. rest >>= λ l. pure (cons a l)) (pure nil)

  abbrev pub while_current :
      {A L : Type 0} → TokenKind → Parser Double A → L → (A → L → L) → Parser Double L
  while_current kind item nil cons = rounds (while_rounds kind item nil cons)

  -- An item, and further ones behind separators.
  abbrev pub separated :
      {A L : Type 0} → TokenKind → Parser Double A → L → (A → L → L) → Parser Double L
  separated separator item nil cons = item >>= λ a.
      while_current separator (expect_current separator >> item) nil cons >>= λ l. pure (cons a l)

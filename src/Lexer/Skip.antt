-- ===== src/Lexer/Skip.antt =====
-- `skip_whitespace_and_comments` goes over blanks and comments, up to a token.
use sunder.Prelude.{
  ℕ, zero, suc, ◌≤◌, ◌+◌, List, [], ◌∷◌, true, false, ◌≡◌, refl, arith, length, ◌==◌, if◌then◌else◌,
  Bool-cases, inl, inr, get_or, ◌++◌, ◌⊎◌, ◌≢◌, sym,
}
use mathlib.Core.List.{append_assoc}
use native.Mathlib.Decide.{ℕ_discrete}
use sunder.Chars.{isspace}
use sunder.Lexer.Scan.{
  Lexer, skip_space, skip_whitespace, skip_line, skip_comment, is_skipped, skip_rounds,
  skip_whitespace_and_comments,
}

skip_space-le : (cs : List ℕ) (line : ℕ) → length (skip_space cs line).current ≤ length cs
unfolding skip_space
skip_space-le [] line = omega arith
skip_space-le (c ∷ cs) line =
    let rest = skip_space-le cs (line + (if c == 10 then 1 else 0)) in
    elim (Bool-cases (isspace c)) [ inl e ↦ rw e (omega arith) | inr e ↦ rw e (omega arith) ]

skip_line-le : (cs : List ℕ) (line : ℕ) → length (skip_line cs line).current ≤ length cs
unfolding skip_line
skip_line-le [] line = omega arith
skip_line-le (c ∷ cs) line = let rest = skip_line-le cs line in ground arith

skip_comment-le : (self : Lexer) → length (skip_comment self).current ≤ length self.current
skip_comment-le self =
    let line = skip_line-le self.current self.current_line in
    elim (Bool-cases (get_or self.current 0 0 == 35)) [
      | inl e ↦ rw e line
      | inr e ↦ rw e (omega arith)
    ]

-- A round takes a character.
round_lt :
    (c : ℕ) (cs : List ℕ) (line : ℕ)
    → is_skipped c ≡ true
    → length
        (skip_comment (skip_whitespace (record { current = c ∷ cs; current_line = line }))).current
      ≤ length cs
round_lt c cs line h = elim (Bool-cases (isspace c)) [
  | inl e ↦
      let space : length (skip_space (c ∷ cs) line).current ≤ length cs =
        unfold skip_space in rw e (skip_space-le cs (line + (if c == 10 then 1 else 0))) in
      omega (arith, skip_comment-le (skip_space (c ∷ cs) line))
  | inr e ↦
      let space : skip_space (c ∷ cs) line ≡ record { current = c ∷ cs; current_line = line } =
        unfold skip_space in rw e in
      let hash : (c == 35) ≡ true = rw e at h in
      let nonzero : (c == 0) ≡ false = ground arith in
      rw space
        (rw hash (unfold skip_line in rw nonzero (let rest = skip_line-le cs line in ground arith)))
]

stops :
    (fuel : ℕ) (cs : List ℕ) (line : ℕ)
    → length cs ≤ fuel
    → is_skipped
        (get_or (skip_rounds fuel (record { current = cs; current_line = line })).current 0 0)
      ≡ false
unfolding isspace
stops zero [] line h = refl
stops zero (c ∷ cs) line h = absurd (omega arith)
stops (suc fuel) [] line h = refl
stops (suc fuel) (c ∷ cs) line h =
    let self' = skip_comment (skip_whitespace (record { current = c ∷ cs; current_line = line })) in
    elim (Bool-cases (is_skipped c)) [
      | inl e ↦ rw e (
          stops fuel self'.current self'.current_line
            (let shorter = round_lt c cs line e in omega arith))
      | inr e ↦ rw e e
    ]

-- Characters of one line.
abbrev pub InLine : List ℕ → Type 0
InLine [] = Unit
InLine (c ∷ cs) = (c ≢ 10) × (c ≢ 0) × InLine cs

-- A space, or a character from the tab to the carriage return.
abbrev pub IsBlank : ℕ → Type 0
IsBlank c = (c ≡ 32) ⊎ ((9 ≤ c) × (c ≤ 13))

-- What may stand in front of a token, and the lines on the way: `Trivia cs line rest last` if the
-- text `cs`, at `line`, is blanks and comments, and then `rest`, at the line `last`. The last
-- comment may end with the source.
pub data Trivia : List ℕ → ℕ → List ℕ → ℕ → Type 0 where
  nothing : (cs : List ℕ) (line : ℕ) → Trivia cs line cs line
  blank : (c : ℕ) (cs : List ℕ) (line : ℕ) → IsBlank c → c ≢ 10 → Trivia (c ∷ cs) line cs line
  end_of_line : (cs : List ℕ) (line : ℕ) → Trivia (10 ∷ cs) line cs (line + 1)
  comment :
      (body rest : List ℕ) (line : ℕ)
      → InLine body
      → Trivia (35 ∷ (body ++ 10 ∷ rest)) line rest (line + 1)
  last_comment :
      (body rest : List ℕ) (line : ℕ)
      → InLine body
      → get_or rest 0 0 ≡ 0
      → Trivia (35 ∷ (body ++ rest)) line rest line
  then_also :
      {cs ds es : List ℕ} {k m n : ℕ} → Trivia cs k ds m → Trivia ds m es n → Trivia cs k es n

-- From one state of the lexer to another.
abbrev pub Between : Lexer → Lexer → Type 0
Between before after = Trivia before.current before.current_line after.current after.current_line

isspace-IsBlank : (c : ℕ) → isspace c ≡ true → IsBlank c
unfolding isspace
isspace-IsBlank c h = ground arith

blank_step :
    (c : ℕ) (cs : List ℕ) (line : ℕ)
    → isspace c ≡ true
    → Trivia (c ∷ cs) line cs (line + (if c == 10 then 1 else 0))
blank_step c cs line h = elim (ℕ_discrete c 10) [
  | yes e ↦ rw e (end_of_line cs line)
  | no ne ↦
      let same : line + (if c == 10 then 1 else 0) ≡ line = ground arith in
      rw same (blank c cs line (isspace-IsBlank c h) ne)
]

skip_space-Trivia :
    (cs : List ℕ) (line : ℕ)
    → Between (record { current = cs; current_line = line }) (skip_space cs line)
unfolding skip_space
skip_space-Trivia [] line = nothing [] line
skip_space-Trivia (c ∷ cs) line =
    let rest = skip_space-Trivia cs (line + (if c == 10 then 1 else 0)) in
    elim (Bool-cases (isspace c)) [
      | inl e ↦ rw e (then_also (blank_step c cs line e) rest)
      | inr e ↦ rw e (nothing (c ∷ cs) line)
    ]

-- The rest of a comment.
skip_line-Trivia :
    (before cs : List ℕ) (line : ℕ)
    → InLine before
    → Between (record { current = 35 ∷ (before ++ cs); current_line = line }) (skip_line cs line)
unfolding skip_line
skip_line-Trivia before [] line b = last_comment before [] line b refl
skip_line-Trivia before (c ∷ cs) line b = elim (Bool-cases (c == 0)) [
  | inl e ↦ rw e (last_comment before (c ∷ cs) line b (ground arith))
  | inr nonzero ↦ elim (Bool-cases (c == 10)) [
    | inl e ↦ let same : c ≡ 10 = ground arith in rw same (comment before cs line b)
    | inr other ↦
        let longer : before ++ c ∷ cs ≡ (before ++ c ∷ []) ++ cs =
          sym (append_assoc before (c ∷ []) cs) in
        rw (nonzero, other, longer)
          (skip_line-Trivia (before ++ c ∷ []) cs line
            (InLine-append before c b (ground arith) (ground arith)))
  ]
]
  where
    InLine-append :
        (before : List ℕ) (c : ℕ) → InLine before → c ≢ 10 → c ≢ 0 → InLine (before ++ c ∷ [])
    InLine-append [] c b p q = (p, q, tt)
    InLine-append (x ∷ before) c b p q = (b.0, b.1, InLine-append before c b.2 p q)

skip_comment-Trivia : (self : Lexer) → Between self (skip_comment self)
skip_comment-Trivia self = of_text self.current self.current_line
  where
    of_text :
        (cs : List ℕ) (line : ℕ)
        → Between
            (record { current = cs; current_line = line })
            (skip_comment (record { current = cs; current_line = line }))
    of_text [] line = nothing [] line
    of_text (c ∷ cs) line = elim (ℕ_discrete c 35) [
      | yes e ↦ rw e (unfold skip_line in skip_line-Trivia [] cs line tt)
      | no ne ↦ let other : (c == 35) ≡ false = ground arith in rw other (nothing (c ∷ cs) line)
    ]

rounds-Trivia : (fuel : ℕ) (self : Lexer) → Between self (skip_rounds fuel self)
rounds-Trivia zero self = nothing self.current self.current_line
rounds-Trivia (suc fuel) self = elim (Bool-cases (is_skipped (get_or self.current 0 0))) [
  | inl e ↦ rw e (
      then_also (skip_space-Trivia self.current self.current_line) (
        then_also (skip_comment-Trivia (skip_whitespace self))
          (rounds-Trivia fuel (skip_comment (skip_whitespace self)))))
  | inr e ↦ rw e (nothing self.current self.current_line)
]

unskipped-no-IsBlank : (c : ℕ) → is_skipped c ≡ false → ¬ IsBlank c
unfolding isspace
unskipped-no-IsBlank c h b = ground arith

-- What `skip_whitespace_and_comments` makes of `before`.
pub record Skips (before after : Lexer) : Type 0 where
  pub no_blank : ¬ IsBlank (get_or after.current 0 0)
  pub no_comment : get_or after.current 0 0 ≢ 35
  pub skipped : Between before after

-- `skip_whitespace_and_comments` skips nothing but blanks and comments, counts the ends of lines
-- among them, and stops where neither a blank nor a comment begins.
pub skip-Skips : (self : Lexer) → Skips self (skip_whitespace_and_comments self)
skip-Skips self =
    unfold skip_whitespace_and_comments in
    let self' = skip_rounds (length self.current) self in
    let stopped = stops (length self.current) self.current self.current_line (omega arith) in
    record {
      no_blank = unskipped-no-IsBlank (get_or self'.current 0 0) stopped;
      no_comment = ground arith;
      skipped = rounds-Trivia (length self.current) self;
    }

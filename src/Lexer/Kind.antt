-- ===== src/Lexer/Kind.antt =====
-- `enum token_kind` of sunder.h, and the table `token_kind_vstrs` of lex.c.
use sunder.Prelude.{ℕ, List, [], ◌∷◌}

pub data TokenKind : Type 0 where
  token_true token_false token_not token_or token_and token_namespace token_import : TokenKind
  token_var token_let token_func token_struct token_union token_enum token_type : TokenKind
  token_extend token_extern token_switch token_return token_assert token_defer : TokenKind
  token_if token_elif token_else token_when token_elwhen token_for token_in : TokenKind
  token_break token_continue token_defined token_alignof token_startof : TokenKind
  token_countof token_sizeof token_typeof token_fileof token_lineof token_uninit : TokenKind
  token_embed token_plus_percent_assign token_dash_percent_assign : TokenKind
  token_star_percent_assign token_plus_assign token_dash_assign token_star_assign : TokenKind
  token_fslash_assign token_percent_assign token_shl_assign token_shr_assign : TokenKind
  token_pipe_assign token_caret_assign token_ampersand_assign token_shl token_shr : TokenKind
  token_eq token_ne token_le token_lt token_ge token_gt token_assign : TokenKind
  token_plus_percent token_dash_percent token_star_percent token_plus token_dash : TokenKind
  token_star token_fslash token_percent token_tilde token_pipe token_caret : TokenKind
  token_ampersand token_lparen token_rparen token_lbrace token_rbrace : TokenKind
  token_lbracket token_rbracket token_comma token_ellipsis token_dot_star token_dot : TokenKind
  token_colon_colon token_colon token_semicolon token_identifier token_integer : TokenKind
  token_ieee754 token_character token_bytes token_eof : TokenKind

abbrev pub token_kind_vstr : TokenKind → List ℕ
token_kind_vstr token_true = b't' ∷ b'r' ∷ b'u' ∷ b'e' ∷ []
token_kind_vstr token_false = b'f' ∷ b'a' ∷ b'l' ∷ b's' ∷ b'e' ∷ []
token_kind_vstr token_not = b'n' ∷ b'o' ∷ b't' ∷ []
token_kind_vstr token_or = b'o' ∷ b'r' ∷ []
token_kind_vstr token_and = b'a' ∷ b'n' ∷ b'd' ∷ []
token_kind_vstr token_namespace = b'n' ∷ b'a' ∷ b'm' ∷ b'e' ∷ b's' ∷ b'p' ∷ b'a' ∷ b'c' ∷ b'e' ∷ []
token_kind_vstr token_import = b'i' ∷ b'm' ∷ b'p' ∷ b'o' ∷ b'r' ∷ b't' ∷ []
token_kind_vstr token_var = b'v' ∷ b'a' ∷ b'r' ∷ []
token_kind_vstr token_let = b'l' ∷ b'e' ∷ b't' ∷ []
token_kind_vstr token_func = b'f' ∷ b'u' ∷ b'n' ∷ b'c' ∷ []
token_kind_vstr token_struct = b's' ∷ b't' ∷ b'r' ∷ b'u' ∷ b'c' ∷ b't' ∷ []
token_kind_vstr token_union = b'u' ∷ b'n' ∷ b'i' ∷ b'o' ∷ b'n' ∷ []
token_kind_vstr token_enum = b'e' ∷ b'n' ∷ b'u' ∷ b'm' ∷ []
token_kind_vstr token_type = b't' ∷ b'y' ∷ b'p' ∷ b'e' ∷ []
token_kind_vstr token_extend = b'e' ∷ b'x' ∷ b't' ∷ b'e' ∷ b'n' ∷ b'd' ∷ []
token_kind_vstr token_extern = b'e' ∷ b'x' ∷ b't' ∷ b'e' ∷ b'r' ∷ b'n' ∷ []
token_kind_vstr token_switch = b's' ∷ b'w' ∷ b'i' ∷ b't' ∷ b'c' ∷ b'h' ∷ []
token_kind_vstr token_return = b'r' ∷ b'e' ∷ b't' ∷ b'u' ∷ b'r' ∷ b'n' ∷ []
token_kind_vstr token_assert = b'a' ∷ b's' ∷ b's' ∷ b'e' ∷ b'r' ∷ b't' ∷ []
token_kind_vstr token_defer = b'd' ∷ b'e' ∷ b'f' ∷ b'e' ∷ b'r' ∷ []
token_kind_vstr token_if = b'i' ∷ b'f' ∷ []
token_kind_vstr token_elif = b'e' ∷ b'l' ∷ b'i' ∷ b'f' ∷ []
token_kind_vstr token_else = b'e' ∷ b'l' ∷ b's' ∷ b'e' ∷ []
token_kind_vstr token_when = b'w' ∷ b'h' ∷ b'e' ∷ b'n' ∷ []
token_kind_vstr token_elwhen = b'e' ∷ b'l' ∷ b'w' ∷ b'h' ∷ b'e' ∷ b'n' ∷ []
token_kind_vstr token_for = b'f' ∷ b'o' ∷ b'r' ∷ []
token_kind_vstr token_in = b'i' ∷ b'n' ∷ []
token_kind_vstr token_break = b'b' ∷ b'r' ∷ b'e' ∷ b'a' ∷ b'k' ∷ []
token_kind_vstr token_continue = b'c' ∷ b'o' ∷ b'n' ∷ b't' ∷ b'i' ∷ b'n' ∷ b'u' ∷ b'e' ∷ []
token_kind_vstr token_defined = b'd' ∷ b'e' ∷ b'f' ∷ b'i' ∷ b'n' ∷ b'e' ∷ b'd' ∷ []
token_kind_vstr token_alignof = b'a' ∷ b'l' ∷ b'i' ∷ b'g' ∷ b'n' ∷ b'o' ∷ b'f' ∷ []
token_kind_vstr token_startof = b's' ∷ b't' ∷ b'a' ∷ b'r' ∷ b't' ∷ b'o' ∷ b'f' ∷ []
token_kind_vstr token_countof = b'c' ∷ b'o' ∷ b'u' ∷ b'n' ∷ b't' ∷ b'o' ∷ b'f' ∷ []
token_kind_vstr token_sizeof = b's' ∷ b'i' ∷ b'z' ∷ b'e' ∷ b'o' ∷ b'f' ∷ []
token_kind_vstr token_typeof = b't' ∷ b'y' ∷ b'p' ∷ b'e' ∷ b'o' ∷ b'f' ∷ []
token_kind_vstr token_fileof = b'f' ∷ b'i' ∷ b'l' ∷ b'e' ∷ b'o' ∷ b'f' ∷ []
token_kind_vstr token_lineof = b'l' ∷ b'i' ∷ b'n' ∷ b'e' ∷ b'o' ∷ b'f' ∷ []
token_kind_vstr token_uninit = b'u' ∷ b'n' ∷ b'i' ∷ b'n' ∷ b'i' ∷ b't' ∷ []
token_kind_vstr token_embed = b'e' ∷ b'm' ∷ b'b' ∷ b'e' ∷ b'd' ∷ []
token_kind_vstr token_plus_percent_assign = b'+' ∷ b'%' ∷ b'=' ∷ []
token_kind_vstr token_dash_percent_assign = b'-' ∷ b'%' ∷ b'=' ∷ []
token_kind_vstr token_star_percent_assign = b'*' ∷ b'%' ∷ b'=' ∷ []
token_kind_vstr token_plus_assign = b'+' ∷ b'=' ∷ []
token_kind_vstr token_dash_assign = b'-' ∷ b'=' ∷ []
token_kind_vstr token_star_assign = b'*' ∷ b'=' ∷ []
token_kind_vstr token_fslash_assign = b'/' ∷ b'=' ∷ []
token_kind_vstr token_percent_assign = b'%' ∷ b'=' ∷ []
token_kind_vstr token_shl_assign = b'<' ∷ b'<' ∷ b'=' ∷ []
token_kind_vstr token_shr_assign = b'>' ∷ b'>' ∷ b'=' ∷ []
token_kind_vstr token_pipe_assign = b'|' ∷ b'=' ∷ []
token_kind_vstr token_caret_assign = b'^' ∷ b'=' ∷ []
token_kind_vstr token_ampersand_assign = b'&' ∷ b'=' ∷ []
token_kind_vstr token_shl = b'<' ∷ b'<' ∷ []
token_kind_vstr token_shr = b'>' ∷ b'>' ∷ []
token_kind_vstr token_eq = b'=' ∷ b'=' ∷ []
token_kind_vstr token_ne = b'!' ∷ b'=' ∷ []
token_kind_vstr token_le = b'<' ∷ b'=' ∷ []
token_kind_vstr token_lt = b'<' ∷ []
token_kind_vstr token_ge = b'>' ∷ b'=' ∷ []
token_kind_vstr token_gt = b'>' ∷ []
token_kind_vstr token_assign = b'=' ∷ []
token_kind_vstr token_plus_percent = b'+' ∷ b'%' ∷ []
token_kind_vstr token_dash_percent = b'-' ∷ b'%' ∷ []
token_kind_vstr token_star_percent = b'*' ∷ b'%' ∷ []
token_kind_vstr token_plus = b'+' ∷ []
token_kind_vstr token_dash = b'-' ∷ []
token_kind_vstr token_star = b'*' ∷ []
token_kind_vstr token_fslash = b'/' ∷ []
token_kind_vstr token_percent = b'%' ∷ []
token_kind_vstr token_tilde = b'~' ∷ []
token_kind_vstr token_pipe = b'|' ∷ []
token_kind_vstr token_caret = b'^' ∷ []
token_kind_vstr token_ampersand = b'&' ∷ []
token_kind_vstr token_lparen = b'(' ∷ []
token_kind_vstr token_rparen = b')' ∷ []
token_kind_vstr token_lbrace = b'{' ∷ []
token_kind_vstr token_rbrace = b'}' ∷ []
token_kind_vstr token_lbracket = b'[' ∷ []
token_kind_vstr token_rbracket = b']' ∷ []
token_kind_vstr token_comma = b',' ∷ []
token_kind_vstr token_ellipsis = b'.' ∷ b'.' ∷ b'.' ∷ []
token_kind_vstr token_dot_star = b'.' ∷ b'*' ∷ []
token_kind_vstr token_dot = b'.' ∷ []
token_kind_vstr token_colon_colon = b':' ∷ b':' ∷ []
token_kind_vstr token_colon = b':' ∷ []
token_kind_vstr token_semicolon = b';' ∷ []
token_kind_vstr token_identifier =
    b'i' ∷ b'd' ∷ b'e' ∷ b'n' ∷ b't' ∷ b'i' ∷ b'f' ∷ b'i' ∷ b'e' ∷ b'r' ∷ []
token_kind_vstr token_integer = b'i' ∷ b'n' ∷ b't' ∷ b'e' ∷ b'g' ∷ b'e' ∷ b'r' ∷ []
token_kind_vstr token_ieee754 =
    b'f' ∷ b'l' ∷ b'o' ∷ b'a' ∷ b't' ∷ b'i' ∷ b'n' ∷ b'g' ∷ b' ' ∷ b'p' ∷ b'o' ∷ b'i' ∷ b'n' ∷ b't'
    ∷ b' ' ∷ b'n' ∷ b'u' ∷ b'm' ∷ b'b' ∷ b'e' ∷ b'r' ∷ []
token_kind_vstr token_character = b'c' ∷ b'h' ∷ b'a' ∷ b'r' ∷ b'a' ∷ b'c' ∷ b't' ∷ b'e' ∷ b'r' ∷ []
token_kind_vstr token_bytes = b'b' ∷ b'y' ∷ b't' ∷ b'e' ∷ b's' ∷ []
token_kind_vstr token_eof =
    b'e' ∷ b'n' ∷ b'd' ∷ b'-' ∷ b'o' ∷ b'f' ∷ b'-' ∷ b'f' ∷ b'i' ∷ b'l' ∷ b'e' ∷ []

-- From `KEYWORDS_FIRST` to `KEYWORDS_LAST`.
abbrev pub keywords : List TokenKind
keywords =
    token_true ∷ token_false ∷ token_not ∷ token_or ∷ token_and ∷ token_namespace ∷ token_import
    ∷ token_var ∷ token_let ∷ token_func ∷ token_struct ∷ token_union ∷ token_enum ∷ token_type
    ∷ token_extend ∷ token_extern ∷ token_switch ∷ token_return ∷ token_assert ∷ token_defer
    ∷ token_if ∷ token_elif ∷ token_else ∷ token_when ∷ token_elwhen ∷ token_for ∷ token_in
    ∷ token_break ∷ token_continue ∷ token_defined ∷ token_alignof ∷ token_startof ∷ token_countof
    ∷ token_sizeof ∷ token_typeof ∷ token_fileof ∷ token_lineof ∷ token_uninit ∷ token_embed ∷ []

-- From `SIGILS_FIRST` to `SIGILS_LAST`.
abbrev pub sigils : List TokenKind
sigils =
    token_plus_percent_assign ∷ token_dash_percent_assign ∷ token_star_percent_assign
    ∷ token_plus_assign ∷ token_dash_assign ∷ token_star_assign ∷ token_fslash_assign
    ∷ token_percent_assign ∷ token_shl_assign ∷ token_shr_assign ∷ token_pipe_assign
    ∷ token_caret_assign ∷ token_ampersand_assign ∷ token_shl ∷ token_shr ∷ token_eq ∷ token_ne
    ∷ token_le ∷ token_lt ∷ token_ge ∷ token_gt ∷ token_assign ∷ token_plus_percent
    ∷ token_dash_percent ∷ token_star_percent ∷ token_plus ∷ token_dash ∷ token_star ∷ token_fslash
    ∷ token_percent ∷ token_tilde ∷ token_pipe ∷ token_caret ∷ token_ampersand ∷ token_lparen
    ∷ token_rparen ∷ token_lbrace ∷ token_rbrace ∷ token_lbracket ∷ token_rbracket ∷ token_comma
    ∷ token_ellipsis ∷ token_dot_star ∷ token_dot ∷ token_colon_colon ∷ token_colon
    ∷ token_semicolon ∷ []

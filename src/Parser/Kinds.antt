-- ===== src/Parser/Kinds.antt =====
-- The comparison of the kinds of tokens.
use sunder.Prelude.{ℕ, Bool, ◌==◌}
use sunder.Lexer.Kind.{
  TokenKind, token_true, token_false, token_not, token_or, token_and, token_namespace, token_import,
  token_var, token_let, token_func, token_struct, token_union, token_enum, token_type, token_extend,
  token_extern, token_switch, token_return, token_assert, token_defer, token_if, token_elif,
  token_else, token_when, token_elwhen, token_for, token_in, token_break, token_continue,
  token_defined, token_alignof, token_startof, token_countof, token_sizeof, token_typeof,
  token_fileof, token_lineof, token_uninit, token_embed, token_plus_percent_assign,
  token_dash_percent_assign, token_star_percent_assign, token_plus_assign, token_dash_assign,
  token_star_assign, token_fslash_assign, token_percent_assign, token_shl_assign, token_shr_assign,
  token_pipe_assign, token_caret_assign, token_ampersand_assign, token_shl, token_shr, token_eq,
  token_ne, token_le, token_lt, token_ge, token_gt, token_assign, token_plus_percent,
  token_dash_percent, token_star_percent, token_plus, token_dash, token_star, token_fslash,
  token_percent, token_tilde, token_pipe, token_caret, token_ampersand, token_lparen, token_rparen,
  token_lbrace, token_rbrace, token_lbracket, token_rbracket, token_comma, token_ellipsis,
  token_dot_star, token_dot, token_colon_colon, token_colon, token_semicolon, token_identifier,
  token_integer, token_ieee754, token_character, token_bytes, token_eof,
}

-- The position of a kind in `enum token_kind`, by which kinds are compared.
abbrev pub kind_number : TokenKind → ℕ
kind_number token_true = 0
kind_number token_false = 1
kind_number token_not = 2
kind_number token_or = 3
kind_number token_and = 4
kind_number token_namespace = 5
kind_number token_import = 6
kind_number token_var = 7
kind_number token_let = 8
kind_number token_func = 9
kind_number token_struct = 10
kind_number token_union = 11
kind_number token_enum = 12
kind_number token_type = 13
kind_number token_extend = 14
kind_number token_extern = 15
kind_number token_switch = 16
kind_number token_return = 17
kind_number token_assert = 18
kind_number token_defer = 19
kind_number token_if = 20
kind_number token_elif = 21
kind_number token_else = 22
kind_number token_when = 23
kind_number token_elwhen = 24
kind_number token_for = 25
kind_number token_in = 26
kind_number token_break = 27
kind_number token_continue = 28
kind_number token_defined = 29
kind_number token_alignof = 30
kind_number token_startof = 31
kind_number token_countof = 32
kind_number token_sizeof = 33
kind_number token_typeof = 34
kind_number token_fileof = 35
kind_number token_lineof = 36
kind_number token_uninit = 37
kind_number token_embed = 38
kind_number token_plus_percent_assign = 39
kind_number token_dash_percent_assign = 40
kind_number token_star_percent_assign = 41
kind_number token_plus_assign = 42
kind_number token_dash_assign = 43
kind_number token_star_assign = 44
kind_number token_fslash_assign = 45
kind_number token_percent_assign = 46
kind_number token_shl_assign = 47
kind_number token_shr_assign = 48
kind_number token_pipe_assign = 49
kind_number token_caret_assign = 50
kind_number token_ampersand_assign = 51
kind_number token_shl = 52
kind_number token_shr = 53
kind_number token_eq = 54
kind_number token_ne = 55
kind_number token_le = 56
kind_number token_lt = 57
kind_number token_ge = 58
kind_number token_gt = 59
kind_number token_assign = 60
kind_number token_plus_percent = 61
kind_number token_dash_percent = 62
kind_number token_star_percent = 63
kind_number token_plus = 64
kind_number token_dash = 65
kind_number token_star = 66
kind_number token_fslash = 67
kind_number token_percent = 68
kind_number token_tilde = 69
kind_number token_pipe = 70
kind_number token_caret = 71
kind_number token_ampersand = 72
kind_number token_lparen = 73
kind_number token_rparen = 74
kind_number token_lbrace = 75
kind_number token_rbrace = 76
kind_number token_lbracket = 77
kind_number token_rbracket = 78
kind_number token_comma = 79
kind_number token_ellipsis = 80
kind_number token_dot_star = 81
kind_number token_dot = 82
kind_number token_colon_colon = 83
kind_number token_colon = 84
kind_number token_semicolon = 85
kind_number token_identifier = 86
kind_number token_integer = 87
kind_number token_ieee754 = 88
kind_number token_character = 89
kind_number token_bytes = 90
kind_number token_eof = 91

abbrev pub same_kind : TokenKind → TokenKind → Bool
same_kind a b = kind_number a == kind_number b

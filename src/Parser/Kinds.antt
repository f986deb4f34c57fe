-- ===== src/Parser/Kinds.antt =====
-- The comparison of token kinds, by their positions in the enumeration `TokenKind`.
use noe_code.Prelude.{ℕ, Bool, false, ◌||◌, List, [], ◌∷◌, ◌==◌}
use noe_code.Ast.{TokenKind}

abbrev pub token_index : TokenKind → ℕ
token_index TokenKind.eof = 0
token_index TokenKind.identifier = 1
token_index TokenKind.integer = 2
token_index TokenKind.float = 3
token_index TokenKind.string = 4
token_index TokenKind.line_comment = 5
token_index TokenKind.block_comment = 6
token_index TokenKind.let_kw = 7
token_index TokenKind.const_kw = 8
token_index TokenKind.function = 9
token_index TokenKind.if_kw = 10
token_index TokenKind.else_kw = 11
token_index TokenKind.while_kw = 12
token_index TokenKind.repeat = 13
token_index TokenKind.return = 14
token_index TokenKind.true_kw = 15
token_index TokenKind.false_kw = 16
token_index TokenKind.null = 17
token_index TokenKind.import = 18
token_index TokenKind.module_kw = 19
token_index TokenKind.record_kw = 20
token_index TokenKind.class = 21
token_index TokenKind.extern = 22
token_index TokenKind.export = 23
token_index TokenKind.volatile = 24
token_index TokenKind.as_kw = 25
token_index TokenKind.throw = 26
token_index TokenKind.try = 27
token_index TokenKind.unsafe = 28
token_index TokenKind.l_paren = 29
token_index TokenKind.r_paren = 30
token_index TokenKind.l_brace = 31
token_index TokenKind.r_brace = 32
token_index TokenKind.l_bracket = 33
token_index TokenKind.r_bracket = 34
token_index TokenKind.comma = 35
token_index TokenKind.colon = 36
token_index TokenKind.semicolon = 37
token_index TokenKind.dot = 38
token_index TokenKind.plus = 39
token_index TokenKind.minus = 40
token_index TokenKind.star = 41
token_index TokenKind.slash = 42
token_index TokenKind.percent = 43
token_index TokenKind.ampersand = 44
token_index TokenKind.bang = 45
token_index TokenKind.bang_equal = 46
token_index TokenKind.equal = 47
token_index TokenKind.equal_equal = 48
token_index TokenKind.less = 49
token_index TokenKind.less_equal = 50
token_index TokenKind.greater = 51
token_index TokenKind.greater_equal = 52
token_index TokenKind.and_and = 53
token_index TokenKind.or_or = 54

abbrev pub same_kind : TokenKind → TokenKind → Bool
same_kind a b = token_index a == token_index b

-- Whether a kind is one of the list.
abbrev pub holds_kind : List TokenKind → TokenKind → Bool
holds_kind [] kind = false
holds_kind (k ∷ kinds) kind = same_kind kind k || holds_kind kinds kind

-- ===== src/Parser/Expressions.antt =====
-- Expressions and type names (Compiler/bootstrap/parser_host.cpp). Each loop is on fuel, `n`, and so is
-- each recursion of a function into itself. A function that parses operands of a level takes the
-- parser of that level, and `expr` is `expression()` where it stands in brackets.
use noe_code.Prelude.{
  ℕ, zero, suc, Bool, true, false, List, [], ◌∷◌, ◌++◌, Option, none, some, Text, codes, ◌==◌,
  if◌then◌else◌,
}
use noe_code.Nir.{Value, int, double, boolean, text, monostate}
use noe_code.Types.Names.{stoull}
use noe_code.Interp.Arith.{wrapped}
use noe_code.Ast.{
  TokenKind, Token, Span, Expr, Exprs, no_exprs, more_exprs, literal, name, unary, binary, call,
  cast, index, member, array, CallInfo, IndexInfo, MemberInfo,
}
use noe_code.Parser.Kinds.{same_kind}
use noe_code.Parser.State.{
  Parse, ◌>>=◌, pure, throw_other, no_fuel, previous_token, on_match, match, on_check, report, fail,
  consume,
}

-- The character that an escape stands for.
unfoldable pub unescaped : ℕ → ℕ
unescaped c =
    if c == b'n'
    then 10
    else if c == b'r'
    then 13
    else if c == b't'
    then 9
    else if c == b'0'
    then 0
    else c

-- The loop of `decodeStringLiteral`, behind the opening quote: the last character is left out.
unfoldable pub decode_from : Text → Text
unfolding unescaped
decode_from [] = []
decode_from (c ∷ []) = []
decode_from (c ∷ d ∷ []) = c ∷ []
decode_from (c ∷ d ∷ e ∷ s) =
    let plain = c ∷ decode_from (d ∷ e ∷ s) in
    let escape = unescaped d ∷ decode_from (e ∷ s) in if c == 92 then escape else plain

unfoldable pub decode_string_literal : Text → Text
unfolding decode_from
decode_string_literal [] = []
decode_string_literal (quote ∷ s) = decode_from s

-- `parseTypeName`
unfoldable pub type_name : ℕ → Parse Text
type_name zero = no_fuel
type_name (suc n) =
    on_match (TokenKind.star ∷ [])
      (do
        is_volatile ← match (TokenKind.volatile ∷ [])
        rest ← type_name n
        pure (codes "*" ++ ((if is_volatile then codes "volatile " else codes "") ++ rest)))
      (on_match (TokenKind.l_bracket ∷ [])
        (on_match (TokenKind.r_bracket ∷ []) (do rest ← type_name n; pure (codes "[]" ++ rest))
          (do
            element ← type_name n
            _ ←
                consume TokenKind.semicolon
                  (codes "expected ';' between array element type and length")
            count ← consume TokenKind.integer (codes "expected fixed array length")
            _ ← consume TokenKind.r_bracket (codes "expected ']' after fixed array type")
            pure (codes "[" ++ (element ++ (codes ";" ++ (count.lexeme ++ codes "]"))))))
        (do base ← consume TokenKind.identifier (codes "expected type name"); pure base.lexeme))

-- `do{...}while(match({TokenKind::Comma}));`
unfoldable pub comma_list : {A : Type 0} → ℕ → Parse A → Parse (List A)
comma_list zero p = no_fuel
comma_list (suc n) p = do
  x ← p
  on_match (TokenKind.comma ∷ []) (do xs ← comma_list n p; pure (x ∷ xs)) (pure (x ∷ []))

unfoldable pub exprs_of : List Expr → Exprs
exprs_of [] = no_exprs
exprs_of (e ∷ es) = more_exprs e (exprs_of es)

-- The fields that a checker fills in have the values of their declarations.
abbrev pub call_info : CallInfo
call_info = record { builtin_width = 8; builtin_count = 0; builtin_text = codes "" }

abbrev pub index_info : IndexInfo
index_info = record {
  element_size = 1;
  volatile_access = false;
  base_is_slice = false;
  has_fixed_bound = false;
  fixed_bound = 0;
}

abbrev pub member_info : MemberInfo
member_info = record {
  offset = 0;
  field_size = 0;
  volatile_access = false;
  base_is_pointer = false;
}

-- `static_cast<std::int64_t>(std::stoull(lexeme,nullptr,0))`: `std::stoull` throws where the value does
-- not fit, and no handler of the parser catches it.
unfoldable pub integer_value : Text → Option Value
unfolding stoull wrapped
integer_value lexeme = elim (stoull lexeme) [ none ↦ none | some v ↦ some (int (wrapped v)) ]

unfoldable pub literal_or_throw : Span → Option Value → Parse Expr
literal_or_throw span none = throw_other
literal_or_throw span (some v) = pure (literal span v)

-- `if(!check(close))do{...}while(match({TokenKind::Comma}));`
unfoldable pub items_before : {A : Type 0} → ℕ → TokenKind → Parse A → Parse (List A)
unfolding comma_list
items_before n close p = on_check (close ∷ []) (pure []) (comma_list n p)

module _ (stod : Text → Option ℕ) (n : ℕ) (expr : Parse Expr) where
  -- The literal that a token stands for, and whether it is one.
  unfoldable pub literal_value : Token → Option (Option Value)
  unfolding integer_value decode_string_literal
  literal_value t = elim t.kind [
    | TokenKind.integer ↦ some (integer_value t.lexeme)
    | TokenKind.float ↦ some (elim (stod t.lexeme) [ none ↦ none | some d ↦ some (double d) ])
    | TokenKind.true_kw ↦ some (some (boolean true))
    | TokenKind.false_kw ↦ some (some (boolean false))
    | TokenKind.null ↦ some (some monostate)
    | TokenKind.string ↦ some (some (text (decode_string_literal t.lexeme)))
    | _ ↦ none
  ]

  abbrev pub literal_kinds : List TokenKind
  literal_kinds =
      TokenKind.integer ∷ TokenKind.float ∷ TokenKind.true_kw ∷ TokenKind.false_kw ∷ TokenKind.null
      ∷ TokenKind.string ∷ []

  unfoldable pub primary_literal : Token → Parse Expr
  unfolding literal_value literal_or_throw
  primary_literal t = elim (literal_value t) [
    | none ↦ throw_other
    | some v ↦ literal_or_throw t.span v
  ]

  -- `primary`
  unfoldable pub primary : Parse Expr
  unfolding primary_literal items_before exprs_of
  primary =
      on_match literal_kinds (do t ← previous_token; primary_literal t)
        (on_match (TokenKind.identifier ∷ []) (do t ← previous_token; pure (name t.span t.lexeme))
          (on_match (TokenKind.l_bracket ∷ [])
            (do
              t ← previous_token
              es ← items_before n TokenKind.r_bracket expr
              _ ← consume TokenKind.r_bracket (codes "expected ']' after array literal")
              pure (array t.span (exprs_of es) 0))
            (on_match (TokenKind.l_paren ∷ [])
              (do
                e ← expr
                _ ← consume TokenKind.r_paren (codes "expected ')' after expression")
                pure e)
              (fail (codes "NOE-P2001") (codes "expected expression")))))

  -- The loop of `call`, from the expression so far.
  unfoldable pub call_rest : ℕ → Expr → Parse Expr
  unfolding items_before exprs_of
  call_rest zero e = no_fuel
  call_rest (suc k) e =
      on_match (TokenKind.l_paren ∷ [])
        (do
          t ← previous_token
          es ← items_before n TokenKind.r_paren expr
          _ ← consume TokenKind.r_paren (codes "expected ')' after arguments")
          call_rest k (call t.span e (exprs_of es) call_info))
        (on_match (TokenKind.l_bracket ∷ [])
          (do
            i ← expr
            t ← previous_token
            _ ← consume TokenKind.r_bracket (codes "expected ']' after index")
            call_rest k (index t.span e i index_info))
          (on_match (TokenKind.dot ∷ [])
            (do
              m ← consume TokenKind.identifier (codes "expected field name after '.'")
              call_rest k (member m.span e m.lexeme member_info))
            (pure e)))

  unfoldable pub cast_rest : ℕ → Expr → Parse Expr
  unfolding type_name
  cast_rest zero e = no_fuel
  cast_rest (suc k) e =
      on_match (TokenKind.as_kw ∷ [])
        (do t ← previous_token; type ← type_name n; cast_rest k (cast t.span e type)) (pure e)

  abbrev pub prefixes : List TokenKind
  prefixes =
      TokenKind.bang ∷ TokenKind.minus ∷ TokenKind.plus ∷ TokenKind.star ∷ TokenKind.ampersand
      ∷ TokenKind.try ∷ []

  -- `cast` over `call`
  unfoldable pub cast_level : Parse Expr
  unfolding primary call_rest cast_rest
  cast_level = do e ← primary; e' ← call_rest n e; cast_rest n e'

  -- `unary`
  unfoldable pub unary_level : ℕ → Parse Expr
  unfolding cast_level
  unary_level zero = no_fuel
  unary_level (suc k) =
      on_match prefixes
        (do op ← previous_token; e ← unary_level k; pure (unary op.span op.kind e 8 false))
        cast_level

-- `while(match(kinds)){auto o=previous();e=makeBinary(e,o.kind,next(),o.span);}`
unfoldable pub binary_rest : ℕ → List TokenKind → Parse Expr → Expr → Parse Expr
binary_rest zero kinds next e = no_fuel
binary_rest (suc k) kinds next e =
    on_match kinds
      (do o ← previous_token; r ← next; binary_rest k kinds next (binary o.span e o.kind r))
      (pure e)

unfoldable pub binary_level : ℕ → List TokenKind → Parse Expr → Parse Expr
unfolding binary_rest
binary_level n kinds next = do e ← next; binary_rest n kinds next e

-- Whether an expression may stand left of `=`.
unfoldable pub is_target : Expr → Bool
is_target (name sp x) = true
is_target (index sp o i info) = true
is_target (member sp o m info) = true
is_target (unary sp op e w v) = same_kind op TokenKind.star
is_target _ = false

unfoldable pub assigned : Token → Expr → Expr → Parse Expr
unfolding is_target report
assigned eq left value s =
    if is_target left
    then pure (binary eq.span left TokenKind.equal value) s
    else pure left (report (codes "NOE-P2004") (codes "invalid assignment target") eq.span s)

module _ (stod : Text → Option ℕ) (n : ℕ) (expr : Parse Expr) where
  unfoldable pub factor : Parse Expr
  unfolding unary_level binary_level
  factor =
      binary_level n (TokenKind.star ∷ TokenKind.slash ∷ TokenKind.percent ∷ [])
        (unary_level stod n expr n)

  unfoldable pub term : Parse Expr
  unfolding factor binary_level
  term = binary_level n (TokenKind.plus ∷ TokenKind.minus ∷ []) factor

  unfoldable pub comparison : Parse Expr
  unfolding term binary_level
  comparison =
      binary_level n
        (TokenKind.less ∷ TokenKind.less_equal ∷ TokenKind.greater ∷ TokenKind.greater_equal ∷ [])
        term

  unfoldable pub equality : Parse Expr
  unfolding comparison binary_level
  equality = binary_level n (TokenKind.equal_equal ∷ TokenKind.bang_equal ∷ []) comparison

  unfoldable pub logical_and : Parse Expr
  unfolding equality binary_level
  logical_and = binary_level n (TokenKind.and_and ∷ []) equality

  unfoldable pub logical_or : Parse Expr
  unfolding logical_and binary_level
  logical_or = binary_level n (TokenKind.or_or ∷ []) logical_and

  unfoldable pub assignment : ℕ → Parse Expr
  unfolding logical_or assigned
  assignment zero = no_fuel
  assignment (suc k) = do
    left ← logical_or
    on_match (TokenKind.equal ∷ [])
        (do eq ← previous_token; value ← assignment k; assigned eq left value) (pure left)

-- `expression`, on fuel for the brackets inside each other.
unfoldable pub expression : (Text → Option ℕ) → ℕ → ℕ → Parse Expr
unfolding assignment
expression stod n zero = no_fuel
expression stod n (suc k) = assignment stod n (expression stod n k) n

-- ===== src/Parser/Declarations.antt =====
-- Declarations of modules, imports, records and functions, and blocks
-- (Compiler/bootstrap/parser_host.cpp). `decl` is `declaration()` where it stands inside a block.
use noe_code.Prelude.{
  ℕ, zero, suc, Bool, false, List, [], ◌∷◌, ◌++◌, Option, none, some, Text, codes, if◌then◌else◌,
}
use noe_code.Ast.{
  TokenKind, Span, Parameter, Stmt, Stmts, no_stmts, more_stmts, block_stmt, function_stmt,
  record_stmt, import_stmt, module_stmt, Signature, RecordField,
}
use noe_code.Parser.State.{
  Parse, ◌>>=◌, pure, no_fuel, previous_token, on_match, match, on_check, consume, recovered,
}
use noe_code.Parser.Expressions.{type_name, comma_list, items_before, decode_string_literal}

unfoldable pub stmts_of : List Stmt → Stmts
stmts_of [] = no_stmts
stmts_of (s ∷ ss) = more_stmts s (stmts_of ss)

-- `if(match({TokenKind::Colon}))type=parseTypeName();`
unfoldable pub annotation : ℕ → Parse (Option Text)
unfolding type_name
annotation n = on_match (TokenKind.colon ∷ []) (do type ← type_name n; pure (some type)) (pure none)

unfoldable pub generic_params : ℕ → Parse (List Text)
unfolding comma_list
generic_params n =
    on_match (TokenKind.less ∷ [])
      (do
        names ← comma_list n (do
          t ← consume TokenKind.identifier (codes "expected generic type parameter")
          pure t.lexeme)
        _ ← consume TokenKind.greater (codes "expected '>' after generic parameters")
        pure names)
      (pure [])

-- The loop of `moduleDeclaration`, from the name so far.
unfoldable pub module_rest : ℕ → Text → Parse Text
module_rest zero x = no_fuel
module_rest (suc n) x =
    on_match (TokenKind.dot ∷ [])
      (do
        t ← consume TokenKind.identifier (codes "expected module name segment")
        module_rest n (x ++ (codes "." ++ t.lexeme)))
      (pure x)

unfoldable pub module_declaration : ℕ → Parse Stmt
unfolding module_rest
module_declaration n = do
  first ← consume TokenKind.identifier (codes "expected module name")
  x ← module_rest n first.lexeme
  _ ← match (TokenKind.semicolon ∷ [])
  pure (module_stmt first.span x)

unfoldable pub import_declaration : Parse Stmt
unfolding decode_string_literal
import_declaration = do
  path ←
      consume TokenKind.string
        (codes "expected quoted import path, for example import \"math.nqr\"")
  _ ← match (TokenKind.semicolon ∷ [])
  pure (import_stmt path.span (decode_string_literal path.lexeme))

unfoldable pub record_field : ℕ → Parse RecordField
record_field n = do
  field ← consume TokenKind.identifier (codes "expected field name")
  _ ← consume TokenKind.colon (codes "expected ':' after field name")
  type ← type_name n
  _ ← match (TokenKind.comma ∷ TokenKind.semicolon ∷ [])
  pure (record { name = field.lexeme; type_name = type; span = field.span })

-- `while(!check(kinds))` over an item, for one or several checks joined by `&&`.
unfoldable pub until : {A : Type 0} → List TokenKind → ℕ → Parse A → Parse (List A)
until kinds zero p = no_fuel
until kinds (suc n) p = on_check kinds (pure []) (do x ← p; xs ← until kinds n p; pure (x ∷ xs))

abbrev pub closing : List TokenKind
closing = TokenKind.r_brace ∷ TokenKind.eof ∷ []

unfoldable pub record_declaration : ℕ → Parse Stmt
unfolding until record_field
record_declaration n = do
  x ← consume TokenKind.identifier (codes "expected record name")
  _ ← consume TokenKind.l_brace (codes "expected '{' after record name")
  fields ← until closing n (record_field n)
  _ ← consume TokenKind.r_brace (codes "expected '}' after record fields")
  _ ← match (TokenKind.semicolon ∷ [])
  pure (record_stmt (record { span = x.span; name = x.lexeme; fields = fields }))

unfoldable pub parameter : ℕ → Parse Parameter
unfolding annotation
parameter n = do
  p ← consume TokenKind.identifier (codes "expected parameter name")
  type ← annotation n
  pure (record { name = p.lexeme; annotation = type; span = p.span })

-- The values that `declaration` and `block` collected: those that were recovered from are left out.
unfoldable pub kept : {A : Type 0} → List (Option A) → List A
kept [] = []
kept (none ∷ xs) = kept xs
kept (some x ∷ xs) = x ∷ kept xs

module _ (n : ℕ) (decl : Parse Stmt) where
  -- `block`: the span and the statements.
  unfoldable pub block : Parse (Span × Stmts)
  unfolding until kept stmts_of
  block = do
    t ← previous_token
    items ← until closing n (recovered decl)
    _ ← consume TokenKind.r_brace (codes "expected '}' after block")
    pure (t.span, stmts_of (kept items))

  unfoldable pub block_statement : Parse Stmt
  unfolding block
  block_statement = do b ← block; pure (block_stmt b.0 b.1 false)

  unfoldable pub function_body : Signature → Parse Stmt
  unfolding block
  function_body f =
      if f.is_extern
      then (do _ ← match (TokenKind.semicolon ∷ []); pure (function_stmt f no_stmts))
      else (do
        _ ← consume TokenKind.l_brace (codes "expected '{' before function body")
        b ← block
        pure (function_stmt f b.1))

  unfoldable pub function_declaration : Bool → Bool → Parse Stmt
  unfolding generic_params items_before parameter annotation function_body
  function_declaration is_extern is_export = do
    x ← consume TokenKind.identifier (codes "expected function name")
    generics ← generic_params n
    _ ← consume TokenKind.l_paren (codes "expected '(' after function name")
    params ← items_before n TokenKind.r_paren (parameter n)
    _ ← consume TokenKind.r_paren (codes "expected ')' after parameters")
    result ← annotation n
    function_body (record {
      span = x.span;
      name = x.lexeme;
      generic_params = generics;
      params = params;
      return_type = result;
      is_extern = is_extern;
      is_export = is_export;
    })

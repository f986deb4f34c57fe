-- ===== src/Ast.antt =====
-- The syntax tree: Include/noqeri/ast.hpp and Include/noqeri/diagnostics.hpp. A pointer to a node is
-- the node; a pointer that may be null is an optional node. The fields that a checker fills in
-- (widths, bounds, volatility) stand in the nodes as in the source.
use noe_code.Prelude.{ℕ, Bool, List, Option, Text}
use noe_code.Nir.{Value}

pub data TokenKind : Type 0 where
  eof identifier integer float string : TokenKind
  line_comment block_comment : TokenKind
  let_kw const_kw function if_kw else_kw while_kw repeat return true_kw false_kw null : TokenKind
  import module_kw record_kw class extern export volatile as_kw throw try unsafe : TokenKind
  l_paren r_paren l_brace r_brace l_bracket r_bracket : TokenKind
  comma colon semicolon dot : TokenKind
  plus minus star slash percent ampersand : TokenKind
  bang bang_equal equal equal_equal : TokenKind
  less less_equal greater greater_equal : TokenKind
  and_and or_or : TokenKind

pub record Span : Type 0 where
  pub start : ℕ
  pub end : ℕ
  pub line : ℕ
  pub column : ℕ
  pub source : ℕ

pub record Token : Type 0 where
  pub kind : TokenKind
  pub lexeme : Text
  pub span : Span

pub record Diagnostic : Type 0 where
  pub code : Text
  pub message : Text
  pub span : Span
  pub help : Text

-- `builtinWidth`, `builtinCount` and `builtinText` of a call.
pub record CallInfo : Type 0 where
  pub builtin_width : ℕ
  pub builtin_count : ℕ
  pub builtin_text : Text

pub record IndexInfo : Type 0 where
  pub element_size : ℕ
  pub volatile_access : Bool
  pub base_is_slice : Bool
  pub has_fixed_bound : Bool
  pub fixed_bound : ℕ

pub record MemberInfo : Type 0 where
  pub offset : ℕ
  pub field_size : ℕ
  pub volatile_access : Bool
  pub base_is_pointer : Bool

mutual
  -- `unary` carries `memoryWidth` and `volatileAccess`, `array` its `elementSize`.
  pub data Expr : Type 0 where
    literal : Span → Value → Expr
    name : Span → Text → Expr
    unary : Span → TokenKind → Expr → ℕ → Bool → Expr
    binary : Span → Expr → TokenKind → Expr → Expr
    call : Span → Expr → Exprs → CallInfo → Expr
    cast : Span → Expr → Text → Expr
    index : Span → Expr → Expr → IndexInfo → Expr
    member : Span → Expr → Text → MemberInfo → Expr
    array : Span → Exprs → ℕ → Expr

  pub data Exprs : Type 0 where
    no_exprs : Exprs
    more_exprs : Expr → Exprs → Exprs

pub record Parameter : Type 0 where
  pub name : Text
  pub annotation : Option Text
  pub span : Span

-- A `FunctionStmt` without its body.
pub record Signature : Type 0 where
  pub span : Span
  pub name : Text
  pub generic_params : List Text
  pub params : List Parameter
  pub return_type : Option Text
  pub is_extern : Bool
  pub is_export : Bool

pub record RecordField : Type 0 where
  pub name : Text
  pub type_name : Text
  pub span : Span

-- `RecordStmt`: its generic parameters, and the layout that the checker fills in, are left out.
pub record RecordDecl : Type 0 where
  pub span : Span
  pub name : Text
  pub fields : List RecordField

mutual
  pub data Stmt : Type 0 where
    expr_stmt : Span → Expr → Stmt
    let_stmt : Span → Bool → Text → Option Text → Expr → Stmt
    block_stmt : Span → Stmts → Bool → Stmt
    if_stmt : Span → Expr → Stmt → OptStmt → Stmt
    while_stmt : Span → Expr → Stmt → Stmt
    return_stmt : Span → Option Expr → Stmt
    throw_stmt : Span → Expr → Stmt
    -- Declarations, which lowering and the safety check pass over inside a block.
    function_stmt : Signature → Stmts → Stmt
    record_stmt : RecordDecl → Stmt
    import_stmt module_stmt : Span → Text → Stmt

  pub data Stmts : Type 0 where
    no_stmts : Stmts
    more_stmts : Stmt → Stmts → Stmts

  pub data OptStmt : Type 0 where
    no_stmt : OptStmt
    some_stmt : Stmt → OptStmt

pub record FunctionDecl : Type 0 where
  pub span : Span
  pub name : Text
  pub generic_params : List Text
  pub params : List Parameter
  pub return_type : Option Text
  pub body : Stmts
  pub is_extern : Bool
  pub is_export : Bool

-- A statement at the top level: a declaration of a function, of a record, an import or a module, or
-- any other statement.
pub data TopLevel : Type 0 where
  function_decl : FunctionDecl → TopLevel
  record_decl : RecordDecl → TopLevel
  import_decl module_decl : Span → Text → TopLevel
  statement : Stmt → TopLevel

-- ===== src/TypeChecker/Known.antt =====
-- What an expression may refer to (Compiler/type_checker.cpp), read off the tree alone.
use noe_code.Prelude.{
  ℕ, ◌≡◌, ◌≢◌, ◌⊎◌, Bool, true, List, none, some, Text, codes, text_eq, find_text, length,
}
use noe_code.Ast.{
  TokenKind, Expr, Exprs, no_exprs, more_exprs, literal, name, unary, binary, call, cast, index,
  member, array,
}
use noe_code.Lower.Expressions.{callee_name}
use noe_code.Lower.Calls.{count_exprs}
use noe_code.TypeChecker.State.{Checker, Scope, FunctionType, lookup}
use noe_code.TypeChecker.Operators.{known_namespace}
use noe_code.TypeChecker.Builtins.{Callee, unnamed, function, fence, callee_of}

-- What the checker knows of names while it visits an expression.
pub record Names : Type 0 where
  pub scopes : List Scope
  pub const_scopes : List (List (Text × Bool))
  pub functions : List (Text × FunctionType)

abbrev pub names_of : Checker → Names
names_of c = record { scopes = c.scopes; const_scopes = c.const_scopes; functions = c.functions }

-- A variable in scope, a function, or one of the two namespaces.
abbrev pub IsNamed : Names → Text → Type 0
IsNamed n x =
    (lookup n.scopes x ≢ none) ⊎ ((find_text n.functions x ≢ none) ⊎ (known_namespace x ≡ true))

-- The target of an assignment is no constant.
abbrev pub IsVariable : Names → Expr → Type 0
IsVariable n (name sp x) = lookup n.const_scopes x ≢ some true
IsVariable n _ = Unit

abbrev pub IsAssignable : Names → TokenKind → Expr → Type 0
IsAssignable n TokenKind.equal l = IsVariable n l
IsAssignable n _ l = Unit

-- A declared function that is called with as many arguments as it has parameters.
abbrev pub IsCallable : Names → Text → ℕ → Type 0
IsCallable n x count =
    (sig : FunctionType) × (find_text n.functions x ≡ some sig)
    × ((text_eq x (codes "print") ≡ true) ⊎ (count ≡ length sig.params))

abbrev pub IsCall : Names → Callee → Text → ℕ → Type 0
IsCall n unnamed x count = ⊥
IsCall n function x count = IsCallable n x count
IsCall n fence x count = count ≡ 0
IsCall n _ x count = Unit

abbrev mutual
  -- Every name of the expression is known, no constant is assigned, and every call is of a builtin or
  -- of a declared function with the right number of arguments.
  pub IsKnown : Names → Expr → Type 0
  IsKnown n (literal sp v) = Unit
  IsKnown n (name sp x) = IsNamed n x
  IsKnown n (unary sp op e w v) = IsKnown n e
  IsKnown n (binary sp l op r) = IsKnown n l × IsKnown n r × IsAssignable n op l
  IsKnown n (call sp callee args info) =
      AreKnown n args
      × IsCall n (callee_of (callee_name callee)) (callee_name callee) (count_exprs args)
  IsKnown n (cast sp e t) = IsKnown n e
  IsKnown n (index sp o i info) = IsKnown n o × IsKnown n i
  IsKnown n (member sp o m info) = IsKnown n o
  IsKnown n (array sp es w) = AreKnown n es

  pub AreKnown : Names → Exprs → Type 0
  AreKnown n no_exprs = Unit
  AreKnown n (more_exprs e es) = IsKnown n e × AreKnown n es

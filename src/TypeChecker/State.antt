-- ===== src/TypeChecker/State.antt =====
-- The state of `TypeChecker` (Include/noqeri/compiler.hpp) and its scopes (Compiler/type_checker.cpp).
-- The innermost scope, `scopes_.back()`, is the head of the list. The scopes are never empty: the
-- constructor pushes one, and every push is followed by one pop.
use noe_code.Prelude.{
  ℕ, Bool, false, List, [], ◌∷◌, ◌++◌, Option, none, some, Text, codes, find_text, if◌then◌else◌,
}
use noe_code.Types.{Ty, void, simple_type}
use noe_code.Ast.{Span, Diagnostic, Expr, Exprs, CallInfo, RecordField}
use noe_code.Diagnostics.{error}

abbrev pub Scope : Type 0
Scope = List (Text × Ty)

-- `FunctionType`, as far as the checker reads it.
pub record FunctionType : Type 0 where
  pub params : List Ty
  pub result : Ty
  pub generic_params : List Text

-- A `RecordField` with the offset and the size that the checker gives it.
pub record LaidField : Type 0 where
  pub field : RecordField
  pub offset : ℕ
  pub size : ℕ

pub record RecordType : Type 0 where
  pub fields : List LaidField
  pub size : ℕ
  pub alignment : ℕ

-- `out_of_range`: `sig.params[i]` was read past its end, which C++ leaves undefined.
pub record Checker : Type 0 where
  pub scopes : List Scope
  pub const_scopes : List (List (Text × Bool))
  pub functions : List (Text × FunctionType)
  pub records : List (Text × RecordType)
  pub generics : List Text
  pub current_return : Ty
  pub inside_function : Bool
  pub out_of_range : Bool
  pub diagnostics : List Diagnostic

-- `diagnostics_.error(code,span,message,help)`
unfoldable pub report : Text → Span → Text → Text → Checker → Checker
unfolding error
report code sp message help c = record c { diagnostics = error code sp message help c.diagnostics }

-- `if(test)diagnostics_.error(code,span,message,help);`
unfoldable pub report_if : Bool → Text → Span → Text → Text → Checker → Checker
report_if test code sp message help c = if test then report code sp message help c else c

unfoldable pub push_scope : Checker → Checker
push_scope c = record c { scopes = [] ∷ c.scopes; const_scopes = [] ∷ c.const_scopes }

abbrev pub tail_of {ℓ} : {A : Type ℓ} → List A → List A
tail_of [] = []
tail_of (x ∷ xs) = xs

unfoldable pub pop_scope : Checker → Checker
pop_scope c = record c { scopes = tail_of c.scopes; const_scopes = tail_of c.const_scopes }

-- `scopes_.back()[name] = v`, for a name that it has not.
unfoldable pub add_innermost {ℓ} :
    {V : Type ℓ} → Text → V → List (List (Text × V)) → List (List (Text × V))
add_innermost x v [] = []
add_innermost x v (scope ∷ rest) = ((x, v) ∷ scope) ∷ rest

-- `scopes_.back().find(name)`
unfoldable pub find_innermost {ℓ} : {V : Type ℓ} → List (List (Text × V)) → Text → Option V
unfolding find_text
find_innermost [] x = none
find_innermost (scope ∷ rest) x = find_text scope x

unfoldable pub define : Text → Ty → Bool → Span → Checker → Checker
unfolding add_innermost find_innermost
define x t is_const sp c = elim (find_innermost c.scopes x) [
  | some _ ↦
      report (codes "NOE-T3003") sp
        (codes "symbol '" ++ x ++ codes "' is already defined in this scope") (codes "") c
  | none ↦ record c {
    scopes = add_innermost x t c.scopes;
    const_scopes = add_innermost x is_const c.const_scopes;
  }
]

-- The innermost scope that has the name decides.
unfoldable pub lookup {ℓ} : {V : Type ℓ} → List (List (Text × V)) → Text → Option V
unfolding find_text
lookup [] x = none
lookup (scope ∷ rest) x = elim (find_text scope x) [ some v ↦ some v | none ↦ lookup rest x ]

unfoldable pub resolve : Text → Checker → Option Ty
unfolding lookup
resolve x c = lookup c.scopes x

unfoldable pub is_const_symbol : Text → Checker → Bool
unfolding lookup
is_const_symbol x c = elim (lookup c.const_scopes x) [ some b ↦ b | none ↦ false ]

-- `TypeChecker::TypeChecker`
unfoldable pub start_checker : List Diagnostic → Checker
unfolding simple_type
start_checker items = record {
  scopes = [] ∷ [];
  const_scopes = [] ∷ [];
  functions = [];
  records = [];
  generics = [];
  current_return = simple_type void;
  inside_function = false;
  out_of_range = false;
  diagnostics = items;
}

-- What a visit of an expression gives: the node with the fields that the checker filled in, the type,
-- and the state.
pub record Typed : Type 0 where
  pub expr : Expr
  pub type : Ty
  pub state : Checker

pub record TypedCall : Type 0 where
  pub args : Exprs
  pub info : CallInfo
  pub type : Ty
  pub state : Checker

abbrev pub typed : Expr → Ty → Checker → Typed
typed e t c = record { expr = e; type = t; state = c }

abbrev pub typed_call : Exprs → CallInfo → Ty → Checker → TypedCall
typed_call es info t c = record { args = es; info = info; type = t; state = c }

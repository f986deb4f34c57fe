-- ===== src/TypeChecker/Binary.antt =====
-- Assignments and binary operators in `checkExpr` (Compiler/type_checker.cpp), once the operands have
-- been visited.
use noe_code.Prelude.{Bool, not, ◌&&◌, ◌||◌, some, ◌++◌, Text, codes, if◌then◌else◌}
use noe_code.Types.{
  Ty, kind, kind_eq, is_integer, simple_type, unknown, bool, float, string, pointer, generic,
}
use noe_code.Types.Printing.{ty_name, is_numeric}
use noe_code.Ast.{TokenKind, Span, Expr, name, binary}
use noe_code.TypeChecker.State.{Checker, Typed, typed, report_if, is_const_symbol}
use noe_code.TypeChecker.Literals.{can_assign_value}
use noe_code.TypeChecker.Operators.{is_kind}

abbrev pub explicit_cast : Text
explicit_cast =
    codes "use an explicit 'as' cast for narrowing or signedness-changing integer conversions"

unfoldable pub check_const : Span → Expr → Checker → Checker
check_const sp (name sn x) c =
    report_if (is_const_symbol x c) (codes "NOE-T3014") sp
      (codes "cannot assign to const '" ++ x ++ codes "'") (codes "") c
check_const sp _ c = c

unfoldable pub check_assign : Span → Typed → Typed → Typed
check_assign sp l r = typed (binary sp l.expr TokenKind.equal r.expr) l.type (
    report_if (not (can_assign_value l.type r.type (some r.expr))) (codes "NOE-T3001") sp
      (codes "cannot assign " ++ ty_name r.type ++ codes " to " ++ ty_name l.type) explicit_cast
      (check_const sp l.expr r.state))

unfoldable pub arithmetic_operands : Ty → Ty → Bool
unfolding kind kind_eq
arithmetic_operands l r =
    (is_numeric l && is_numeric r)
    || is_kind unknown l
    || is_kind unknown r
    || is_kind generic l
    || is_kind generic r

unfoldable pub check_arithmetic : Span → TokenKind → Typed → Typed → Typed
unfolding simple_type kind kind_eq
check_arithmetic sp op l r =
    typed (binary sp l.expr op r.expr)
      (if is_kind float l.type || is_kind float r.type then simple_type float else l.type)
      (report_if (not (arithmetic_operands l.type r.type)) (codes "NOE-T3007") sp
        (codes "arithmetic operator requires numeric operands") (codes "") r.state)

unfoldable pub joins_strings : Ty → Ty → Bool
unfolding kind kind_eq
joins_strings l r = is_kind string l && is_kind string r

unfoldable pub moves_pointer : Ty → Ty → Bool
unfolding is_integer kind kind_eq
moves_pointer p n = is_kind pointer p && is_integer n

-- `+` also joins strings and moves pointers.
unfoldable pub check_plus : Span → Typed → Typed → Typed
unfolding simple_type
check_plus sp l r =
    if joins_strings l.type r.type
    then typed (binary sp l.expr TokenKind.plus r.expr) (simple_type string) r.state
    else if moves_pointer l.type r.type
    then typed (binary sp l.expr TokenKind.plus r.expr) l.type r.state
    else if moves_pointer r.type l.type
    then typed (binary sp l.expr TokenKind.plus r.expr) r.type r.state
    else check_arithmetic sp TokenKind.plus l r

pub data OperatorClass : Type 0 where
  assigns adds computes compares other : OperatorClass

unfoldable pub operator_class : TokenKind → OperatorClass
operator_class TokenKind.equal = assigns
operator_class TokenKind.plus = adds
operator_class TokenKind.minus = computes
operator_class TokenKind.star = computes
operator_class TokenKind.slash = computes
operator_class TokenKind.percent = computes
operator_class TokenKind.less = compares
operator_class TokenKind.less_equal = compares
operator_class TokenKind.greater = compares
operator_class TokenKind.greater_equal = compares
operator_class TokenKind.equal_equal = compares
operator_class TokenKind.bang_equal = compares
operator_class TokenKind.and_and = compares
operator_class TokenKind.or_or = compares
operator_class _ = other

unfoldable pub check_class : OperatorClass → Span → TokenKind → Typed → Typed → Typed
unfolding simple_type
check_class assigns sp op l r = check_assign sp l r
check_class adds sp op l r = check_plus sp l r
check_class computes sp op l r = check_arithmetic sp op l r
check_class compares sp op l r = typed (binary sp l.expr op r.expr) (simple_type bool) r.state
check_class other sp op l r = typed (binary sp l.expr op r.expr) (simple_type unknown) r.state

unfoldable pub check_binary : Span → TokenKind → Typed → Typed → Typed
check_binary sp op l r = check_class (operator_class op) sp op l r

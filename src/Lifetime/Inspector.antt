-- ===== src/Lifetime/Inspector.antt =====
-- `LifetimeInspector` (Compiler/lifetime.cpp).
use noe_code.Prelude.{
  ℕ, Bool, true, false, ◌&&◌, List, [], ◌∷◌, ◌++◌, Option, none, some, Text, codes, text_eq,
  find_text, erase_text, get_elem?, leb, if◌then◌else◌,
}
use noe_code.Prelude.Int.{ℤ, pos, negsuc}
use noe_code.Ast.{
  TokenKind, Span, Diagnostic, Expr, Exprs, no_exprs, more_exprs, literal, name, unary, binary,
  call, cast, index, member, array, Parameter,
}
use noe_code.Diagnostics.{error}
use noe_code.Lower.Expressions.{callee_name}
use noe_code.Lower.Calls.{count_exprs}
use noe_code.Safety.Annotator.{holds_name, erase_name, is_star}
use noe_code.Lifetime.Sets.{
  put_text, field_key, literal_integer, null_expression, annotated_count, borrow_type,
}
use noe_code.Lifetime.Summary.{SummaryMap}

pub record BorrowInfo : Type 0 where
  pub source_depth : ℕ
  pub source : Text
  pub parameter : Bool
  pub parameter_index : ℕ

pub record Inspector : Type 0 where
  pub declared_depth : List (Text × ℕ)
  pub array_sizes : List (Text × ℕ)
  pub parameters : List (Text × ℕ)
  pub borrowed : List (Text × BorrowInfo)
  pub aggregate_borrows : List (Text × BorrowInfo)
  pub dangling : List Text
  pub dangling_fields : List Text
  pub diagnostics : List Diagnostic

unfoldable pub report : Text → Span → Text → Text → Inspector → Inspector
unfolding error
report code span message help s = record s {
  diagnostics = error code span message help s.diagnostics;
}

unfoldable pub report_if : Bool → Text → Span → Text → Text → Inspector → Inspector
unfolding report
report_if test code span message help s = if test then report code span message help s else s

unfoldable pub parameter : Parameter → ℕ → Inspector → Inspector
unfolding put_text annotated_count borrow_type
parameter p i s = record s {
  declared_depth = put_text s.declared_depth p.name 0;
  parameters = put_text s.parameters p.name i;
  array_sizes = elim (annotated_count p.annotation) [
    | none ↦ s.array_sizes
    | some n ↦ put_text s.array_sizes p.name n
  ];
  borrowed =
      if borrow_type p.annotation
      then put_text s.borrowed p.name
          (record { source_depth = 0; source = p.name; parameter = true; parameter_index = i })
      else s.borrowed;
}

abbrev first_of : Option BorrowInfo → Option BorrowInfo → Option BorrowInfo
first_of none o = o
first_of (some b) o = some b

-- The first borrow among the arguments at the indices.
unfoldable pub first_at : List (Option BorrowInfo) → List ℕ → Option BorrowInfo
first_at args [] = none
first_at args (i ∷ is) = elim (get_elem? args i) [
  | none ↦ first_at args is
  | some o ↦ first_of o (first_at args is)
]

-- What an address taken of a name is a borrow of: the variable, also where it is a parameter.
unfoldable pub of_variable : Expr → List (Text × ℕ) → BorrowInfo → BorrowInfo
unfolding find_text
of_variable (name sp x) parameters b = elim (find_text parameters x) [
  | none ↦ b
  | some i ↦ record b {
    parameter = false;
    source = codes "address of parameter variable '" ++ (x ++ codes "'");
  }
]
of_variable _ parameters b = b

module _ (summaries : SummaryMap) (s : Inspector) where
  unfoldable pub source_of : Expr → Option BorrowInfo
  unfolding find_text
  source_of (name sp x) = elim (find_text s.declared_depth x) [
    | none ↦ none
    | some depth ↦ some (elim (find_text s.parameters x) [
      | none ↦ record { source_depth = depth; source = x; parameter = false; parameter_index = 0 }
      | some i ↦ record { source_depth = depth; source = x; parameter = true; parameter_index = i }
    ])
  ]
  source_of (index sp o i info) = source_of o
  source_of (member sp o m info) = source_of o
  source_of (unary sp op e w v) = source_of e
  source_of _ = none

  unfoldable pub borrow_of_address : Expr → Option BorrowInfo
  unfolding source_of of_variable
  borrow_of_address e = elim (source_of e) [
    | none ↦ none
    | some b ↦ some (of_variable e s.parameters b)
  ]

  -- What a call gives: `args` has the borrow or the source of each argument.
  unfoldable pub borrow_of_call : Text → Exprs → List (Option BorrowInfo) → Option BorrowInfo
  unfolding source_of first_at find_text text_eq
  borrow_of_call f no_exprs args = none
  borrow_of_call f (more_exprs e es) args =
      if text_eq f (codes "slice")
      then source_of e
      else elim (find_text summaries f) [ none ↦ none | some t ↦ first_at args t.return_params ]

  unfoldable pub borrow_of_field : Expr → Text → Option BorrowInfo
  unfolding find_text
  borrow_of_field (name sp x) m = find_text s.aggregate_borrows (field_key x m)
  borrow_of_field _ m = none

  unfoldable mutual
    unfolding borrow_of_address borrow_of_call borrow_of_field source_of

    pub borrow_of : Expr → Option BorrowInfo
    borrow_of (name sp x) = find_text s.borrowed x
    borrow_of (unary sp TokenKind.ampersand e w v) = borrow_of_address e
    borrow_of (call sp callee args info) =
        borrow_of_call (callee_name callee) args (arg_borrows args)
    borrow_of (member sp o m info) = borrow_of_field o m
    borrow_of (cast sp e t) = borrow_of e
    borrow_of _ = none

    pub arg_borrows : Exprs → List (Option BorrowInfo)
    arg_borrows no_exprs = []
    arg_borrows (more_exprs e es) = first_of (borrow_of e) (source_of e) ∷ arg_borrows es

-- The number of elements that is known of an indexed object.
unfoldable pub known_count : Expr → Inspector → Option ℕ
unfolding find_text
known_count (name sp x) s = find_text s.array_sizes x
known_count (array sp es size) s = some (count_exprs es)
known_count _ s = none

abbrev outside : ℤ → ℕ → Bool
outside (pos i) n = leb n i
outside (negsuc i) n = true

-- Whether the index is known, and the number of elements, and the index is not below it.
unfoldable pub index_outside : Expr → Expr → Inspector → Bool
unfolding literal_integer known_count
index_outside o i s = elim (literal_integer i) [
  | none ↦ false
  | some v ↦ elim (known_count o s) [ none ↦ false | some n ↦ outside v n ]
]

unfoldable pub check_index : Span → Expr → Expr → Inspector → Inspector
unfolding index_outside report_if
check_index sp o i s =
    report_if (index_outside o i s) (codes "NQR-L4104") sp
      (codes "fixed-array index is out of bounds")
      (codes "ordinary fixed-array accesses are checked statically when the index is known") s

abbrev is_local : Option BorrowInfo → Option Text
is_local none = none
is_local (some b) = if b.parameter then none else some b.source

-- What the argument at an index is a borrow of, where that is a local.
unfoldable pub local_at : List (Option BorrowInfo) → ℕ → Option Text
local_at args i = elim (get_elem? args i) [ none ↦ none | some o ↦ is_local o ]

unfoldable pub report_escape : Span → Option Text → Inspector → Inspector
unfolding report
report_escape sp none s = s
report_escape sp (some source) s =
    report (codes "NQR-L4106") sp
      (codes "call may store a borrow of local storage ('"
        ++ (source ++ codes "') beyond its safe lifetime"))
      (codes "pass caller-owned storage or copy owned data instead") s

-- For each argument that the callee keeps.
unfoldable pub report_escapes : Span → List (Option BorrowInfo) → List ℕ → Inspector → Inspector
unfolding report_escape local_at
report_escapes sp args [] s = s
report_escapes sp args (i ∷ is) s = report_escapes sp args is (report_escape sp (local_at args i) s)

module _ (summaries : SummaryMap) where
  unfoldable pub check_escaping_call : Span → Expr → Exprs → Inspector → Inspector
  unfolding find_text arg_borrows report_escapes
  check_escaping_call sp callee args s = elim (find_text summaries (callee_name callee)) [
    | none ↦ s
    | some t ↦ report_escapes sp (arg_borrows summaries s args) t.escape_params s
  ]

  unfoldable pub check_field : Span → Expr → Text → Inspector → Inspector
  unfolding holds_name report_if
  check_field sp (name sn x) m s =
      report_if (holds_name s.dangling_fields (field_key x m)) (codes "NQR-L4107") sp
        (codes "aggregate field '" ++ (field_key x m ++ codes "' contains a dangling borrow"))
        (codes "replace the field before reading it or keep the borrowed storage alive") s
  check_field sp _ m s = s

  unfoldable mutual
    unfolding check_escaping_call check_field check_index report_if null_expression holds_name
        is_star

    pub expression : Expr → Inspector → Inspector
    expression (name sp x) s =
        report_if (holds_name s.dangling x) (codes "NQR-L4102") sp
          (codes "use of reference whose borrowed storage has left scope")
          (codes "rebind the reference to caller-owned or longer-lived storage before using it") s
    expression (unary sp op e w v) s = expression e (
        report_if (is_star op && null_expression e) (codes "NQR-L4103") sp
          (codes "provable null pointer dereference")
          (codes "guard nullable pointers before dereferencing") s)
    expression (index sp o i info) s = expression i (
        expression o (
          check_index sp o i (
            report_if (null_expression o) (codes "NQR-L4103") sp
              (codes "provable null pointer indexing")
              (codes "guard nullable pointers before indexing") s)))
    expression (member sp o m info) s = expression o (check_field sp o m s)
    expression (cast sp e t) s = expression e s
    expression (call sp callee args info) s =
        expressions args (expression callee (check_escaping_call sp callee args s))
    expression (binary sp l op r) s = expression r (expression l s)
    expression (array sp es size) s = expressions es s
    expression (literal sp v) s = s

    pub expressions : Exprs → Inspector → Inspector
    expressions no_exprs s = s
    expressions (more_exprs e es) s = expressions es (expression e s)

-- `if(borrowed)map[k]=*borrowed;else map.erase(k);`
unfoldable pub set_borrow :
    List (Text × BorrowInfo) → Text → Option BorrowInfo → List (Text × BorrowInfo)
unfolding put_text erase_text
set_borrow m k none = erase_text m k
set_borrow m k (some b) = put_text m k b

module _ (summaries : SummaryMap) where
  unfoldable pub assign_borrow : Text → Expr → Inspector → Inspector
  unfolding set_borrow borrow_of erase_name
  assign_borrow x value s =
      let s' = record s { dangling = erase_name s.dangling x } in
      record s' { borrowed = set_borrow s.borrowed x (borrow_of summaries s' value) }

  unfoldable pub assign_aggregate : Expr → Text → Expr → Inspector → Inspector
  unfolding set_borrow borrow_of erase_name
  assign_aggregate (name sp x) m value s =
      let key = field_key x m in
      let s' = record s { dangling_fields = erase_name s.dangling_fields key } in
      record s' {
        aggregate_borrows = set_borrow s.aggregate_borrows key (borrow_of summaries s' value);
      }
  assign_aggregate _ m value s = s

-- ===== src/Lifetime/Scopes.antt =====
-- The statements and scopes of `LifetimeInspector` (Compiler/lifetime.cpp).
use noe_code.Prelude.{
  ℕ, suc, Bool, true, false, not, ◌&&◌, List, [], ◌∷◌, ◌++◌, Option, none, some, Text, codes,
  find_text, erase_text, leb, ltb, ◌==◌, if◌then◌else◌,
}
use noe_code.Ast.{
  TokenKind, Span, Expr, name, binary, member, array, Stmt, Stmts, no_stmts, more_stmts, OptStmt,
  no_stmt, some_stmt, expr_stmt, let_stmt, block_stmt, if_stmt, while_stmt, return_stmt, throw_stmt,
  function_stmt, record_stmt, import_stmt, module_stmt,
}
use noe_code.Parser.Kinds.{same_kind}
use noe_code.Lower.Calls.{count_exprs}
use noe_code.Safety.Annotator.{erase_name}
use noe_code.Lifetime.Sets.{put_text, insert_name, starts_with, annotated_count}
use noe_code.Lifetime.Summary.{SummaryMap}
use noe_code.Lifetime.Inspector.{
  BorrowInfo, Inspector, report_if, borrow_of, expression, assign_borrow, assign_aggregate,
}

-- The names declared at a depth.
unfoldable pub locals_at : ℕ → List (Text × ℕ) → List Text
locals_at depth [] = []
locals_at depth ((x, declared) ∷ m) =
    let rest = locals_at depth m in if declared == depth then x ∷ rest else rest

-- Whether a borrow that `holder` holds refers to a scope that ends and `holder` stays.
unfoldable pub outlives : ℕ → List (Text × ℕ) → Text → BorrowInfo → Bool
unfolding find_text
outlives depth declared_depth holder b =
    not b.parameter
    && (leb depth b.source_depth && elim (find_text declared_depth holder) [
      | none ↦ false
      | some declared ↦ ltb declared depth
    ])

unfoldable pub mark_dangling :
    ℕ → List (Text × ℕ) → List (Text × BorrowInfo) → List Text → List Text
unfolding outlives insert_name
mark_dangling depth declared_depth [] xs = xs
mark_dangling depth declared_depth ((x, b) ∷ m) xs =
    mark_dangling depth declared_depth m
      (if outlives depth declared_depth x b then insert_name x xs else xs)

-- `key.substr(0,key.find('.'))`
unfoldable pub base_of_key : Text → Text
base_of_key [] = []
base_of_key (c ∷ s) = let rest = c ∷ base_of_key s in if c == b'.' then [] else rest

unfoldable pub mark_fields : ℕ → List (Text × ℕ) → List (Text × BorrowInfo) → List Text → List Text
unfolding outlives insert_name base_of_key
mark_fields depth declared_depth [] xs = xs
mark_fields depth declared_depth ((key, b) ∷ m) xs =
    mark_fields depth declared_depth m
      (if outlives depth declared_depth (base_of_key key) b then insert_name key xs else xs)

-- The keys of the fields of a variable.
unfoldable pub fields_of : Text → List (Text × BorrowInfo) → List Text
unfolding starts_with
fields_of prefix [] = []
fields_of prefix ((key, b) ∷ m) =
    let rest = fields_of prefix m in if starts_with prefix key then key ∷ rest else rest

unfoldable pub erase_fields : List Text → Inspector → Inspector
unfolding erase_text erase_name
erase_fields [] s = s
erase_fields (key ∷ keys) s = erase_fields keys (record s {
  aggregate_borrows = erase_text s.aggregate_borrows key;
  dangling_fields = erase_name s.dangling_fields key;
})

unfoldable pub erase_local : Text → Inspector → Inspector
unfolding erase_text erase_name fields_of erase_fields
erase_local x s = erase_fields (fields_of (x ++ codes ".") s.aggregate_borrows) (record s {
  declared_depth = erase_text s.declared_depth x;
  array_sizes = erase_text s.array_sizes x;
  borrowed = erase_text s.borrowed x;
  dangling = erase_name s.dangling x;
  parameters = erase_text s.parameters x;
})

unfoldable pub erase_locals : List Text → Inspector → Inspector
unfolding erase_local
erase_locals [] s = s
erase_locals (x ∷ xs) s = erase_locals xs (erase_local x s)

unfoldable pub mark : ℕ → Inspector → Inspector
unfolding mark_dangling mark_fields
mark depth s = record s {
  dangling = mark_dangling depth s.declared_depth s.borrowed s.dangling;
  dangling_fields = mark_fields depth s.declared_depth s.aggregate_borrows s.dangling_fields;
}

-- `expireScope`
unfoldable pub expire_scope : ℕ → Inspector → Inspector
unfolding locals_at mark erase_locals
expire_scope depth s = erase_locals (locals_at depth s.declared_depth) (mark depth s)

unfoldable pub report_return : Span → Option BorrowInfo → Inspector → Inspector
unfolding report_if
report_return sp none s = s
report_return sp (some b) s =
    report_if (not b.parameter) (codes "NQR-L4101") sp
      (codes "cannot return a reference borrowed from function-local storage ('"
        ++ (b.source ++ codes "')"))
      (codes "return owned data or a borrow derived from caller-owned storage instead") s

unfoldable pub report_fields : Span → Text → List (Text × BorrowInfo) → Inspector → Inspector
unfolding report_if starts_with
report_fields sp prefix [] s = s
report_fields sp prefix ((key, b) ∷ m) s = report_fields sp prefix m (
    report_if (starts_with prefix key && not b.parameter) (codes "NQR-L4108") sp
      (codes "returned aggregate contains a borrow of function-local storage ('"
        ++ (b.source ++ codes "')"))
      (codes "copy owned data into the aggregate or borrow caller-owned storage") s)

unfoldable pub report_returned : Span → Expr → Inspector → Inspector
unfolding report_fields
report_returned sp (name sn x) s = report_fields sp (x ++ codes ".") s.aggregate_borrows s
report_returned sp _ s = s

abbrev declared_count : Option Text → Expr → Option ℕ
declared_count type e = elim (annotated_count type) [
  | some n ↦ some n
  | none ↦ elim e [ array sp es size ↦ some (count_exprs es) | _ ↦ none ]
]

module _ (summaries : SummaryMap) (returns_borrowable : Bool) where
  unfoldable pub check_return : Span → Option Expr → Inspector → Inspector
  unfolding expression borrow_of report_return report_returned
  check_return sp none s = s
  check_return sp (some e) s =
      let s' = expression summaries e s in
      let reported = report_returned sp e (report_return sp (borrow_of summaries s' e) s') in
      if returns_borrowable then reported else s'

  unfoldable pub declare : Text → Option Text → Expr → ℕ → Inspector → Inspector
  unfolding put_text assign_borrow annotated_count
  declare x type e depth s = assign_borrow summaries x e (record s {
    declared_depth = put_text s.declared_depth x depth;
    array_sizes = elim (declared_count type e) [
      | none ↦ s.array_sizes
      | some n ↦ put_text s.array_sizes x n
    ];
  })

  unfoldable pub assign : Expr → Expr → Inspector → Inspector
  unfolding expression assign_borrow assign_aggregate
  assign (name sp x) value s = assign_borrow summaries x value s
  assign (member sp o m info) value s =
      assign_aggregate summaries o m value (expression summaries o s)
  assign target value s = s

  -- Whether an assignment to it is followed by no visit of the whole.
  abbrev pub is_place : Expr → Bool
  is_place (name sp x) = true
  is_place (member sp o m info) = true
  is_place _ = false

  unfoldable pub expression_statement : Expr → Inspector → Inspector
  unfolding expression assign
  expression_statement (binary sp l op r) s =
      let s' = expression summaries r s in
      let assigned =
        if is_place l then assign l r s' else expression summaries (binary sp l op r) s' in
      if same_kind op TokenKind.equal then assigned else expression summaries (binary sp l op r) s
  expression_statement e s = expression summaries e s

  unfoldable mutual
    unfolding expression declare expression_statement check_return expire_scope

    pub statement : Stmt → ℕ → Inspector → Inspector
    statement (let_stmt sp k x type e) depth s = declare x type e depth (expression summaries e s)
    statement (expr_stmt sp e) depth s = expression_statement e s
    statement (return_stmt sp e) depth s = check_return sp e s
    statement (throw_stmt sp e) depth s = expression summaries e s
    statement (block_stmt sp body u) depth s =
        expire_scope (suc depth) (statements body (suc depth) s)
    statement (if_stmt sp e t o) depth s = expire_scope (suc depth) (
        branch o (suc depth)
          (expire_scope (suc depth) (statement t (suc depth) (expression summaries e s))))
    statement (while_stmt sp e body) depth s =
        expire_scope (suc depth) (statement body (suc depth) (expression summaries e s))
    statement (function_stmt f body) depth s = s
    statement (record_stmt r) depth s = s
    statement (import_stmt sp path) depth s = s
    statement (module_stmt sp x) depth s = s

    pub statements : Stmts → ℕ → Inspector → Inspector
    statements no_stmts depth s = s
    statements (more_stmts t ts) depth s = statements ts depth (statement t depth s)

    pub branch : OptStmt → ℕ → Inspector → Inspector
    branch no_stmt depth s = s
    branch (some_stmt t) depth s = statement t depth s

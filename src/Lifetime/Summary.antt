-- ===== src/Lifetime/Summary.antt =====
-- `SummaryCollector` and `buildSummaries` (Compiler/lifetime.cpp).
use noe_code.Prelude.{
  ℕ, Bool, true, false, ◌||◌, List, [], ◌∷◌, ◌++◌, Option, none, some, Text, codes, text_eq,
  find_text, erase_text, get_elem?, ◌==◌, if◌then◌else◌,
}
use noe_code.Ast.{
  TokenKind, Expr, Exprs, no_exprs, more_exprs, literal, name, unary, binary, call, cast, index,
  member, array, Stmt, Stmts, no_stmts, more_stmts, OptStmt, no_stmt, some_stmt, expr_stmt,
  let_stmt, block_stmt, if_stmt, while_stmt, return_stmt, throw_stmt, function_stmt, record_stmt,
  import_stmt, module_stmt,
}
use noe_code.Lower.Expressions.{callee_name}
use noe_code.Lifetime.Sets.{put_text, insert_number, starts_with, field_key}

pub record FunctionSummary : Type 0 where
  pub return_params : List ℕ
  pub escape_params : List ℕ

abbrev pub SummaryMap : Type 0
SummaryMap = List (Text × FunctionSummary)

-- An element of `Origins`: -1, or the index of a parameter.
pub data Origin : Type 0 where
  local : Origin
  from_param : ℕ → Origin

abbrev pub Origins : Type 0
Origins = List Origin

abbrev same_origin : Origin → Origin → Bool
same_origin local local = true
same_origin (from_param m) (from_param n) = m == n
same_origin _ _ = false

abbrev has_origin : Origins → Origin → Bool
has_origin [] o = false
has_origin (p ∷ ps) o = same_origin p o || has_origin ps o

-- `mergeOrigins(into,from)`
unfoldable pub merge_origins : Origins → Origins → Origins
merge_origins into [] = into
merge_origins into (o ∷ os) = merge_origins (if has_origin into o then into else o ∷ into) os

abbrev pub or_else : Origins → Origins → Origins
or_else [] os = os
or_else (p ∷ ps) os = p ∷ ps

-- `for(int origin:origins)if(origin>=0)set.insert(origin);`
unfoldable pub insert_params : Origins → List ℕ → List ℕ
unfolding insert_number
insert_params [] ns = ns
insert_params (local ∷ os) ns = insert_params os ns
insert_params (from_param i ∷ os) ns = insert_params os (insert_number i ns)

-- The fields of a `SummaryCollector` that change.
pub record Collector : Type 0 where
  pub summary : FunctionSummary
  pub aliases : List (Text × Origins)
  pub aggregate : List (Text × Origins)

unfoldable pub or_empty : Option Origins → Origins
or_empty none = []
or_empty (some os) = os

-- `if(origins.empty())map.erase(k);else map[k]=origins;`
unfoldable pub set_origins : List (Text × Origins) → Text → Origins → List (Text × Origins)
unfolding put_text erase_text
set_origins m k [] = erase_text m k
set_origins m k (o ∷ os) = put_text m k (o ∷ os)

unfoldable pub add_escapes : Origins → Collector → Collector
unfolding insert_params
add_escapes os c = record c {
  summary = record c.summary { escape_params = insert_params os c.summary.escape_params };
}

-- The origins of the arguments at the indices that there are.
unfoldable pub origins_at : List Origins → List ℕ → Origins
unfolding merge_origins
origins_at args [] = []
origins_at args (i ∷ is) = elim (get_elem? args i) [
  | none ↦ origins_at args is
  | some os ↦ merge_origins os (origins_at args is)
]

module _ (known : SummaryMap) (param_index : List (Text × ℕ)) where
  unfoldable pub source_origins : Expr → Origins
  unfolding find_text
  source_origins (name sp x) = elim (find_text param_index x) [
    | some i ↦ from_param i ∷ []
    | none ↦ local ∷ []
  ]
  source_origins (index sp o i info) = source_origins o
  source_origins (member sp o m info) = source_origins o
  source_origins (unary sp op e w v) = source_origins e
  source_origins _ = local ∷ []

  -- What a call passes on: `args` has the origins of each argument.
  unfoldable pub call_origins : Text → Exprs → List Origins → Origins
  unfolding source_origins origins_at find_text text_eq
  call_origins f no_exprs args = []
  call_origins f (more_exprs e es) args =
      if text_eq f (codes "slice")
      then source_origins e
      else elim (find_text known f) [ none ↦ [] | some s ↦ origins_at args s.return_params ]

  module _ (c : Collector) where
    unfoldable pub field_origins : Expr → Text → Origins
    unfolding find_text or_empty
    field_origins (name sp x) m = or_empty (find_text c.aggregate (field_key x m))
    field_origins _ m = []

    unfoldable mutual
      unfolding call_origins source_origins field_origins or_empty

      pub borrow_origins : Expr → Origins
      borrow_origins (name sp x) = or_empty (find_text c.aliases x)
      borrow_origins (unary sp TokenKind.ampersand e w v) = source_origins e
      borrow_origins (cast sp e t) = borrow_origins e
      borrow_origins (member sp o m info) = field_origins o m
      borrow_origins (call sp callee args info) =
          call_origins (callee_name callee) args (arg_origins args)
      borrow_origins _ = []

      -- Of each argument, the borrow or else the source.
      pub arg_origins : Exprs → List Origins
      arg_origins no_exprs = []
      arg_origins (more_exprs e es) = or_else (borrow_origins e) (source_origins e) ∷ arg_origins es

  unfoldable pub observe_call : Expr → Exprs → Collector → Collector
  unfolding find_text origins_at arg_origins add_escapes
  observe_call callee args c = elim (find_text known (callee_name callee)) [
    | none ↦ c
    | some s ↦ add_escapes (origins_at (arg_origins c args) s.escape_params) c
  ]

  unfoldable mutual
    unfolding observe_call

    pub expression : Expr → Collector → Collector
    expression (call sp callee args info) c = expressions args (observe_call callee args c)
    expression (unary sp op e w v) c = expression e c
    expression (binary sp l op r) c = expression r (expression l c)
    expression (cast sp e t) c = expression e c
    expression (index sp o i info) c = expression i (expression o c)
    expression (member sp o m info) c = expression o c
    expression (array sp es size) c = expressions es c
    expression (literal sp v) c = c
    expression (name sp x) c = c

    pub expressions : Exprs → Collector → Collector
    expressions no_exprs c = c
    expressions (more_exprs e es) c = expressions es (expression e c)

  unfoldable pub set_alias : Text → Origins → Collector → Collector
  unfolding set_origins
  set_alias x os c = record c { aliases = set_origins c.aliases x os }

  unfoldable pub assign_field : Expr → Text → Origins → Collector → Collector
  unfolding set_origins add_escapes
  assign_field (name sp x) m os c =
      add_escapes os (record c { aggregate = set_origins c.aggregate (field_key x m) os })
  assign_field _ m os c = c

  unfoldable pub assign : Expr → Expr → Collector → Collector
  unfolding borrow_origins set_alias assign_field add_escapes
  assign (name sp x) value c = set_alias x (borrow_origins c value) c
  assign (member sp o m info) value c = assign_field o m (borrow_origins c value) c
  assign (index sp o i info) value c = add_escapes (borrow_origins c value) c
  assign _ value c = c

  -- The origins in the fields of a variable.
  unfoldable pub origins_below : Text → List (Text × Origins) → Origins
  unfolding merge_origins starts_with
  origins_below prefix [] = []
  origins_below prefix ((key, os) ∷ m) =
      let rest = origins_below prefix m in
      if starts_with prefix key then merge_origins os rest else rest

  unfoldable pub returned_fields : Expr → Collector → Origins
  unfolding origins_below
  returned_fields (name sp x) c = origins_below (x ++ codes ".") c.aggregate
  returned_fields _ c = []

  unfoldable pub add_returns : Expr → Collector → Collector
  unfolding borrow_origins returned_fields insert_params merge_origins
  add_returns e c =
      let os = merge_origins (borrow_origins c e) (returned_fields e c) in
      record c {
        summary = record c.summary { return_params = insert_params os c.summary.return_params };
      }

  unfoldable pub expression_statement : Expr → Collector → Collector
  unfolding expression assign
  expression_statement (binary sp l TokenKind.equal r) c = assign l r (expression r c)
  expression_statement e c = expression e c

  unfoldable mutual
    unfolding expression expression_statement set_alias borrow_origins add_returns

    pub collect : Stmt → Collector → Collector
    collect (let_stmt sp k x type e) c =
        let c' = expression e c in set_alias x (borrow_origins c' e) c'
    collect (expr_stmt sp e) c = expression_statement e c
    collect (return_stmt sp none) c = c
    collect (return_stmt sp (some e)) c = add_returns e (expression e c)
    collect (throw_stmt sp e) c = expression e c
    collect (block_stmt sp body u) c = collect_all body c
    collect (if_stmt sp e t o) c = collect_branch o (collect t (expression e c))
    collect (while_stmt sp e body) c = collect body (expression e c)
    collect (function_stmt f body) c = c
    collect (record_stmt r) c = c
    collect (import_stmt sp path) c = c
    collect (module_stmt sp x) c = c

    pub collect_all : Stmts → Collector → Collector
    collect_all no_stmts c = c
    collect_all (more_stmts s ss) c = collect_all ss (collect s c)

    pub collect_branch : OptStmt → Collector → Collector
    collect_branch no_stmt c = c
    collect_branch (some_stmt s) c = collect s c

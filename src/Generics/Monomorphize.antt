-- ===== src/Generics/Monomorphize.antt =====
-- `GenericEngine::monomorphize` (Compiler/generics.cpp): the types of expressions, the walk over the
-- statements, and the program that is left. The walk into the body of an instance is on fuel: the
-- source does not end where instances ask for further instances without end.
use noe_code.Prelude.{
  ℕ, zero, suc, Bool, false, List, [], ◌∷◌, ◌++◌, Option, none, some, Text, codes, length, map,
  ◌==◌, find_text, text_eq, to_string, if◌then◌else◌,
}
use noe_code.Nir.{Value}
use noe_code.Types.Names.{strip}
use noe_code.Ast.{
  TokenKind, Span, Diagnostic, Parameter, Expr, Exprs, literal, name, unary, binary, call, cast,
  index, member, array, no_exprs, more_exprs, Stmt, Stmts, OptStmt, expr_stmt, let_stmt, block_stmt,
  if_stmt, while_stmt, return_stmt, throw_stmt, no_stmts, more_stmts, no_stmt, some_stmt,
  RecordField, TopLevel, function_decl, record_decl, statement,
}
use noe_code.Lifetime.Check.{no_errors}
use noe_code.Lower.Calls.{count_exprs}
use noe_code.Generics.Mangle.{parse_mangled_generic}
use noe_code.Generics.Substitute.{substitute, element_type}
use noe_code.Generics.Bind.{Bindings, bind_all}
use noe_code.Generics.State.{
  GenericSyntax, Monomorphizer, exhaust, is_generic, record_params_of, collect_declarations,
  ensure_type,
}
use noe_code.Generics.Calls.{Env, Called, env_of, ensure_opt, process_call}

unfoldable pub value_type : Value → Text
value_type (Value.int n) = codes "int"
value_type (Value.double d) = codes "float"
value_type (Value.boolean b) = codes "bool"
value_type (Value.text t) = codes "string"
value_type Value.monostate = codes "null"

unfoldable pub unary_type : TokenKind → Text → Text
unfolding element_type
unary_type TokenKind.bang t = codes "bool"
unary_type TokenKind.ampersand t = b'*' ∷ t
unary_type TokenKind.star t = element_type t
unary_type _ t = t

unfoldable pub binary_type : TokenKind → Text → Text
binary_type TokenKind.equal_equal l = codes "bool"
binary_type TokenKind.bang_equal l = codes "bool"
binary_type TokenKind.less l = codes "bool"
binary_type TokenKind.less_equal l = codes "bool"
binary_type TokenKind.greater l = codes "bool"
binary_type TokenKind.greater_equal l = codes "bool"
binary_type TokenKind.and_and l = codes "bool"
binary_type TokenKind.or_or l = codes "bool"
binary_type _ l = l

unfoldable pub pointer_target : Text → Text
unfolding strip
pointer_target t = elim (strip (codes "*volatile ") t) [
  | some u ↦ u
  | none ↦ elim (strip (codes "*") t) [ some u ↦ u | none ↦ t ]
]

unfoldable pub field_type : List RecordField → Text → Bindings → Text
unfolding text_eq substitute
field_type [] x b = codes "unknown"
field_type (f ∷ fs) x b =
    let rest = field_type fs x b in if text_eq f.name x then substitute f.type_name b else rest

unfoldable pub member_type : Text → Text → Monomorphizer → Text
unfolding pointer_target field_type bind_all find_text
member_type raw x m = elim (parse_mangled_generic (pointer_target raw)) [
  | none ↦ codes "unknown"
  | some app ↦ elim (find_text m.templates app.base) [
    | none ↦ codes "unknown"
    | some t ↦
        if length t.params == length app.args
        then field_type t.decl.fields x (bind_all t.params app.args [])
        else codes "unknown"
  ]
]

pub record Inferred : Type 0 where
  pub expr : Expr
  pub type : Text
  pub state : Monomorphizer

pub record InferredArgs : Type 0 where
  pub args : Exprs
  pub types : List Text
  pub state : Monomorphizer

-- `infer`, with `ensureType` and the rest of `processCall` passed in. It looks at the first element of
-- an array only, and not at the index of an element.
unfoldable mutual
  unfolding value_type unary_type binary_type member_type element_type find_text to_string

  pub infer :
      (Text → Monomorphizer → Monomorphizer)
      → (Span → Expr → List Text → Monomorphizer → Called)
      → Env
      → Expr
      → Monomorphizer
      → Inferred
  infer ensure finish env (literal sp v) m = record {
    expr = literal sp v;
    type = value_type v;
    state = m;
  }
  infer ensure finish env (name sp x) m = record {
    expr = name sp x;
    type = elim (find_text env x) [ none ↦ codes "unknown" | some t ↦ t ];
    state = m;
  }
  infer ensure finish env (cast sp e t) m = record {
    expr = cast sp e t;
    type = t;
    state = ensure t m;
  }
  infer ensure finish env (unary sp op e w q) m =
      let r = infer ensure finish env e m in
      record { expr = unary sp op r.expr w q; type = unary_type op r.type; state = r.state }
  infer ensure finish env (binary sp l op e) m =
      let a = infer ensure finish env l m in
      let b = infer ensure finish env e a.state in
      record { expr = binary sp a.expr op b.expr; type = binary_type op a.type; state = b.state }
  infer ensure finish env (array sp no_exprs w) m = record {
    expr = array sp no_exprs w;
    type = codes "[unknown;0]";
    state = m;
  }
  infer ensure finish env (array sp (more_exprs e es) w) m =
      let r = infer ensure finish env e m in
      record {
        expr = array sp (more_exprs r.expr es) w;
        type = b'[' ∷ (r.type ++ (b';' ∷ (to_string (suc (count_exprs es)) ++ codes "]")));
        state = r.state;
      }
  infer ensure finish env (index sp o i info) m =
      let r = infer ensure finish env o m in
      record { expr = index sp r.expr i info; type = element_type r.type; state = r.state }
  infer ensure finish env (member sp o x info) m =
      let r = infer ensure finish env o m in
      record {
        expr = member sp r.expr x info;
        type = member_type r.type x r.state;
        state = r.state;
      }
  infer ensure finish env (call sp f es info) m =
      let r = infer_args ensure finish env es m in
      let c = finish sp f r.types r.state in
      record { expr = call sp c.callee r.args info; type = c.type; state = c.state }

  pub infer_args :
      (Text → Monomorphizer → Monomorphizer)
      → (Span → Expr → List Text → Monomorphizer → Called)
      → Env
      → Exprs
      → Monomorphizer
      → InferredArgs
  infer_args ensure finish env no_exprs m = record { args = no_exprs; types = []; state = m }
  infer_args ensure finish env (more_exprs e es) m =
      let r = infer ensure finish env e m in
      let rs = infer_args ensure finish env es r.state in
      record { args = more_exprs r.expr rs.args; types = r.type ∷ rs.types; state = rs.state }

unfoldable pub or_type : Option Text → Text → Text
or_type none t = t
or_type (some u) t = u

-- `processStmt`: the statement, what the environment is behind it, and the state.
unfoldable mutual
  unfolding infer infer_args ensure_opt or_type

  pub process_stmt :
      (Text → Monomorphizer → Monomorphizer)
      → (Span → Expr → List Text → Monomorphizer → Called)
      → Stmt
      → Env
      → Monomorphizer
      → Stmt × Env × Monomorphizer
  process_stmt ensure finish (expr_stmt sp e) env m =
      let r = infer ensure finish env e m in (expr_stmt sp r.expr, env, r.state)
  process_stmt ensure finish (let_stmt sp c x t e) env m =
      let r = infer ensure finish env e m in
      (let_stmt sp c x t r.expr, (x, or_type t r.type) ∷ env, ensure_opt ensure t r.state)
  process_stmt ensure finish (return_stmt sp none) env m = (return_stmt sp none, env, m)
  process_stmt ensure finish (return_stmt sp (some e)) env m =
      let r = infer ensure finish env e m in (return_stmt sp (some r.expr), env, r.state)
  process_stmt ensure finish (throw_stmt sp e) env m =
      let r = infer ensure finish env e m in (throw_stmt sp r.expr, env, r.state)
  process_stmt ensure finish (block_stmt sp body u) env m =
      let r = process_stmts ensure finish body env m in (block_stmt sp r.0 u, env, r.1)
  process_stmt ensure finish (if_stmt sp e s o) env m =
      let c = infer ensure finish env e m in
      let a = process_stmt ensure finish s env c.state in
      let b = process_branch ensure finish o env a.2 in (if_stmt sp c.expr a.0 b.0, env, b.1)
  process_stmt ensure finish (while_stmt sp e s) env m =
      let c = infer ensure finish env e m in
      let r = process_stmt ensure finish s env c.state in (while_stmt sp c.expr r.0, env, r.2)
  process_stmt ensure finish s env m = (s, env, m)

  pub process_stmts :
      (Text → Monomorphizer → Monomorphizer)
      → (Span → Expr → List Text → Monomorphizer → Called)
      → Stmts
      → Env
      → Monomorphizer
      → Stmts × Monomorphizer
  process_stmts ensure finish no_stmts env m = (no_stmts, m)
  process_stmts ensure finish (more_stmts s ss) env m =
      let r = process_stmt ensure finish s env m in
      let rs = process_stmts ensure finish ss r.1 r.2 in (more_stmts r.0 rs.0, rs.1)

  pub process_branch :
      (Text → Monomorphizer → Monomorphizer)
      → (Span → Expr → List Text → Monomorphizer → Called)
      → OptStmt
      → Env
      → Monomorphizer
      → OptStmt × Monomorphizer
  process_branch ensure finish no_stmt env m = (no_stmt, m)
  process_branch ensure finish (some_stmt s) env m =
      let r = process_stmt ensure finish s env m in (some_stmt r.0, r.2)

-- A body, whose instances are on the fuel left.
unfoldable pub process_body : ℕ → Stmts → Env → Monomorphizer → Stmts × Monomorphizer
unfolding process_call process_stmts exhaust
process_body zero body env m = (body, exhaust m)
process_body (suc f) body env m =
    process_stmts (ensure_type f) (process_call (ensure_type f) (process_body f)) body env m

unfoldable pub ensure_params :
    (Text → Monomorphizer → Monomorphizer) → List Parameter → Monomorphizer → Monomorphizer
unfolding ensure_opt
ensure_params ensure [] m = m
ensure_params ensure (p ∷ ps) m = ensure_params ensure ps (ensure_opt ensure p.annotation m)

unfoldable pub ensure_fields :
    (Text → Monomorphizer → Monomorphizer) → List RecordField → Monomorphizer → Monomorphizer
ensure_fields ensure [] m = m
ensure_fields ensure (f ∷ fs) m = ensure_fields ensure fs (ensure f.type_name m)

-- A declaration or statement that is not generic.
unfoldable pub process_top : ℕ → TopLevel → Monomorphizer → TopLevel × Monomorphizer
unfolding process_body process_stmt process_call ensure_params ensure_fields ensure_opt env_of
process_top f (function_decl g) m =
    let ensured =
      ensure_opt (ensure_type f) g.return_type (ensure_params (ensure_type f) g.params m) in
    let r = process_body (suc f) g.body (env_of g.params []) ensured in
    (function_decl (record g { body = r.0 }), r.1)
process_top f (record_decl r) m = (record_decl r, ensure_fields (ensure_type f) r.fields m)
process_top f (statement s) m =
    let r = process_stmt (ensure_type f) (process_call (ensure_type f) (process_body f)) s [] m in
    (statement r.0, r.2)
process_top f t m = (t, m)

-- Whether the declaration is left out of the result.
unfoldable pub is_template : GenericSyntax → TopLevel → Bool
unfolding is_generic record_params_of
is_template syntax (function_decl g) = is_generic g.generic_params
is_template syntax (record_decl r) = is_generic (record_params_of syntax r)
is_template syntax t = false

unfoldable pub process_tops :
    ℕ → GenericSyntax → List TopLevel → Monomorphizer → List TopLevel × Monomorphizer
unfolding process_top is_template
process_tops f syntax [] m = ([], m)
process_tops f syntax (t ∷ ts) m =
    let p = process_top f t m in
    let taken = process_tops f syntax ts p.1 in
    let left = process_tops f syntax ts m in
    if is_template syntax t then left else (p.0 ∷ taken.0, taken.1)

unfoldable pub start_monomorphizer : GenericSyntax → List TopLevel → List Diagnostic → Monomorphizer
unfolding collect_declarations
start_monomorphizer syntax ts items = collect_declarations syntax ts (record {
  functions = [];
  constraints = syntax.constraints;
  templates = [];
  cache = [];
  record_cache = [];
  record_instances = [];
  instances = [];
  diagnostics = items;
  exhausted = false;
})

-- `Monomorphizer::run`: the program, the state, and whether there are no diagnostics at all.
unfoldable pub monomorphize :
    ℕ → GenericSyntax → List TopLevel → List Diagnostic → List TopLevel × Monomorphizer × Bool
unfolding process_tops start_monomorphizer
monomorphize fuel syntax ts items =
    let r = process_tops fuel syntax ts (start_monomorphizer syntax ts items) in
    (
      r.0 ++ (map record_decl r.1.record_instances ++ map function_decl r.1.instances),
      r.1,
      no_errors r.1.diagnostics,
    )

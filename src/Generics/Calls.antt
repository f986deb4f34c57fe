-- ===== src/Generics/Calls.antt =====
-- The calls of generic functions (Compiler/generics.cpp): the types of arguments, the checks of
-- `processCall`, and the instances that `instantiate` makes. The source changes the name of a callee
-- in the tree; here the changed tree is returned.
use noe_code.Prelude.{
  Bool, true, false, List, [], ◌∷◌, ◌++◌, Option, none, some, Text, codes, length, set, find_text,
  text_eq, if◌then◌else◌,
}
use noe_code.Ast.{
  Span, Diagnostic, Parameter, Expr, name, Stmt, Stmts, OptStmt, let_stmt, block_stmt, if_stmt,
  while_stmt, no_stmts, more_stmts, no_stmt, some_stmt, FunctionDecl,
}
use noe_code.Diagnostics.{error}
use noe_code.Lifetime.Check.{no_errors}
use noe_code.Generics.Clone.{clone_stmts}
use noe_code.Generics.Substitute.{substitute}
use noe_code.Generics.Bind.{Bindings, bind, capability}
use noe_code.Generics.Instances.{name_suffix, key_suffix}
use noe_code.Generics.State.{Monomorphizer, is_generic}

-- A function of the name of the callee, where that is a plain name.
unfoldable pub plain_callee : Expr → Text
plain_callee (name sp x) = x
plain_callee _ = []

unfoldable pub rename_callee : Text → Expr → Expr
rename_callee x (name sp y) = name sp x
rename_callee x e = e

unfoldable pub or_void : Option Text → Text
or_void none = codes "void"
or_void (some t) = t

-- The checks of the parameters that have an argument.
unfoldable pub bind_parameters :
    Text
    → Span
    → List Text
    → List Parameter
    → List Text
    → Bindings
    → List Diagnostic
    → Bindings × List Diagnostic
unfolding bind error
bind_parameters f sp gps (p ∷ ps) (a ∷ as') b items = elim p.annotation [
  | none ↦ bind_parameters f sp gps ps as' b items
  | some pattern ↦ bind_parameters f sp gps ps as' (bind pattern a gps b).1 (
      if (bind pattern a gps b).0
      then items
      else error (codes "NQR-G4001") sp
          (codes "generic arguments for '" ++ (f ++ codes "' disagree")) (codes "") items)
]
bind_parameters f sp gps _ _ b items = (b, items)

unfoldable pub is_bound : Bindings → Text → Bool
unfolding find_text
is_bound b gp = elim (find_text b gp) [ some _ ↦ true | none ↦ false ]

unfoldable pub check_bound : Text → Span → List Text → Bindings → List Diagnostic → List Diagnostic
unfolding is_bound error
check_bound f sp [] b items = items
check_bound f sp (gp ∷ gps) b items = check_bound f sp gps b (
    if is_bound b gp
    then items
    else error (codes "NQR-G4002") sp
        (codes "cannot infer generic parameter '" ++ (gp ++ (codes "' for '" ++ (f ++ codes "'"))))
        (codes "") items)

unfoldable pub check_requirements :
    Span → Text → Text → List Text → List Diagnostic → List Diagnostic
unfolding capability error
check_requirements sp gp t [] items = items
check_requirements sp gp t (req ∷ reqs) items = check_requirements sp gp t reqs (
    if capability t req
    then items
    else error (codes "NQR-G4003") sp
        (codes "type '"
          ++ (t
              ++ (codes "' does not satisfy constraint '"
                  ++ (req ++ (codes "' for '" ++ (gp ++ codes "'"))))))
        (codes "") items)

-- The constraints of a function, in the order of the list that stands for the map.
unfoldable pub check_constraints :
    Span → List (Text × List Text) → Bindings → List Diagnostic → List Diagnostic
unfolding check_requirements find_text
check_constraints sp [] b items = items
check_constraints sp ((gp, reqs) ∷ cs) b items =
    check_constraints sp cs b
      (elim (find_text b gp) [ none ↦ items | some t ↦ check_requirements sp gp t reqs items ])

abbrev pub Env : Type 0
Env = List (Text × Text)

unfoldable pub env_of : List Parameter → Env → Env
env_of [] env = env
env_of (p ∷ ps) env = env_of ps (elim p.annotation [ none ↦ env | some t ↦ (p.name, t) ∷ env ])

unfoldable pub substitute_annotation : Bindings → Option Text → Option Text
unfolding substitute
substitute_annotation b none = none
substitute_annotation b (some t) = some (substitute t b)

unfoldable pub ensure_opt :
    (Text → Monomorphizer → Monomorphizer) → Option Text → Monomorphizer → Monomorphizer
ensure_opt ensure none m = m
ensure_opt ensure (some t) m = ensure t m

-- The parameters of a copy; each type is ensured once it is substituted.
unfoldable pub copy_params :
    (Text → Monomorphizer → Monomorphizer)
    → Bindings
    → List Parameter
    → Monomorphizer
    → List Parameter × Monomorphizer
unfolding substitute_annotation ensure_opt
copy_params ensure b [] m = ([], m)
copy_params ensure b (p ∷ ps) m =
    let t = substitute_annotation b p.annotation in
    let r = copy_params ensure b ps (ensure_opt ensure t m) in
    (record p { annotation = t } ∷ r.0, r.1)

-- `substituteStmt`: the annotations of the declarations in a body.
unfoldable mutual
  unfolding substitute_annotation

  pub substitute_stmt : Bindings → Stmt → Stmt
  substitute_stmt b (let_stmt sp c x t e) = let_stmt sp c x (substitute_annotation b t) e
  substitute_stmt b (block_stmt sp body u) = block_stmt sp (substitute_stmts b body) u
  substitute_stmt b (if_stmt sp e s o) = if_stmt sp e (substitute_stmt b s) (substitute_branch b o)
  substitute_stmt b (while_stmt sp e s) = while_stmt sp e (substitute_stmt b s)
  substitute_stmt b s = s

  pub substitute_stmts : Bindings → Stmts → Stmts
  substitute_stmts b no_stmts = no_stmts
  substitute_stmts b (more_stmts s ss) = more_stmts (substitute_stmt b s) (substitute_stmts b ss)

  pub substitute_branch : Bindings → OptStmt → OptStmt
  substitute_branch b no_stmt = no_stmt
  substitute_branch b (some_stmt s) = some_stmt (substitute_stmt b s)

-- `instantiate`: the name of the instance. The copy stands among the instances before those that its
-- body asks for, so it is entered first and its body is put in afterwards.
unfoldable pub instantiate :
    (Text → Monomorphizer → Monomorphizer)
    → (Stmts → Env → Monomorphizer → Stmts × Monomorphizer)
    → FunctionDecl
    → Bindings
    → Monomorphizer
    → Text × Monomorphizer
unfolding clone_stmts key_suffix name_suffix copy_params substitute_annotation ensure_opt
    substitute_stmts env_of find_text
instantiate ensure process f b m =
    let key = f.name ++ key_suffix f.generic_params b in
    let instance' = f.name ++ name_suffix f.generic_params b in
    let params = copy_params ensure b f.params (record m { cache = (key, instance') ∷ m.cache }) in
    let result = substitute_annotation b f.return_type in
    let ensured = ensure_opt ensure result params.1 in
    let copy : FunctionDecl = record f {
      name = instance';
      generic_params = [];
      params = params.0;
      return_type = result;
      body = substitute_stmts b (clone_stmts f.body);
    } in
    let r =
      process copy.body (env_of params.0 [])
        (record ensured { instances = ensured.instances ++ (copy ∷ []) }) in
    let done = record copy { body = r.0 } in
    elim (find_text m.cache key) [
      | some known ↦ (known, m)
      | none ↦
          (instance', record r.1 { instances = set r.1.instances (length ensured.instances) done })
    ]

-- A call once the types of its arguments are known: the callee, the type and the state.
pub record Called : Type 0 where
  pub callee : Expr
  pub type : Text
  pub state : Monomorphizer

-- The call of a generic function whose parameters are bound.
unfoldable pub call_instance :
    (Text → Monomorphizer → Monomorphizer)
    → (Stmts → Env → Monomorphizer → Stmts × Monomorphizer)
    → FunctionDecl
    → Bindings
    → Expr
    → Monomorphizer
    → Called
unfolding instantiate rename_callee or_void substitute
call_instance ensure process f b callee m =
    let i = instantiate ensure process f b m in
    let result = substitute (or_void f.return_type) b in
    record { callee = rename_callee i.0 callee; type = result; state = ensure result i.1 }

unfoldable pub constraints_of : Monomorphizer → Text → List (Text × List Text)
unfolding find_text
constraints_of m f = elim (find_text m.constraints f) [ none ↦ [] | some cs ↦ cs ]

unfoldable pub call_generic :
    (Text → Monomorphizer → Monomorphizer)
    → (Stmts → Env → Monomorphizer → Stmts × Monomorphizer)
    → FunctionDecl
    → Span
    → Expr
    → List Text
    → Monomorphizer
    → Called
unfolding bind_parameters check_bound check_constraints call_instance constraints_of
call_generic ensure process f sp callee args m =
    let x = plain_callee callee in
    let b = bind_parameters x sp f.generic_params f.params args [] m.diagnostics in
    let bound = record m { diagnostics = check_bound x sp f.generic_params b.0 b.1 } in
    let met = record bound {
      diagnostics = check_constraints sp (constraints_of m f.name) b.0 bound.diagnostics;
    } in
    let called = call_instance ensure process f b.0 callee met in
    if no_errors bound.diagnostics
    then (if no_errors met.diagnostics
        then called
        else record { callee = callee; type = codes "unknown"; state = met })
    else record { callee = callee; type = codes "unknown"; state = bound }

-- The part of `processCall` behind the arguments.
unfoldable pub process_call :
    (Text → Monomorphizer → Monomorphizer)
    → (Stmts → Env → Monomorphizer → Stmts × Monomorphizer)
    → Span
    → Expr
    → List Text
    → Monomorphizer
    → Called
unfolding plain_callee call_generic is_generic or_void find_text text_eq
process_call ensure process sp callee args m = elim (find_text m.functions (plain_callee callee)) [
  | none ↦ record {
    callee = callee;
    type = if text_eq (plain_callee callee) (codes "len") then codes "usize" else codes "unknown";
    state = m;
  }
  | some f ↦ elim (is_generic f.generic_params) [
    | false ↦ record { callee = callee; type = or_void f.return_type; state = m }
    | true ↦ call_generic ensure process f sp callee args m
  ]
]

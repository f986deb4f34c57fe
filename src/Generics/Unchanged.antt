-- ===== src/Generics/Unchanged.antt =====
-- A program without generic declarations (Compiler/generics.cpp): the walk over it changes nothing.
use noe_code.Prelude.{
  ℕ, zero, suc, ◌<◌, ◌≡◌, refl, ap, subst, ◌∙◌, inl, inr, false, List, [], ◌∷◌, Option, none, some,
  Text, length, find_text, text_eq, All, Option-cases, Bool-cases, arith, if◌then◌else◌,
}
use noe_code.Ast.{Span, Expr, Stmts, FunctionDecl}
use noe_code.Generics.Mangle.{parse_mangled_generic}
use noe_code.Generics.State.{
  Monomorphizer, exhaust, is_generic, inner_type, ensure_all, ensure_in, ensure_type,
}
use noe_code.Generics.Calls.{Env, plain_callee, process_call}
use noe_code.Generics.Lengths.{AreShorter, parse_mangled_generic-Shorter, inner_type-length}

-- No record is a template, and no function is generic.
pub record IsIdle (m : Monomorphizer) : Type 0 where
  pub templates : m.templates ≡ []
  pub functions :
      All (λ (p : Text × FunctionDecl). is_generic p.1.generic_params ≡ false) m.functions

pub find_text-All :
    {V : Type 0} (P : V → Type 0) (m : List (Text × V)) (x : Text) (v : V)
    → All (λ (p : Text × V). P p.1) m
    → find_text m x ≡ some v
    → P v
unfolding find_text
find_text-All P [] x v h e = cc
find_text-All {V} P ((y, w) ∷ m) x v (p, h) e = elim (Bool-cases (text_eq y x)) [
  | inl f ↦
      subst P
        (ap (λ (o : Option V). elim o [ some u ↦ u | none ↦ w ])
          (subst (λ t. (if t then some w else find_text m x) ≡ some v) f e))
        p
  | inr f ↦
      find_text-All P m x v h (subst (λ t. (if t then some w else find_text m x) ≡ some v) f e)
]

ensure_all_same :
    (ensure : Text → Monomorphizer → Monomorphizer) (k : ℕ) (m : Monomorphizer)
    → ((t : Text) → length t < k → ensure t m ≡ m)
    → (ts : List Text) → AreShorter k ts
    → ensure_all ensure ts m ≡ m
unfolding ensure_all
ensure_all_same ensure k m h [] s = refl
ensure_all_same ensure k m h (t ∷ ts) (l, s) =
    ap (ensure_all ensure ts) (h t l) ∙ ensure_all_same ensure k m h ts s

ensure_in_same :
    (deeper : Text → Monomorphizer → Monomorphizer) (k : ℕ) (t : Text) (m : Monomorphizer)
    → m.templates ≡ []
    → length t < k
    → ensure_in deeper k t m ≡ m
unfolding ensure_in
ensure_in_same deeper zero t m h l = absurd (omega arith)
ensure_in_same deeper (suc k) t m h l = elim (Option-cases (inner_type t)) [
  | inr (some u, e) ↦
      rw (e, ensure_in) (ensure_in_same deeper k u m h (omega (arith, l, inner_type-length t u e)))
  | inr (none, e) ↦ rw (e, ensure_in) refl
  | inl e ↦ elim (Option-cases (parse_mangled_generic t)) [
    | inl f ↦ rw (e, f, ensure_in) refl
    | inr (app, f) ↦
        let absent : find_text m.templates app.base ≡ none =
          unfold find_text in ap (λ ts. find_text ts app.base) h in
        rw (e, f, absent, ensure_in)
          (ensure_all_same (ensure_in deeper k) (length t) m
            (λ u s. ensure_in_same deeper k u m h (omega (arith, s, l))) app.args
            (parse_mangled_generic-Shorter t app f))
  ]
]

pub ensure_type_same :
    (f : ℕ) (t : Text) (m : Monomorphizer) → m.templates ≡ [] → ensure_type f t m ≡ m
unfolding ensure_type
ensure_type_same zero t m h = ensure_in_same (λ u n. exhaust n) (suc (length t)) t m h (omega arith)
ensure_type_same (suc f) t m h = ensure_in_same (ensure_type f) (suc (length t)) t m h (omega arith)

pub process_call_same :
    (ensure : Text → Monomorphizer → Monomorphizer)
    (process : Stmts → Env → Monomorphizer → Stmts × Monomorphizer) (sp : Span) (callee : Expr)
    (args : List Text) (m : Monomorphizer)
    → IsIdle m
    → ((process_call ensure process sp callee args m).callee ≡ callee)
      × ((process_call ensure process sp callee args m).state ≡ m)
unfolding process_call
process_call_same ensure process sp callee args m h =
    elim (Option-cases (find_text m.functions (plain_callee callee))) [
      | inl e ↦ rw (e, process_call) (refl, refl)
      | inr (f, e) ↦
          let plain =
            find_text-All (λ (g : FunctionDecl). is_generic g.generic_params ≡ false) m.functions
              (plain_callee callee) f h.functions e in
          rw (e, plain, process_call) (refl, refl)
    ]

-- ===== src/Generics/Programs.antt =====
-- `GenericEngine::monomorphize` (Compiler/generics.cpp) of a program without generic declarations.
use noe_code.Prelude.{ℕ, ◌≡◌, refl, ap, ◌∙◌, false, List, [], ◌∷◌, All}
use mathlib.Core.List.{append-nil}
use noe_code.Ast.{
  Diagnostic, TopLevel, function_decl, record_decl, import_decl, module_decl, statement,
}
use noe_code.Generics.State.{GenericSyntax, Monomorphizer, collect_declarations, ensure_type}
use noe_code.Generics.Calls.{env_of, process_call}
use noe_code.Generics.Monomorphize.{
  process_body, process_top, process_tops, is_template, start_monomorphizer, monomorphize,
}
use noe_code.Generics.Unchanged.{IsIdle}
use noe_code.Generics.Walk.{
  process-IsQuiet, ensure_fields-kept, ensure_signature-kept, process_stmt-kept, process_stmts-kept,
}

-- No declaration of the program is generic.
abbrev pub AreConcrete : GenericSyntax → List TopLevel → Type 0
AreConcrete syntax ts = All (λ (t : TopLevel). is_template syntax t ≡ false) ts

process_top-kept :
    (f : ℕ) (t : TopLevel) (m : Monomorphizer)
    → IsIdle m
    → ((process_top f t m).0 ≡ t) × ((process_top f t m).1 ≡ m)
unfolding process_top process_body
process_top-kept f (function_decl g) m h =
    let quiet = process-IsQuiet f (process_body f) m h in
    let (p, s) =
      process_stmts-kept m (ensure_type f) (process_call (ensure_type f) (process_body f)) quiet
        g.body (env_of g.params []) _
        (ensure_signature-kept m (ensure_type f) (process_call (ensure_type f) (process_body f))
          quiet g.params g.return_type) in
    (ap (λ b. function_decl (record g { body = b })) p, s)
process_top-kept f (record_decl r) m h = (
  refl,
  ensure_fields-kept m (ensure_type f) (process_call (ensure_type f) (process_body f))
      (process-IsQuiet f (process_body f) m h) r.fields m refl,
)
process_top-kept f (statement s) m h =
    let (p, q) =
      process_stmt-kept m (ensure_type f) (process_call (ensure_type f) (process_body f))
        (process-IsQuiet f (process_body f) m h) s [] in
    (ap (λ x. statement x) p, q)
process_top-kept f (import_decl sp x) m h = (refl, refl)
process_top-kept f (module_decl sp x) m h = (refl, refl)

process_tops-kept :
    (f : ℕ) (syntax : GenericSyntax) (ts : List TopLevel) (m : Monomorphizer)
    → IsIdle m
    → AreConcrete syntax ts
    → ((process_tops f syntax ts m).0 ≡ ts) × ((process_tops f syntax ts m).1 ≡ m)
unfolding process_tops
process_tops-kept f syntax [] m h k = (refl, refl)
process_tops-kept f syntax (t ∷ ts) m h (c, k) =
    let (p, s) = process_top-kept f t m h in
    let (q, r) = process_tops-kept f syntax ts m h k in
    rw (c, process_tops) (cc, ap (λ n. (process_tops f syntax ts n).1) s ∙ r)

-- What the constructor collects of a program without generic declarations.
record IsCollected (m n : Monomorphizer) : Type 0 where
  idle : IsIdle n
  record_instances : n.record_instances ≡ m.record_instances
  instances : n.instances ≡ m.instances
  diagnostics : n.diagnostics ≡ m.diagnostics
  exhausted : n.exhausted ≡ m.exhausted

collect_declarations-IsCollected :
    (syntax : GenericSyntax) (ts : List TopLevel) (m : Monomorphizer)
    → IsIdle m
    → AreConcrete syntax ts
    → IsCollected m (collect_declarations syntax ts m)
unfolding collect_declarations is_template
collect_declarations-IsCollected syntax [] m h k = record {
  idle = h;
  record_instances = refl;
  instances = refl;
  diagnostics = refl;
  exhausted = refl;
}
collect_declarations-IsCollected syntax (function_decl f ∷ ts) m h (c, k) =
    let r =
      collect_declarations-IsCollected syntax ts
        (record m { functions = (f.name, f) ∷ m.functions })
        (record { templates = h.templates; functions = (c, h.functions) }) k in
    record {
      idle = r.idle;
      record_instances = r.record_instances;
      instances = r.instances;
      diagnostics = r.diagnostics;
      exhausted = r.exhausted;
    }
collect_declarations-IsCollected syntax (record_decl d ∷ ts) m h (c, k) =
    rw (c, collect_declarations) (collect_declarations-IsCollected syntax ts m h k)
collect_declarations-IsCollected syntax (import_decl sp x ∷ ts) m h (c, k) =
    collect_declarations-IsCollected syntax ts m h k
collect_declarations-IsCollected syntax (module_decl sp x ∷ ts) m h (c, k) =
    collect_declarations-IsCollected syntax ts m h k
collect_declarations-IsCollected syntax (statement s ∷ ts) m h (c, k) =
    collect_declarations-IsCollected syntax ts m h k

-- `GenericEngine::monomorphize` ends on a program without generic declarations, with any fuel, and
-- gives the program as it is, with the diagnostics that there were.
pub monomorphize-unchanged :
    (fuel : ℕ) (syntax : GenericSyntax) (ts : List TopLevel) (items : List Diagnostic)
    → AreConcrete syntax ts
    → ((monomorphize fuel syntax ts items).0 ≡ ts)
      × ((monomorphize fuel syntax ts items).1.diagnostics ≡ items)
      × ((monomorphize fuel syntax ts items).1.exhausted ≡ false)
unfolding monomorphize start_monomorphizer
monomorphize-unchanged fuel syntax ts items k =
    let m = start_monomorphizer syntax ts items in
    let c =
      collect_declarations-IsCollected syntax ts _ (record { templates = refl; functions = tt })
        k in
    let (p, q) = process_tops-kept fuel syntax ts m c.idle k in
    (
      (rw (q, c.record_instances, c.instances) (append-nil _)) ∙ p,
      ap (λ n. n.diagnostics) q ∙ c.diagnostics,
      ap (λ n. n.exhausted) q ∙ c.exhausted,
    )

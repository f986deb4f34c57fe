-- ===== src/Generics/Ensured.antt =====
-- What `ensureType` (Compiler/generics.cpp) leaves as it is.
use noe_code.Prelude.{
  ℕ, zero, suc, ◌≡◌, refl, sym, ap, ◌∙◌, inl, inr, List, [], ◌∷◌, ◌++◌, none, some, Text, length,
  find_text, ◌==◌, Bool-cases, Option-cases,
}
use mathlib.Core.List.{append-nil, append_assoc}
use noe_code.Ast.{Diagnostic, RecordField}
use noe_code.Generics.Mangle.{GenericApplication, mangle_generic, parse_mangled_generic}
use noe_code.Generics.Bind.{Bindings, bind_all}
use noe_code.Generics.Substitute.{substitute}
use noe_code.Generics.State.{
  Monomorphizer, Template, exhaust, contains_text, arity_report, inner_type, ensure_all,
  instance_fields, ensure_instance, ensure_in, ensure_type,
}

-- The second list is the first with more behind it.
abbrev pub Appended {ℓ} : {A : Type ℓ} → List A → List A → Type ℓ
Appended {A} xs ys = (zs : List A) × (ys ≡ xs ++ zs)

pub Appended-refl {ℓ} : {A : Type ℓ} (xs : List A) → Appended xs xs
Appended-refl xs = ([], sym (append-nil xs))

pub Appended-trans {ℓ} :
    {A : Type ℓ} (xs ys zs : List A) → Appended xs ys → Appended ys zs → Appended xs zs
Appended-trans xs ys zs (us, p) (vs, q) =
    (us ++ vs, q ∙ (ap (λ l. l ++ vs) p ∙ append_assoc xs us vs))

-- The functions and their instances stay, and no diagnostic is lost.
pub record IsEnsured (m n : Monomorphizer) : Type 0 where
  pub functions : n.functions ≡ m.functions
  pub cache : n.cache ≡ m.cache
  pub instances : n.instances ≡ m.instances
  pub reports : Appended m.diagnostics n.diagnostics

pub IsEnsured-refl : (m : Monomorphizer) → IsEnsured m m
IsEnsured-refl m = record {
  functions = refl;
  cache = refl;
  instances = refl;
  reports = Appended-refl m.diagnostics;
}

pub IsEnsured-trans : {m n k : Monomorphizer} → IsEnsured m n → IsEnsured n k → IsEnsured m k
IsEnsured-trans {m} {n} {k} p q = record {
  functions = q.functions ∙ p.functions;
  cache = q.cache ∙ p.cache;
  instances = q.instances ∙ p.instances;
  reports = Appended-trans m.diagnostics n.diagnostics k.diagnostics p.reports q.reports;
}

-- A walk that only ensures types.
abbrev pub Ensures : (Text → Monomorphizer → Monomorphizer) → Type 0
Ensures ensure = (t : Text) (m : Monomorphizer) → IsEnsured m (ensure t m)

ensure_all-IsEnsured :
    (ensure : Text → Monomorphizer → Monomorphizer)
    → Ensures ensure
    → (ts : List Text) (m : Monomorphizer) → IsEnsured m (ensure_all ensure ts m)
unfolding ensure_all
ensure_all-IsEnsured ensure h [] m = IsEnsured-refl m
ensure_all-IsEnsured ensure h (t ∷ ts) m =
    IsEnsured-trans (h t m) (ensure_all-IsEnsured ensure h ts (ensure t m))

instance_fields-IsEnsured :
    (ensure : Text → Monomorphizer → Monomorphizer)
    → Ensures ensure
    → (b : Bindings) (fs : List RecordField) (m : Monomorphizer)
    → IsEnsured m (instance_fields ensure b fs m).1
unfolding instance_fields
instance_fields-IsEnsured ensure h b [] m = IsEnsured-refl m
instance_fields-IsEnsured ensure h b (f ∷ fs) m =
    IsEnsured-trans (h (substitute f.type_name b) m)
      (instance_fields-IsEnsured ensure h b fs (ensure (substitute f.type_name b) m))

arity_report-Appended :
    (app : GenericApplication) (t : Template) (items : List Diagnostic)
    → Appended items (arity_report app t items)
unfolding arity_report
arity_report-Appended app t items = (_, refl)

ensure_instance-IsEnsured :
    (ensure : Text → Monomorphizer → Monomorphizer)
    → Ensures ensure
    → (app : GenericApplication) (t : Template) (m : Monomorphizer)
    → IsEnsured m (ensure_instance ensure app t m)
unfolding ensure_instance
ensure_instance-IsEnsured ensure h app t m =
    let key = mangle_generic app.base app.args in
    let cached : Monomorphizer = record m { record_cache = key ∷ m.record_cache } in
    let r =
      instance_fields-IsEnsured ensure h (bind_all t.params app.args []) t.decl.fields cached in
    elim (Bool-cases (contains_text m.record_cache key)) [
      | inl e ↦ rw (e, ensure_instance) (IsEnsured-refl m)
      | inr e ↦ elim (Bool-cases (length t.params == length app.args)) [
        | inl f ↦
            rw (e, f, ensure_instance)
              (record {
                functions = r.functions;
                cache = r.cache;
                instances = r.instances;
                reports = r.reports;
              })
        | inr f ↦
            rw (e, f, ensure_instance)
              (record {
                functions = refl;
                cache = refl;
                instances = refl;
                reports = arity_report-Appended app t m.diagnostics;
              })
      ]
    ]

ensure_in-IsEnsured :
    (deeper : Text → Monomorphizer → Monomorphizer)
    → Ensures deeper
    → (k : ℕ) → Ensures (ensure_in deeper k)
unfolding ensure_in exhaust
ensure_in-IsEnsured deeper h zero t m = record {
  functions = refl;
  cache = refl;
  instances = refl;
  reports = Appended-refl m.diagnostics;
}
ensure_in-IsEnsured deeper h (suc k) t m = elim (Option-cases (inner_type t)) [
  | inr (some u, e) ↦ rw (e, ensure_in) (ensure_in-IsEnsured deeper h k u m)
  | inr (none, e) ↦ rw (e, ensure_in) (IsEnsured-refl m)
  | inl e ↦ elim (Option-cases (parse_mangled_generic t)) [
    | inl f ↦ rw (e, f, ensure_in) (IsEnsured-refl m)
    | inr (app, f) ↦
        let args =
          ensure_all-IsEnsured (ensure_in deeper k) (ensure_in-IsEnsured deeper h k) app.args m in
        elim (Option-cases (find_text m.templates app.base)) [
          | inl g ↦ rw (e, f, g, ensure_in) args
          | inr (templ, g) ↦
              rw (e, f, g, ensure_in)
                (IsEnsured-trans args (ensure_instance-IsEnsured deeper h app templ _))
        ]
  ]
]

pub ensure_type-Ensures : (f : ℕ) → Ensures (ensure_type f)
unfolding ensure_type exhaust
ensure_type-Ensures zero t m =
    ensure_in-IsEnsured (λ u n. exhaust n)
      (λ u n. record {
        functions = refl;
        cache = refl;
        instances = refl;
        reports = Appended-refl n.diagnostics;
      })
      (suc (length t)) t m
ensure_type-Ensures (suc f) t m =
    ensure_in-IsEnsured (ensure_type f) (ensure_type-Ensures f) (suc (length t)) t m

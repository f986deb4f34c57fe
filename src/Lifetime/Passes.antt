-- ===== src/Lifetime/Passes.antt =====
-- The passes of `buildSummaries` (Compiler/lifetime.cpp).
use noe_code.Prelude.{
  ℕ, zero, suc, ◌≡◌, refl, sym, ap, subst, ◌∙◌, ◌⊎◌, inl, inr, Bool, true, false, List, [], ◌∷◌,
  Bool-cases, All,
}
use noe_code.Ast.{FunctionDecl}
use noe_code.Lifetime.Sets.{put_text}
use noe_code.Lifetime.Summary.{SummaryMap}
use noe_code.Lifetime.Functions.{summarize, summary_eq, summary_of, summary_pass, summary_passes}

-- The map has for every function of the list the summary that its body gives, with the map for its
-- calls.
abbrev pub Stable : List FunctionDecl → SummaryMap → Type 0
Stable fs m = All (λ (f : FunctionDecl). summary_eq (summarize m f) (summary_of m f.name) ≡ true) fs

-- None of the maps that the first `n` passes begin with is stable.
abbrev pub AllUnstable : ℕ → List FunctionDecl → SummaryMap → Type 0
AllUnstable zero fs m = Unit
AllUnstable (suc n) fs m = (¬ Stable fs m) × AllUnstable n fs (summary_pass fs m).0

module _ (f : FunctionDecl) (fs : List FunctionDecl) (m : SummaryMap) where
  abbrev pass_on : Bool → SummaryMap × Bool
  pass_on t = elim t [
    | true ↦ summary_pass fs m
    | false ↦ ((summary_pass fs (put_text m f.name (summarize m f))).0, true)
  ]

  summary_pass-as :
      (t : Bool)
      → summary_eq (summarize m f) (summary_of m f.name) ≡ t
      → summary_pass (f ∷ fs) m ≡ pass_on t
  unfolding summary_pass
  summary_pass-as t e = ap pass_on e

-- A pass that reports no change found the map stable, and leaves it as it is.
unchanged_map :
    (fs : List FunctionDecl) (m : SummaryMap)
    → (summary_pass fs m).1 ≡ false
    → ((summary_pass fs m).0 ≡ m) × Stable fs m
unfolding summary_pass
unchanged_map [] m h = (refl, tt)
unchanged_map (f ∷ fs) m h = elim (Bool-cases (summary_eq (summarize m f) (summary_of m f.name))) [
  | inl e ↦
      let same = summary_pass-as f fs m true e in
      let rest = unchanged_map fs m (sym (ap (λ (r : SummaryMap × Bool). r.1) same) ∙ h) in
      (ap (λ (r : SummaryMap × Bool). r.0) same ∙ rest.0, (e, rest.1))
  | inr e ↦ absurd (cc (h, ap (λ (r : SummaryMap × Bool). r.1) (summary_pass-as f fs m false e)))
]

-- A pass over a stable map reports no change.
Stable-pass :
    (fs : List FunctionDecl) (m : SummaryMap) → Stable fs m → (summary_pass fs m).1 ≡ false
unfolding summary_pass
Stable-pass [] m h = refl
Stable-pass (f ∷ fs) m (e, h) =
    ap (λ (r : SummaryMap × Bool). r.1) (summary_pass-as f fs m true e) ∙ Stable-pass fs m h

true-false : {b : Bool} → b ≡ true → b ≡ false → ⊥
true-false e f = cc

-- The loop of `buildSummaries` over any functions, from any map and with any number of passes, ends
-- with a map that has for every function the summary that its body gives, with the map for its calls,
-- unless all its passes were made and each began with a map that is not so.
pub summary_passes-Stable :
    (n : ℕ) (fs : List FunctionDecl) (m : SummaryMap)
    → Stable fs (summary_passes n fs m) ⊎ AllUnstable n fs m
unfolding summary_passes
summary_passes-Stable zero fs m = inr tt
summary_passes-Stable (suc n) fs m = elim (Bool-cases (summary_pass fs m).1) [
  | inl e ↦
      rw (e, summary_passes)
        (elim (summary_passes-Stable n fs (summary_pass fs m).0) [
          | inl s ↦ inl s
          | inr u ↦ inr (λ s. true-false e (Stable-pass fs m s), u)
        ])
  | inr e ↦
      let same = unchanged_map fs m e in
      rw (e, summary_passes) (inl (subst (Stable fs) (sym same.0) same.1))
]

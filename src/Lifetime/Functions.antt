-- ===== src/Lifetime/Functions.antt =====
-- The summaries of the functions of a program: `buildSummaries` (Compiler/lifetime.cpp).
use noe_code.Prelude.{
  ℕ, zero, suc, ◌+◌, ◌*◌, Bool, true, false, ◌&&◌, List, [], ◌∷◌, none, some, Text, find_text,
  length, if◌then◌else◌,
}
use noe_code.Ast.{Parameter, FunctionDecl, TopLevel, function_decl}
use noe_code.Lifetime.Sets.{put_text, same_numbers, borrow_type}
use noe_code.Lifetime.Summary.{
  FunctionSummary, SummaryMap, Origins, merge_origins, or_empty, collect_all, from_param,
}

-- The maps of a new `SummaryCollector`, from the parameters from `i` on.
unfoldable pub param_indices : List Parameter → ℕ → List (Text × ℕ) → List (Text × ℕ)
unfolding put_text
param_indices [] i m = m
param_indices (p ∷ ps) i m = param_indices ps (suc i) (put_text m p.name i)

unfoldable pub param_aliases : List Parameter → ℕ → List (Text × Origins) → List (Text × Origins)
unfolding put_text borrow_type find_text or_empty merge_origins
param_aliases [] i m = m
param_aliases (p ∷ ps) i m = param_aliases ps (suc i) (
    if borrow_type p.annotation
    then put_text m p.name (merge_origins (or_empty (find_text m p.name)) (from_param i ∷ []))
    else m)

abbrev pub no_summary : FunctionSummary
no_summary = record { return_params = []; escape_params = [] }

-- `SummaryCollector(f,known).run()`
unfoldable pub summarize : SummaryMap → FunctionDecl → FunctionSummary
unfolding collect_all param_indices param_aliases
summarize known f =
    (collect_all known (param_indices f.params 0 []) f.body (record {
      summary = no_summary;
      aliases = param_aliases f.params 0 [];
      aggregate = [];
    })).summary

unfoldable pub summary_eq : FunctionSummary → FunctionSummary → Bool
unfolding same_numbers
summary_eq s t =
    same_numbers s.return_params t.return_params && same_numbers s.escape_params t.escape_params

-- The functions that are summarized.
unfoldable pub defined_functions : List TopLevel → List FunctionDecl
defined_functions [] = []
defined_functions (function_decl f ∷ ds) =
    let rest = defined_functions ds in if f.is_extern then rest else f ∷ rest
defined_functions (d ∷ ds) = defined_functions ds

abbrev pub summary_of : SummaryMap → Text → FunctionSummary
summary_of m x = elim (find_text m x) [ none ↦ no_summary | some s ↦ s ]

-- One pass over the functions, and whether it changed a summary.
unfoldable pub summary_pass : List FunctionDecl → SummaryMap → SummaryMap × Bool
unfolding summarize summary_eq put_text find_text
summary_pass [] m = (m, false)
summary_pass (f ∷ fs) m =
    let next = summarize m f in
    elim (summary_eq next (summary_of m f.name)) [
      | true ↦ summary_pass fs m
      | false ↦ ((summary_pass fs (put_text m f.name next)).0, true)
    ]

-- `for(pass=0;pass<limit;++pass){...if(!changed)break;}`
unfoldable pub summary_passes : ℕ → List FunctionDecl → SummaryMap → SummaryMap
unfolding summary_pass
summary_passes zero fs m = m
summary_passes (suc n) fs m =
    let r = summary_pass fs m in elim r.1 [ true ↦ summary_passes n fs r.0 | false ↦ r.0 ]

unfoldable pub no_summaries : List FunctionDecl → SummaryMap → SummaryMap
unfolding put_text
no_summaries [] m = m
no_summaries (f ∷ fs) m = no_summaries fs (put_text m f.name no_summary)

unfoldable pub build_summaries : List TopLevel → SummaryMap
unfolding summary_passes defined_functions no_summaries
build_summaries program =
    let fs = defined_functions program in summary_passes (length fs * 2 + 4) fs (no_summaries fs [])

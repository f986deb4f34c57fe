-- ===== src/Diagnostics.antt =====
-- `Diagnostics::error` (Compiler/core.cpp): the diagnostics are the list of the items.
use noe_code.Prelude.{List, [], ◌∷◌, ◌++◌, some, none, Text, codes}
use noe_code.Types.Names.{strip}
use noe_code.Ast.{Span, Diagnostic}

-- The old prefixes of codes become the new one.
unfoldable pub current_code : Text → Text
unfolding strip
current_code code = elim (strip (codes "NOE-") code) [
  | some rest ↦ codes "NQR-" ++ rest
  | none ↦ elim (strip (codes "RIC-") code) [ some rest ↦ codes "NQR-" ++ rest | none ↦ code ]
]

-- `Diagnostics::error`
unfoldable pub error : Text → Span → Text → Text → List Diagnostic → List Diagnostic
unfolding current_code
error code span message help items =
    items ++ record { code = current_code code; message = message; span = span; help = help } ∷ []

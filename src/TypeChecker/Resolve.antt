-- ===== src/TypeChecker/Resolve.antt =====
-- Types and fields by their names: `resolveType` and `resolveField` (Compiler/type_checker.cpp). The
-- recursion is on fuel; one more than the length of the name is enough, as every call is on a
-- shorter name.
use noe_code.Prelude.{
  ℕ, zero, suc, true, false, List, [], ◌∷◌, ◌++◌, Option, none, some, Text, codes, text_eq,
  find_text, length, ◌==◌, if◌then◌else◌,
}
use noe_code.Types.{
  Ty, mk_ty, no_ty, some_ty, kind, kind_eq, pointee, default_type, pointer, record_kind, generic,
}
use noe_code.Types.Names.{
  strip, stoull, pointer_part, array_parts, pointer_to, slice_of, array_of, type_from_name,
}
use noe_code.Ast.{Span}
use noe_code.Safety.Annotator.{holds_name}
use noe_code.TypeChecker.State.{Checker, LaidField, RecordType, report, report_if}

abbrev pub generic_of : Text → Ty
generic_of x = mk_ty generic (codes "") x no_ty no_ty 0 0 1 false

unfoldable pub record_name : Ty → Text
record_name (mk_ty k rn gn p e n rs ra v) = rn

-- `t.recordSize=size;t.recordAlignment=alignment;`
unfoldable pub with_layout : Ty → RecordType → Ty
with_layout (mk_ty k rn gn p e n rs ra v) r = mk_ty k rn gn p e n r.size r.alignment v

-- A type that is spelled by one name.
unfoldable pub resolve_name : Text → Span → Checker → Ty × Checker
unfolding kind kind_eq find_text
resolve_name x sp c =
    let t = type_from_name x in
    if kind_eq (kind t) record_kind
    then elim (find_text c.records (record_name t)) [
      | none ↦
          (t, report (codes "NOE-T3000") sp (codes "unknown type '" ++ x ++ codes "'") (codes "") c)
      | some r ↦ (with_layout t r, c)
    ]
    else (t, c)

unfoldable pub array_count : Text → ℕ
unfolding stoull
array_count count = elim (stoull count) [ some n ↦ n | none ↦ 0 ]

unfoldable pub resolve_from : ℕ → Text → Span → Checker → Ty × Checker
unfolding holds_name
resolve_from zero x sp c = (default_type, c)
resolve_from (suc fuel) x sp c = elim (holds_name c.generics x) [
  | true ↦ (generic_of x, c)
  | false ↦ elim (pointer_part x) [
    | some (is_volatile, rest) ↦
        let r = resolve_from fuel rest sp c in (pointer_to is_volatile r.0, r.1)
    | none ↦ elim (strip (codes "[]") x) [
      | some rest ↦ let r = resolve_from fuel rest sp c in (slice_of r.0, r.1)
      | none ↦ elim (array_parts x) [
        | some (element, count) ↦
            let r = resolve_from fuel element sp c in
            (
              array_of r.0 (array_count count),
              report_if (array_count count == 0) (codes "NOE-T3030") sp
                  (codes "fixed array length must be greater than zero") (codes "") r.1,
            )
        | none ↦ resolve_name x sp c
      ]
    ]
  ]
]

unfoldable pub resolve_type : Text → Span → Checker → Ty × Checker
resolve_type x sp c = resolve_from (suc (length x)) x sp c

-- The type behind a pointer, and any other type itself.
unfoldable pub object_type : Ty → Ty
unfolding kind kind_eq pointee
object_type t = elim (pointee t) [
  | some_ty p ↦ if kind_eq (kind t) pointer then p else t
  | no_ty ↦ t
]

unfoldable pub find_field : List LaidField → Text → Option LaidField
unfolding text_eq
find_field [] x = none
find_field (f ∷ fs) x = if text_eq f.field.name x then some f else find_field fs x

unfoldable pub resolve_field : Ty → Text → Checker → Option LaidField
unfolding kind kind_eq find_text
resolve_field base m c =
    let t = object_type base in
    if kind_eq (kind t) record_kind
    then elim (find_text c.records (record_name t)) [ none ↦ none | some r ↦ find_field r.fields m ]
    else none

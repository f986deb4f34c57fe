-- ===== src/TypeChecker/Layout.antt =====
-- The layout of records in `TypeChecker::check` (Compiler/type_checker.cpp). Offsets and sizes are
-- `size_t`, so sums wrap at 2^64. No alignment is 0: that of a type is at least 1, and so is that of
-- a record.
use noe_code.Prelude.{
  ℕ, ◌+◌, ◌-◌, ◌*◌, ◌/◌, ◌%◌, ◌^◌, List, [], ◌∷◌, ◌++◌, none, some, Text, codes, find_text, max,
  ◌==◌, if◌then◌else◌,
}
use noe_code.Types.{Ty, kind, kind_eq, size, alignment, record_kind}
use noe_code.Ast.{RecordField, RecordDecl, TopLevel, record_decl}
use noe_code.Lifetime.Sets.{put_text}
use noe_code.TypeChecker.State.{Checker, LaidField, RecordType, report_if}
use noe_code.TypeChecker.Resolve.{resolve_type, record_name}

-- `(offset+align-1)/align*align`
unfoldable pub round_up : ℕ → ℕ → ℕ
round_up offset align = (offset + align - 1) % 2 ^ 64 / align * align

-- `offset`, `maxAlign` and `rt.fields` of the loop.
pub record Layout : Type 0 where
  pub offset : ℕ
  pub max_align : ℕ
  pub fields : List LaidField

-- A field of `size` bytes behind the fields so far.
unfoldable pub place_field : RecordField → ℕ → ℕ → Layout → Layout
place_field f size align l =
    let at = round_up l.offset align in
    record {
      offset = (at + size) % 2 ^ 64;
      max_align = max l.max_align align;
      fields = l.fields ++ (record { field = f; offset = at; size = size } ∷ []);
    }

-- The size and the alignment of a field's type, those of a record from its own layout.
unfoldable pub field_extent : Ty → Checker → ℕ × ℕ
unfolding size alignment kind kind_eq find_text
field_extent t c =
    if kind_eq (kind t) record_kind
    then elim (find_text c.records (record_name t)) [
      | some r ↦ (r.size, r.alignment)
      | none ↦ (size t, alignment t)
    ]
    else (size t, alignment t)

-- The size and the alignment that a field is given; a size of 0 is reported, and 1 in its place.
unfoldable pub measure_field : RecordField → Checker → (ℕ × ℕ) × Checker
measure_field f c =
    let t = resolve_type f.type_name f.span c in
    let extent = field_extent t.0 t.1 in
    let missing = extent.0 == 0 in
    (
      (if missing then 1 else extent.0, extent.1),
      report_if missing (codes "NOE-T3020") f.span
          (codes "record field '"
            ++ f.name
            ++ codes "' has incomplete or zero-sized type '"
            ++ f.type_name
            ++ codes "'")
          (codes "use a pointer for recursive/forward record references") t.1,
    )

-- One round of the loop over the fields.
unfoldable pub lay_field : RecordField → Layout → Checker → Layout × Checker
lay_field f l c = let m = measure_field f c in (place_field f m.0.0 m.0.1 l, m.1)

unfoldable pub lay_fields : List RecordField → Layout → Checker → Layout × Checker
lay_fields [] l c = (l, c)
lay_fields (f ∷ fs) l c = let r = lay_field f l c in lay_fields fs r.0 r.1

unfoldable pub finish_record : Layout → RecordType
finish_record l = record {
  fields = l.fields;
  size = round_up l.offset l.max_align;
  alignment = l.max_align;
}

abbrev pub empty_record : RecordType
empty_record = record { fields = []; size = 0; alignment = 1 }

-- A second record of a name adds its fields to those of the first.
unfoldable pub fields_so_far : Text → Checker → List LaidField
unfolding find_text
fields_so_far x c = elim (find_text c.records x) [ some r ↦ r.fields | none ↦ [] ]

unfoldable pub lay_record : RecordDecl → Checker → Checker
unfolding put_text
lay_record r c =
    let done =
      lay_fields r.fields (record { offset = 0; max_align = 1; fields = fields_so_far r.name c })
        c in
    record done.1 { records = put_text done.1.records r.name (finish_record done.0) }

-- `records_[r->name]=RecordType{};`
unfoldable pub declare_records : List TopLevel → Checker → Checker
unfolding put_text
declare_records [] c = c
declare_records (record_decl r ∷ ts) c =
    declare_records ts (record c { records = put_text c.records r.name empty_record })
declare_records (t ∷ ts) c = declare_records ts c

unfoldable pub lay_records : List TopLevel → Checker → Checker
lay_records [] c = c
lay_records (record_decl r ∷ ts) c = lay_records ts (lay_record r c)
lay_records (t ∷ ts) c = lay_records ts c

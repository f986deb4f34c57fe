-- ===== src/TypeChecker/LayoutBounds.antt =====
-- Where the fields of a record lie (the layout in `TypeChecker::check`, Compiler/type_checker.cpp).
use noe_code.Prelude.{
  ℕ, ◌+◌, ◌-◌, ◌/◌, ◌%◌, ◌^◌, ◌≤◌, ◌<◌, ◌≡◌, refl, sym, ap, subst, ◌∙◌, inl, inr, Bool, List, [],
  ◌∷◌, ◌++◌, Option, none, some, Text, text_eq, find_text, All, arith, ◌==◌, Bool-cases,
  Option-cases, if_both, if_cases, if◌then◌else◌,
}
use mathlib.Core.List.{append-nil, append_assoc}
use native.Mathlib.Nat.{div-add-mod', mod-lt, mul-mod_left, mod-eq_of_lt}
use noe_code.Types.{
  TypeKind, Ty, mk_ty, OptTy, no_ty, some_ty, kind, kind_eq, size, alignment, element_alignment,
  record_kind,
}
use noe_code.Ast.{RecordField}
use noe_code.TypeChecker.State.{Checker, LaidField, RecordType}
use noe_code.TypeChecker.Resolve.{record_name, resolve_type}
use noe_code.TypeChecker.Layout.{
  round_up, Layout, place_field, field_extent, measure_field, lay_field, lay_fields,
}
use noe_code.TypeChecker.Visits.{Visit, both, weaken, report_if-Visit}
use noe_code.TypeChecker.Parts.{resolve_type-Visit}

-- A multiple of the alignment, at the offset or less than an alignment behind it.
pub record IsRounded (offset align r : ℕ) : Type 0 where
  pub least : offset ≤ r
  pub near : r < offset + align
  pub multiple : r % align ≡ 0

pub round_up-IsRounded :
    (offset align : ℕ)
    → 0 < align
    → offset + align ≤ 2 ^ 64
    → IsRounded offset align (round_up offset align)
unfolding round_up
round_up-IsRounded offset align h b =
    let m = offset + align - 1 in
    let whole : m % 2 ^ 64 ≡ m = mod-eq_of_lt (omega (arith, h, b)) in
    let parts = div-add-mod' m align in
    let below = mod-lt m h in
    rw whole (record {
      least = omega (arith, parts, below, h);
      near = omega (arith, parts, below, h);
      multiple = mul-mod_left (m / align) align;
    })

-- The least alignment is 1.
abbrev pub IsAligned : Checker → Type 0
IsAligned c = All (λ (p : Text × RecordType). 0 < p.1.alignment) c.records

mutual
  unfolding alignment

  alignment-positive : (t : Ty) → 0 < alignment t
  alignment-positive (mk_ty k rn gn p e n rs ra v) =
      if_both (λ (m : ℕ). 0 < m) (kind_eq k record_kind)
        (if_cases (λ (m : ℕ). 0 < m) (ra == 0) (λ z. omega arith) (λ z. ground arith))
        (if_both (λ (m : ℕ). 0 < m) (kind_eq k TypeKind.slice) (omega arith)
          (element_alignment-positive e _ _))

  element_alignment-positive : (o : OptTy) (b : Bool) (s : ℕ) → 0 < element_alignment o b s
  element_alignment-positive no_ty b s = ground arith
  element_alignment-positive (some_ty t) b s =
      if_both (λ (m : ℕ). 0 < m) b (alignment-positive t) (ground arith)

some_record : {a b : RecordType} → some a ≡ some b → a ≡ b
some_record {a} e = ap (λ (o : Option RecordType). elim o [ some v ↦ v | none ↦ a ]) e

find_text-aligned :
    (m : List (Text × RecordType)) (x : Text) {r : RecordType}
    → All (λ (p : Text × RecordType). 0 < p.1.alignment) m
    → find_text m x ≡ some r
    → 0 < r.alignment
unfolding find_text
find_text-aligned [] x h e = cc
find_text-aligned ((y, u) ∷ m) x {r} (p, h) e = elim (Bool-cases (text_eq y x)) [
  | inl f ↦
      let same = subst (λ b. (if b then some u else find_text m x) ≡ some r) f e in
      subst (λ (q : RecordType). 0 < q.alignment) (some_record same) p
  | inr f ↦
      find_text-aligned m x h (subst (λ b. (if b then some u else find_text m x) ≡ some r) f e)
]

field_extent-positive : (t : Ty) (c : Checker) → IsAligned c → 0 < (field_extent t c).1
unfolding field_extent
field_extent-positive t c h = elim (Bool-cases (kind_eq (kind t) record_kind)) [
  | inr e ↦ rw (e, field_extent) (alignment-positive t)
  | inl e ↦ elim (Option-cases (find_text c.records (record_name t))) [
    | inl f ↦ rw (e, f, field_extent) (alignment-positive t)
    | inr (r, f) ↦ rw (e, f, field_extent) (find_text-aligned c.records (record_name t) h f)
  ]
]

pub measure_field-Visit : (f : RecordField) (c : Checker) → Visit c (measure_field f c).1 (Unit {0})
unfolding measure_field
measure_field-Visit f c =
    weaken (λ p. tt) (both (resolve_type-Visit f.type_name f.span c) (report_if-Visit _ _ _ _ _ _))

pub measure_field-IsAligned :
    (f : RecordField) (c : Checker) → IsAligned c → IsAligned (measure_field f c).1
measure_field-IsAligned f c h =
    subst (λ (d : Checker). IsAligned d) (sym (measure_field-Visit f c).state) h

measure_field-positive :
    (f : RecordField) (c : Checker)
    → IsAligned c
    → (0 < (measure_field f c).0.0) × (0 < (measure_field f c).0.1)
unfolding measure_field
measure_field-positive f c h =
    let t = resolve_type f.type_name f.span c in
    let kept =
      subst (λ (d : Checker). IsAligned d) (sym (resolve_type-Visit f.type_name f.span c).state)
        h in
    (
      if_cases (λ (m : ℕ). 0 < m) ((field_extent t.0 t.1).0 == 0) (λ z. omega arith)
          (λ z. ground (arith, z)),
      field_extent-positive t.0 t.1 kept,
    )

-- The sizes and the alignments of the fields in turn.
abbrev pub extents : List RecordField → Checker → List (ℕ × ℕ)
extents [] c = []
extents (f ∷ fs) c = (measure_field f c).0 ∷ extents fs (measure_field f c).1

-- More room than the fields can take.
abbrev pub room : List (ℕ × ℕ) → ℕ
room [] = 0
room ((size, align) ∷ es) = size + align + room es

-- The fields from `at` to `end`, in turn: each is of its size, at a multiple of its alignment, behind
-- the field before it, with less than an alignment between the two.
abbrev pub IsLaid : ℕ → List (ℕ × ℕ) → List LaidField → ℕ → Type 0
IsLaid at [] [] end = at ≡ end
IsLaid at ((size, align) ∷ es) (f ∷ fs) end =
    (f.size ≡ size)
    × (f.offset % align ≡ 0)
    × (at ≤ f.offset)
    × (f.offset < at + align)
    × IsLaid (f.offset + f.size) es fs end
IsLaid at _ _ end = ⊥

pub lay_fields-IsLaid :
    (fs : List RecordField) (l : Layout) (c : Checker)
    → IsAligned c
    → l.offset + room (extents fs c) ≤ 2 ^ 64 - 1
    → (placed : List LaidField) × ((lay_fields fs l c).0.fields ≡ l.fields ++ placed)
      × IsLaid l.offset (extents fs c) placed (lay_fields fs l c).0.offset
unfolding lay_fields lay_field place_field
lay_fields-IsLaid [] l c h b = ([], sym (append-nil l.fields), refl)
lay_fields-IsLaid (f ∷ fs) l c h b =
    let m = measure_field f c in
    let (p, q) = measure_field-positive f c h in
    let at = round_up l.offset m.0.1 in
    let r = round_up-IsRounded l.offset m.0.1 q (omega (arith, b)) in
    let whole : (at + m.0.0) % 2 ^ 64 ≡ at + m.0.0 = mod-eq_of_lt (omega (arith, b, r.near)) in
    let one : LaidField = record { field = f; offset = at; size = m.0.0 } in
    let last = (lay_fields fs (place_field f m.0.0 m.0.1 l) m.1).0.offset in
    let (placed, e, laid) =
      lay_fields-IsLaid fs (place_field f m.0.0 m.0.1 l) m.1 (measure_field-IsAligned f c h)
        (rw whole (omega (arith, b, r.near))) in
    (
      one ∷ placed,
      e ∙ append_assoc l.fields (one ∷ []) placed,
      (
        refl,
        r.multiple,
        r.least,
        r.near,
        subst (λ n. IsLaid n (extents fs m.1) placed last) whole laid,
      ),
    )

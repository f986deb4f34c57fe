-- ===== src/TypeChecker/RecordBounds.antt =====
-- The layout of a whole record (`TypeChecker::check`, Compiler/type_checker.cpp).
use noe_code.Prelude.{
  ℕ, ◌+◌, ◌%◌, ◌^◌, ◌≤◌, ◌<◌, ◌≡◌, refl, sym, ap, subst, ◌∙◌, inl, inr, List, [], ◌∷◌, ◌++◌, some,
  Text, text_eq, text_eq_refl, find_text, erase_text, All, arith, Bool-cases,
}
use noe_code.Ast.{RecordField, RecordDecl}
use noe_code.Lifetime.Sets.{put_text}
use noe_code.TypeChecker.State.{Checker, LaidField, RecordType}
use noe_code.TypeChecker.Layout.{
  Layout, place_field, measure_field, lay_field, lay_fields, finish_record, fields_so_far,
  lay_record,
}
use noe_code.TypeChecker.LayoutBounds.{
  round_up-IsRounded, IsAligned, extents, room, IsLaid, lay_fields-IsLaid, measure_field-IsAligned,
}

end-le-room :
    (at : ℕ) (es : List (ℕ × ℕ)) (fs : List LaidField) (end : ℕ)
    → IsLaid at es fs end
    → end ≤ at + room es
end-le-room at [] [] end h = omega (arith, h)
end-le-room at ((size, align) ∷ es) (f ∷ fs) end (s, m, low, near, rest) =
    omega (arith, s, near, end-le-room (f.offset + f.size) es fs end rest)
end-le-room at [] (f ∷ fs) end h = absurd h
end-le-room at (x ∷ es) [] end h = absurd h

-- The alignment at the end is that of no field less, and of the fields and what it was at first.
max_align-bounds :
    (fs : List RecordField) (l : Layout) (c : Checker)
    → (l.max_align ≤ (lay_fields fs l c).0.max_align)
      × ((lay_fields fs l c).0.max_align ≤ l.max_align + room (extents fs c))
      × All (λ (x : ℕ × ℕ). x.1 ≤ (lay_fields fs l c).0.max_align) (extents fs c)
unfolding lay_fields lay_field place_field
max_align-bounds [] l c = (omega arith, omega arith, tt)
max_align-bounds (f ∷ fs) l c =
    let m = measure_field f c in
    let (low, high, all) = max_align-bounds fs (place_field f m.0.0 m.0.1 l) m.1 in
    (omega (arith, low), omega (arith, high), (omega (arith, low), all))

lay_fields-IsAligned :
    (fs : List RecordField) (l : Layout) (c : Checker)
    → IsAligned c
    → IsAligned (lay_fields fs l c).1
unfolding lay_fields lay_field
lay_fields-IsAligned [] l c h = h
lay_fields-IsAligned (f ∷ fs) l c h = lay_fields-IsAligned fs _ _ (measure_field-IsAligned f c h)

erase_text-All :
    (m : List (Text × RecordType)) (x : Text)
    → All (λ (p : Text × RecordType). 0 < p.1.alignment) m
    → All (λ (p : Text × RecordType). 0 < p.1.alignment) (erase_text m x)
unfolding erase_text
erase_text-All [] x h = tt
erase_text-All ((y, r) ∷ m) x (p, h) = elim (Bool-cases (text_eq y x)) [
  | inl e ↦ rw (e, erase_text) (erase_text-All m x h)
  | inr e ↦ rw (e, erase_text) (p, erase_text-All m x h)
]

-- What a record is after its layout: the fields lie in turn from 0 on, and the size is the least
-- multiple of the alignment that holds them; no field has a greater alignment.
pub record IsLaidRecord (es : List (ℕ × ℕ)) (r : RecordType) : Type 0 where
  pub end : ℕ
  pub laid : IsLaid 0 es r.fields end
  pub holds : end ≤ r.size
  pub tight : r.size < end + r.alignment
  pub multiple : r.size % r.alignment ≡ 0
  pub greatest : All (λ (x : ℕ × ℕ). x.1 ≤ r.alignment) es

-- The first record of a name, with fields whose sizes and alignments come to less than 2 ^ 63, is
-- entered with a layout in which its fields lie in turn, each at a multiple of its alignment, without
-- overlap and inside the record, whose size is a multiple of its alignment; and again the alignment of
-- every record is at least 1. (It is to be so of the records before.)
pub lay_record-IsLaidRecord :
    (r : RecordDecl) (c : Checker)
    → IsAligned c
    → fields_so_far r.name c ≡ []
    → room (extents r.fields c) < 2 ^ 63
    → ((t : RecordType) × (find_text (lay_record r c).records r.name ≡ some t)
        × IsLaidRecord (extents r.fields c) t)
      × IsAligned (lay_record r c)
unfolding lay_record finish_record put_text find_text
lay_record-IsLaidRecord r c h first b =
    let start : Layout = record { offset = 0; max_align = 1; fields = fields_so_far r.name c } in
    let done = lay_fields r.fields start c in
    let (placed, e, laid) = lay_fields-IsLaid r.fields start c h (omega (arith, b)) in
    let (low, high, all) = max_align-bounds r.fields start c in
    let below = end-le-room 0 (extents r.fields c) placed done.0.offset laid in
    let whole =
      round_up-IsRounded done.0.offset done.0.max_align (omega (arith, low))
        (omega (arith, high, below, b)) in
    let exact : done.0.fields ≡ placed = e ∙ ap (λ (l : List LaidField). l ++ placed) first in
    (
      (
        finish_record done.0,
        rw (text_eq_refl r.name) refl,
        record {
          end = done.0.offset;
          laid = subst (λ l. IsLaid 0 (extents r.fields c) l done.0.offset) (sym exact) laid;
          holds = whole.least;
          tight = whole.near;
          multiple = whole.multiple;
          greatest = all;
        },
      ),
      (
        omega (arith, low),
        erase_text-All done.1.records r.name (lay_fields-IsAligned r.fields start c h),
      ),
    )

-- ===== src/Lifetime/Expiry.antt =====
-- The end of a scope: `expireScope` and the next use of a name (Compiler/lifetime.cpp).
use noe_code.Prelude.{
  ℕ, ◌≤◌, ◌<◌, ◌≡◌, refl, sym, ap, subst, ◌∙◌, Bool, true, false, ◌||◌, List, [], ◌∷◌, ◌++◌, Option,
  none, some, Text, codes, text_eq, text_eq→eq, text_eq_refl, find_text, erase_text, arith,
  Bool-cases, inl, inr, if◌then◌else◌, if_both, other_name, find_text-erase_text_ne,
  find_text-erase_text_self,
}
use noe_code.Ast.{Span, name}
use noe_code.Diagnostics.{error}
use noe_code.Safety.Annotator.{holds_name, erase_name}
use noe_code.Lifetime.Sets.{insert_name}
use noe_code.Lifetime.Summary.{SummaryMap}
use noe_code.Lifetime.Inspector.{BorrowInfo, Inspector, report, report_if, expression}
use noe_code.Lifetime.Scopes.{
  locals_at, outlives, mark_dangling, fields_of, erase_fields, erase_local, erase_locals, mark,
  expire_scope,
}

holds_name-erase_name_ne :
    (xs : List Text) (k x : Text)
    → text_eq k x ≡ false
    → holds_name (erase_name xs k) x ≡ holds_name xs x
unfolding holds_name erase_name
holds_name-erase_name_ne [] k x h = refl
holds_name-erase_name_ne (y ∷ xs) k x h = elim (Bool-cases (text_eq y k)) [
  | inl e ↦ rw e (rw (other_name y k x e h) (holds_name-erase_name_ne xs k x h))
  | inr e ↦ rw e (ap (λ (b : Bool). text_eq y x || b) (holds_name-erase_name_ne xs k x h))
]

-- The names of the fields are erased from other maps than those of the names.
record SameNames (s s' : Inspector) (x : Text) : Type 0 where
  depth : find_text s'.declared_depth x ≡ find_text s.declared_depth x
  borrow : find_text s'.borrowed x ≡ find_text s.borrowed x
  marked : holds_name s'.dangling x ≡ holds_name s.dangling x

erase_fields-SameNames :
    (keys : List Text) (s : Inspector) (x : Text) → SameNames s (erase_fields keys s) x
unfolding erase_fields
erase_fields-SameNames [] s x = record { depth = refl; borrow = refl; marked = refl }
erase_fields-SameNames (key ∷ keys) s x =
    let rest =
      erase_fields-SameNames keys
        (record s {
          aggregate_borrows = erase_text s.aggregate_borrows key;
          dangling_fields = erase_name s.dangling_fields key;
        })
        x in
    record { depth = rest.depth; borrow = rest.borrow; marked = rest.marked }

erase_local-SameNames :
    (y : Text) (s : Inspector) (x : Text) → text_eq y x ≡ false → SameNames s (erase_local y s) x
unfolding erase_local
erase_local-SameNames y s x h =
    let fields =
      erase_fields-SameNames (fields_of (y ++ codes ".") s.aggregate_borrows)
        (record s {
          declared_depth = erase_text s.declared_depth y;
          array_sizes = erase_text s.array_sizes y;
          borrowed = erase_text s.borrowed y;
          dangling = erase_name s.dangling y;
          parameters = erase_text s.parameters y;
        })
        x in
    record {
      depth = fields.depth ∙ find_text-erase_text_ne s.declared_depth y x h;
      borrow = fields.borrow ∙ find_text-erase_text_ne s.borrowed y x h;
      marked = fields.marked ∙ holds_name-erase_name_ne s.dangling y x h;
    }

depth-erase_local_self :
    (s : Inspector) (x : Text) → find_text (erase_local x s).declared_depth x ≡ none
unfolding erase_local
depth-erase_local_self s x =
    let fields =
      erase_fields-SameNames (fields_of (x ++ codes ".") s.aggregate_borrows)
        (record s {
          declared_depth = erase_text s.declared_depth x;
          array_sizes = erase_text s.array_sizes x;
          borrowed = erase_text s.borrowed x;
          dangling = erase_name s.dangling x;
          parameters = erase_text s.parameters x;
        })
        x in
    fields.depth ∙ find_text-erase_text_self s.declared_depth x

none-erase_locals :
    (xs : List Text) (s : Inspector) (x : Text)
    → find_text s.declared_depth x ≡ none
    → find_text (erase_locals xs s).declared_depth x ≡ none
unfolding erase_locals
none-erase_locals [] s x h = h
none-erase_locals (y ∷ xs) s x h =
    none-erase_locals xs (erase_local y s) x (elim (Bool-cases (text_eq y x)) [
      | inl e ↦
          subst (λ z. find_text (erase_local z s).declared_depth x ≡ none) (sym (text_eq→eq y x e))
            (depth-erase_local_self s x)
      | inr e ↦ (erase_local-SameNames y s x e).depth ∙ h
    ])

-- A name that is still declared was none of those erased.
erase_locals-SameNames :
    (xs : List Text) (s : Inspector) (x : Text) (d : ℕ)
    → find_text (erase_locals xs s).declared_depth x ≡ some d
    → SameNames s (erase_locals xs s) x
unfolding erase_locals
erase_locals-SameNames [] s x d h = record { depth = refl; borrow = refl; marked = refl }
erase_locals-SameNames (y ∷ xs) s x d h = elim (Bool-cases (text_eq y x)) [
  | inl e ↦ absurd (
      cc (
        h,
        none-erase_locals xs (erase_local y s) x (
            subst (λ z. find_text (erase_local z s).declared_depth x ≡ none)
              (sym (text_eq→eq y x e)) (depth-erase_local_self s x)),
      ))
  | inr e ↦
      let first = erase_local-SameNames y s x e in
      let rest = erase_locals-SameNames xs (erase_local y s) x d h in
      record {
        depth = rest.depth ∙ first.depth;
        borrow = rest.borrow ∙ first.borrow;
        marked = rest.marked ∙ first.marked;
      }
]

holds_name-insert_name :
    (y : Text) (xs : List Text) (x : Text)
    → holds_name xs x ≡ true
    → holds_name (insert_name y xs) x ≡ true
unfolding insert_name holds_name
holds_name-insert_name y xs x h = elim (Bool-cases (holds_name xs y)) [
  | inl e ↦ rw e h
  | inr e ↦ rw e (rw h (ground arith))
]

holds_name-insert_name_self : (x : Text) (xs : List Text) → holds_name (insert_name x xs) x ≡ true
unfolding insert_name holds_name
holds_name-insert_name_self x xs = elim (Bool-cases (holds_name xs x)) [
  | inl e ↦ rw e e
  | inr e ↦ rw e (rw (text_eq_refl x) refl)
]

abbrev from_some : BorrowInfo → Option BorrowInfo → BorrowInfo
from_some c none = c
from_some c (some b) = b

module _ (depth : ℕ) (declared : List (Text × ℕ)) (x : Text) where
  mark_dangling-kept :
      (m : List (Text × BorrowInfo)) (xs : List Text)
      → holds_name xs x ≡ true
      → holds_name (mark_dangling depth declared m xs) x ≡ true
  unfolding mark_dangling
  mark_dangling-kept [] xs h = h
  mark_dangling-kept ((y, b) ∷ m) xs h = mark_dangling-kept m _ (
      if_both (λ ys. holds_name ys x ≡ true) (outlives depth declared y b)
        (holds_name-insert_name y xs x h) h)

  mark_dangling-holds :
      (m : List (Text × BorrowInfo)) (xs : List Text) (b : BorrowInfo)
      → find_text m x ≡ some b
      → outlives depth declared x b ≡ true
      → holds_name (mark_dangling depth declared m xs) x ≡ true
  unfolding mark_dangling find_text
  mark_dangling-holds [] xs b h o = absurd (cc h)
  mark_dangling-holds ((y, c) ∷ m) xs b h o = elim (Bool-cases (text_eq y x)) [
    | inl e ↦
        let same : some c ≡ some b =
          sym (ap (λ (t : Bool). if t then some c else find_text m x) e) ∙ h in
        let kept : outlives depth declared y c ≡ true =
          ap (λ (z : Text). outlives depth declared z c) (text_eq→eq y x e)
          ∙ (ap (λ (o : Option BorrowInfo). outlives depth declared x (from_some c o)) same ∙ o) in
        rw kept (
          mark_dangling-kept m (insert_name y xs) (
            subst (λ z. holds_name (insert_name z xs) x ≡ true) (sym (text_eq→eq y x e))
              (holds_name-insert_name_self x xs)))
    | inr e ↦
        mark_dangling-holds m _ b
          (sym (ap (λ (t : Bool). if t then some c else find_text m x) e) ∙ h) o
  ]

outlives_by_depth :
    (depth : ℕ) (declared : List (Text × ℕ)) (x : Text) (b : BorrowInfo) (d : ℕ)
    → b.parameter ≡ false
    → depth ≤ b.source_depth
    → find_text declared x ≡ some d
    → d < depth
    → outlives depth declared x b ≡ true
unfolding outlives
outlives_by_depth depth declared x b d p h e lt = rw p (rw e (ground arith))

-- Where a scope at `depth` ends and a variable `x` outside of it holds a borrow of storage in it, which is
-- no parameter's, the next use of `x` is reported.
pub expire_scope-expression :
    (summaries : SummaryMap) (depth : ℕ) (s : Inspector) (sp : Span) (x : Text) (b : BorrowInfo)
    (d : ℕ)
    → find_text (expire_scope depth s).borrowed x ≡ some b
    → find_text (expire_scope depth s).declared_depth x ≡ some d
    → b.parameter ≡ false
    → depth ≤ b.source_depth
    → d < depth
    → (expression summaries (name sp x) (expire_scope depth s)).diagnostics
      ≡ error
          (codes "NQR-L4102")
          sp
          (codes "use of reference whose borrowed storage has left scope")
          (codes "rebind the reference to caller-owned or longer-lived storage before using it")
          (expire_scope depth s).diagnostics
unfolding expire_scope mark expression report_if report
expire_scope-expression summaries depth s sp x b d h e p le lt =
    let same = erase_locals-SameNames (locals_at depth s.declared_depth) (mark depth s) x d e in
    let out = outlives_by_depth depth s.declared_depth x b d p le (sym same.depth ∙ e) lt in
    let held =
      mark_dangling-holds depth s.declared_depth x s.borrowed s.dangling b (sym same.borrow ∙ h)
        out in
    rw (same.marked ∙ held) refl

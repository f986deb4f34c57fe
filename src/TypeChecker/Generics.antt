-- ===== src/TypeChecker/Generics.antt =====
-- `bindGeneric` and `substituteGeneric` (Compiler/type_checker.cpp).
use noe_code.Prelude.{
  ℕ, Bool, true, false, not, ◌&&◌, ◌||◌, List, ◌∷◌, none, some, Text, find_text, ◌==◌,
  if◌then◌else◌,
}
use noe_code.Types.{
  Ty, mk_ty, OptTy, no_ty, some_ty, kind, kind_eq, pointee, can_assign, unknown, pointer, array,
  slice, generic,
}

abbrev pub Bindings : Type 0
Bindings = List (Text × Ty)

unfoldable pub element : Ty → OptTy
element (mk_ty k rn gn p e n rs ra v) = e

unfoldable pub count : Ty → ℕ
count (mk_ty k rn gn p e n rs ra v) = n

-- A generic parameter takes the first type that it meets, and every later one must agree with it.
unfoldable pub bind_name : Text → Ty → Bindings → Bool × Bindings
unfolding find_text
bind_name x actual bs = elim (find_text bs x) [
  | none ↦ (true, (x, actual) ∷ bs)
  | some t ↦ (can_assign t actual && can_assign actual t, bs)
]

unfoldable mutual
  unfolding kind kind_eq pointee element count

  pub bind_generic : Ty → Ty → Bindings → Bool × Bindings
  bind_generic (mk_ty k rn gn p e n rs ra v) actual bs =
      let pattern = mk_ty k rn gn p e n rs ra v in
      let otherwise : Bool × Bindings = (can_assign pattern actual, bs) in
      let behind_pointer = bind_opt p (pointee actual) bs otherwise in
      let in_element = bind_opt e (element actual) bs otherwise in
      if kind_eq k generic
      then bind_name gn actual bs
      else if not (kind_eq k (kind actual))
      then (kind_eq k unknown || kind_eq (kind actual) unknown, bs)
      else if kind_eq k pointer
      then behind_pointer
      else if kind_eq k slice
      then in_element
      else if kind_eq k array
      then bind_array n (count actual) e (element actual) bs in_element
      else otherwise

  -- The two types where neither pointer is null.
  pub bind_opt : OptTy → OptTy → Bindings → Bool × Bindings → Bool × Bindings
  bind_opt no_ty actual bs otherwise = otherwise
  bind_opt (some_ty t) no_ty bs otherwise = otherwise
  bind_opt (some_ty t) (some_ty actual) bs otherwise = bind_generic t actual bs

  -- Arrays with elements are also to have the same count.
  bind_array : ℕ → ℕ → OptTy → OptTy → Bindings → Bool × Bindings → Bool × Bindings
  bind_array n m (some_ty t) (some_ty actual) bs r = if n == m then r else (false, bs)
  bind_array n m e actual bs r = r

unfoldable mutual
  unfolding find_text kind_eq

  pub substitute_generic : Ty → Bindings → Ty
  substitute_generic (mk_ty k rn gn p e n rs ra v) bs =
      let inner = mk_ty k rn gn (substitute_opt p bs) (substitute_opt e bs) n rs ra v in
      if kind_eq k generic
      then (elim (find_text bs gn) [ none ↦ mk_ty k rn gn p e n rs ra v | some t ↦ t ])
      else inner

  pub substitute_opt : OptTy → Bindings → OptTy
  substitute_opt no_ty bs = no_ty
  substitute_opt (some_ty t) bs = some_ty (substitute_generic t bs)

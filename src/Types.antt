-- ===== src/Types.antt =====
-- The types of the language: Include/noqeri/types.hpp and the `Type` part of Compiler/core.cpp.
-- A `shared_ptr<Type>` that may be null is an `OptTy`; sizes are `size_t`, so products wrap at 2^64.
pub mod Ranges
pub mod Names
pub mod Printing
mod Examples
use noe_code.Prelude.{
  ℕ, zero, ◌*◌, ◌%◌, ◌^◌, Bool, true, false, not, ◌&&◌, ◌||◌, Text, codes, text_eq, ltb, leb, ◌==◌,
  if◌then◌else◌,
}

pub data TypeKind : Type 0 where
  unknown void null bool : TypeKind
  i8 i16 i32 i64 u8 u16 u32 u64 isize usize int float string : TypeKind
  pointer record_kind array slice generic : TypeKind

-- The position of a kind in the enumeration.
unfoldable pub kind_index : TypeKind → ℕ
kind_index unknown = 0
kind_index void = 1
kind_index null = 2
kind_index bool = 3
kind_index i8 = 4
kind_index i16 = 5
kind_index i32 = 6
kind_index i64 = 7
kind_index u8 = 8
kind_index u16 = 9
kind_index u32 = 10
kind_index u64 = 11
kind_index isize = 12
kind_index usize = 13
kind_index int = 14
kind_index float = 15
kind_index string = 16
kind_index pointer = 17
kind_index record_kind = 18
kind_index array = 19
kind_index slice = 20
kind_index generic = 21

unfoldable pub kind_eq : TypeKind → TypeKind → Bool
unfolding kind_index
kind_eq a b = kind_index a == kind_index b

mutual
  -- `kind`, `recordName`, `genericName`, `pointee`, `element`, `count`, `recordSize`,
  -- `recordAlignment`, `isVolatile`.
  pub data Ty : Type 0 where
    mk_ty : TypeKind → Text → Text → OptTy → OptTy → ℕ → ℕ → ℕ → Bool → Ty

  pub data OptTy : Type 0 where
    no_ty : OptTy
    some_ty : Ty → OptTy

unfoldable pub kind : Ty → TypeKind
kind (mk_ty k rn gn p e n rs ra v) = k

unfoldable pub pointee : Ty → OptTy
pointee (mk_ty k rn gn p e n rs ra v) = p

-- `Type t; t.kind = kind;`
unfoldable pub simple_type : TypeKind → Ty
simple_type k = mk_ty k (codes "") (codes "") no_ty no_ty 0 0 1 false

-- `Type{}`
unfoldable pub default_type : Ty
unfolding simple_type
default_type = simple_type unknown

unfoldable pub integer_bits : TypeKind → ℕ
integer_bits i8 = 8
integer_bits u8 = 8
integer_bits i16 = 16
integer_bits u16 = 16
integer_bits i32 = 32
integer_bits u32 = 32
integer_bits i64 = 64
integer_bits u64 = 64
integer_bits isize = 64
integer_bits usize = 64
integer_bits int = 64
integer_bits _ = 0

unfoldable pub integer_signed : TypeKind → Bool
integer_signed i8 = true
integer_signed i16 = true
integer_signed i32 = true
integer_signed i64 = true
integer_signed isize = true
integer_signed int = true
integer_signed _ = false

unfoldable pub is_integer_kind : TypeKind → Bool
is_integer_kind i8 = true
is_integer_kind i16 = true
is_integer_kind i32 = true
is_integer_kind i64 = true
is_integer_kind u8 = true
is_integer_kind u16 = true
is_integer_kind u32 = true
is_integer_kind u64 = true
is_integer_kind isize = true
is_integer_kind usize = true
is_integer_kind int = true
is_integer_kind _ = false

unfoldable pub is_integer : Ty → Bool
unfolding is_integer_kind kind
is_integer t = is_integer_kind (kind t)

unfoldable mutual
  pub size : Ty → ℕ
  size (mk_ty k rn gn p e n rs ra v) = elim k [
    | bool ↦ 1
    | i8 ↦ 1
    | u8 ↦ 1
    | i16 ↦ 2
    | u16 ↦ 2
    | i32 ↦ 4
    | u32 ↦ 4
    | record_kind ↦ rs
    | slice ↦ 16
    | array ↦ array_size e n
    | unknown ↦ 0
    | void ↦ 0
    | _ ↦ 8
  ]

  pub array_size : OptTy → ℕ → ℕ
  array_size no_ty n = 0
  array_size (some_ty t) n = size t * n % 2 ^ 64

unfoldable mutual
  unfolding size

  pub alignment : Ty → ℕ
  alignment (mk_ty k rn gn p e n rs ra v) =
      if kind_eq k record_kind
      then (if ra == 0 then 1 else ra)
      else if kind_eq k slice
      then 8
      else element_alignment e (kind_eq k array) (size (mk_ty k rn gn p e n rs ra v))

  -- An array with an element takes its element's alignment; all else its size, and at least 1.
  pub element_alignment : OptTy → Bool → ℕ → ℕ
  element_alignment no_ty is_array s = if s == 0 then 1 else s
  element_alignment (some_ty t) is_array s =
      if is_array then alignment t else if s == 0 then 1 else s

unfoldable mutual
  -- `Type::operator==`
  pub ty_eq : Ty → Ty → Bool
  ty_eq (mk_ty k rn gn p e n rs ra v) (mk_ty k' rn' gn' p' e' n' rs' ra' v') =
      let pointees = opt_eq p p' in
      let elements = opt_eq e e' in
      if not (kind_eq k k')
        || not (if v then v' else not v')
        || not (text_eq rn rn')
        || not (text_eq gn gn')
        || not (n == n')
      then false
      else if kind_eq k pointer
      then pointees
      else if kind_eq k array || kind_eq k slice
      then elements
      else true

  -- Two pointers to types: equal types, or both null.
  pub opt_eq : OptTy → OptTy → Bool
  opt_eq no_ty no_ty = true
  opt_eq no_ty (some_ty t) = false
  opt_eq (some_ty t) no_ty = false
  opt_eq (some_ty t) (some_ty t') = ty_eq t t'

-- The integer part of `canAssign`, on the bits and signs of target and value.
unfoldable pub integer_fits : TypeKind → TypeKind → Bool
unfolding integer_bits integer_signed
integer_fits t v =
    if (if integer_signed t then integer_signed v else not (integer_signed v))
    then leb (integer_bits v) (integer_bits t)
    else if integer_signed t && not (integer_signed v)
    then ltb (integer_bits v) (integer_bits t)
    else false

unfoldable pub pointees_fit : OptTy → OptTy → Bool
unfolding kind kind_eq
pointees_fit no_ty v = false
pointees_fit (some_ty t) no_ty = false
pointees_fit (some_ty t) (some_ty v) = kind_eq (kind t) void || kind_eq (kind v) void || ty_eq t v

unfoldable pub can_assign : Ty → Ty → Bool
unfolding is_integer integer_fits pointees_fit kind kind_eq pointee
can_assign target value =
    if kind_eq (kind target) unknown
      || kind_eq (kind value) unknown
      || kind_eq (kind target) generic
      || kind_eq (kind value) generic
    then true
    else if ty_eq target value
    then true
    else if is_integer target && is_integer value
    then integer_fits (kind target) (kind value)
    else if kind_eq (kind target) float && is_integer value
    then true
    else if kind_eq (kind target) pointer && kind_eq (kind value) null
    then true
    else if kind_eq (kind target) pointer && kind_eq (kind value) pointer
    then pointees_fit (pointee target) (pointee value)
    else false

-- ===== src/Types/Printing.antt =====
-- `Type::name` and `Type::isNumeric` (Compiler/core.cpp, Include/noqeri/types.hpp).
use noe_code.Prelude.{Bool, ◌||◌, ◌++◌, Text, codes, to_string, if◌then◌else◌}
use noe_code.Types.{
  TypeKind, Ty, mk_ty, OptTy, no_ty, some_ty, kind, kind_eq, is_integer, unknown, void, null, bool,
  i8, i16, i32, i64, u8, u16, u32, u64, isize, usize, int, float, string, pointer, record_kind,
  array, slice, generic,
}

unfoldable pub is_numeric : Ty → Bool
unfolding is_integer kind_eq kind
is_numeric t = is_integer t || kind_eq (kind t) float

-- The name of a kind that carries nothing else.
unfoldable pub kind_name : TypeKind → Text
kind_name unknown = codes "unknown"
kind_name void = codes "void"
kind_name null = codes "null"
kind_name bool = codes "bool"
kind_name i8 = codes "i8"
kind_name i16 = codes "i16"
kind_name i32 = codes "i32"
kind_name i64 = codes "i64"
kind_name u8 = codes "u8"
kind_name u16 = codes "u16"
kind_name u32 = codes "u32"
kind_name u64 = codes "u64"
kind_name isize = codes "isize"
kind_name usize = codes "usize"
kind_name int = codes "int"
kind_name float = codes "float"
kind_name string = codes "string"
kind_name _ = codes "unknown"

unfoldable mutual
  unfolding kind_name to_string

  pub ty_name : Ty → Text
  ty_name (mk_ty k rn gn p e n rs ra v) =
      let pointee_name = opt_name p in
      let element_name = opt_name e in
      let plain = kind_name k in
      elim k [
        | record_kind ↦ rn
        | generic ↦ gn
        | pointer ↦ codes "*" ++ (if v then codes "volatile " else codes "") ++ pointee_name
        | slice ↦ codes "[]" ++ element_name
        | array ↦ codes "[" ++ element_name ++ codes ";" ++ to_string n ++ codes "]"
        | _ ↦ plain
      ]

  pub opt_name : OptTy → Text
  opt_name no_ty = codes "unknown"
  opt_name (some_ty t) = ty_name t

-- ===== src/Types/Names.antt =====
-- Types from their spelling: `typeFromName` (Compiler/core.cpp) and what it takes from the standard
-- library (`rfind`, `substr`, `std::stoull` with base 0). The recursion of the source is on fuel;
-- one more than the length of the name is enough, since every call is on a shorter name.
use noe_code.Prelude.Opt.{◌>>=◌}
use noe_code.Prelude.{
  ℕ, zero, suc, ◌+◌, ◌-◌, ◌*◌, ◌^◌, ◌%◌, Bool, true, false, ◌&&◌, ◌||◌, List, [], ◌∷◌, Option, none,
  some, Text, codes, text_eq, find_text, length, take, drop, leb, ltb, ◌==◌, if◌then◌else◌,
}
use noe_code.Types.{
  TypeKind, Ty, mk_ty, no_ty, some_ty, simple_type, default_type, void, null, bool, i8, i16, i32,
  i64, u8, u16, u32, u64, isize, usize, int, float, string, pointer, record_kind, array, slice,
}

-- The rest of a text behind a prefix.
unfoldable pub strip : Text → Text → Option Text
strip [] s = some s
strip (c ∷ p) [] = none
strip (c ∷ p) (d ∷ s) = if c == d then strip p s else none

-- `s.rfind(c)`
unfoldable pub rfind : ℕ → Text → Option ℕ
rfind c [] = none
rfind c (d ∷ s) = elim (rfind c s) [
  | some i ↦ some (suc i)
  | none ↦ if c == d then some 0 else none
]

-- `s.substr(begin, count)`
unfoldable pub substr : Text → ℕ → ℕ → Text
substr s begin count = take count (drop begin s)

-- The value of a digit in base 16, and 16 for what is none.
unfoldable pub digit : ℕ → ℕ
digit c =
    if leb b'0' c && leb c b'9'
    then c - b'0'
    else if leb b'a' c && leb c b'f'
    then c - b'a' + 10
    else if leb b'A' c && leb c b'F'
    then c - b'A' + 10
    else 16

-- The number that the longest run of digits stands for, and the number of those digits.
unfoldable pub digits_from : ℕ → ℕ → ℕ → Text → ℕ × ℕ
unfolding digit
digits_from base acc seen [] = (acc, seen)
digits_from base acc seen (c ∷ s) =
    let rest = digits_from base (acc * base + digit c) (seen + 1) s in
    if ltb (digit c) base then rest else (acc, seen)

-- The base that a prefix stands for, and what is behind the prefix.
unfoldable pub base_of : Text → ℕ × Text
unfolding digit
base_of (z ∷ x ∷ d ∷ s) =
    if z == b'0' && (x == b'x' || x == b'X') && ltb (digit d) 16
    then (16, d ∷ s)
    else if z == b'0'
    then (8, z ∷ x ∷ d ∷ s)
    else (10, z ∷ x ∷ d ∷ s)
base_of (z ∷ s) = if z == b'0' then (8, z ∷ s) else (10, z ∷ s)
base_of [] = (10, [])

unfoldable pub skip_space : Text → Text
skip_space [] = []
skip_space (c ∷ s) =
    let rest = skip_space s in if c == 32 || (leb 9 c && leb c 13) then rest else c ∷ s

-- A sign, and whether it is a minus.
unfoldable pub sign_of : Text → Bool × Text
sign_of [] = (false, [])
sign_of (c ∷ s) = if c == b'-' then (true, s) else if c == b'+' then (false, s) else (false, c ∷ s)

-- `std::stoull(s, nullptr, 0)`, `none` where it throws.
unfoldable pub stoull : Text → Option ℕ
unfolding skip_space sign_of base_of digits_from
stoull s =
    let (minus, unsigned) = sign_of (skip_space s) in
    let (base, body) = base_of unsigned in
    let (value, seen) = digits_from base 0 0 body in
    if seen == 0 || leb (2 ^ 64) value
    then none
    else some (if minus then (2 ^ 64 - value) % 2 ^ 64 else value)

abbrev pub base_kinds : List (Text × TypeKind)
base_kinds =
    (codes "void", void)
    ∷ (codes "null", null)
    ∷ (codes "bool", bool)
    ∷ (codes "i8", i8)
    ∷ (codes "i16", i16)
    ∷ (codes "i32", i32)
    ∷ (codes "i64", i64)
    ∷ (codes "u8", u8)
    ∷ (codes "u16", u16)
    ∷ (codes "u32", u32)
    ∷ (codes "u64", u64)
    ∷ (codes "isize", isize)
    ∷ (codes "usize", usize)
    ∷ (codes "int", int)
    ∷ (codes "int64", int)
    ∷ (codes "float", float)
    ∷ (codes "float64", float)
    ∷ (codes "string", string)
    ∷ []

-- A simple type by its name, and any other name as that of a record.
unfoldable pub named_type : Text → Ty
unfolding simple_type find_text text_eq
named_type n = elim (find_text base_kinds n) [
  | some k ↦ simple_type k
  | none ↦ mk_ty record_kind n (codes "") no_ty no_ty 0 0 1 false
]

abbrev pub pointer_to : Bool → Ty → Ty
pointer_to is_volatile t = mk_ty pointer (codes "") (codes "") (some_ty t) no_ty 0 0 1 is_volatile

abbrev pub slice_of : Ty → Ty
slice_of t = mk_ty slice (codes "") (codes "") no_ty (some_ty t) 0 0 1 false

abbrev pub array_of : Ty → ℕ → Ty
array_of t n = mk_ty array (codes "") (codes "") no_ty (some_ty t) n 0 1 false

-- `n.back()==']'`
unfoldable pub ends_in : ℕ → Text → Bool
ends_in c [] = false
ends_in c (d ∷ []) = c == d
ends_in c (d ∷ e ∷ s) = ends_in c (e ∷ s)

-- The element's spelling and the count's, where the name has the shape of an array type.
unfoldable pub array_parts : Text → Option (Text × Text)
unfolding ends_in rfind substr strip
array_parts n =
    if ltb 3 (length n) && ends_in b']' n
    then (do
      _ ← strip (codes "[") n
      semi ← rfind b';' n
      some (substr n 1 (semi - 1), substr n (semi + 1) (length n - semi - 2)))
    else none

-- A star and perhaps `volatile `, and what is behind them.
unfoldable pub pointer_part : Text → Option (Bool × Text)
unfolding strip
pointer_part n = do
  rest ← strip (codes "*") n
  some (elim (strip (codes "volatile ") rest) [
    | some behind ↦ (true, behind)
    | none ↦ (false, rest)
  ])

unfoldable pub type_from : ℕ → Text → Ty
unfolding pointer_part array_parts strip stoull named_type
type_from zero n = default_type
type_from (suc fuel) n = elim (pointer_part n) [
  | some (is_volatile, rest) ↦ pointer_to is_volatile (type_from fuel rest)
  | none ↦ elim (strip (codes "[]") n) [
    | some rest ↦ slice_of (type_from fuel rest)
    | none ↦ elim (array_parts n) [
      | some (element, count) ↦
          array_of (type_from fuel element) (elim (stoull count) [ some c ↦ c | none ↦ 0 ])
      | none ↦ named_type n
    ]
  ]
]

unfoldable pub type_from_name : Text → Ty
unfolding type_from
type_from_name n = type_from (suc (length n)) n

-- ===== src/Generics/Bind.antt =====
-- What the parameters of a generic function stand for in a call, and whether a type has a capability
-- (Compiler/generics.cpp). `bind` is on fuel, one more than the length of the pattern.
use noe_code.Prelude.{
  ℕ, zero, suc, Bool, true, false, not, ◌&&◌, ◌||◌, List, [], ◌∷◌, ◌++◌, Option, none, some, Text,
  codes, length, ◌==◌, find_text, text_eq, if◌then◌else◌,
}
use noe_code.Types.{
  Ty, kind, kind_eq, is_integer, unknown, void, bool, string, array, slice, record_kind,
}
use noe_code.Types.Names.{strip, type_from_name}
use noe_code.Types.Printing.{is_numeric}
use noe_code.Generics.Mangle.{GenericApplication, parse_mangled_generic}
use noe_code.Generics.Substitute.{element_type}

abbrev pub Bindings : Type 0
Bindings = List (Text × Text)

-- `bindings[params[i]] = args[i]`, from the first on.
unfoldable pub bind_all : List Text → List Text → Bindings → Bindings
bind_all (p ∷ ps) (a ∷ as') b = bind_all ps as' ((p, a) ∷ b)
bind_all _ _ b = b

-- `s.rfind(prefix, 0) == 0`
unfoldable pub has_prefix : Text → Text → Bool
unfolding strip
has_prefix prefix s = elim (strip prefix s) [ some _ ↦ true | none ↦ false ]

-- The loop of `bind` over the parameters, with its own call passed in; none where no parameter fits.
unfoldable pub bind_first :
    (Text → Text → Bindings → Bool × Bindings)
    → List Text
    → Text
    → Text
    → Bindings
    → Option (Bool × Bindings)
unfolding has_prefix element_type find_text text_eq
bind_first again [] pattern actual b = none
bind_first again (gp ∷ gps) pattern actual b =
    let rest = bind_first again gps pattern actual b in
    if text_eq pattern gp
    then elim (find_text b gp) [
      | none ↦ some (true, (gp, actual) ∷ b)
      | some t ↦ some (text_eq t actual, b)
    ]
    else if text_eq pattern (codes "*" ++ gp) && has_prefix (codes "*") actual
    then some (again gp (element_type actual) b)
    else if text_eq pattern (codes "[]" ++ gp) && has_prefix (codes "[]") actual
    then some (again gp (element_type actual) b)
    else rest

-- The arguments of two applications, in turn, up to the first that do not fit.
unfoldable pub bind_args :
    (Text → Text → Bindings → Bool × Bindings) → List Text → List Text → Bindings → Bool × Bindings
bind_args again (p ∷ ps) (a ∷ as') b =
    let r = again p a b in
    let rest = bind_args again ps as' r.1 in if r.0 then rest else (false, r.1)
bind_args again _ _ b = (true, b)

unfoldable pub bind_applications :
    (Text → Text → Bindings → Bool × Bindings)
    → GenericApplication
    → GenericApplication
    → Bindings
    → Bool × Bindings
unfolding bind_args text_eq
bind_applications again p a b =
    if text_eq p.base a.base && length p.args == length a.args
    then bind_args again p.args a.args b
    else (false, b)

-- Two names of types that are no applications.
unfoldable pub bind_plain :
    (Text → Text → Bindings → Bool × Bindings) → Text → Text → Bindings → Bool × Bindings
unfolding has_prefix element_type type_from_name kind_eq kind text_eq
bind_plain again pattern actual b =
    if has_prefix (codes "*") pattern && has_prefix (codes "*") actual
    then again (element_type pattern) (element_type actual) b
    else if has_prefix (codes "[]") pattern && has_prefix (codes "[]") actual
    then again (element_type pattern) (element_type actual) b
    else (text_eq pattern actual || kind_eq (kind (type_from_name pattern)) unknown, b)

-- `bind` on fuel; `out` answers in its place where the fuel runs out.
unfoldable pub bind_from :
    (Text → Text → Bindings → Bool × Bindings)
    → ℕ
    → List Text
    → Text
    → Text
    → Bindings
    → Bool × Bindings
unfolding bind_first bind_applications bind_plain
bind_from out zero gps pattern actual b = out pattern actual b
bind_from out (suc f) gps pattern actual b =
    elim (bind_first (bind_from out f gps) gps pattern actual b) [
      | some r ↦ r
      | none ↦ elim (parse_mangled_generic pattern) [
        | some p ↦ elim (parse_mangled_generic actual) [
          | some a ↦ bind_applications (bind_from out f gps) p a b
          | none ↦ (false, b)
        ]
        | none ↦ elim (parse_mangled_generic actual) [
          | some a ↦ (false, b)
          | none ↦ bind_plain (bind_from out f gps) pattern actual b
        ]
      ]
    ]

unfoldable pub bind : Text → Text → List Text → Bindings → Bool × Bindings
unfolding bind_from
bind pattern actual gps b =
    bind_from (λ p a c. (false, c)) (suc (length pattern)) gps pattern actual b

-- `!t.isAggregate()` and neither void nor unknown.
unfoldable pub is_copied : Ty → Bool
unfolding kind_eq kind
is_copied t =
    not (kind_eq (kind t) array || (kind_eq (kind t) slice || kind_eq (kind t) record_kind))
    && (not (kind_eq (kind t) void) && not (kind_eq (kind t) unknown))

unfoldable pub capability_of : Ty → Text → Bool
unfolding is_copied is_numeric is_integer kind_eq kind text_eq
capability_of t c =
    if text_eq c (codes "Eq")
    then not (kind_eq (kind t) void) && not (kind_eq (kind t) unknown)
    else if text_eq c (codes "Ord")
    then is_numeric t || (kind_eq (kind t) string || kind_eq (kind t) bool)
    else if text_eq c (codes "Numeric")
    then is_numeric t
    else if text_eq c (codes "Integer")
    then is_integer t
    else if text_eq c (codes "Copy")
    then is_copied t
    else false

unfoldable pub capability : Text → Text → Bool
unfolding capability_of type_from_name
capability type c = capability_of (type_from_name type) c

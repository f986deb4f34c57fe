-- ===== src/Generics/Lengths.antt =====
-- The names that a name of a type has in it are shorter (Compiler/generics.cpp).
use noe_code.Prelude.{
  ℕ, zero, suc, ◌+◌, ◌-◌, ◌≤◌, ◌<◌, ◌≡◌, ap, subst, ◌&&◌, List, [], ◌∷◌, Option, none, some, Text,
  codes, length, take, ltb, ◌==◌, All, All-mono, if_both, option_both, arith,
}
use noe_code.Prelude.Opt.{bind-some}
use noe_code.Types.Names.{strip, rfind, substr}
use noe_code.Generics.Hex.{from_hex, hex_decode}
use noe_code.Generics.Mangle.{
  GenericApplication, generic_marker, begins_with, pieces, decode_all, application,
  parse_mangled_generic,
}
use noe_code.Generics.Substitute.{array_element}
use noe_code.Generics.State.{inner_type, is_bracketed}

-- Every text is shorter than `n`.
abbrev pub AreShorter : ℕ → List Text → Type 0
AreShorter n ts = All (λ (t : Text). length t < n) ts

Shorter_mono : (m n : ℕ) (ts : List Text) → m ≤ n → AreShorter m ts → AreShorter n ts
Shorter_mono m n ts l h = All-mono ts (λ t k. omega (arith, k, l)) h

abbrev AreWithin : ℕ → Text × List Text → Type 0
AreWithin n r = (length r.0 < n) × AreShorter n r.1

pieces-Within : (k : ℕ) (s : Text) → AreWithin (suc (length s)) (pieces k s)
unfolding pieces
pieces-Within k [] = (omega arith, tt)
pieces-Within (suc k) (c ∷ s) =
    let (a, b) = pieces-Within k s in (omega (arith, a), Shorter_mono _ _ _ (omega arith) b)
pieces-Within zero (c ∷ s) =
    if_both (λ (r : Text × List Text). AreWithin (suc (suc (length s))) r)
      (begins_with generic_marker (c ∷ s))
      (
        omega arith,
        (
          omega (arith, (pieces-Within 6 s).0),
          Shorter_mono _ _ _ (omega arith) (pieces-Within 6 s).1,
        ),
      )
      (
        omega (arith, (pieces-Within zero s).0),
        Shorter_mono _ _ _ (omega arith) (pieces-Within zero s).1,
      )

-- What comes after a marker is shorter than the text with the marker.
pieces-Shorter : (s : Text) → AreShorter (length s) (pieces zero s).1
unfolding pieces
pieces-Shorter [] = tt
pieces-Shorter (c ∷ s) =
    if_both (λ (r : Text × List Text). AreShorter (suc (length s)) r.1)
      (begins_with generic_marker (c ∷ s)) (pieces-Within 6 s)
      (Shorter_mono _ _ _ (omega arith) (pieces-Shorter s))

some-length : {s t : Text} → some s ≡ some t → length s ≡ length t
some-length e = ap (λ (o : Option Text). elim o [ some u ↦ length u | none ↦ 0 ]) e

hex_decode-length : (e a : Text) → hex_decode e ≡ some a → length a ≤ length e
unfolding hex_decode
hex_decode-length [] a h = omega (arith, some-length h)
hex_decode-length (hi ∷ []) a h = cc
hex_decode-length (hi ∷ lo ∷ e) a h =
    let (x, p, q) = bind-some (from_hex hi) _ h in
    let (y, p', q') = bind-some (from_hex lo) _ q in
    let (out, p'', q'') = bind-some (hex_decode e) _ q' in
    omega (arith, hex_decode-length e out p'', some-length q'')

abbrev Decoded : ℕ → Option (List Text) → Type 0
Decoded n none = Unit
Decoded n (some ts) = AreShorter n ts

decode_all-Shorter :
    (n : ℕ) (es args : List Text) → decode_all es ≡ some args → AreShorter n es → AreShorter n args
unfolding decode_all
decode_all-Shorter n [] args h k = subst (Decoded n) h tt
decode_all-Shorter n (e ∷ es) args h (k, ks) =
    let (a, p, q) = bind-some (hex_decode e) _ h in
    let (rest, p', q') = bind-some (decode_all es) _ q in
    subst (Decoded n) q'
      (omega (arith, hex_decode-length e a p, k), decode_all-Shorter n es rest p' ks)

abbrev Applied : ℕ → Option GenericApplication → Type 0
Applied n none = Unit
Applied n (some app) = AreShorter n app.args

application-Shorter :
    (n : ℕ) (r : Text × List Text) (app : GenericApplication)
    → application r ≡ some app
    → AreShorter n r.1
    → AreShorter n app.args
unfolding application
application-Shorter n ([], es) app h k = cc
application-Shorter n (c ∷ base, []) app h k = cc
application-Shorter n (c ∷ base, e ∷ es) app h k =
    let (args, p, q) = bind-some (decode_all (e ∷ es)) _ h in
    subst (Applied n) q (decode_all-Shorter n (e ∷ es) args p k)

-- The arguments of an application are shorter than its name.
pub parse_mangled_generic-Shorter :
    (t : Text) (app : GenericApplication)
    → parse_mangled_generic t ≡ some app
    → AreShorter (length t) app.args
unfolding parse_mangled_generic
parse_mangled_generic-Shorter t app h =
    application-Shorter (length t) (pieces zero t) app h (pieces-Shorter t)

pub strip-length : (p s u : Text) → strip p s ≡ some u → length u + length p ≡ length s
unfolding strip
strip-length [] s u h = ground (arith, h)
strip-length (c ∷ p) [] u h = cc
strip-length (c ∷ p) (d ∷ s) u h = ground (arith, h, strip-length p s u)

length-take : (n : ℕ) (s : Text) → length (take n s) ≤ length s
length-take zero s = omega arith
length-take (suc n) [] = omega arith
length-take (suc n) (c ∷ s) = omega (arith, length-take n s)

abbrev IsShorter : ℕ → Option Text → Type 0
IsShorter n none = Unit
IsShorter n (some u) = length u < n

array_element-IsShorter : (t : Text) → IsShorter (length t) (array_element t)
unfolding array_element substr
array_element-IsShorter [] = tt
array_element-IsShorter (c ∷ s) =
    if_both (IsShorter (suc (length s))) (c == b'[' && ltb 3 (length (c ∷ s)))
      (option_both (IsShorter (suc (length s))) (rfind b';' (c ∷ s)) tt
        (λ semi e. omega (arith, length-take (semi - 1) s)))
      tt

abbrev IsInner : ℕ → Option (Option Text) → Type 0
IsInner n none = Unit
IsInner n (some o) = IsShorter n o

inner_type-IsInner : (t : Text) → IsInner (length t) (inner_type t)
unfolding inner_type
inner_type-IsInner t =
    option_both (IsInner (length t)) (strip (codes "*volatile ") t)
      (option_both (IsInner (length t)) (strip (codes "*") t)
        (option_both (IsInner (length t)) (strip (codes "[]") t)
          (if_both (IsInner (length t)) (is_bracketed t) (array_element-IsShorter t) tt)
          (λ u e. omega (arith, strip-length (codes "[]") t u e)))
        (λ u e. omega (arith, strip-length (codes "*") t u e)))
      (λ u e. omega (arith, strip-length (codes "*volatile ") t u e))

-- A name that is looked through is longer than what is left.
pub inner_type-length : (t u : Text) → inner_type t ≡ some (some u) → length u < length t
inner_type-length t u h = subst (IsInner (length t)) h (inner_type-IsInner t)

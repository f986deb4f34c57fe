-- ===== src/Prelude/Assoc.antt =====
-- The maps of the source (`std::unordered_map`) as association lists: on registers and on names.
use Prim.Native.Nat.{ℕ}
use mathlib.Core.Path.{◌≡◌, refl, ap, ◌∙◌}
use mathlib.Core.Logic.{inl, inr}
use mathlib.Core.Bool.{true, false}
use mathlib.Core.List.{List, [], ◌∷◌}
use mathlib.Core.Option.{Option, none, some}
use native.Mathlib.Omega.{arith}
use noe_code.Prelude.Tests.{◌==◌, if◌then◌else◌, Bool-cases}
use noe_code.Prelude.Bytes.{Text, text_eq, text_eq→eq}

module _ {ℓ} {V : Type ℓ} where
  unfoldable pub find : List (ℕ × V) → ℕ → Option V
  find [] k = none
  find ((j, v) ∷ m) k = if j == k then some v else find m k

  unfoldable pub erase : List (ℕ × V) → ℕ → List (ℕ × V)
  erase [] k = []
  erase ((j, v) ∷ m) k = if j == k then erase m k else (j, v) ∷ erase m k

  -- `m[k] = v`
  abbrev pub put : List (ℕ × V) → ℕ → V → List (ℕ × V)
  put m k v = (k, v) ∷ m

  pub find-erase :
      (m : List (ℕ × V)) (k j : ℕ) → find (erase m k) j ≡ (if k == j then none else find m j)
  unfolding find erase
  find-erase [] k j = ground arith
  find-erase ((i, v) ∷ m) k j = ground (arith, find-erase m k j)

  pub find-put :
      (m : List (ℕ × V)) (k : ℕ) (v : V) (j : ℕ)
      → find (put m k v) j ≡ (if k == j then some v else find m j)
  unfolding find
  find-put m k v j = refl

  unfoldable pub find_text : List (Text × V) → Text → Option V
  find_text [] k = none
  find_text ((j, v) ∷ m) k = if text_eq j k then some v else find_text m k

  unfoldable pub erase_text : List (Text × V) → Text → List (Text × V)
  erase_text [] k = []
  erase_text ((j, v) ∷ m) k = if text_eq j k then erase_text m k else (j, v) ∷ erase_text m k

-- A name is different from another if an equal name is.
pub other_name : (y k x : Text) → text_eq y k ≡ true → text_eq k x ≡ false → text_eq y x ≡ false
other_name y k x e h = ap (λ (z : Text). text_eq z x) (text_eq→eq y k e) ∙ h

module _ {ℓ} {V : Type ℓ} where
  pub find_text-erase_text_ne :
      (m : List (Text × V)) (k x : Text)
      → text_eq k x ≡ false
      → find_text (erase_text m k) x ≡ find_text m x
  unfolding find_text erase_text
  find_text-erase_text_ne [] k x h = refl
  find_text-erase_text_ne ((y, v) ∷ m) k x h = elim (Bool-cases (text_eq y k)) [
    | inl e ↦ rw e (rw (other_name y k x e h) (find_text-erase_text_ne m k x h))
    | inr e ↦
        rw e (
          ap (λ (o : Option V). if text_eq y x then some v else o)
            (find_text-erase_text_ne m k x h))
  ]

  pub find_text-erase_text_self :
      (m : List (Text × V)) (x : Text) → find_text (erase_text m x) x ≡ none
  unfolding find_text erase_text
  find_text-erase_text_self [] x = refl
  find_text-erase_text_self ((y, v) ∷ m) x = elim (Bool-cases (text_eq y x)) [
    | inl e ↦ rw e (find_text-erase_text_self m x)
    | inr e ↦ rw e (rw e (find_text-erase_text_self m x))
  ]

-- ===== src/Optimizer/Constants.antt =====
-- Constant folding (`constants`, Compiler/optimizer.cpp) against the interpreter, along code that is
-- run in order.
pub mod Sound
pub mod Loop
use noe_code.Prelude.{
  ℕ, suc, zero, ◌+◌, ◌<◌, ◌≡◌, ◌≢◌, refl, sym, ap, ◌∙◌, ◌⊎◌, inl, inr, Bool, true, false, not, ◌&&◌,
  ◌||◌, List, [], ◌∷◌, Option, none, some, Text, find, erase, put, find-erase, find-put, get_elem?,
  set, length, length-set, get_elem?-set_self, get_elem?-set_ne, arith, ◌==◌, if◌then◌else◌,
  Bool-cases, Option-cases, ltb,
}
use noe_code.Prelude.Opt.{◌>>=◌, bind-some}
use noe_code.Prelude.Int.{ℤ, pos, ltb_ℤ, leb_ℤ}
use noe_code.Nir.{Value, int, NirOp, const, binary, check_non_null, check_bounds, nop, Instruction}
use noe_code.Interp.Result.{Result, ok, err}
use noe_code.Interp.Arith.{eq_ℤ}
use noe_code.Interp.Values.{Floats, as_int}
use noe_code.Interp.State.{
  Shared, State, Machine, Outcome, next, goto, write, assign, effect, get, get_int,
}
use noe_code.Interp.Ops.{do_check_non_null, do_check_bounds}
use noe_code.Interp.Step.{Run, step, step_on, do_binary}
use noe_code.Interp.Registers.{RegsWritten, Writes, step_on-Writes}
use noe_code.Optimizer.{fold}
use noe_code.Optimizer.Fold.{fold-binary}
use noe_code.Optimizer.Passes.{
  Known, one_arg, two_args, forget, folded, known_non_null, known_in_bounds, int_of, is_true,
  to_const, to_nop, constants_on, constants_step, constants_from, constants,
}

-- Every register in the table holds its value.
abbrev pub Holds : Known → List Value → Type 0
Holds known regs = (r : ℕ) (v : Value) → find known r ≡ some v → get_elem? regs r ≡ some v

erased-apart :
    (known : Known) (d r : ℕ) {v : Value}
    → find (erase known d) r ≡ some v
    → (d ≢ r) × (find known r ≡ some v)
erased-apart known d r e =
    (ground (arith, find-erase known d r), ground (arith, find-erase known d r))

Holds-erase :
    (known : Known) (regs : List Value) (d : ℕ) (w : Value)
    → Holds known regs
    → Holds (erase known d) (set regs d w)
Holds-erase known regs d w h r v e =
    let (apart, old) = erased-apart known d r e in get_elem?-set_ne regs d r w apart ∙ h r v old

Holds-put :
    (known : Known) (regs : List Value) (d : ℕ) (w : Value)
    → Holds known regs
    → d < length regs
    → Holds (put known d w) (set regs d w)
Holds-put known regs d w h l r v e =
    ground (
      arith,
      find-put known d w r,
      h r v,
      get_elem?-set_ne regs d r w,
      get_elem?-set_self regs d w l,
    )

Holds-forget :
    (known : Known) (regs regs' : List Value) (d : Option ℕ)
    → Holds known regs
    → RegsWritten d regs regs'
    → Holds (forget known d) regs'
unfolding forget write
Holds-forget known regs regs' none h (inl e) = rw e h
Holds-forget known regs regs' none h (inr (v, e)) = rw e h
Holds-forget known regs regs' (some d) h (inl e) =
    rw e (λ r v f. h r v (erased-apart known d r f).1)
Holds-forget known regs regs' (some d) h (inr (v, e)) = rw e (Holds-erase known regs d v h)

-- What is known after an outcome that goes on.
abbrev pub KnownAfter : {W : Type 0} → Known → Outcome W → Type 0
KnownAfter known (next s) = Holds known s.regs
KnownAfter known _ = Unit

Writes-KnownAfter :
    {W : Type 0} (known : Known) (regs : List Value) (d : Option ℕ) (o : Outcome W)
    → Holds known regs
    → Writes d regs o
    → KnownAfter (forget known d) o
Writes-KnownAfter known regs d (next s) h w = Holds-forget known regs s.regs d h w
Writes-KnownAfter known regs d _ h w = tt

two_args-inv : (args : List ℕ) (rq : ℕ × ℕ) → two_args args ≡ some rq → args ≡ rq.0 ∷ rq.1 ∷ []
unfolding two_args
two_args-inv args rq h = ground arith

-- The arguments of an instruction that folding replaces.
folded-inv :
    (fl : Floats) (known : Known) (i : Instruction) (v : Value)
    → folded fl known i ≡ some v
    → (r : ℕ) × (q : ℕ) × (a : Value) × (b : Value) × (i.args ≡ r ∷ q ∷ [])
      × (find known r ≡ some a)
      × (find known q ≡ some b)
      × (fold fl i.text a b ≡ some v)
unfolding folded two_args
folded-inv fl known i v h =
    let (rq, p, h₁) = bind-some (two_args i.args) _ h in
    let (a, fa, h₂) = bind-some (find known rq.0) _ h₁ in
    let (b, fb, h₃) = bind-some (find known rq.1) _ h₂ in
    (rq.0, rq.1, a, b, two_args-inv i.args rq p, fa, fb, h₃)

get-at :
    {W : Type 0} (s : State W) (i : Instruction) (k r : ℕ) (v : Value)
    → get_elem? i.args k ≡ some r
    → get_elem? s.regs r ≡ some v
    → get s i k ≡ ok v
unfolding get
get-at s i k r v p q = ground (arith)

one_arg-inv : (args : List ℕ) (r : ℕ) → one_arg args ≡ some r → args ≡ r ∷ []
unfolding one_arg
one_arg-inv args r h = ground arith

int_of-inv : (v : Value) {z : ℤ} → int_of v ≡ some z → v ≡ int z
unfolding int_of
int_of-inv v h = ground arith

is_true-inv : (o : Option Bool) → is_true o ≡ true → o ≡ some true
is_true-inv o h = ground arith

known_non_null-inv :
    (known : Known) (i : Instruction)
    → known_non_null known i ≡ true
    → (r : ℕ) × (z : ℤ) × (i.args ≡ r ∷ [])
      × (find known r ≡ some (int z))
      × (eq_ℤ z (pos 0) ≡ false)
unfolding known_non_null
known_non_null-inv known i h =
    let (r, p, h₁) = bind-some (one_arg i.args) _ (is_true-inv _ h) in
    let (v, fv, h₂) = bind-some (find known r) _ h₁ in
    let (z, e, h₃) = bind-some (int_of v) _ h₂ in
    (r, z, one_arg-inv i.args r p, fv ∙ ap some (int_of-inv v e), ground arith)

known_in_bounds-inv :
    (known : Known) (i : Instruction)
    → known_in_bounds known i ≡ true
    → (r : ℕ) × (q : ℕ) × (x : ℤ) × (n : ℤ) × (i.args ≡ r ∷ q ∷ [])
      × (find known r ≡ some (int x))
      × (find known q ≡ some (int n))
      × ((leb_ℤ (pos 0) x && leb_ℤ (pos 0) n && ltb_ℤ x n) ≡ true)
unfolding known_in_bounds
known_in_bounds-inv known i h =
    let (rq, p, h₁) = bind-some (two_args i.args) _ (is_true-inv _ h) in
    let (a, fa, h₂) = bind-some (find known rq.0) _ h₁ in
    let (b, fb, h₃) = bind-some (find known rq.1) _ h₂ in
    let (x, ex, h₄) = bind-some (int_of a) _ h₃ in
    let (n, en, h₅) = bind-some (int_of b) _ h₄ in
    (
      rq.0,
      rq.1,
      x,
      n,
      two_args-inv i.args rq p,
      fa ∙ ap some (int_of-inv a ex),
      fb ∙ ap some (int_of-inv b en),
      ground arith,
    )

module _ {W : Type 0} where
  get_int-at :
      (s : State W) (i : Instruction) (k r : ℕ) (z : ℤ)
      → get_elem? i.args k ≡ some r
      → get_elem? s.regs r ≡ some (int z)
      → get_int s i k ≡ ok z
  unfolding get_int as_int
  get_int-at s i k r z p q = rw (get-at s i k r (int z) p q) refl

  check_non_null-known :
      (known : Known) (i : Instruction) (s : State W)
      → Holds known s.regs
      → known_non_null known i ≡ true
      → do_check_non_null i s ≡ ok s
  unfolding do_check_non_null
  check_non_null-known known i s h e =
      let (r, z, args, f, nonzero) = known_non_null-inv known i e in
      let value : get_int s i 0 ≡ ok z = get_int-at s i 0 r z (rw args refl) (h r (int z) f) in
      ground (arith, args, value, nonzero)

  check_bounds-known :
      (known : Known) (i : Instruction) (s : State W)
      → Holds known s.regs
      → known_in_bounds known i ≡ true
      → do_check_bounds i s ≡ ok s
  unfolding do_check_bounds
  check_bounds-known known i s h e =
      let (r, q, x, n, args, fr, fq, inside) = known_in_bounds-inv known i e in
      let index : get_int s i 0 ≡ ok x = get_int-at s i 0 r x (rw args refl) (h r (int x) fr) in
      let length : get_int s i 1 ≡ ok n = get_int-at s i 1 q n (rw args refl) (h q (int n) fq) in
      ground (arith, args, index, length, inside)

module _ {W : Type 0} (m : Machine W) (unchecked : m.checked_overflow ≡ false) where
  do_binary-folded :
      (known : Known) (i : Instruction) (s : State W) (v : Value)
      → Holds known s.regs
      → folded m.floats known i ≡ some v
      → do_binary m i s ≡ assign i s (ok (v, s))
  unfolding do_binary
  do_binary-folded known i s v h e =
      let (r, q, a, b, args, fa, fb, f) = folded-inv m.floats known i v e in
      rw
        (
          get-at s i 0 r a (rw args) (h r a fa),
          get-at s i 1 q b (rw args) (h q b fb),
          unchecked,
          fold-binary m.floats i.text a b v f,
        )
        refl

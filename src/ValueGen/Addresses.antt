-- ===== src/ValueGen/Addresses.antt =====
-- src/ValueGen.cc: the expression of a GEP has the address as its value.
use kint_test.Base.{
  ℕ, ◌+◌, ◌-◌, ◌*◌, ◌/◌, ◌%◌, ◌^◌, ◌<◌, ◌≡◌, refl, sym, ◌∙◌, ap, true, false, ltb, ◌==◌, some, inl,
  inr, List, [], ◌∷◌, arith, Bool-cases, ==_iff,
}
use native.Mathlib.Nat.{
  mod-mod, mod-add-mod, add-mod-mod, mod-add-div, mul_assoc, add-mul, add_assoc, mul_comm,
  add-mul-mod_self_left, zero-mod, div-one,
}
use kint_test.Word.{wadd, wmul, pow_pos}
use kint_test.Solver.{WordSolver}
use kint_test.ValueGen.Offsets.{
  GepType, sext_or_trunc, Index, fit_index, visit_index, visit_indices, visit_gep_operator,
  displacement, displacements, WellIndexed, AreWellIndexed,
}

mod-mul : (a b m : ℕ) → a % m * b % m ≡ a * b % m
mod-mul a b m =
    let whole : a * b ≡ a % m * b + m * (a / m * b) =
      ap (λ x. x * b) (sym (mod-add-div a m))
      ∙ add-mul _ _ b
      ∙ ap (λ x. a % m * b + x) (mul_assoc m (a / m) b) in
    rw (whole, add-mul-mod_self_left)

sext_or_trunc_zero : (p n : ℕ) → sext_or_trunc p n 0 ≡ 0
sext_or_trunc_zero p n =
    let half = pow_pos (n - 1) in let zeros : 0 % 2 ^ p ≡ 0 = zero-mod (2 ^ p) in ground arith

c_zero : (c : ℕ) → (c == 0) ≡ true → c ≡ 0
c_zero c h = ground arith

-- Sums up to multiples of m.
carry_right : (a b d m : ℕ) → (a + (b + d) % m) % m ≡ (a + b + d) % m
carry_right a b d m = add-mod-mod a (b + d) m ∙ ap (λ x. x % m) (sym (add_assoc a b d))

carry_left : (a b d m : ℕ) → ((a + d) % m + b) % m ≡ (a + b + d) % m
carry_left a b d m = mod-add-mod (a + d) m b ∙ ap (λ x. x % m) (omega arith)

module _ (s : WordSolver) (p : ℕ) (m : s.Model) (some_bits : 0 < p) where
  open s use {Expr, value, bvwidth}

  value-fit_index :
      (idx : Expr)
      → value m (fit_index s p idx) % 2 ^ p ≡ sext_or_trunc p (bvwidth idx) (value m idx)
  unfolding fit_index
  value-fit_index idx = elim (Bool-cases (bvwidth idx == p)) [
    | inl same ↦
        let level : ltb (bvwidth idx) p ≡ false = ground arith in rw (fit_index, same, level)
    | inr differs ↦ elim (Bool-cases (ltb (bvwidth idx) p)) [
      | inl short ↦
          let size : bvwidth idx + (p - bvwidth idx) ≡ p = ground arith in
          rw (fit_index, differs, short, s.value-sign_extend, size, mod-mod)
      | inr long ↦
          let size : p - 1 - 0 + 1 ≡ p = omega arith in
          let whole : value m idx / 1 ≡ value m idx = div-one (value m idx) in
          rw (fit_index, differs, long, s.value-extract, size, whole, mod-mod)
    ]
  ]

  bvwidth-fit_index : (idx : Expr) → bvwidth (fit_index s p idx) ≡ p
  unfolding fit_index
  bvwidth-fit_index idx = elim (Bool-cases (bvwidth idx == p)) [
    | inl same ↦ rw (fit_index, same) ((==_iff (bvwidth idx) p).0 same)
    | inr differs ↦ elim (Bool-cases (ltb (bvwidth idx) p)) [
      | inl short ↦ rw (fit_index, differs, short, s.bvwidth-sign_extend) (ground arith)
      | inr long ↦ rw (fit_index, differs, long, s.bvwidth-extract) (omega arith)
    ]
  ]

  scaled_index :
      (idx : Expr) (each : ℕ)
      → value m (fit_index s p idx) * (each % 2 ^ p) % 2 ^ p
        ≡ each * sext_or_trunc p (bvwidth idx) (value m idx) % 2 ^ p
  scaled_index idx each =
      ap (λ x. x % 2 ^ p) (mul_comm _ (each % 2 ^ p))
      ∙ mod-mul each (value m (fit_index s p idx)) (2 ^ p)
      ∙ ap (λ x. x % 2 ^ p) (mul_comm each _)
      ∙ sym (mod-mul (value m (fit_index s p idx)) each (2 ^ p))
      ∙ ap (λ x. x * each % 2 ^ p) (value-fit_index idx)
      ∙ ap (λ x. x % 2 ^ p) (mul_comm _ each)

  visit_index-adds :
      (offset : Expr) (const_offset : ℕ) (type : GepType) (index : Index s p)
      → WellIndexed s p type index
      → bvwidth offset ≡ p
      → (next : Expr) × (next_const : ℕ) × (visit_index s p (offset, const_offset) type index
          ≡ some (next, next_const))
        × (bvwidth next ≡ p)
        × ((value m next + next_const) % 2 ^ p
            ≡ (value m offset + const_offset + displacement s p m type index) % 2 ^ p)
  unfolding visit_index wadd wmul
  visit_index-adds offset const_offset (GepType.struct_type at) (Index.constant_index n c) well
        size =
      elim (Bool-cases (c == 0)) [
        | inl first ↦ (
          offset,
          const_offset,
          rw (visit_index, first),
          size,
          (rw (c_zero c first, well) (ap (λ x. x % 2 ^ p) (omega arith))),
        )
        | inr later ↦ (
          offset,
          wadd p const_offset (at c),
          rw (visit_index, later),
          size,
          carry_right (value m offset) const_offset (at c) (2 ^ p),
        )
      ]
  visit_index-adds offset const_offset (GepType.struct_type at) (Index.variable_index i) well size =
      absurd well
  visit_index-adds offset const_offset (GepType.sequential_type each) (Index.constant_index n c)
        well size =
      elim (Bool-cases (c == 0)) [
        | inl first ↦ (
          offset,
          const_offset,
          rw (visit_index, first),
          size,
          (rw (c_zero c first, sext_or_trunc_zero p n) (ap (λ x. x % 2 ^ p) (omega arith))),
        )
        | inr later ↦
            let distance = each * sext_or_trunc p n c in
            (
              offset,
              wadd p const_offset (wmul p each (sext_or_trunc p n c)),
              rw (visit_index, later),
              size,
              carry_right (value m offset) const_offset (distance % 2 ^ p) (2 ^ p)
                  ∙ add-mod-mod (value m offset + const_offset) distance (2 ^ p),
            )
      ]
  visit_index-adds offset const_offset (GepType.sequential_type each) (Index.variable_index i) well
        size =
      let fitted = fit_index s p i in
      let scaled = value m fitted * (each % 2 ^ p) in
      let product : value m (s.bvmul fitted (s.bvconst p each)) ≡ scaled % 2 ^ p =
        rw (s.value-bvmul, bvwidth-fit_index, s.value-bvconst) refl in
      (
        s.bvadd offset (s.bvmul fitted (s.bvconst p each)),
        const_offset,
        refl,
        s.bvwidth-bvadd _ _ ∙ size,
        rw (s.value-bvadd, size, product)
            (carry_left (value m offset) const_offset (scaled % 2 ^ p) (2 ^ p)
              ∙ ap (λ x. (value m offset + const_offset + x) % 2 ^ p) (scaled_index i each)
              ∙ add-mod-mod (value m offset + const_offset) _ (2 ^ p)),
      )

  visit_indices-adds :
      (offset : Expr) (const_offset : ℕ) (steps : List (GepType × Index s p))
      → AreWellIndexed s p steps
      → bvwidth offset ≡ p
      → (next : Expr) × (next_const : ℕ) × (visit_indices s p (offset, const_offset) steps
          ≡ some (next, next_const))
        × (bvwidth next ≡ p)
        × ((value m next + next_const) % 2 ^ p
            ≡ (value m offset + const_offset + displacements s p m steps) % 2 ^ p)
  unfolding visit_indices
  visit_indices-adds offset const_offset [] well size =
      (offset, const_offset, refl, size, ap (λ x. x % 2 ^ p) (omega arith))
  visit_indices-adds offset const_offset ((type, index) ∷ steps) (well, wells) size =
      let (mid, mid_const, at_mid, mid_size, mid_sum) =
        visit_index-adds offset const_offset type index well size in
      let (next, next_const, at_next, next_size, next_sum) =
        visit_indices-adds mid mid_const steps wells mid_size in
      (
        next,
        next_const,
        rw (visit_indices, at_mid) at_next,
        next_size,
        next_sum
            ∙ sym (mod-add-mod (value m mid + mid_const) (2 ^ p) (displacements s p m steps))
            ∙ ap (λ x. (x + displacements s p m steps) % 2 ^ p) mid_sum
            ∙ mod-add-mod _ (2 ^ p) (displacements s p m steps)
            ∙ ap (λ x. x % 2 ^ p) (add_assoc _ (displacement s p m type index) _),
      )

  -- The expression for a GEP exists, and has as its value the base plus what each index adds,
  -- modulo the size of the address space: the offset of the field for a struct, and the size of an
  -- element times the index, extended by its sign or cut to the width of a pointer, for a sequence.
  -- The base has the width of a pointer, the indices of structs are constants, and first fields are
  -- at offset 0.
  pub visit_gep_operator-address :
      (base : Expr) (steps : List (GepType × Index s p))
      → AreWellIndexed s p steps
      → bvwidth base ≡ p
      → (e : Expr) × (visit_gep_operator s p base steps ≡ some e)
        × (value m e % 2 ^ p ≡ (value m base + displacements s p m steps) % 2 ^ p)
  unfolding visit_gep_operator wadd
  visit_gep_operator-address base steps well size =
      let (next, next_const, found, next_size, sum) = visit_indices-adds base 0 steps well size in
      let at_base : (value m base + 0 + displacements s p m steps) % 2 ^ p
          ≡ (value m base + displacements s p m steps) % 2 ^ p =
        ap (λ x. x % 2 ^ p) (omega arith) in
      elim (Bool-cases (next_const == 0)) [
        | inl none_left ↦ (
          next,
          rw (visit_gep_operator, found, none_left),
          ap (λ x. x % 2 ^ p) (let gone = c_zero next_const none_left in omega arith)
              ∙ sum
              ∙ at_base,
        )
        | inr some_left ↦ (
          s.bvadd next (s.bvconst p next_const),
          rw (visit_gep_operator, found, some_left),
          rw (s.value-bvadd, next_size, s.value-bvconst, mod-mod)
              (add-mod-mod (value m next) next_const (2 ^ p) ∙ sum ∙ at_base),
        )
      ]

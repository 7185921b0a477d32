-- ===== src/Solver/Meanings.antt =====
-- src/SMTSolver.h: a solver whose expressions are functions, which meets the interface of
-- Solver/Words.
use Prim.Native.Nat.{bit_and, bit_or, bit_xor}
use kint_test.Base.{ℕ, ◌+◌, ◌-◌, ◌*◌, ◌/◌, ◌%◌, ◌^◌, refl, ltb, leb, ◌==◌, bit, not, if◌then◌else◌}
use kint_test.Word.{
  is_negative, wadd, wsub, wmul, wsdiv, wslt, uadd_overflow, usub_overflow, umul_overflow,
  sadd_overflow, ssub_overflow, smul_overflow,
}
use kint_test.Ir.{wsrem, wsra}
use kint_test.Solver.Words.{WordSolver}

-- Expressions by their width and their value for every assignment of the variables.
pub record Meaning : Type 0 where
  pub size : ℕ
  pub at : (ℕ → ℕ) → ℕ

abbrev meaning : (size : ℕ) → ((ℕ → ℕ) → ℕ) → Meaning
meaning size at = record { size = size; at = at }

abbrev pub meanings : WordSolver
meanings = record {
  Expr = Meaning;
  Model = ℕ → ℕ;
  value = λ m e. e.at m;
  bvwidth = λ e. e.size;
  bvconst = λ w c. meaning w (λ m. c % 2 ^ w);
  bvvar = λ w x. meaning w (λ m. m x % 2 ^ w);
  ite = λ c t f. meaning t.size (λ m. ((if c.at m == 0 then f.at m else t.at m) % 2 ^ t.size));
  extract = λ high low a. meaning (high - low + 1) (λ m. (a.at m / 2 ^ low) % 2 ^ (high - low + 1));
  zero_extend = λ i a. meaning (a.size + i) (λ m. a.at m % 2 ^ (a.size + i));
  sign_extend = λ i a. meaning (a.size + i) (λ m.
      (if is_negative a.size (a.at m) then a.at m + (2 ^ (a.size + i) - 2 ^ a.size) else a.at m)
      % 2 ^ (a.size + i));
  bvadd = λ a b. meaning a.size (λ m. wadd a.size (a.at m) (b.at m));
  bvsub = λ a b. meaning a.size (λ m. wsub a.size (a.at m) (b.at m));
  bvmul = λ a b. meaning a.size (λ m. wmul a.size (a.at m) (b.at m));
  bvudiv = λ a b. meaning a.size (λ m. (a.at m / b.at m) % 2 ^ a.size);
  bvsdiv = λ a b. meaning a.size (λ m. wsdiv a.size (a.at m) (b.at m) % 2 ^ a.size);
  bvurem = λ a b. meaning a.size (λ m. (a.at m % b.at m) % 2 ^ a.size);
  bvsrem = λ a b. meaning a.size (λ m. wsrem a.size (a.at m) (b.at m) % 2 ^ a.size);
  bvshl = λ a b. meaning a.size (λ m. (a.at m * 2 ^ b.at m) % 2 ^ a.size);
  bvlshr = λ a b. meaning a.size (λ m. (a.at m / 2 ^ b.at m) % 2 ^ a.size);
  bvashr = λ a b. meaning a.size (λ m. wsra a.size (a.at m) (b.at m) % 2 ^ a.size);
  bvand = λ a b. meaning a.size (λ m. bit_and (a.at m) (b.at m) % 2 ^ a.size);
  bvor = λ a b. meaning a.size (λ m. bit_or (a.at m) (b.at m) % 2 ^ a.size);
  bvxor = λ a b. meaning a.size (λ m. bit_xor (a.at m) (b.at m) % 2 ^ a.size);
  eq = λ a b. meaning 1 (λ m. bit (a.at m == b.at m));
  ne = λ a b. meaning 1 (λ m. bit (not (a.at m == b.at m)));
  bvugt = λ a b. meaning 1 (λ m. bit (ltb (b.at m) (a.at m)));
  bvuge = λ a b. meaning 1 (λ m. bit (leb (b.at m) (a.at m)));
  bvult = λ a b. meaning 1 (λ m. bit (ltb (a.at m) (b.at m)));
  bvule = λ a b. meaning 1 (λ m. bit (leb (a.at m) (b.at m)));
  bvsgt = λ a b. meaning 1 (λ m. bit (wslt a.size (b.at m) (a.at m)));
  bvsge = λ a b. meaning 1 (λ m. bit (not (wslt a.size (a.at m) (b.at m))));
  bvslt = λ a b. meaning 1 (λ m. bit (wslt a.size (a.at m) (b.at m)));
  bvsle = λ a b. meaning 1 (λ m. bit (not (wslt a.size (b.at m) (a.at m))));
  bvsadd_overflow = λ a b. meaning 1 (λ m. bit (sadd_overflow a.size (a.at m) (b.at m)));
  bvuadd_overflow = λ a b. meaning 1 (λ m. bit (uadd_overflow a.size (a.at m) (b.at m)));
  bvssub_overflow = λ a b. meaning 1 (λ m. bit (ssub_overflow a.size (a.at m) (b.at m)));
  bvusub_overflow = λ a b. meaning 1 (λ m. bit (usub_overflow a.size (a.at m) (b.at m)));
  bvsmul_overflow = λ a b. meaning 1 (λ m. bit (smul_overflow a.size (a.at m) (b.at m)));
  bvumul_overflow = λ a b. meaning 1 (λ m. bit (umul_overflow a.size (a.at m) (b.at m)));
  bvwidth-bvconst = λ w c. refl;
  bvwidth-bvvar = λ w x. refl;
  bvwidth-ite = λ c t f. refl;
  bvwidth-extract = λ high low a. refl;
  bvwidth-zero_extend = λ i a. refl;
  bvwidth-sign_extend = λ i a. refl;
  bvwidth-bvadd = λ a b. refl;
  bvwidth-bvsub = λ a b. refl;
  bvwidth-bvmul = λ a b. refl;
  bvwidth-bvudiv = λ a b. refl;
  bvwidth-bvsdiv = λ a b. refl;
  bvwidth-bvurem = λ a b. refl;
  bvwidth-bvsrem = λ a b. refl;
  bvwidth-bvshl = λ a b. refl;
  bvwidth-bvlshr = λ a b. refl;
  bvwidth-bvashr = λ a b. refl;
  bvwidth-bvand = λ a b. refl;
  bvwidth-bvor = λ a b. refl;
  bvwidth-bvxor = λ a b. refl;
  bvwidth-eq = λ a b. refl;
  bvwidth-ne = λ a b. refl;
  bvwidth-bvugt = λ a b. refl;
  bvwidth-bvuge = λ a b. refl;
  bvwidth-bvult = λ a b. refl;
  bvwidth-bvule = λ a b. refl;
  bvwidth-bvsgt = λ a b. refl;
  bvwidth-bvsge = λ a b. refl;
  bvwidth-bvslt = λ a b. refl;
  bvwidth-bvsle = λ a b. refl;
  bvwidth-bvsadd_overflow = λ a b. refl;
  bvwidth-bvuadd_overflow = λ a b. refl;
  bvwidth-bvssub_overflow = λ a b. refl;
  bvwidth-bvusub_overflow = λ a b. refl;
  bvwidth-bvsmul_overflow = λ a b. refl;
  bvwidth-bvumul_overflow = λ a b. refl;
  value-bvconst = λ m w c. refl;
  value-ite = λ m c t f. refl;
  value-extract = λ m high low a. refl;
  value-zero_extend = λ m i a. refl;
  value-sign_extend = λ m i a. refl;
  value-bvadd = λ m a b. refl;
  value-bvsub = λ m a b. refl;
  value-bvmul = λ m a b. refl;
  value-bvudiv = λ m a b h. refl;
  value-bvsdiv = λ m a b h. refl;
  value-bvurem = λ m a b h. refl;
  value-bvsrem = λ m a b h. refl;
  value-bvshl = λ m a b w h. refl;
  value-bvlshr = λ m a b w h. refl;
  value-bvashr = λ m a b w h. refl;
  value-bvand = λ m a b. refl;
  value-bvor = λ m a b. refl;
  value-bvxor = λ m a b. refl;
  value-eq = λ m a b. refl;
  value-ne = λ m a b. refl;
  value-bvugt = λ m a b. refl;
  value-bvuge = λ m a b. refl;
  value-bvult = λ m a b. refl;
  value-bvule = λ m a b. refl;
  value-bvsgt = λ m a b. refl;
  value-bvsge = λ m a b. refl;
  value-bvslt = λ m a b. refl;
  value-bvsle = λ m a b. refl;
  value-bvsadd_overflow = λ m a b. refl;
  value-bvuadd_overflow = λ m a b. refl;
  value-bvssub_overflow = λ m a b. refl;
  value-bvusub_overflow = λ m a b. refl;
  value-bvsmul_overflow = λ m a b. refl;
  value-bvumul_overflow = λ m a b. refl;
}

-- ===== src/Ir/Laws.antt =====
-- Every value of the IR is a word of its width, and constants hold what they say.
use Prim.Native.Nat.{bit_and, bit_or, bit_xor}
use kint_test.Base.{
  ℕ, ◌^◌, ◌<◌, ◌%◌, ◌≡◌, refl, Bool, true, false, ◌&&◌, ◌||◌, not, bit, some, arith,
}
use native.Mathlib.Nat.{mod-lt}
use kint_test.Word.{pow_pos}
use kint_test.Ir.Defs.{
  Value, const, var, binary, icmp, cast, select, result, overflow, width, as_constant, Env, eval,
  WellTyped,
}

mod_pow-lt : (a n : ℕ) → a % 2 ^ n < 2 ^ n
mod_pow-lt a n = mod-lt a (pow_pos n)

bit-lt : (b : Bool) → bit b < 2 ^ 1
bit-lt true = omega arith
bit-lt false = omega arith

pub eval-lt : (env : Env) (v : Value) → eval env v < 2 ^ width v
unfolding eval
eval-lt env (const w c) = mod_pow-lt _ w
eval-lt env (var w x) = mod_pow-lt _ w
eval-lt env (binary op l r) = mod_pow-lt _ (width l)
eval-lt env (icmp p l r) = bit-lt _
eval-lt env (cast op w v) = mod_pow-lt _ w
eval-lt env (select c t f) = mod_pow-lt _ (width t)
eval-lt env (result k l r) = mod_pow-lt _ (width l)
eval-lt env (overflow k l r) = bit-lt _

pub eval-as_constant : (env : Env) (v : Value) {c : ℕ} → as_constant v ≡ some c → eval env v ≡ c
unfolding eval
eval-as_constant env (const w c) h = cc
eval-as_constant env (var w x) h = cc
eval-as_constant env (binary op l r) h = cc
eval-as_constant env (icmp p l r) h = cc
eval-as_constant env (cast op w v) h = cc
eval-as_constant env (select c t f) h = cc
eval-as_constant env (result k l r) h = cc
eval-as_constant env (overflow k l r) h = cc

pub bit_or-bit : (p q : Bool) → bit_or (bit p) (bit q) % 2 ^ 1 ≡ bit (p || q)
bit_or-bit true true = refl
bit_or-bit true false = refl
bit_or-bit false true = refl
bit_or-bit false false = refl

pub bit_xor-one : (p : Bool) → bit_xor (bit p) 1 % 2 ^ 1 ≡ bit (not p)
bit_xor-one true = refl
bit_xor-one false = refl

pub width-pos : (v : Value) → WellTyped v → 0 < width v
width-pos (const w c) h = h
width-pos (var w x) h = h
width-pos (binary op l r) h = width-pos l h.0
width-pos (icmp p l r) h = omega arith
width-pos (cast op w v) h = h.1
width-pos (select c t f) h = width-pos t h.1
width-pos (result k l r) h = width-pos l h.0
width-pos (overflow k l r) h = omega arith

pub bit_and-bit : (p q : Bool) → bit_and (bit p) (bit q) % 2 ^ 1 ≡ bit (p && q)
bit_and-bit true true = refl
bit_and-bit true false = refl
bit_and-bit false true = refl
bit_and-bit false false = refl

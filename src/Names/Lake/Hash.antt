-- ===== src/Names/Lake/Hash.antt =====
-- The 112 bits of the hash in a LakeFS name (src/kohakuhub/utils/lakefs.py).
use Prim.Native.Nat.{◌^◌, ◌/◌, ◌%◌, digits, differ, bit_xor-bitwise, bit_xor}
use native.Mathlib.Nat.{pow-suc}
use kohaku_hub.Prelude.{ℕ, zero, suc, ◌<◌, arith, String}
use kohaku_hub.Names.Lake.{hash_to_112bit}

differ-lt_two : (x y : ℕ) → x < 2 → y < 2 → differ x y < 2
differ-lt_two zero y hx hy = hy
differ-lt_two (suc zero) zero hx hy = omega arith
differ-lt_two (suc zero) (suc y) hx hy = omega arith
differ-lt_two (suc (suc x)) y hx hy = absurd (omega arith)

digits-lt : (n k a b : ℕ) → a < 2 ^ k → b < 2 ^ k → digits (λ y. y) differ n a b < 2 ^ k
digits-lt zero k a b ha hb = hb
digits-lt (suc n) k zero b ha hb = hb
digits-lt (suc n) zero (suc a) b ha hb = absurd (omega arith)
digits-lt (suc n) (suc k) (suc a) b ha hb =
    let rest =
      digits-lt n k (suc a / 2) (b / 2) (omega (arith, pow-suc 2 k)) (omega (arith, pow-suc 2 k)) in
    let digit = differ-lt_two (suc a % 2) (b % 2) (omega arith) (omega arith) in
    omega (arith, pow-suc 2 k)

bit_xor-lt : (k a b : ℕ) → a < 2 ^ k → b < 2 ^ k → bit_xor a b < 2 ^ k
bit_xor-lt k a b ha hb = simp bit_xor-bitwise (digits-lt a k a b ha hb)

pub hash_to_112bit-lt :
    (lower : String → String) (base_repr : ℕ → String) (halves : String → ℕ × ℕ) (text : String)
    → ((halves text).0 < 2 ^ 112) × ((halves text).1 < 2 ^ 112)
    → hash_to_112bit lower base_repr halves text < 2 ^ 112
unfolding hash_to_112bit
hash_to_112bit-lt lower base_repr halves text (h1, h2) =
    bit_xor-lt 112 (halves text).0 (halves text).1 h1 h2

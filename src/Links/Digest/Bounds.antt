-- ===== src/Links/Digest/Bounds.antt =====
-- A digest is under 2^53, and its digits are all written.
use sewn_covers.Prelude.{ℕ, zero, suc, ◌/◌, ◌^◌, ◌<◌, ◌≤◌, lt→ltb, ◌≡◌, refl, arith}
use sewn_covers.Text.{Text}
use sewn_covers.Links.Digest.{bit_xor, xor32, base_36, word, digest, finish, mix, hash_value}

bit_xor_bounds : (bits a b : ℕ) → bit_xor bits a b < 2 ^ bits
unfolding bit_xor
bit_xor_bounds zero a b = omega arith
bit_xor_bounds (suc bits) a b = omega (arith, bit_xor_bounds bits (a / 2) (b / 2))

-- A number with no more digits than the fuel is written the same on any larger fuel.
base_36-enough :
    (fuel more n : ℕ)
    → fuel ≤ more
    → n < 36 ^ suc fuel
    → base_36 (suc more) n ≡ base_36 (suc fuel) n
unfolding base_36
base_36-enough zero more n le small = rw (lt→ltb n 36 (omega arith)) refl
base_36-enough (suc fuel) zero n le small = absurd (omega arith)
base_36-enough (suc fuel) (suc more) n le small =
    rw (base_36-enough fuel more (n / 36) (omega arith) (omega arith)) refl

finish_bounds : (halves : ℕ × ℕ) → (finish halves).0 < word
unfolding xor32
finish_bounds (first, second) = bit_xor_bounds 32 _ _

digest_bounds : (halves : ℕ × ℕ) → digest (finish halves) < 2 ^ 53
digest_bounds halves = let small = finish_bounds halves in omega arith

word-enough : (n fuel : ℕ) → n < 2 ^ 53 → 11 ≤ fuel → base_36 fuel n ≡ base_36 11 n
word-enough n zero small le = absurd (omega arith)
word-enough n (suc more) small le = base_36-enough 10 more n (omega arith) (omega arith)

-- The text of a digest is the same on any fuel of eleven or more: eleven digits are enough.
hash_value-enough :
    (value : Text) (fuel : ℕ)
    → 11 ≤ fuel
    → base_36 fuel (digest (finish (mix value (0xdeadbeef, 0x41c6ce57)))) ≡ hash_value value
unfolding hash_value
hash_value-enough value fuel le =
    word-enough _ fuel (digest_bounds (mix value (0xdeadbeef, 0x41c6ce57))) le

-- ===== src/Bytes/Laws.antt =====
-- Writing and reading big-endian numbers.
use solana_proxy.Prelude.{
  ℕ, zero, suc, replicate, append-nil, append_assoc, ◌+◌, ◌*◌, ◌/◌, ◌%◌, ◌^◌, ◌≤◌, ◌<◌, ◌≡◌, refl,
  sym, ap, ◌∙◌, arith, List, [], ◌∷◌, ◌++◌, All, All-append, length, length-append, drop,
  drop-append_le,
}
use solana_proxy.Bytes.{IsByte, Bytes, be_bytes, read_be_from, read_be}
use native.Mathlib.Nat.{
  pow-suc, suc-add, mul-add-mod_self_right, mod-eq_of_lt, mod-lt, div-add-mod, one-le-pow,
}

pub length-be_bytes : (w n : ℕ) → length (be_bytes w n) ≡ w
unfolding be_bytes
length-be_bytes zero n = refl
length-be_bytes (suc w) n =
    omega (arith, length-append (be_bytes w (n / 256)) (n % 256 ∷ []), length-be_bytes w (n / 256))

pub be_bytes-All-IsByte : (w n : ℕ) → All IsByte (be_bytes w n)
unfolding be_bytes
be_bytes-All-IsByte zero n = tt
be_bytes-All-IsByte (suc w) n =
    All-append IsByte (be_bytes w (n / 256)) _ (be_bytes-All-IsByte w (n / 256)) (omega arith, tt)

read_be_from-append :
    (acc : ℕ) (xs ys : Bytes) → read_be_from acc (xs ++ ys) ≡ read_be_from (read_be_from acc xs) ys
unfolding read_be_from
read_be_from-append acc [] ys = refl
read_be_from-append acc (x ∷ xs) ys = read_be_from-append (acc * 256 + x) xs ys

-- Reading back gives the number, if it fits the width.
pub read_be-be_bytes : (w n : ℕ) → n < 256 ^ w → read_be (be_bytes w n) ≡ n
unfolding read_be be_bytes
read_be-be_bytes zero n h = omega arith
read_be-be_bytes (suc w) n h =
    read_be_from-append 0 (be_bytes w (n / 256)) (n % 256 ∷ [])
    ∙ omega (arith, read_be-be_bytes w (n / 256) (omega (arith, pow-suc 256 w)))

drop-length {ℓ} : {A : Type ℓ} (n : ℕ) (xs : List A) → length xs ≤ n → drop n xs ≡ []
drop-length zero [] h = refl
drop-length zero (x ∷ xs) h = absurd (omega arith)
drop-length (suc n) [] h = refl
drop-length (suc n) (x ∷ xs) h = drop-length n xs (omega arith)

-- The low end of a wide number is the number in the narrower width.
pub drop-be_bytes : (k w n : ℕ) → drop k (be_bytes (w + k) n) ≡ be_bytes w n
unfolding be_bytes
drop-be_bytes k zero n = drop-length k _ (omega (arith, length-be_bytes (zero + k) n))
drop-be_bytes k (suc w) n = rw (suc-add w k) (
    drop-append_le k (be_bytes (w + k) (n / 256)) (n % 256 ∷ [])
      (omega (arith, length-be_bytes (w + k) (n / 256)))
    ∙ ap (λ l. l ++ (n % 256) ∷ []) (drop-be_bytes k w (n / 256)))

mod_of_digits : (P a b r : ℕ) → b < P → r < 256 → (256 * (P * a + b) + r) % (P * 256) ≡ b * 256 + r
mod_of_digits P a b r hb hr =
    let regroup : 256 * (P * a + b) + r ≡ a * (P * 256) + (b * 256 + r) = omega arith in
    rw regroup (mul-add-mod_self_right a (P * 256) (b * 256 + r) ∙ mod-eq_of_lt (omega arith))

-- One digit more, with `P` what the other digits hold.
mod_digit : (P n : ℕ) → 0 < P → (n / 256) % P * 256 + n % 256 ≡ n % (P * 256)
mod_digit P n h =
    sym (mod_of_digits P (n / 256 / P) (n / 256 % P) (n % 256) (mod-lt (n / 256) h) (omega arith))
    ∙ ap (λ t. t % (P * 256)) (omega (arith, div-add-mod (n / 256) P))

-- Reading a narrow field gives the number modulo what the width holds.
pub read_be-be_bytes_mod : (w n : ℕ) → read_be (be_bytes w n) ≡ n % 256 ^ w
unfolding read_be be_bytes
read_be-be_bytes_mod zero n = omega arith
read_be-be_bytes_mod (suc w) n =
    read_be_from-append 0 (be_bytes w (n / 256)) (n % 256 ∷ [])
    ∙ rw (pow-suc 256 w) (
        ap (λ t. t * 256 + n % 256) (read_be-be_bytes_mod w (n / 256))
        ∙ mod_digit (256 ^ w) n (one-le-pow w 256 (omega arith)))

abbrev zeros : ℕ → Bytes
zeros w = replicate w 0

snoc_zero : (w : ℕ) → zeros w ++ 0 ∷ [] ≡ 0 ∷ zeros w
snoc_zero zero = refl
snoc_zero (suc w) = ap (λ l. 0 ∷ l) (snoc_zero w)

be_bytes-zero : (w : ℕ) → be_bytes w 0 ≡ zeros w
unfolding be_bytes
be_bytes-zero zero = refl
be_bytes-zero (suc w) = ap (λ l. l ++ 0 ∷ []) (be_bytes-zero w) ∙ snoc_zero w

-- A number that needs `k` bytes only has zeros in front.
pub be_bytes-pad : (w k n : ℕ) → n < 256 ^ k → be_bytes (w + k) n ≡ replicate w 0 ++ be_bytes k n
unfolding be_bytes
be_bytes-pad w zero n h =
    let none_left : n ≡ 0 = omega (arith, h) in
    let bare : w + 0 ≡ w = omega arith in
    rw (none_left, bare) (be_bytes-zero w ∙ sym (append-nil (zeros w)))
be_bytes-pad w (suc k) n h =
    let next : w + suc k ≡ suc (w + k) = omega arith in
    rw next (
      ap (λ l. l ++ (n % 256) ∷ []) (be_bytes-pad w k (n / 256) (omega (arith, h, pow-suc 256 k)))
      ∙ append_assoc (zeros w) (be_bytes k (n / 256)) ((n % 256) ∷ []))

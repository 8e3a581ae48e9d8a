-- ===== src/Base/Bytes.antt =====
-- encoding/binary on byte slices: a byte slice is a list of numbers below 256.
use Prim.Native.Nat.{ℕ, zero, suc, ◌+◌, ◌-◌, ◌*◌, ◌/◌, ◌%◌, ◌^◌, ◌<◌}
use mathlib.Core.Path.{◌≡◌, refl, sym, ◌∙◌, ap}
use mathlib.Core.List.{List, [], ◌∷◌, ◌++◌, append-nil}
use native.Mathlib.Omega.{arith}
use go_adldap.Base.Lists.{
  length, get_or, take, drop, All, length-append, take-append, drop-append, take_all, drop_add,
}

abbrev pub IsByte : ℕ → Type 0
IsByte b = b < 256

abbrev pub Bytes : Type 0
Bytes = List ℕ

-- `b[i]`; every read of the models is behind a length check, so the 0 is never seen.
abbrev pub byte_at : Bytes → ℕ → ℕ
byte_at b i = get_or b i 0

-- `b[lo:hi]`
abbrev pub slice : Bytes → ℕ → ℕ → Bytes
slice b lo hi = take (hi - lo) (drop lo b)

-- `binary.LittleEndian.Uint16` and `Uint32`
abbrev pub get_u16 : Bytes → ℕ
get_u16 b = byte_at b 0 + byte_at b 1 * 256

abbrev pub get_u32 : Bytes → ℕ
get_u32 b = byte_at b 0 + byte_at b 1 * 256 + byte_at b 2 * 65536 + byte_at b 3 * 16777216

-- `uint16(n)` and `uint32(n)` keep the low bits; these are the bytes of the result.
abbrev pub u16_bytes : ℕ → Bytes
u16_bytes n = n % 256 ∷ n / 256 % 256 ∷ []

abbrev pub u32_bytes : ℕ → Bytes
u32_bytes n = n % 256 ∷ n / 256 % 256 ∷ n / 65536 % 256 ∷ n / 16777216 % 256 ∷ []

-- `binary.LittleEndian.PutUint32(b[at:at+4], n)` and `PutUint16`
abbrev pub put_u32 : Bytes → ℕ → ℕ → Bytes
put_u32 b at n = take at b ++ u32_bytes n ++ drop (at + 4) b

abbrev pub put_u16 : Bytes → ℕ → ℕ → Bytes
put_u16 b at n = take at b ++ u16_bytes n ++ drop (at + 2) b

pub get_u16-u16_bytes : (n : ℕ) → n < 2 ^ 16 → get_u16 (u16_bytes n) ≡ n
get_u16-u16_bytes n h = omega arith

pub get_u32-u32_bytes : (n : ℕ) → n < 2 ^ 32 → get_u32 (u32_bytes n) ≡ n
get_u32-u32_bytes n h = omega arith

pub byte_at-IsByte : (b : Bytes) (i : ℕ) → All IsByte b → byte_at b i < 256
byte_at-IsByte [] i h = omega arith
byte_at-IsByte (x ∷ b) zero (hx, h) = hx
byte_at-IsByte (x ∷ b) (suc i) (hx, h) = byte_at-IsByte b i h

-- Slices of a concatenation.
module _ (pre : Bytes) where
  pub slice_rest : (xs : Bytes) → slice (pre ++ xs) (length pre) (length (pre ++ xs)) ≡ xs
  slice_rest xs =
      rw (drop-append pre xs)
        (ap (λ k. take k xs) (omega (arith, length-append pre xs)) ∙ take_all xs)

  pub slice_part :
      (part post : Bytes)
      → slice (pre ++ (part ++ post)) (length pre) (length pre + length part) ≡ part
  slice_part part post =
      rw (drop-append pre (part ++ post))
        (ap (λ k. take k (part ++ post)) (omega arith) ∙ take-append part post)

  pub slice_shift :
      (xs : Bytes) (i j : ℕ) → slice (pre ++ xs) (length pre + i) (length pre + j) ≡ slice xs i j
  slice_shift xs i j =
      rw (drop_add (length pre) i (pre ++ xs), drop-append pre xs)
        (ap (λ k. take k (drop i xs)) (omega arith))

pub take_add : (m n : ℕ) (xs : Bytes) → take (m + n) xs ≡ take m xs ++ take n (drop m xs)
take_add zero n xs = ap (λ j. take j xs) (omega arith)
take_add (suc m) n [] = take_nil (suc m + n) ∙ sym (take_nil n)
  where
    take_nil : (k : ℕ) → take {A = ℕ} k [] ≡ []
    take_nil zero = refl
    take_nil (suc k) = refl
take_add (suc m) n (x ∷ xs) =
    ap (λ j. take j (x ∷ xs)) (suc_sum m n) ∙ ap (λ l. x ∷ l) (take_add m n xs)
  where
    suc_sum : (i j : ℕ) → suc i + j ≡ suc (i + j)
    suc_sum i j = omega arith

-- A slice by its length.
pub slice-eq-take : (xs : Bytes) (off n : ℕ) → slice xs off (off + n) ≡ take n (drop off xs)
slice-eq-take xs off n = ap (λ k. take k (drop off xs)) (omega arith)

pub slice_all : (b : Bytes) → slice b 0 (length b) ≡ b
slice_all b = ap (λ k. take k b) (omega arith) ∙ take_all b

-- The part at the end, found by an offset that is known to be right.
pub slice_last :
    (xs pre part : Bytes) (off : ℕ)
    → xs ≡ pre ++ part
    → off ≡ length pre
    → slice xs off (off + length part) ≡ part
slice_last xs pre part off e eo = rw (e, eo) (rw (append-nil part) at (slice_part pre part []))

-- ===== src/Common/Splice.antt =====
-- Overwriting a part of a list, as `memcpy` overwrites a part of a block, and reading a part back.
use Prim.Native.Nat.{ℕ, zero, suc, ◌+◌, ◌≤◌}
use mathlib.Core.Path.{◌≡◌, refl, ap}
use mathlib.Core.List.{List, [], ◌∷◌, ◌++◌}
use native.Mathlib.Omega.{arith}
use kieker_lang_pack_c.Common.Lists.{length, take, drop}

module _ {ℓ} {A : Type ℓ} where
  -- `ys` laid over the beginning of `xs`; what does not fit is dropped.
  abbrev pub overwrite : List A → List A → List A
  overwrite [] xs = xs
  overwrite (y ∷ ys) [] = []
  overwrite (y ∷ ys) (x ∷ xs) = y ∷ overwrite ys xs

  -- `ys` laid over `xs` from the index `offset` on.
  abbrev pub splice : List A → ℕ → List A → List A
  splice xs zero ys = overwrite ys xs
  splice [] (suc offset) ys = []
  splice (x ∷ xs) (suc offset) ys = x ∷ splice xs offset ys

  -- `size` elements from the index `offset` on.
  abbrev pub slice : List A → ℕ → ℕ → List A
  slice xs offset size = take size (drop offset xs)

  length-overwrite : (ys xs : List A) → length (overwrite ys xs) ≡ length xs
  length-overwrite [] xs = refl
  length-overwrite (y ∷ ys) [] = refl
  length-overwrite (y ∷ ys) (x ∷ xs) = ap suc (length-overwrite ys xs)

  pub length-splice : (xs : List A) (o : ℕ) (ys : List A) → length (splice xs o ys) ≡ length xs
  length-splice xs zero ys = length-overwrite ys xs
  length-splice [] (suc o) ys = refl
  length-splice (x ∷ xs) (suc o) ys = ap suc (length-splice xs o ys)

  overwrite-append :
      (ys xs zs : List A) (p : ℕ)
      → p ≡ length ys
      → splice (overwrite ys xs) p zs ≡ overwrite (ys ++ zs) xs
  overwrite-append [] xs zs p e = rw e
  overwrite-append (y ∷ ys) [] zs p e = rw e
  overwrite-append (y ∷ ys) (x ∷ xs) zs zero e = absurd (omega arith)
  overwrite-append (y ∷ ys) (x ∷ xs) zs (suc p) e =
      ap (λ t. y ∷ t) (overwrite-append ys xs zs p (omega arith))

  -- Two writes, the second where the first ends, are one write.
  pub splice-splice :
      (xs : List A) (o p : ℕ) (ys zs : List A)
      → p ≡ o + length ys
      → splice (splice xs o ys) p zs ≡ splice xs o (ys ++ zs)
  splice-splice xs zero p ys zs e = overwrite-append ys xs zs p (omega arith)
  splice-splice [] (suc o) zero ys zs e = absurd (omega arith)
  splice-splice [] (suc o) (suc p) ys zs e = refl
  splice-splice (x ∷ xs) (suc o) zero ys zs e = absurd (omega arith)
  splice-splice (x ∷ xs) (suc o) (suc p) ys zs e =
      ap (λ t. x ∷ t) (splice-splice xs o p ys zs (omega arith))

  take-overwrite :
      (ys xs : List A) (n : ℕ) → n ≡ length ys → n ≤ length xs → take n (overwrite ys xs) ≡ ys
  take-overwrite [] xs n e h = rw e
  take-overwrite (y ∷ ys) xs zero e h = absurd (omega arith)
  take-overwrite (y ∷ ys) [] (suc n) e h = absurd (omega arith)
  take-overwrite (y ∷ ys) (x ∷ xs) (suc n) e h =
      ap (λ t. y ∷ t) (take-overwrite ys xs n (omega arith) (omega arith))

  pub splice-nil : (xs : List A) (o : ℕ) → splice xs o [] ≡ xs
  splice-nil xs zero = refl
  splice-nil [] (suc o) = refl
  splice-nil (x ∷ xs) (suc o) = ap (λ t. x ∷ t) (splice-nil xs o)

  -- What was written is read back.
  pub slice-splice :
      (xs : List A) (o n : ℕ) (ys : List A)
      → n ≡ length ys
      → o + n ≤ length xs
      → slice (splice xs o ys) o n ≡ ys
  slice-splice xs zero n ys e h = take-overwrite ys xs n e (omega arith)
  slice-splice [] (suc o) n ys e h = absurd (omega arith)
  slice-splice (x ∷ xs) (suc o) n ys e h = slice-splice xs o n ys e (omega arith)

  -- The elements before the write are the old ones.
  pub take-splice : (xs : List A) (o : ℕ) (ys : List A) → take o (splice xs o ys) ≡ take o xs
  take-splice xs zero ys = refl
  take-splice [] (suc o) ys = refl
  take-splice (x ∷ xs) (suc o) ys = ap (λ t. x ∷ t) (take-splice xs o ys)

  drop-overwrite : (ys xs : List A) (n : ℕ) → n ≡ length ys → drop n (overwrite ys xs) ≡ drop n xs
  drop-overwrite [] xs n e = refl
  drop-overwrite (y ∷ ys) xs zero e = absurd (omega arith)
  drop-overwrite (y ∷ ys) [] (suc n) e = refl
  drop-overwrite (y ∷ ys) (x ∷ xs) (suc n) e = drop-overwrite ys xs n (omega arith)

  -- The elements behind the write are the old ones.
  pub drop-splice :
      (xs : List A) (o p : ℕ) (ys : List A)
      → p ≡ o + length ys
      → drop p (splice xs o ys) ≡ drop p xs
  drop-splice xs zero p ys e = drop-overwrite ys xs p (omega arith)
  drop-splice [] (suc o) zero ys e = absurd (omega arith)
  drop-splice [] (suc o) (suc p) ys e = refl
  drop-splice (x ∷ xs) (suc o) zero ys e = absurd (omega arith)
  drop-splice (x ∷ xs) (suc o) (suc p) ys e = drop-splice xs o p ys (omega arith)

  -- A write at the start, seen from there on.
  pub take-splice_end :
      (xs : List A) (o p : ℕ) (ys : List A)
      → p ≡ o + length ys
      → p ≤ length xs
      → take p (splice xs o ys) ≡ take o xs ++ ys
  take-splice_end xs zero p ys e h = take-overwrite ys xs p (omega arith) h
  take-splice_end [] (suc o) p ys e h = absurd (omega arith)
  take-splice_end (x ∷ xs) (suc o) zero ys e h = absurd (omega arith)
  take-splice_end (x ∷ xs) (suc o) (suc p) ys e h =
      ap (λ t. x ∷ t) (take-splice_end xs o p ys (omega arith) (omega arith))

  -- The two parts of an appended list, by the length of the first.
  pub take-append : (xs ys : List A) (n : ℕ) → n ≡ length xs → take n (xs ++ ys) ≡ xs
  take-append [] ys n e = rw e
  take-append (x ∷ xs) ys zero e = absurd (omega arith)
  take-append (x ∷ xs) ys (suc n) e = ap (λ t. x ∷ t) (take-append xs ys n (omega arith))

  pub drop-append : (xs ys : List A) (n : ℕ) → n ≡ length xs → drop n (xs ++ ys) ≡ ys
  drop-append [] ys n e = rw e
  drop-append (x ∷ xs) ys zero e = absurd (omega arith)
  drop-append (x ∷ xs) ys (suc n) e = drop-append xs ys n (omega arith)

-- ===== src/Attestation/Pae/Injective.antt =====
-- internal/attestation/dsse.go: the encoding determines the type and the payload.
use Prim.Native.Nat.{◌/◌, ◌%◌}
use mathlib.Core.List.{append_assoc}
use assurectl.Prelude.{
  ℕ, zero, suc, ◌+◌, ◌-◌, ◌*◌, ◌<◌, ◌≢◌, ◌≡◌, refl, sym, ap, ◌∙◌, inl, inr, [], ◌∷◌, ◌++◌, All,
  length, ltb, Bool-cases, arith,
}
use assurectl.Attestation.{Bytes}
use assurectl.Attestation.Pae.{digits, decimal, space, tag, pae}

-- the number that digits spell behind the number of those before them
value : ℕ → Bytes → ℕ
value n [] = n
value n (c ∷ s) = value (n * 10 + (c - b'0')) s

value-digits : (fuel n : ℕ) (out : Bytes) → n < fuel → value 0 (digits fuel n out) ≡ value n out
unfolding digits value
value-digits zero n out h = absurd (omega arith)
value-digits (suc fuel) n out h = elim (Bool-cases (ltb n 10)) [
  | inl small ↦ rw small (ap (λ m. value m out) (ground arith))
  | inr large ↦ rw large (
      value-digits fuel (n / 10) ((b'0' + n % 10) ∷ out) (ground arith)
      ∙ ap (λ m. value m out) (omega arith))
]

value-decimal : (n : ℕ) → value 0 (decimal n) ≡ n
unfolding decimal value
value-decimal n = value-digits (suc n) n [] (omega arith)

abbrev NoSpace : Bytes → Type 0
NoSpace = All (λ c. c ≢ space)

digits-NoSpace : (fuel n : ℕ) (out : Bytes) → NoSpace out → NoSpace (digits fuel n out)
unfolding digits
digits-NoSpace zero n out h = h
digits-NoSpace (suc fuel) n out h = elim (Bool-cases (ltb n 10)) [
  | inl small ↦ rw small (λ e. omega arith, h)
  | inr large ↦
      rw large (digits-NoSpace fuel (n / 10) ((b'0' + n % 10) ∷ out) (λ e. omega arith, h))
]

decimal-NoSpace : (n : ℕ) → NoSpace (decimal n)
unfolding decimal
decimal-NoSpace n = digits-NoSpace (suc n) n [] tt

-- Two texts up to their first space.
cut_at_space :
    (xs ys r s : Bytes)
    → NoSpace xs
    → NoSpace ys
    → xs ++ (space ∷ r) ≡ ys ++ (space ∷ s)
    → (xs ≡ ys) × (r ≡ s)
cut_at_space [] [] r s h k e = (refl, cc)
cut_at_space [] (y ∷ ys) r s h (k, ks) e = absurd (k (cc))
cut_at_space (x ∷ xs) [] r s (h, hs) k e = absurd (h (cc))
cut_at_space (x ∷ xs) (y ∷ ys) r s (h, hs) (k, ks) e =
    let (same, rest) = cut_at_space xs ys r s hs ks (cc) in (cc, rest)

-- Two texts of one length, and what follows them.
cut_at_length :
    (xs ys r s : Bytes) → length xs ≡ length ys → xs ++ r ≡ ys ++ s → (xs ≡ ys) × (r ≡ s)
cut_at_length [] [] r s h e = (refl, e)
cut_at_length [] (y ∷ ys) r s h e = absurd (omega arith)
cut_at_length (x ∷ xs) [] r s h e = absurd (omega arith)
cut_at_length (x ∷ xs) (y ∷ ys) r s h e =
    let (same, rest) = cut_at_length xs ys r s (omega arith) (cc) in (cc, rest)

-- The same encoding, in front of which the spaces stand that `cut_at_space` looks for.
pae-cons :
    (t p : Bytes)
    → pae t p
      ≡ tag
        ++ (decimal (length t) ++ (space ∷ (t ++ (space ∷ (decimal (length p) ++ (space ∷ p))))))
unfolding pae
pae-cons t p =
    let behind = t ++ (space ∷ ((decimal (length p) ++ (space ∷ [])) ++ p)) in
    ap (λ s. tag ++ s) (append_assoc (decimal (length t)) (space ∷ []) behind)
    ∙ ap (λ s. tag ++ (decimal (length t) ++ (space ∷ (t ++ (space ∷ s)))))
        (append_assoc (decimal (length p)) (space ∷ []) p)

same_length : (m n : ℕ) → decimal m ≡ decimal n → m ≡ n
same_length m n e = sym (value-decimal m) ∙ ap (λ s. value 0 s) e ∙ value-decimal n

-- Two pairs of a type and a payload with the same encoding are the same pair: no signature covers
-- another type or payload than the one it was made for.
pub pae_injective : (t u p q : Bytes) → pae t p ≡ pae u q → (t ≡ u) × (p ≡ q)
pae_injective t u p q e =
    let front = sym (pae-cons t p) ∙ e ∙ pae-cons u q in
    let (_, h1) = cut_at_length tag tag _ _ refl front in
    let (size, h2) =
      cut_at_space (decimal (length t)) (decimal (length u)) _ _ (decimal-NoSpace (length t))
        (decimal-NoSpace (length u)) h1 in
    let (same_type, h3) = cut_at_length t u _ _ (same_length (length t) (length u) size) h2 in
    let (_, h4) = cut_at_length (space ∷ []) (space ∷ []) _ _ refl h3 in
    let (_, h5) =
      cut_at_space (decimal (length p)) (decimal (length q)) _ _ (decimal-NoSpace (length p))
        (decimal-NoSpace (length q)) h4 in
    (same_type, h5)

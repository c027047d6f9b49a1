-- ===== src/Attestation/Pae.antt =====
-- internal/attestation/dsse.go: the pre-authentication encoding (PAE).
pub mod Injective
use Prim.Native.Nat.{◌/◌, ◌%◌}
use assurectl.Prelude.{ℕ, zero, suc, ◌+◌, List, [], ◌∷◌, ◌++◌, length, ltb, if◌then◌else◌}
use assurectl.Attestation.{Bytes}

-- The decimal digits of a number in front of what is already written, with fuel for the digits.
unfoldable pub digits : ℕ → ℕ → Bytes → Bytes
digits zero n out = out
digits (suc fuel) n out =
    let last = (b'0' + n % 10) ∷ out in
    let rest = digits fuel (n / 10) last in if ltb n 10 then last else rest

-- the verb %d on a natural number, which has at most as many digits as it counts, and one
unfoldable pub decimal : ℕ → Bytes
decimal n = digits (suc n) n []

abbrev pub space : ℕ
space = 0x20

-- `DSSEv1 `
abbrev pub tag : Bytes
tag = b'D' ∷ b'S' ∷ b'S' ∷ b'E' ∷ b'v' ∷ b'1' ∷ space ∷ []

unfoldable pub pae : Bytes → Bytes → Bytes
pae payload_type payload =
    let header = tag ++ (decimal (length payload_type) ++ (space ∷ [])) in
    let separator = space ∷ (decimal (length payload) ++ (space ∷ [])) in
    header ++ (payload_type ++ (separator ++ payload))

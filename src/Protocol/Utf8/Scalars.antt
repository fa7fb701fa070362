-- ===== src/Protocol/Utf8/Scalars.antt =====
-- UTF-8 by RFC 3629: the Unicode scalar values and their encodings. This is the description that
-- isValidUtf8 is held against, and it does not mention its tests.
use eiows.Common.{ℕ, ◌+◌, ◌/◌, ◌%◌, ◌<◌, ◌≡◌, ◌⊎◌, [], ◌∷◌, ◌++◌, ltb, if◌then◌else◌, Bytes}

-- A code point that is no surrogate.
abbrev pub IsScalar : ℕ → Type 0
IsScalar c = (c < 0x110000) × ((c < 0xd800) ⊎ (0xdfff < c))

abbrev pub encode : ℕ → Bytes
encode c =
    if ltb c 0x80
    then c ∷ []
    else if ltb c 0x800
    then (192 + c / 64) ∷ (128 + c % 64) ∷ []
    else if ltb c 0x10000
    then (224 + c / 4096) ∷ (128 + c / 64 % 64) ∷ (128 + c % 64) ∷ []
    else (240 + c / 262144) ∷ (128 + c / 4096 % 64) ∷ (128 + c / 64 % 64) ∷ (128 + c % 64) ∷ []

-- A sequence of encoded scalar values.
pub data WellFormed : Bytes → Type 0 where
  nil : WellFormed []
  char :
      {s rest : Bytes} (c : ℕ) → IsScalar c → s ≡ encode c ++ rest → WellFormed rest → WellFormed s

-- ===== src/Base32/Tests.antt =====
-- The Base32 theorem at a concrete text.
use porkg.Base.{ℕ, ◌≡◌, ◌↔◌, [], ◌∷◌, ok, length}
use porkg.Base32.{from_str}
use porkg.Base32.Laws.{from_str_iff}
use porkg.Base32.Sample.{sample, sample-IsLawful}

from_str_iff_example : (from_str sample 2 (0 ∷ 1 ∷ 0 ∷ 2 ∷ []) ≡ ok (1 ∷ 2 ∷ [])) ↔ (
    (length {A = ℕ} (1 ∷ 2 ∷ []) ≡ 2) × (sample.decode_mut (0 ∷ 1 ∷ 0 ∷ 2 ∷ []) ≡ ok (1 ∷ 2 ∷ [])))
from_str_iff_example = from_str_iff sample sample-IsLawful 2 (0 ∷ 1 ∷ 0 ∷ 2 ∷ []) (1 ∷ 2 ∷ [])

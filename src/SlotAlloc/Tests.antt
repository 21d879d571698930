-- ===== src/SlotAlloc/Tests.antt =====
-- The search of a free slot among three: one in use, one in its cooldown, one that may be taken.
use esp_reverse_tunneling_li.Prelude.{ℕ, Bool, true, false, List, [], ◌∷◌}

abbrev active : Bool × ℕ → Bool
active s = s.0

abbrev finalized : Bool × ℕ → ℕ
finalized s = s.1

abbrev slots : List (Bool × ℕ)
slots = (true, 0) ∷ (false, 90) ∷ (false, 20) ∷ []

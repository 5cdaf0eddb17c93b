-- ===== src/PacketManager/Count.antt =====
-- How often a list holds a number.
use dubuframework.Base.{digit, ℕ, ◌+◌, List, [], ◌∷◌, ◌==◌}

abbrev pub count : ℕ → List ℕ → ℕ
count a [] = 0
count a (x ∷ xs) = digit (x == a) + count a xs

-- ===== src/Wire/Crc.antt =====
-- Packet::CRC32 (Packet.cpp) against the checksum that takes one byte at a time.
use dubuframework.Base.{
  ℕ, zero, suc, ◌<◌, ◌≡◌, refl, ap, ◌∙◌, List, [], ◌∷◌, take, bit_xor, arith, get_or,
}
use dubuframework.Wire.{word, crc_tail, crc_words, crc32}

-- The checksum of bytes, one after another
abbrev pub reference : (ℕ → ℕ → ℕ) → List ℕ → ℕ → ℕ
reference crc_u8 [] crc = crc
reference crc_u8 (a ∷ rest) crc = reference crc_u8 rest (crc_u8 crc a)

-- Every number is a byte.
abbrev pub AreBytes : List ℕ → Type 0
AreBytes xs = (i : ℕ) → get_or xs i 0 < 256

take-AreBytes : (n : ℕ) (xs : List ℕ) → AreBytes xs → AreBytes (take n xs)
take-AreBytes zero xs h i = omega arith
take-AreBytes (suc n) [] h i = omega arith
take-AreBytes (suc n) (x ∷ xs) h zero = h 0
take-AreBytes (suc n) (x ∷ xs) h (suc i) = take-AreBytes n xs (λ j. h (suc j)) i

module _ (crc_u32 crc_u8 : ℕ → ℕ → ℕ) where
  -- `_mm_crc32_u32` is `_mm_crc32_u8` on the four bytes, lowest first.
  abbrev pub IsWordwise : Type 0
  IsWordwise =
      (crc a b c d : ℕ)
      → a < 256
      → b < 256
      → c < 256
      → d < 256
      → crc_u32 crc (word a b c d) ≡ crc_u8 (crc_u8 (crc_u8 (crc_u8 crc a) b) c) d

  tail-reference :
      (xs : List ℕ) (crc : ℕ) → crc_tail crc_u32 crc_u8 xs crc ≡ reference crc_u8 xs crc
  unfolding crc_tail
  tail-reference [] crc = refl
  tail-reference (x ∷ xs) crc = tail-reference xs (crc_u8 crc x)

  words-reference :
      IsWordwise
      → (xs : List ℕ) (crc : ℕ) → AreBytes xs
      → crc_words crc_u32 crc_u8 xs crc ≡ reference crc_u8 xs crc
  unfolding crc_words
  words-reference w [] crc h = tail-reference [] crc
  words-reference w (a ∷ []) crc h = tail-reference (a ∷ []) crc
  words-reference w (a ∷ b ∷ []) crc h = tail-reference (a ∷ b ∷ []) crc
  words-reference w (a ∷ b ∷ c ∷ []) crc h = tail-reference (a ∷ b ∷ c ∷ []) crc
  words-reference w (a ∷ b ∷ c ∷ d ∷ rest) crc h =
      words-reference w rest (crc_u32 crc (word a b c d)) (λ i. h (suc (suc (suc (suc i)))))
      ∙ ap (reference crc_u8 rest) (w crc a b c d (h 0) (h 1) (h 2) (h 3))

  -- If `_mm_crc32_u32` takes four bytes as `_mm_crc32_u8` takes them one after another, then CRC32
  -- of the first `len` bytes of a buffer is the checksum that takes one byte at a time, with all
  -- bits inverted.
  pub crc32-reference :
      IsWordwise
      → (ptr : List ℕ) (len : ℕ) → AreBytes ptr
      → crc32 crc_u32 crc_u8 ptr len
        ≡ bit_xor (reference crc_u8 (take len ptr) 0xFFFFFFFF) 0xFFFFFFFF
  unfolding crc32
  crc32-reference w ptr len h =
      ap (λ c. bit_xor c 0xFFFFFFFF)
        (words-reference w (take len ptr) 0xFFFFFFFF (take-AreBytes len ptr h))

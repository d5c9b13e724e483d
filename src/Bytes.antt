-- ===== src/Bytes.antt =====
-- Byte strings as lists of numbers, and the little-endian integers of Python's `struct`.
pub mod Laws
use yomitan_audio_fast.Prelude.{
  ℕ, zero, suc, ◌+◌, ◌*◌, ◌/◌, ◌%◌, List, [], ◌∷◌, ◌++◌, take, drop, length,
}

abbrev pub Bytes : Type 0
Bytes = List ℕ

-- data[start : start + size]
abbrev pub slice : ℕ → ℕ → Bytes → Bytes
slice start size bytes = take size (drop start bytes)

-- the integer of some bytes, the least significant first
unfoldable pub le_value : Bytes → ℕ
le_value [] = 0
le_value (b ∷ bytes) = b + 256 * le_value bytes

-- the `width` bytes of an integer
unfoldable pub le_bytes : ℕ → ℕ → Bytes
le_bytes zero n = []
le_bytes (suc width) n = (n % 256) ∷ le_bytes width (n / 256)

-- bytes written over a buffer at a position inside it
unfoldable pub write_at : ℕ → Bytes → Bytes → Bytes
write_at start new bytes = take start bytes ++ (new ++ drop (start + length new) bytes)

-- `bytes(size)`: zeros
unfoldable pub zeros : ℕ → Bytes
zeros zero = []
zeros (suc n) = 0 ∷ zeros n

-- ===== src/Pack/Index.antt =====
-- The index as a table from row ids to records: what is packed into a row's place is read back there,
-- and nowhere else.
use yomitan_audio_fast.Prelude.{
  ℕ, ◌+◌, ◌*◌, ◌≤◌, ◌≡◌, ◌≢◌, ◌∙◌, ◌⊎◌, inl, inr, refl, sym, ap, arith, length, lt-or_gt_of_ne,
}
use yomitan_audio_fast.Bytes.{Bytes, slice, le_bytes, zeros, write_at}
use yomitan_audio_fast.Bytes.Laws.{length-write_at, slice-write_at_self, slice-write_at_ne}
use yomitan_audio_fast.Pack.Format.{IndexRecord, pack_record, unpack_record}
use yomitan_audio_fast.Pack.Format.Laws.{Fits, unpack_record-pack_record}
use yomitan_audio_fast.Pack.{record_at}

-- `RECORD.pack_into(index_map, INDEX_HEADER.size + row_id * RECORD.size, ...)`
unfoldable pub put_record : ℕ → IndexRecord → Bytes → Bytes
put_record row_id r index = write_at (64 + row_id * 16) (pack_record r) index

-- the size of an index for the ids up to `maximum_id`
abbrev pub index_size : ℕ → ℕ
index_size maximum_id = 64 + (maximum_id + 1) * 16

length-pack_record : (r : IndexRecord) → length (pack_record r) ≡ 16
unfolding pack_record zeros le_bytes
length-pack_record r = refl

module _ (maximum_id row_id : ℕ) (r : IndexRecord) (index : Bytes)
    (size : length index ≡ index_size maximum_id) (below : row_id ≤ maximum_id) where
  inside : 64 + row_id * 16 + length (pack_record r) ≤ length index
  inside = omega (arith, length-pack_record r)

  pub length-put_record : length (put_record row_id r index) ≡ index_size maximum_id
  unfolding put_record
  length-put_record = length-write_at (64 + row_id * 16) (pack_record r) index inside ∙ size

  -- In an index of the size for its highest id, the record packed into the place of a row id that is not
  -- higher is read back there, if its fields fit their widths.
  pub record_at-put_record_self : Fits r → record_at (put_record row_id r index) row_id ≡ r
  unfolding put_record record_at
  record_at-put_record_self fits =
      ap unpack_record (
        ap (λ n. slice (64 + row_id * 16) n (write_at (64 + row_id * 16) (pack_record r) index))
          (sym (length-pack_record r))
        ∙ slice-write_at_self (64 + row_id * 16) (pack_record r) index inside)
      ∙ unpack_record-pack_record r fits

  -- Packing a record into the place of a row id, in an index of the size for its highest id, leaves the
  -- record of every other row id as it was.
  pub record_at-put_record_ne :
      (other : ℕ)
      → other ≢ row_id
      → record_at (put_record row_id r index) other ≡ record_at index other
  unfolding put_record record_at
  record_at-put_record_ne other ne = ap unpack_record (
      slice-write_at_ne (64 + other * 16) 16 (64 + row_id * 16) (pack_record r) index inside
        (apart other ne))
    where
      apart :
          (other : ℕ)
          → other ≢ row_id
          → (64 + other * 16 + 16 ≤ 64 + row_id * 16)
            ⊎ (64 + row_id * 16 + length (pack_record r) ≤ 64 + other * 16)
      apart o n = elim (lt-or_gt_of_ne o row_id n) [
        | inl lt ↦ inl (omega arith)
        | inr gt ↦ inr (omega (arith, length-pack_record r))
      ]

-- ===== src/Pack/Build/Stored/Records.antt =====
-- The index after the records of a group are cleared or written.
use yomitan_audio_fast.Prelude.{
  ℕ, ◌≤◌, ◌≡◌, ◌≢◌, ◌∙◌, refl, sym, List, [], ◌∷◌, length, All, arith, ℕ_discrete,
}
use yomitan_audio_fast.Bytes.{Bytes, zeros, le_bytes}
use yomitan_audio_fast.Pack.{record_at}
use yomitan_audio_fast.Pack.Format.{IndexRecord, pack_record}
use yomitan_audio_fast.Pack.Format.Laws.{Fits}
use yomitan_audio_fast.Pack.Index.{
  put_record, index_size, length-put_record, record_at-put_record_self, record_at-put_record_ne,
}
use yomitan_audio_fast.Pack.Build.Consume.{put_records, clear_group_records}

abbrev pub no_record : IndexRecord
no_record = record { offset = 0; length = 0; mime_id = 0; flags = 0 }

pub no_record-Fits : Fits no_record
no_record-Fits = record {
  offset = omega arith;
  length = omega arith;
  mime_id = omega arith;
  flags = omega arith;
}

pack_record-no_record : pack_record no_record ≡ zeros 16
unfolding pack_record zeros le_bytes
pack_record-no_record = refl

-- Clearing is writing the record of zeros.
pub clear_group_records-eq-put_records :
    (ids : List ℕ) (index : Bytes) → clear_group_records ids index ≡ put_records ids no_record index
unfolding clear_group_records put_records put_record
clear_group_records-eq-put_records [] index = refl
clear_group_records-eq-put_records (id ∷ ids) index =
    rw pack_record-no_record (clear_group_records-eq-put_records ids _)

module _ (maximum_id : ℕ) where
  abbrev pub AreBelow : List ℕ → Type 0
  AreBelow = All (λ id. id ≤ maximum_id)

  pub length-put_records :
      (ids : List ℕ) (r : IndexRecord) (index : Bytes)
      → AreBelow ids
      → length index ≡ index_size maximum_id
      → length (put_records ids r index) ≡ index_size maximum_id
  unfolding put_records
  length-put_records [] r index below size = size
  length-put_records (id ∷ ids) r index below size =
      length-put_records ids r (put_record id r index) below.1
        (length-put_record maximum_id id r index size below.0)

  pub record_at-put_records_ne :
      (ids : List ℕ) (r : IndexRecord) (index : Bytes) (other : ℕ)
      → AreBelow ids
      → length index ≡ index_size maximum_id
      → All (λ id. id ≢ other) ids
      → record_at (put_records ids r index) other ≡ record_at index other
  unfolding put_records
  record_at-put_records_ne [] r index other below size apart = refl
  record_at-put_records_ne (id ∷ ids) r index other below size apart =
      record_at-put_records_ne ids r (put_record id r index) other below.1
        (length-put_record maximum_id id r index size below.0) apart.1
      ∙ record_at-put_record_ne maximum_id id r index size below.0 other (λ e. apart.0 (sym e))

  -- a record that is there already stays
  record_at-put_records_keep :
      (ids : List ℕ) (r : IndexRecord) (index : Bytes) (other : ℕ)
      → AreBelow ids
      → length index ≡ index_size maximum_id
      → Fits r
      → record_at index other ≡ r
      → record_at (put_records ids r index) other ≡ r
  unfolding put_records
  record_at-put_records_keep [] r index other below size fits e = e
  record_at-put_records_keep (id ∷ ids) r index other below size fits e =
      record_at-put_records_keep ids r (put_record id r index) other below.1
        (length-put_record maximum_id id r index size below.0) fits
        (elim (ℕ_discrete other id) [
          | yes p ↦ rw p (record_at-put_record_self maximum_id id r index size below.0 fits)
          | no n ↦ record_at-put_record_ne maximum_id id r index size below.0 other n ∙ e
        ])

  pub record_at-put_records_self :
      (ids : List ℕ) (r : IndexRecord) (index : Bytes)
      → AreBelow ids
      → length index ≡ index_size maximum_id
      → Fits r
      → All (λ id. record_at (put_records ids r index) id ≡ r) ids
  unfolding put_records
  record_at-put_records_self [] r index below size fits = tt
  record_at-put_records_self (id ∷ ids) r index below size fits = (
    record_at-put_records_keep ids r (put_record id r index) id below.1
        (length-put_record maximum_id id r index size below.0) fits
        (record_at-put_record_self maximum_id id r index size below.0 fits),
    record_at-put_records_self ids r (put_record id r index) below.1
        (length-put_record maximum_id id r index size below.0) fits,
  )

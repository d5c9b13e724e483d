-- ===== src/Pack/Format/Laws.antt =====
-- A record that fits its fields is read back as it was written.
use yomitan_audio_fast.Prelude.{◌^◌, ◌<◌, ◌≡◌}
use yomitan_audio_fast.Bytes.{le_bytes, zeros}
use yomitan_audio_fast.Bytes.Laws.{le_value-le_bytes}
use yomitan_audio_fast.Pack.Format.{
  IndexRecord, IndexHeader, pack_record, unpack_record, pack_header, unpack_header,
}

-- what `struct.pack` accepts
pub record Fits (r : IndexRecord) : Type 0 where
  pub offset : r.offset < 256 ^ 8
  pub length : r.length < 256 ^ 4
  pub mime_id : r.mime_id < 256 ^ 1
  pub flags : r.flags < 256 ^ 1

-- An index record whose fields fit their widths is read back from its 16 bytes.
pub unpack_record-pack_record : (r : IndexRecord) → Fits r → unpack_record (pack_record r) ≡ r
unfolding unpack_record pack_record zeros le_bytes
unpack_record-pack_record r h = λ i. record {
  offset = le_value-le_bytes 8 r.offset h.offset i;
  length = le_value-le_bytes 4 r.length h.length i;
  mime_id = le_value-le_bytes 1 r.mime_id h.mime_id i;
  flags = le_value-le_bytes 1 r.flags h.flags i;
}

pub record HeaderFits (h : IndexHeader) : Type 0 where
  pub format_version : h.format_version < 256 ^ 4
  pub record_bytes : h.record_bytes < 256 ^ 4
  pub maximum_id : h.maximum_id < 256 ^ 8
  pub valid_rows : h.valid_rows < 256 ^ 8
  pub pack_size : h.pack_size < 256 ^ 8
  pub db_size : h.db_size < 256 ^ 8
  pub db_mtime_ns : h.db_mtime_ns < 256 ^ 8

-- An index header whose fields fit their widths is read back from its 64 bytes.
pub unpack_header-pack_header : (h : IndexHeader) → HeaderFits h → unpack_header (pack_header h) ≡ h
unfolding unpack_header pack_header zeros le_bytes
unpack_header-pack_header h f = λ i. record {
  format_version = le_value-le_bytes 4 h.format_version f.format_version i;
  record_bytes = le_value-le_bytes 4 h.record_bytes f.record_bytes i;
  maximum_id = le_value-le_bytes 8 h.maximum_id f.maximum_id i;
  valid_rows = le_value-le_bytes 8 h.valid_rows f.valid_rows i;
  pack_size = le_value-le_bytes 8 h.pack_size f.pack_size i;
  db_size = le_value-le_bytes 8 h.db_size f.db_size i;
  db_mtime_ns = le_value-le_bytes 8 h.db_mtime_ns f.db_mtime_ns i;
}

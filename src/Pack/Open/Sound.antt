-- ===== src/Pack/Open/Sound.antt =====
-- What holds of a pack that was opened.
use mathlib.Core.Option
use yomitan_audio_fast.Prelude.{
  ℕ, ◌≡◌, ◌∙◌, sym, ap, ◌&&◌, if◌then◌else◌, refl, Option, none, some, Bool, true, length, arith,
  Option-cases, Bool-cases, inl, inr,
}
use yomitan_audio_fast.Prelude.Text.{Text, codes}
use yomitan_audio_fast.Pack.{AudioPack}
use yomitan_audio_fast.Bytes.{slice}
use yomitan_audio_fast.Pack.Format.{IndexHeader, unpack_header}
use yomitan_audio_fast.Pack.Index.{index_size}
use yomitan_audio_fast.Pack.Open.{
  PackFiles, ActiveManifest, open_version, open_named, open_active, opened, if_current, is_text,
  is_version, manifest_fits, header_fits, magic_fits,
}

header_fits-index :
    (f : PackFiles) (h : IndexHeader)
    → header_fits f h ≡ true
    → length f.index ≡ index_size h.maximum_id
unfolding header_fits
header_fits-index f h e = ground arith

accepted :
    (a b c d : Bool) (q p : AudioPack)
    → (if a && (b && (c && d)) then some q else none) ≡ some p
    → (q ≡ p) × (a ≡ true) × (c ≡ true)
accepted a b c d q p e = ground arith

-- A pack that is opened has the version asked for, which is of sixteen hexadecimal digits, and an index of
-- the size for its highest id, so that the index has a record for each id up to it.
pub open_version-index :
    (files : Text → Option PackFiles) (version : Text) {p : AudioPack}
    → open_version files version ≡ some p
    → (p.version ≡ version)
      × (is_version version ≡ true)
      × (length p.index ≡ index_size p.maximum_id)
unfolding open_version
open_version-index files version {p} e = elim (Option-cases (files version)) [
  | inl f ↦ absurd (Option.none-ne-some p (sym (rw (open_version, f) refl) ∙ e))
  | inr (found, f) ↦
      let h = unpack_header (slice 0 64 found.index) in
      let (q, v, c) =
        accepted (is_version version) (manifest_fits version found) (header_fits found h)
          (magic_fits found) (opened version found h) p (sym (rw (open_version, f) refl) ∙ e) in
      rw (← q) (refl, v, header_fits-index found h c)
]

if_current_lem :
    (size mtime : ℕ) (o : Option AudioPack) (p : AudioPack)
    → if_current size mtime o ≡ some p
    → (p.db_size ≡ size) × (p.db_mtime_ns ≡ mtime) × (o ≡ some p)
if_current_lem size mtime none p e = ground arith
if_current_lem size mtime (some q) p e = ground arith

open_named_lem :
    (files : Text → Option PackFiles) (version : Option Text) (p : AudioPack)
    → open_named files version ≡ some p
    → open_version files p.version ≡ some p
open_named_lem files none p e = ground arith
open_named_lem files (some version) p e =
    let (same, v, size) = open_version-index files version {p = p} e in
    ap (open_version files) same ∙ e

-- The active pack was opened as its version, and is of the database's size and modification time.
pub open_active-database :
    (files : Text → Option PackFiles) (active : Option ActiveManifest) (db_size db_mtime_ns : ℕ)
    → {p : AudioPack} → open_active files active db_size db_mtime_ns ≡ some p
    → (p.db_size ≡ db_size)
      × (p.db_mtime_ns ≡ db_mtime_ns)
      × (open_version files p.version ≡ some p)
unfolding open_active
open_active-database files none size mtime {p} e = ground arith
open_active-database files (some active) size mtime {p} e =
    elim (Bool-cases (is_text active.format (codes "local-audio-fast-pack-v1"))) [
      | inl f ↦
          let (s, m, o) =
            if_current_lem size mtime (open_named files active.version) p (rw f at e) in
          (s, m, open_named_lem files active.version p o)
      | inr f ↦ absurd (Option.none-ne-some p (rw f at e))
    ]

-- ===== src/Pack/Build/Stored/Sound.antt =====
-- What a build keeps: an index of the right size, regions inside the pack, and records that say where a
-- recording is.
use mathlib.Core.List.{append-nil}
use yomitan_audio_fast.Prelude.{
  take, ℕ, ◌+◌, ◌^◌, ◌≤◌, ◌<◌, ◌≡◌, ◌≢◌, ◌∙◌, sym, ap, List, [], ◌∷◌, ◌++◌, Option, none, some,
  length, take-append, All, All-imp, arith,
}
use yomitan_audio_fast.Prelude.Text.{text_eq_iff}
use yomitan_audio_fast.Bytes.{Bytes, slice}
use yomitan_audio_fast.Pack.{record_at}
use yomitan_audio_fast.Pack.Format.{IndexRecord}
use yomitan_audio_fast.Pack.Index.{index_size}
use yomitan_audio_fast.Pack.Build.Consume.{ReadResult, BuildState, find_region, valid_record}
use yomitan_audio_fast.Pack.Build.Stored.Records.{no_record, AreBelow}

-- a region for recordings of this length, inside the pack and behind its header
abbrev pub IsRegion : ℕ → ℕ → ℕ × ℕ → Type 0
IsRegion end size e = (e.1 ≡ size) × (64 ≤ e.0) × (e.0 + e.1 ≤ end)

abbrev pub content_size : Option Bytes → ℕ
content_size none = 0
content_size (some content) = length content

abbrev pub HasRecords : Bytes → List ℕ → IndexRecord → Type 0
HasRecords index ids r = All (λ id. record_at index id ≡ r) ids

-- what the rows of a group have: no recording, or a region of the pack that holds the recording
abbrev pub HasContent : BuildState → ReadResult → Option Bytes → Option Bytes → Type 0
HasContent s r (some content) (some digest) =
    (offset : ℕ) × HasRecords s.index r.group.row_ids
      (valid_record offset (length content) r.mime_id)
    × (slice offset (length content) s.pack ≡ content)
    × (64 ≤ offset)
    × (offset + length content ≤ length s.pack)
HasContent s r (some content) none = HasRecords s.index r.group.row_ids no_record
HasContent s r none digest = HasRecords s.index r.group.row_ids no_record

abbrev pub Holds : BuildState → ReadResult → Type 0
Holds s r = HasContent s r r.content r.digest

module _ (maximum_id : ℕ) where
  pub record IsSound (s : BuildState) : Type 0 where
    pub size : length s.index ≡ index_size maximum_id
    pub header : 64 ≤ length s.pack
    pub regions :
        (digest : Bytes) (size : ℕ) → All (IsRegion (length s.pack) size) (s.regions digest size)

  -- a result of a reader, for rows of the table
  pub record IsResult (r : ReadResult) : Type 0 where
    pub below : AreBelow maximum_id r.group.row_ids
    pub mime : r.mime_id < 256
    pub small : content_size r.content < 256 ^ 4

  -- what a `consume` of `r` with this content and digest at `s` comes to
  pub record Consumed (r : ReadResult) (content digest : Option Bytes) (s s' : BuildState)
      : Type 0 where
    pub sound : IsSound s'
    pub added : Bytes
    pub pack : s'.pack ≡ s.pack ++ added
    pub room : length added ≤ content_size content
    pub others :
        (other : ℕ)
        → All (λ id. id ≢ other) r.group.row_ids
        → record_at s'.index other ≡ record_at s.index other
    pub holds : HasContent s' r content digest

pub find_region_lem :
    (content pack : Bytes) (end : ℕ) (regions : List (ℕ × ℕ)) {offset : ℕ}
    → All (IsRegion end (length content)) regions
    → find_region content pack regions ≡ some offset
    → (slice offset (length content) pack ≡ content)
      × (64 ≤ offset)
      × (offset + length content ≤ end)
unfolding find_region
find_region_lem content pack end [] h e = ground arith
find_region_lem content pack end ((o, n) ∷ regions) {offset} h e = ground (
  arith,
  text_eq_iff (slice o n pack) content,
  find_region_lem content pack end regions {offset = offset} h.1,
)

pub grow-IsRegion :
    (end more size : ℕ) (regions : List (ℕ × ℕ))
    → All (IsRegion end size) regions
    → All (IsRegion (end + more) size) regions
grow-IsRegion end more size regions =
    All-imp (IsRegion end size) (IsRegion (end + more) size) regions (λ e h. omega arith)

pub slice_end : (xs ys : Bytes) → slice (length xs) (length ys) (xs ++ ys) ≡ ys
slice_end [] ys = ap (take (length ys)) (sym (append-nil ys)) ∙ take-append ys []
slice_end (x ∷ xs) ys = slice_end xs ys

-- ===== src/Pack/Build/Read/Results.antt =====
-- What `_read_group` gives to the build, and what a restart relies on.
use yomitan_audio_fast.Prelude.{
  ℕ, ◌*◌, ◌≤◌, ◌<◌, ◌≡◌, refl, [], Option, none, some, true, ◌==◌, ◌||◌, ltb, length, arith,
  Bool-cases, inl, inr, is_some,
}
use yomitan_audio_fast.Prelude.Text.{Text, text_eq}
use yomitan_audio_fast.Bytes.{Bytes}
use yomitan_audio_fast.Pack.Format.{mime_by_id, mime_id_by_suffix}
use yomitan_audio_fast.Pack.Groups.{AudioGroup}
use yomitan_audio_fast.Pack.Build.Stored.Records.{AreBelow}
use yomitan_audio_fast.Pack.Build.Restore.Resumed.{IsRead}
use yomitan_audio_fast.Pack.Build.Read.{
  FileStat, Files, Token, SourceRoots, source_state_token, rooted_file, resolved_file, found_file,
  with_slashes, has_dots, read_group, read_path, read_content, unread,
}

-- a type that the build may store: none, or a known one
abbrev pub IsMime : ℕ → Type 0
IsMime mime_id = (mime_id < 256) × (0 < mime_id → is_some (mime_by_id mime_id) ≡ true)

mime_id_by_suffix-IsMime : (suffix : Text) → IsMime (mime_id_by_suffix suffix)
unfolding mime_id_by_suffix mime_by_id
mime_id_by_suffix-IsMime suffix = (ground arith, λ h. ground (arith, h))

-- a token with a path has a type
abbrev HasMime : Token → Type 0
HasMime t = (is_some t.path ≡ true → 0 < t.mime_id) × IsMime t.mime_id

no_path-HasMime : HasMime (record { path = none; mime_id = 0; state = [] })
no_path-HasMime = ((λ e. ground (arith, e)), (omega arith, λ h. absurd (omega (arith, h))))

found_file-HasMime :
    (files : Files) (group : AudioGroup) (path : Text) (mime_id : ℕ) (stat : Option FileStat)
    → 0 < mime_id
    → IsMime mime_id
    → HasMime (found_file files group path mime_id stat)
found_file-HasMime files group path mime_id none full h = no_path-HasMime
found_file-HasMime files group path mime_id (some s) full h =
    elim (Bool-cases (files.is_file path)) [
      | inl e ↦ rw e ((λ p. full), h)
      | inr e ↦ rw e no_path-HasMime
    ]

resolved_file-HasMime :
    (files : Files) (group : AudioGroup) (root : Text) (path : Option Text)
    → HasMime (resolved_file files group root path)
resolved_file-HasMime files group root none = no_path-HasMime
resolved_file-HasMime files group root (some path) = elim (Bool-cases (files.is_inside root path)) [
  | inr e ↦ rw e no_path-HasMime
  | inl e ↦ rw e (elim (Bool-cases (mime_id_by_suffix (files.suffix path) == 0)) [
    | inl zero ↦ rw zero no_path-HasMime
    | inr full ↦ rw full (
        found_file-HasMime files group path (mime_id_by_suffix (files.suffix path))
          (files.stat path) (ground (arith, full)) (mime_id_by_suffix-IsMime (files.suffix path)))
  ])
]

rooted_file-HasMime :
    (files : Files) (group : AudioGroup) (root : Option Text)
    → HasMime (rooted_file files group root)
rooted_file-HasMime files group none = no_path-HasMime
rooted_file-HasMime files group (some root) =
    elim (Bool-cases (
      files.is_absolute (with_slashes group.filename)
      || has_dots (files.parts (with_slashes group.filename)))) [
        | inl e ↦ rw e no_path-HasMime
        | inr e ↦ rw e (
            resolved_file-HasMime files group root
              (files.resolve root (with_slashes group.filename)))
      ]

module _ (maximum_id : ℕ) (blake2b : Bytes → Bytes) (source_state : AudioGroup → Bytes)
    (group : AudioGroup) (below : AreBelow maximum_id group.row_ids)
    (some_row : 0 < length group.row_ids) where
  unread-IsRead : IsRead maximum_id blake2b source_state (unread group (source_state group))
  unread-IsRead = record {
    result = record { below = below; mime = omega arith; small = omega arith };
    some_row = some_row;
    token = refl;
    hashed = tt;
  }

  read_content-IsRead :
      (before after : Token) (content : Option Bytes)
      → before.state ≡ source_state group
      → 0 < before.mime_id
      → IsMime before.mime_id
      → IsRead maximum_id blake2b source_state (read_content blake2b group before after content)
  read_content-IsRead before after none e full mime = rw e unread-IsRead
  read_content-IsRead before after (some content) e full mime =
      elim (Bool-cases (length content == 0 || ltb (64 * 1024 * 1024) (length content))) [
        | inl bad ↦ rw (bad, e) unread-IsRead
        | inr fits ↦
            let some_byte : 0 < length content = ground (arith, fits) in
            let allowed : length content ≤ 64 * 1024 * 1024 = ground (arith, fits) in
            rw fits (elim (Bool-cases (text_eq after.state before.state)) [
              | inr torn ↦ rw (torn, e) unread-IsRead
              | inl same ↦ rw same (record {
                result = record { below = below; mime = mime.0; small = omega (arith, allowed) };
                some_row = some_row;
                token = e;
                hashed = (refl, some_byte, allowed, mime.1 full);
              })
            ])
      ]

  read_path-IsRead :
      (files : Files) (before after : Token) (path : Option Text)
      → before.state ≡ source_state group
      → (is_some path ≡ true → 0 < before.mime_id)
      → IsMime before.mime_id
      → IsRead maximum_id blake2b source_state (read_path blake2b files group before after path)
  read_path-IsRead files before after none e full mime = rw e unread-IsRead
  read_path-IsRead files before after (some path) e full mime =
      read_content-IsRead before after (files.read_bytes path) e (full refl) mime

-- What `_read_group` returns for a group with rows up to the highest id is what the build and a restart
-- rely on, whether or not the file changes while it is read: its state is that of the file before, and a
-- recording that it returns has between one byte and 64 MiB, a known type and the digest of its bytes.
pub read_group-IsRead :
    (maximum_id : ℕ) (blake2b : Bytes → Bytes) (files files_after : Files)
    (source_roots : SourceRoots) (group : AudioGroup)
    → AreBelow maximum_id group.row_ids
    → 0 < length group.row_ids
    → IsRead maximum_id blake2b
        (λ g. (source_state_token files source_roots g).state)
        (read_group blake2b files files_after source_roots group)
unfolding read_group source_state_token
read_group-IsRead maximum_id blake2b files files_after source_roots group below some_row =
    let t = rooted_file-HasMime files group (source_roots group.source) in
    read_path-IsRead maximum_id blake2b (λ g. (source_state_token files source_roots g).state) group
      below some_row files (source_state_token files source_roots group)
      (source_state_token files_after source_roots group)
      (source_state_token files source_roots group).path refl t.0 t.1

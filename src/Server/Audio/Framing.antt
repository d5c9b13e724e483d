-- ===== src/Server/Audio/Framing.antt =====
-- An audio response announces the length of its body, and HEAD answers as GET does, without the body.
use mathlib.Core.Option
use yomitan_audio_fast.Prelude.{
  ℕ, ◌+◌, ◌≤◌, ◌≡◌, ◌⊎◌, inl, inr, refl, sym, ap, [], Option, none, some, Bool, true, false, length,
  arith, Bool-cases, Option-cases,
}
use yomitan_audio_fast.Prelude.Text.{Text}
use yomitan_audio_fast.Bytes.{Bytes}
use yomitan_audio_fast.Bytes.Laws.{length-slice}
use yomitan_audio_fast.Encoding.Decimal.{int_of_text}
use yomitan_audio_fast.Pack
use yomitan_audio_fast.Pack.{AudioPack, PackedAudio}
use yomitan_audio_fast.Pack.View.{view-part}
use yomitan_audio_fast.Server.Range.{range}
use yomitan_audio_fast.Server.Range.Bounds.{range_of_header-IsPart}
use yomitan_audio_fast.Server.Response.{Response}
use yomitan_audio_fast.Server.Audio.{
  RequestHeaders, serve, packed_audio, serve_file, matches_etag, audio_response,
}

-- The announced length is that of the body; only a response 304 announces none, and it has no body.
abbrev pub IsFramed : Response → Type 0
IsFramed r =
    (r.content_length ≡ some (length r.body))
    ⊎ ((r.status ≡ 304) × (r.content_length ≡ none) × (r.body ≡ []))

abbrev pub without_body : Response → Response
without_body r = record r { body = [] }

range-within :
    (header : Option Text) (size : ℕ) (selected : ℕ × ℕ)
    → range header size ≡ some selected
    → selected.0 + selected.1 ≤ size
range-within none size selected e = (unfold range in ground arith)
range-within (some header) size selected e =
    (range_of_header-IsPart header size {part = selected} e).within

module _ (headers : RequestHeaders) (mime_type : Text) (size : ℕ) (etag : Text) (immutable : Bool)
    (cache_control : Option Text) (part : ℕ × ℕ → Bytes) where
  serve-IsFramed :
      ((selected : ℕ × ℕ) → selected.0 + selected.1 ≤ size → length (part selected) ≡ selected.1)
      → IsFramed (serve headers false mime_type size etag immutable cache_control part)
  unfolding serve audio_response
  serve-IsFramed whole = elim (Bool-cases (matches_etag headers etag)) [
    | inl e ↦ rw e (inr (refl, refl, refl))
    | inr e ↦ elim (Option-cases (range headers.range size)) [
      | inl f ↦ rw (e, f) (inl refl)
      | inr (selected, f) ↦
          rw (e, f)
            (inl (ap some (sym (whole selected (range-within headers.range size selected f)))))
    ]
  ]

  pub serve-without_body :
      serve headers true mime_type size etag immutable cache_control part
      ≡ without_body (serve headers false mime_type size etag immutable cache_control part)
  unfolding serve audio_response
  serve-without_body = elim (Bool-cases (matches_etag headers etag)) [
    | inl e ↦ rw e refl
    | inr e ↦ elim (Option-cases (range headers.range size)) [
      | inl f ↦ rw (e, f) refl
      | inr (selected, f) ↦ rw (e, f) refl
    ]
  ]

module _ (leased : Text → Option AudioPack) (headers : RequestHeaders)
    (version audio_id_text : Text) (cache_control : Option Text) where
  abbrev OnSome : (Response → Type 0) → Option Response → Type 0
  OnSome P none = Unit
  OnSome P (some r) = P r

  packed_audio-IsFramed_answer :
      OnSome IsFramed (packed_audio leased headers version audio_id_text false cache_control)
  unfolding packed_audio
  packed_audio-IsFramed_answer = elim (Option-cases (int_of_text audio_id_text)) [
    | inl f ↦ rw (packed_audio, f) tt
    | inr (audio_id, f) ↦ elim (Option-cases (leased version)) [
      | inl g ↦ rw (packed_audio, f, g) tt
      | inr (pack, g) ↦ elim (Option-cases (Pack.get pack audio_id)) [
        | inl k ↦ rw (packed_audio, f, g, k) tt
        | inr (audio, k) ↦
            rw (packed_audio, f, g, k)
              (serve-IsFramed headers audio.mime_type audio.length _ true cache_control _
                (λ selected inside.
                  (view-part pack audio_id audio selected.0 selected.1 k inside).0))
      ]
    ]
  ]

  -- Every answer to GET for a packed recording, whatever its headers, announces the length of its body, or
  -- is a response 304, which has none.
  pub packed_audio-IsFramed :
      {r : Response}
      → packed_audio leased headers version audio_id_text false cache_control ≡ some r
      → IsFramed r
  packed_audio-IsFramed {r} e = rw e at packed_audio-IsFramed_answer

  -- HEAD for a packed recording answers as GET does, without the body.
  pub packed_audio-without_body :
      packed_audio leased headers version audio_id_text true cache_control
      ≡ Option.map without_body
          (packed_audio leased headers version audio_id_text false cache_control)
  unfolding packed_audio
  packed_audio-without_body = elim (Option-cases (int_of_text audio_id_text)) [
    | inl f ↦ rw (packed_audio, f) refl
    | inr (audio_id, f) ↦ elim (Option-cases (leased version)) [
      | inl g ↦ rw (packed_audio, f, g) refl
      | inr (pack, g) ↦ elim (Option-cases (Pack.get pack audio_id)) [
        | inl k ↦ rw (packed_audio, f, g, k) refl
        | inr (audio, k) ↦
            rw (packed_audio, f, g, k)
              (ap some
                (serve-without_body headers audio.mime_type audio.length _ true cache_control _))
      ]
    ]
  ]

-- Every answer to GET for a file, whatever its headers, announces the length of its body, or is a response
-- 304, which has none.
pub serve_file-IsFramed :
    (headers : RequestHeaders) (mime_type : Text) (mtime_ns : ℕ) (bytes : Bytes)
    → (cache_control : Option Text)
    → IsFramed (serve_file headers false mime_type mtime_ns bytes cache_control)
unfolding serve_file
serve_file-IsFramed headers mime_type mtime_ns bytes cache_control =
    serve-IsFramed headers mime_type (length bytes) _ false cache_control _
      (λ selected inside. length-slice selected.0 selected.1 bytes inside)

-- ===== src/Server/Resource/Framed.antt =====
-- The answers with a recording, to GET and to HEAD.
use mathlib.Core.Option
use yomitan_audio_fast.Prelude.{
  ℕ, ◌≡◌, refl, Option, none, some, true, false, ◌||◌, length, Bool-cases, Option-cases, inl, inr,
}
use yomitan_audio_fast.Prelude.Text.{Text}
use yomitan_audio_fast.Bytes.{Bytes}
use yomitan_audio_fast.Dict
use yomitan_audio_fast.Encoding.Decimal.{decimal, int_of_text}
use yomitan_audio_fast.Store.Payload.{with_slashes}
use yomitan_audio_fast.Store.State.{StoreState}
use yomitan_audio_fast.Store.Paths.{packed_target_for_legacy_path}
use yomitan_audio_fast.Pack.{AudioPack}
use yomitan_audio_fast.Server.Response.{Response}
use yomitan_audio_fast.Server.Audio.{RequestHeaders, serve_file}
use yomitan_audio_fast.Server.Audio.Framing.{
  IsFramed, without_body, packed_audio-IsFramed, packed_audio-without_body, serve_file-IsFramed,
  serve-without_body,
}
use yomitan_audio_fast.Server.Path.{
  lstrip_slash, split_slashes, split_first, packed_parts, has_nul, has_parent,
}
use yomitan_audio_fast.Server.Resource.{
  Environment, Reply, served, passed, raised, reply_of, or_reply, or_hour, packed_reply,
  target_reply, find_file, file_reply, named_reply, legacy_audio, reply_to_parts, lent_reply,
  path_reply, split_reply, named_audio,
}

-- An answer to GET is as announced, and an answer to HEAD is that without its body.
pub data AnswersAlike : Reply → Reply → Type 0 where
  both_served :
      (get head : Response)
      → IsFramed get
      → head ≡ without_body get
      → AnswersAlike (served get) (served head)
  both_passed : AnswersAlike passed passed
  both_raised : AnswersAlike raised raised

reply_of-AnswersAlike :
    (get head : Option Response)
    → ((r : Response) → get ≡ some r → IsFramed r)
    → head ≡ Option.map without_body get
    → AnswersAlike (reply_of get) (reply_of head)
reply_of-AnswersAlike none head framed e = rw e both_passed
reply_of-AnswersAlike (some r) head framed e =
    rw e (both_served r (without_body r) (framed r refl) refl)

pub or_reply-AnswersAlike :
    {get head next next' : Reply}
    → AnswersAlike get head
    → AnswersAlike next next'
    → AnswersAlike (or_reply get next) (or_reply head next')
or_reply-AnswersAlike (both_served get head framed e) n = both_served get head framed e
or_reply-AnswersAlike both_passed n = n
or_reply-AnswersAlike both_raised n = both_raised

serve_file-without_body :
    (headers : RequestHeaders) (mime_type : Text) (mtime_ns : ℕ) (bytes : Bytes)
    (cache_control : Option Text)
    → serve_file headers true mime_type mtime_ns bytes cache_control
      ≡ without_body (serve_file headers false mime_type mtime_ns bytes cache_control)
unfolding serve_file
serve_file-without_body headers mime_type mtime_ns bytes cache_control =
    serve-without_body headers mime_type (length bytes) _ false cache_control _

module _ (env : Environment) (headers : RequestHeaders) (s : StoreState) where
  lent_reply-AnswersAlike :
      (version audio_id_text : Text) (cache_control : Option Text)
      (lent : Option (Option AudioPack))
      → AnswersAlike
          (lent_reply env headers false version audio_id_text cache_control lent)
          (lent_reply env headers true version audio_id_text cache_control lent)
  lent_reply-AnswersAlike version audio_id_text cache_control none = both_raised
  lent_reply-AnswersAlike version audio_id_text cache_control (some pack) =
      reply_of-AnswersAlike _ _
        (λ r g. packed_audio-IsFramed (λ asked. pack) headers version audio_id_text cache_control g)
        (packed_audio-without_body (λ asked. pack) headers version audio_id_text cache_control)

  packed_reply-AnswersAlike :
      (version audio_id_text : Text) (cache_control : Option Text)
      → AnswersAlike
          (packed_reply env headers false s version audio_id_text cache_control)
          (packed_reply env headers true s version audio_id_text cache_control)
  packed_reply-AnswersAlike version audio_id_text cache_control =
      elim (Option-cases (int_of_text audio_id_text)) [
        | inl e ↦ rw (packed_reply, e) both_passed
        | inr (audio_id, e) ↦
            rw (packed_reply, e)
              (elim (Bool-cases s.closed) [
                | inl f ↦ rw f both_raised
                | inr f ↦ rw f (
                    lent_reply-AnswersAlike version audio_id_text cache_control
                      (env.leased version))
              ])
      ]

  target_reply-AnswersAlike :
      (cache_control : Option Text) (target : Option (Option (Text × ℕ)))
      → AnswersAlike
          (target_reply env headers false s cache_control target)
          (target_reply env headers true s cache_control target)
  target_reply-AnswersAlike cache_control none = both_raised
  target_reply-AnswersAlike cache_control (some none) = both_passed
  target_reply-AnswersAlike cache_control (some (some (version, audio_id))) =
      packed_reply-AnswersAlike version (decimal audio_id) (or_hour cache_control)

  file_reply-AnswersAlike :
      (source_id filename : Text) (cache_control : Option Text)
      (found : Option (Text × (ℕ × Bytes)))
      → AnswersAlike
          (file_reply env headers false s source_id filename cache_control found)
          (file_reply env headers true s source_id filename cache_control found)
  file_reply-AnswersAlike source_id filename cache_control (some (mime_type, (mtime_ns, bytes))) =
      both_served _ _ (serve_file-IsFramed headers mime_type mtime_ns bytes cache_control)
        (serve_file-without_body headers mime_type mtime_ns bytes cache_control)
  file_reply-AnswersAlike source_id filename cache_control none =
      target_reply-AnswersAlike cache_control (packed_target_for_legacy_path s source_id filename)

  named_reply-AnswersAlike :
      (source_id filename : Text) (cache_control : Option Text)
      → AnswersAlike
          (named_reply env headers false s source_id filename cache_control)
          (named_reply env headers true s source_id filename cache_control)
  named_reply-AnswersAlike source_id filename cache_control = elim (Bool-cases (has_nul filename)) [
    | inl e ↦ rw e both_passed
    | inr e ↦
        rw e
          (elim (Bool-cases (
            env.is_absolute (with_slashes filename)
            || has_parent (env.parts (with_slashes filename)))) [
              | inl f ↦ rw f both_passed
              | inr f ↦ rw f (
                  file_reply-AnswersAlike source_id filename cache_control (
                    find_file env headers false (env.media_root source_id) (with_slashes filename)))
            ])
  ]

  legacy_audio-AnswersAlike :
      (source_id filename : Text) (cache_control : Option Text)
      → AnswersAlike
          (legacy_audio env headers false s source_id filename cache_control)
          (legacy_audio env headers true s source_id filename cache_control)
  unfolding legacy_audio
  legacy_audio-AnswersAlike source_id filename cache_control =
      elim (Option-cases (Dict.get (env.unquote source_id) s.site.sources)) [
        | inl e ↦ rw (legacy_audio, e) both_passed
        | inr (source, e) ↦
            rw (legacy_audio, e)
              (named_reply-AnswersAlike (env.unquote source_id) (env.unquote filename)
                cache_control)
      ]

  reply_to_parts-AnswersAlike :
      (cache_control : Option Text) (parts : Option (Text × Text))
      → AnswersAlike
          (reply_to_parts env headers false s cache_control parts)
          (reply_to_parts env headers true s cache_control parts)
  reply_to_parts-AnswersAlike cache_control none = both_passed
  reply_to_parts-AnswersAlike cache_control (some (source_id, filename)) =
      legacy_audio-AnswersAlike source_id filename cache_control

  path_reply-AnswersAlike :
      (path : Text) (cache_control : Option Text)
      → AnswersAlike
          (path_reply env headers false s path cache_control)
          (path_reply env headers true s path cache_control)
  unfolding path_reply
  path_reply-AnswersAlike path cache_control =
      elim (Option-cases (packed_parts (split_slashes path))) [
        | inl e ↦ rw (path_reply, e) (reply_to_parts-AnswersAlike cache_control (split_first path))
        | inr ((version, audio_id), e) ↦
            rw (path_reply, e) (packed_reply-AnswersAlike version audio_id cache_control)
      ]

  pub split_reply-AnswersAlike :
      (cache_control : Option Text) (split : Option (Text × Text))
      → AnswersAlike
          (split_reply env headers false s cache_control split)
          (split_reply env headers true s cache_control split)
  split_reply-AnswersAlike cache_control none = both_raised
  split_reply-AnswersAlike cache_control (some (path, query)) =
      path_reply-AnswersAlike (lstrip_slash path) cache_control

  pub named_audio-AnswersAlike :
      (path : Text)
      → AnswersAlike (named_audio env headers false s path) (named_audio env headers true s path)
  unfolding named_audio
  named_audio-AnswersAlike path =
      or_reply-AnswersAlike
        (elim (Option-cases (packed_parts (split_slashes (lstrip_slash path)))) [
          | inl e ↦ rw e both_passed
          | inr ((version, audio_id), e) ↦ rw e (packed_reply-AnswersAlike version audio_id none)
        ])
        (reply_to_parts-AnswersAlike none (split_first (lstrip_slash path)))

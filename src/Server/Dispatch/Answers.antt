-- ===== src/Server/Dispatch/Answers.antt =====
-- HEAD is answered as GET is, without the body.
use yomitan_audio_fast.Prelude.{◌≡◌}
use yomitan_audio_fast.Prelude.Text.{Text}
use yomitan_audio_fast.Bytes.{Bytes}
use yomitan_audio_fast.Dict
use yomitan_audio_fast.Store.State.{StoreState}
use yomitan_audio_fast.Server.Resource.{Reply}
use yomitan_audio_fast.Server.Resource.Framed.{AnswersAlike}

-- the answers to GET and to HEAD, and the store after them
abbrev pub BothAnswer : Reply × StoreState → Reply × StoreState → Type 0
BothAnswer get head = AnswersAlike get.0 head.0 × (head.1 ≡ get.1)

-- ===== src/Store/Model.antt =====
-- The calls of a `LookupStore` of anki-addon/fast_store.py, and the store without caches, epochs and rows in
-- memory, which holds the sources, the pack and the database and computes every answer anew.
use mathlib.Core.List.{Perm}
use yomitan_audio_fast.Prelude.{List, [], ◌∷◌, Option, none, some, Bool, true, if◌then◌else◌}
use yomitan_audio_fast.Prelude.Text.{Text}
use yomitan_audio_fast.Bytes.{Bytes}
use yomitan_audio_fast.Pack.{AudioPack}
use yomitan_audio_fast.Lookup.{Row, Database, LookupRequest, FirstAudioRequest}
use yomitan_audio_fast.Lookup.Query.{IsSound}
use yomitan_audio_fast.Lookup.Select.{select_rows}
use yomitan_audio_fast.Store.Payload.{Site, Sources, candidates_list}
use yomitan_audio_fast.Store.State.{StoreState, full, first}
use yomitan_audio_fast.Store.Lookups.{
  lookup, lookup_first, rows, selected_rows, candidates_payload, best_audio_url, best_url,
}
use yomitan_audio_fast.Store.Changes.{
  Outcome, done, store_is_closed, cleanup_marker_exists, reload_pack, publish_database,
  invalidate_database, replace_sources, close,
}
use yomitan_audio_fast.Store.Coherent.{answer, database_rows}

-- A call of an operation, with what it finds on disk.
pub data Call : Type 0 where
  call_lookup : LookupRequest → Call
  call_lookup_first : FirstAudioRequest → Call
  call_rows : Text → Option Text → Call
  call_selected_rows : LookupRequest → Call
  call_candidates : LookupRequest → Call
  call_best_url : LookupRequest → Call
  call_reload : Option AudioPack → Call
  call_publish : Bool → Database → Bool → Option AudioPack → Call
  call_invalidate : Bool → Database → Bool → Option AudioPack → Call
  call_replace : Sources → Call
  call_close : Call

-- What a call returns; `none` is the error of a closed store.
pub data Reply : Type 0 where
  payload : Option Bytes → Reply
  found : Option (List Row) → Reply
  selected : Option (List Row) → Reply
  url : Option (Option Text) → Reply
  outcome : Outcome → Reply

unfoldable pub step : Call → StoreState → Reply × StoreState
step (call_lookup r) s = let (a, s') = lookup s r in (payload a, s')
step (call_lookup_first r) s = let (a, s') = lookup_first s r in (payload a, s')
step (call_rows expression reading) s = let (a, s') = rows s expression reading in (found a, s')
step (call_selected_rows r) s = let (a, s') = selected_rows s r in (selected a, s')
step (call_candidates r) s = let (a, s') = candidates_payload s r in (payload a, s')
step (call_best_url r) s = let (a, s') = best_audio_url s r in (url a, s')
step (call_reload p) s = let (a, s') = reload_pack p s in (outcome a, s')
step (call_publish marked d fits p) s =
    let (a, s') = publish_database marked d fits p s in (outcome a, s')
step (call_invalidate marked d fits p) s =
    let (a, s') = invalidate_database marked d fits p s in (outcome a, s')
step (call_replace sources) s = let (a, s') = replace_sources sources s in (outcome a, s')
step call_close s = (outcome done, close s)

unfoldable pub replies : List Call → StoreState → List Reply
replies [] s = []
replies (c ∷ calls) s = let (reply, s') = step c s in reply ∷ replies calls s'

-- The store without caches.
pub record Model : Type 0 where
  pub site : Site
  pub database : Database
  pub closed : Bool

abbrev pub model : StoreState → Model
model s = record { site = s.site; database = s.database; closed = s.closed }

abbrev pub unless_closed {ℓ} : {A : Type ℓ} → Model → A → Option A
unless_closed m a = if m.closed then none else some a

abbrev pub model_selected : Model → LookupRequest → List Row
model_selected m r = select_rows (database_rows m.database r.expression r.reading) r

-- A change of a closed model is refused.
abbrev pub model_change : Model → Model → Reply × Model
model_change m m' = if m.closed then (outcome store_is_closed, m) else (outcome done, m')

abbrev pub model_activate : Bool → Database → Option AudioPack → Model → Reply × Model
model_activate marked d p m =
    if marked
    then (outcome cleanup_marker_exists, m)
    else model_change m (record m { database = d; site = record m.site { pack = p } })

abbrev pub model_step : Call → Model → Reply × Model
model_step (call_lookup r) m = (payload (unless_closed m (answer m.site m.database (full r))), m)
model_step (call_lookup_first r) m =
    (payload (unless_closed m (answer m.site m.database (first r))), m)
model_step (call_rows expression reading) m =
    (found (unless_closed m (database_rows m.database expression reading)), m)
model_step (call_selected_rows r) m = (selected (unless_closed m (model_selected m r)), m)
model_step (call_candidates r) m =
    (payload (unless_closed m (candidates_list m.site (model_selected m r))), m)
model_step (call_best_url r) m = (url (unless_closed m (best_url m.site (model_selected m r))), m)
model_step (call_reload p) m = model_change m (record m { site = record m.site { pack = p } })
model_step (call_publish marked d fits p) m = model_activate marked d p m
model_step (call_invalidate marked d fits p) m = model_activate marked d p m
model_step (call_replace sources) m =
    model_change m (record m { site = record m.site { sources = sources } })
model_step call_close m = (
  outcome done,
  if m.closed then m else record m { closed = true; site = record m.site { pack = none } },
)

unfoldable pub model_replies : List Call → Model → List Reply
model_replies [] m = []
model_replies (c ∷ calls) m = let (reply, m') = model_step c m in reply ∷ model_replies calls m'

-- `rows` promises no order; all other replies are the same.
pub data SameReply : Reply → Reply → Type 0 where
  same : (reply : Reply) → SameReply reply reply
  same_rows : (a b : List Row) → Perm a b → SameReply (found (some a)) (found (some b))

pub data SameReplies : List Reply → List Reply → Type 0 where
  no_replies : SameReplies [] []
  and_reply :
      {a b : Reply} {left right : List Reply}
      → SameReply a b
      → SameReplies left right
      → SameReplies (a ∷ left) (b ∷ right)

-- A database that a call brings is served as SQLite promises.
abbrev pub IsSoundCall : Call → Type 0
IsSoundCall (call_lookup r) = Unit
IsSoundCall (call_lookup_first r) = Unit
IsSoundCall (call_rows expression reading) = Unit
IsSoundCall (call_selected_rows r) = Unit
IsSoundCall (call_candidates r) = Unit
IsSoundCall (call_best_url r) = Unit
IsSoundCall (call_reload p) = Unit
IsSoundCall (call_publish marked d fits p) = IsSound d
IsSoundCall (call_invalidate marked d fits p) = IsSound d
IsSoundCall (call_replace sources) = Unit
IsSoundCall call_close = Unit

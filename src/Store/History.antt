-- ===== src/Store/History.antt =====
-- The operations of a `LookupStore` in any order: the store with its caches, epochs and rows in memory is
-- a refinement of one that holds the sources, the pack and the database and computes every answer anew.
use yomitan_audio_fast.Prelude.{All, List, [], ◌∷◌, none, Bool, false}
use yomitan_audio_fast.Prelude.Int.{ℤ}
use yomitan_audio_fast.Prelude.Text.{Text}
use yomitan_audio_fast.Cache
use yomitan_audio_fast.Lookup.{Database}
use yomitan_audio_fast.Lookup.Query.{IsSound}
use yomitan_audio_fast.Store.Payload.{Site}
use yomitan_audio_fast.Store.State.{StoreState, lookup_mode_of, init, init_site}
use yomitan_audio_fast.Store.Coherent.{IsCoherent}
use yomitan_audio_fast.Store.Model.{
  Call, step, replies, model, model_replies, SameReplies, no_replies, and_reply, IsSoundCall,
}
use yomitan_audio_fast.Store.Simulation.{step_lem, none-IsLoaded, loaded_rows-IsLoaded}

init-IsCoherent :
    (site : Site) (database : Database) (mode : Text) (fits : Bool) (response_size row_size : ℤ)
    → IsSound database
    → IsCoherent (init site database mode fits response_size row_size)
unfolding init Cache.init
init-IsCoherent site database mode fits response_size row_size sound = record {
  sound = sound;
  loaded =
      loaded_rows-IsLoaded (lookup_mode_of mode) fits database.table database.table none
        (none-IsLoaded (lookup_mode_of mode) database.table);
  rows = tt;
  responses = tt;
}

replies_lem :
    (calls : List Call) (s : StoreState)
    → All IsSoundCall calls
    → IsCoherent s
    → SameReplies (replies calls s) (model_replies calls (model s))
unfolding replies model_replies
replies_lem [] s sound h = no_replies
replies_lem (c ∷ calls) s sound h =
    let (reply, state, coherent) = step_lem c s sound.0 h in
    and_reply reply (rw (← state) (replies_lem calls (step c s).1 sound.1 coherent))

-- For databases that SQLite serves as it promises: the calls of the operations of a new `LookupStore`, in any
-- order and number, with any cache sizes and in either lookup mode, return what they return on the store
-- without caches, epochs and rows in memory, which computes each answer from the database, the pack and the
-- sources of the moment: no reply is stale. Only the rows that `rows` returns may be in another order.
pub replies-init :
    (site : Site) (database : Database) (mode : Text) (fits : Bool) (response_size row_size : ℤ)
    → IsSound database
    → (calls : List Call) → All IsSoundCall calls
    → SameReplies (replies calls (init site database mode fits response_size row_size)) (
        model_replies calls (record { site = init_site site; database = database; closed = false }))
unfolding init
replies-init site database mode fits response_size row_size sound calls all_sound =
    replies_lem calls (init site database mode fits response_size row_size) all_sound
      (init-IsCoherent site database mode fits response_size row_size sound)

-- ===== src/Store/Simulation.antt =====
-- Each operation of a `LookupStore` does what it does on the store without caches, and leaves right caches.
use mathlib.Core.List.{Perm}
use yomitan_audio_fast.Prelude.{
  Bool-cases, ◌≡◌, inl, inr, refl, ap, List, Option, none, some, Bool, true, false, if◌then◌else◌,
}
use yomitan_audio_fast.Dict.{Dict}
use yomitan_audio_fast.Pack.{AudioPack}
use yomitan_audio_fast.Lookup.{Row, Entry, Database}
use yomitan_audio_fast.Lookup.Query.{IsSound}
use yomitan_audio_fast.Store.Payload.{Site, candidates_list}
use yomitan_audio_fast.Store.State.{
  StoreState, full, first, LookupMode, sqlite, memory, loaded_rows, fallback_mode,
}
use yomitan_audio_fast.Store.Lookups.{
  leased, respond, rows_unleased, selected_rows_unleased, lookup, lookup_first, rows, selected_rows,
  candidates_payload, payload_of_selected, best_audio_url, best_url, url_of_selected,
}
use yomitan_audio_fast.Store.Changes.{
  Outcome, done, store_is_closed, cleanup_marker_exists, reload_pack, publish_database,
  invalidate_database, replace_sources, close, transition, reload_pack_unleased, activate_database,
}
use yomitan_audio_fast.Store.Coherent.{IsCoherent, IsLoaded}
use yomitan_audio_fast.Store.Answered.{Answered, respond_lem, rows_lem, selected_rows_lem}
use yomitan_audio_fast.Store.Model.{
  Call, Reply, step, Model, model, unless_closed, model_activate, model_step, call_lookup,
  call_lookup_first, call_rows, call_selected_rows, call_candidates, call_best_url, call_reload,
  call_publish, call_invalidate, call_replace, call_close, payload, found, selected, url, outcome,
  SameReply, same, same_rows, IsSoundCall,
}

-- One call of the store does what it does on the model, and leaves right caches.
abbrev Simulates : Call → StoreState → Reply × StoreState → Type 0
Simulates c s result =
    SameReply result.0 (model_step c (model s)).0
    × (model result.1 ≡ (model_step c (model s)).1)
    × IsCoherent result.1

gate_lem {ℓ} :
    {A : Type ℓ} (is_closed : Bool) (s : StoreState)
    → IsCoherent s
    → (right : A) (result : A × StoreState) → Answered s right result
    → let gated : Option A × StoreState =
        if is_closed then (none, s) else (some result.0, result.1) in
      (gated.0 ≡ (if is_closed then none else some right))
      × (model gated.1 ≡ model s)
      × IsCoherent gated.1
gate_lem true s h right result answered = (refl, refl, h)
gate_lem false s h right (a, s') (e, (c, d, state, coherent)) = rw (e, state) (refl, refl, coherent)

leased_lem {ℓ} :
    {A : Type ℓ} (s : StoreState)
    → IsCoherent s
    → (right : A) (result : A × StoreState) → Answered s right result
    → ((leased s result).0 ≡ unless_closed (model s) right)
      × (model (leased s result).1 ≡ model s)
      × IsCoherent (leased s result).1
leased_lem s h right result answered = gate_lem s.closed s h right result answered

change_lem :
    (is_closed : Bool) (s s' : StoreState) (m' : Model)
    → IsCoherent s
    → IsCoherent s'
    → model s' ≡ m'
    → let changed : Outcome × StoreState = if is_closed then (store_is_closed, s) else (done, s') in
      let right : Reply × Model =
        if is_closed then (outcome store_is_closed, model s) else (outcome done, m') in
      (outcome changed.0 ≡ right.0) × (model changed.1 ≡ right.1) × IsCoherent changed.1
change_lem true s s' m' h h' e = (refl, refl, h)
change_lem false s s' m' h h' e = (refl, e, h')

ap-Answered {ℓ} :
    {A : Type ℓ} (s : StoreState) (f : Site → List Row → A) {right : List Row}
    (result : List Row × StoreState)
    → Answered s right result
    → Answered s (f s.site right) (f result.1.site result.0, result.1)
ap-Answered s f result (e, (c, d, state, coherent)) = (rw (state, e) refl, (c, d, state, coherent))

pub loaded_rows-IsLoaded :
    (mode : LookupMode) (fits : Bool) (table t : List Entry) (before : Option (Dict (List Row)))
    → IsLoaded mode table before
    → IsLoaded (fallback_mode mode fits) t (loaded_rows mode fits t before)
loaded_rows-IsLoaded sqlite fits table t before e = e
loaded_rows-IsLoaded memory true table t before e = inr refl
loaded_rows-IsLoaded memory false table t before e = refl

pub none-IsLoaded : (mode : LookupMode) (table : List Entry) → IsLoaded mode table none
none-IsLoaded sqlite table = refl
none-IsLoaded memory table = inl refl

reload_pack-IsCoherent :
    (p : Option AudioPack) (s : StoreState) → IsCoherent s → IsCoherent (reload_pack_unleased p s)
reload_pack-IsCoherent p s h = record {
  sound = h.sound;
  loaded = h.loaded;
  rows = h.rows;
  responses = tt;
}

activate_database-IsCoherent :
    (d : Database) (fits : Bool) (p : Option AudioPack) (s : StoreState)
    → IsSound d
    → IsCoherent s
    → IsCoherent (activate_database d fits p s)
activate_database-IsCoherent d fits p s sound h = record {
  sound = sound;
  loaded = loaded_rows-IsLoaded s.lookup_mode fits s.database.table d.table s.memory_rows h.loaded;
  rows = tt;
  responses = tt;
}

activate_lem :
    (marked : Bool) (d : Database) (fits : Bool) (p : Option AudioPack) (s : StoreState)
    → IsSound d
    → IsCoherent s
    → let result : Outcome × StoreState =
        if marked
        then (cleanup_marker_exists, s)
        else transition s (activate_database d fits p s) in
      (outcome result.0 ≡ (model_activate marked d p (model s)).0)
      × (model result.1 ≡ (model_activate marked d p (model s)).1)
      × IsCoherent result.1
activate_lem true d fits p s sound h = (refl, refl, h)
activate_lem false d fits p s sound h =
    change_lem s.closed s (activate_database d fits p s) _ h
      (activate_database-IsCoherent d fits p s sound h) refl

close_lem :
    (is_closed : Bool) (s s' : StoreState) (m' : Model)
    → IsCoherent s
    → IsCoherent s'
    → model s' ≡ m'
    → (model (if is_closed then s else s') ≡ (if is_closed then model s else m'))
      × IsCoherent (if is_closed then s else s')
close_lem true s s' m' h h' e = (refl, h)
close_lem false s s' m' h h' e = (e, h')

same_of_eq : {a b : Reply} → a ≡ b → SameReply a b
same_of_eq e = rw e (same _)

found_lem :
    (m : Model) {a b : List Row} {reply : Option (List Row)}
    → reply ≡ unless_closed m a
    → Perm a b
    → SameReply (found reply) (found (unless_closed m b))
found_lem m {a} {b} e p = elim (Bool-cases m.closed) [
  | inl c ↦ rw (e, c) (same (found none))
  | inr c ↦ rw (e, c) (same_rows a b p)
]

pub step_lem : (c : Call) (s : StoreState) → IsSoundCall c → IsCoherent s → Simulates c s (step c s)
unfolding reload_pack publish_database invalidate_database replace_sources close step lookup
    lookup_first rows selected_rows candidates_payload best_audio_url
step_lem (call_lookup r) s sound h =
    let (e, m, i) = leased_lem s h _ (respond s (full r)) (respond_lem s h (full r)) in
    (same_of_eq (ap payload e), m, i)
step_lem (call_lookup_first r) s sound h =
    let (e, m, i) = leased_lem s h _ (respond s (first r)) (respond_lem s h (first r)) in
    (same_of_eq (ap payload e), m, i)
step_lem (call_rows expression reading) s sound h =
    let (p, answered) = rows_lem s h expression reading in
    let (e, m, i) = leased_lem s h _ (rows_unleased s expression reading) answered in
    (found_lem (model s) e p, m, i)
step_lem (call_selected_rows r) s sound h =
    let (e, m, i) = leased_lem s h _ (selected_rows_unleased s r) (selected_rows_lem s h r) in
    (same_of_eq (ap selected e), m, i)
step_lem (call_candidates r) s sound h =
    let (e, m, i) =
      leased_lem s h _ (payload_of_selected (selected_rows_unleased s r))
        (ap-Answered s candidates_list (selected_rows_unleased s r) (selected_rows_lem s h r)) in
    (same_of_eq (ap payload e), m, i)
step_lem (call_best_url r) s sound h =
    let (e, m, i) =
      leased_lem s h _ (url_of_selected (selected_rows_unleased s r))
        (ap-Answered s best_url (selected_rows_unleased s r) (selected_rows_lem s h r)) in
    (same_of_eq (ap url e), m, i)
step_lem (call_reload p) s sound h =
    let (e, m, i) =
      change_lem s.closed s (reload_pack_unleased p s) _ h (reload_pack-IsCoherent p s h) refl in
    (same_of_eq e, m, i)
step_lem (call_publish marked d fits p) s sound h =
    let (e, m, i) = activate_lem marked d fits p s sound h in (same_of_eq e, m, i)
step_lem (call_invalidate marked d fits p) s sound h =
    let (e, m, i) = activate_lem marked d fits p s sound h in (same_of_eq e, m, i)
step_lem (call_replace sources) s sound h =
    let (e, m, i) =
      change_lem s.closed s _ _ h
        (record { sound = h.sound; loaded = h.loaded; rows = h.rows; responses = tt }) refl in
    (same_of_eq e, m, i)
step_lem call_close s sound h =
    let (state, coherent) =
      close_lem s.closed s _ _ h
        (record {
          sound = h.sound;
          loaded = none-IsLoaded s.lookup_mode s.database.table;
          rows = tt;
          responses = tt;
        })
        refl in
    (same (outcome done), state, coherent)

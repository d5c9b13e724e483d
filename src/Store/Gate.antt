-- ===== src/Store/Gate.antt =====
-- The state gate of `LookupStore` (anki-addon/fast_store.py: `_leased_state`, `_begin_state_transition`,
-- `_end_state_transition`, and the gate in `_leased_pack_snapshot`), a step at a time. A thread that waits
-- is one whose step is not possible yet. `lookup_first` passes the gate a second time, in
-- `_leased_pack_snapshot`, while it holds the lease; the other lookups pass `state_already_leased=True`.
pub mod Exclusion
pub mod Deadlock
use yomitan_audio_fast.Prelude.{ℕ, suc, ◌+◌, Bool, true, false}

-- where the thread is that changes the state, if there is one
pub data Transition : Type 0 where
  idle : Transition
  draining : Transition
  exclusive : Transition

-- `_state_readers` is the sum of the readers that hold the lease: those that run, and those of
-- `lookup_first` that have yet to pass the gate for the pack.
pub record Gate : Type 0 where
  pub transition : Transition
  pub running : ℕ
  pub before_pack : ℕ
  pub closed : Bool

abbrev pub state_readers : Gate → ℕ
state_readers g = g.running + g.before_pack

abbrev pub open_gate : Gate
open_gate = record { transition = Transition.idle; running = 0; before_pack = 0; closed = false }

-- `_state_transition` is set from `_begin_state_transition` to `_end_state_transition`.
pub data Step : Gate → Gate → Type 0 where
  -- `_leased_state` of a lookup other than `lookup_first`
  enter :
      (running before_pack : ℕ)
      → Step
          (record {
            transition = Transition.idle;
            running = running;
            before_pack = before_pack;
            closed = false;
          })
          (record {
            transition = Transition.idle;
            running = suc running;
            before_pack = before_pack;
            closed = false;
          })
  -- `_leased_state` of `lookup_first`
  enter_first :
      (running before_pack : ℕ)
      → Step
          (record {
            transition = Transition.idle;
            running = running;
            before_pack = before_pack;
            closed = false;
          })
          (record {
            transition = Transition.idle;
            running = running;
            before_pack = suc before_pack;
            closed = false;
          })
  -- `_leased_pack_snapshot` of `lookup_first`, when no transition is set
  pass_pack :
      (running before_pack : ℕ)
      → Step
          (record {
            transition = Transition.idle;
            running = running;
            before_pack = suc before_pack;
            closed = false;
          })
          (record {
            transition = Transition.idle;
            running = suc running;
            before_pack = before_pack;
            closed = false;
          })
  -- the same on a closed store, which raises, and so gives the lease back
  refuse_pack :
      (transition : Transition) (running before_pack : ℕ)
      → Step
          (record {
            transition = transition;
            running = running;
            before_pack = suc before_pack;
            closed = true;
          })
          (record {
            transition = transition;
            running = running;
            before_pack = before_pack;
            closed = true;
          })
  -- the end of `_leased_state`
  leave :
      (transition : Transition) (running before_pack : ℕ) (closed : Bool)
      → Step
          (record {
            transition = transition;
            running = suc running;
            before_pack = before_pack;
            closed = closed;
          })
          (record {
            transition = transition;
            running = running;
            before_pack = before_pack;
            closed = closed;
          })
  -- `_begin_state_transition` sets the flag of an open store
  begin :
      (running before_pack : ℕ)
      → Step
          (record {
            transition = Transition.idle;
            running = running;
            before_pack = before_pack;
            closed = false;
          })
          (record {
            transition = Transition.draining;
            running = running;
            before_pack = before_pack;
            closed = false;
          })
  -- and returns when there is no reader
  drained :
      (closed : Bool)
      → Step
          (record {
            transition = Transition.draining;
            running = 0;
            before_pack = 0;
            closed = closed;
          })
          (record {
            transition = Transition.exclusive;
            running = 0;
            before_pack = 0;
            closed = closed;
          })
  -- `close` sets `_closed`
  mark_closed :
      (running before_pack : ℕ) (closed : Bool)
      → Step
          (record {
            transition = Transition.exclusive;
            running = running;
            before_pack = before_pack;
            closed = closed;
          })
          (record {
            transition = Transition.exclusive;
            running = running;
            before_pack = before_pack;
            closed = true;
          })
  -- `_end_state_transition`
  finish :
      (running before_pack : ℕ) (closed : Bool)
      → Step
          (record {
            transition = Transition.exclusive;
            running = running;
            before_pack = before_pack;
            closed = closed;
          })
          (record {
            transition = Transition.idle;
            running = running;
            before_pack = before_pack;
            closed = closed;
          })

pub data Steps : Gate → Gate → Type 0 where
  stop : (g : Gate) → Steps g g
  more : {g h k : Gate} → Step g h → Steps h k → Steps g k

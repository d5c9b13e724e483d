-- ===== src/Store/Gate/Deadlock.antt =====
-- A change that waits for the readers: it gets the store if no `lookup_first` is before the pack, and
-- never does if one is.
use yomitan_audio_fast.Prelude.{
  ℕ, ◌+◌, ◌<◌, ◌≡◌, ◌⊎◌, inl, inr, refl, sym, ap, ◌∙◌, suc, zero, Bool, false, arith,
}
use yomitan_audio_fast.Store.Gate.{
  Gate, Transition, Step, Steps, enter, enter_first, pass_pack, refuse_pack, leave, begin, drained,
  mark_closed, finish, stop, more,
}

abbrev pub waiting_change : ℕ → ℕ → Bool → Gate
waiting_change running before_pack closed = record {
  transition = Transition.draining;
  running = running;
  before_pack = before_pack;
  closed = closed;
}

abbrev pub alone : Bool → Gate
alone closed = record {
  transition = Transition.exclusive;
  running = 0;
  before_pack = 0;
  closed = closed;
}

drains_to : (running : ℕ) (closed : Bool) → Steps (waiting_change running 0 closed) (alone closed)
drains_to zero closed = more (drained closed) (stop (alone closed))
drains_to (suc n) closed = more (leave Transition.draining n 0 closed) (drains_to n closed)

-- What a step makes of a change that waits for that many readers, none of them before the pack.
abbrev pub Draining : ℕ → Bool → Gate → Type 0
Draining running closed h =
    (h ≡ alone closed) ⊎ ((n : ℕ) × (running ≡ n + 1) × (h ≡ waiting_change n 0 closed))

Step-drains :
    {g h : Gate} (running : ℕ) (closed : Bool)
    → Step g h
    → g ≡ waiting_change running 0 closed
    → Draining running closed h
Step-drains running closed (enter m n) e = absurd (ground (arith, ap Gate.transition e))
Step-drains running closed (enter_first m n) e = absurd (ground (arith, ap Gate.transition e))
Step-drains running closed (pass_pack m n) e = absurd (ground (arith, ap Gate.transition e))
Step-drains running closed (refuse_pack t m n) e = absurd (ground (arith, ap Gate.before_pack e))
Step-drains running closed (leave t m n c) e =
    inr (m, omega (arith, sym (ap Gate.running e)), ap (λ (g : Gate). record g { running = m }) e)
Step-drains running closed (begin m n) e = absurd (ground (arith, ap Gate.transition e))
Step-drains running closed (drained c) e = inl (ap (λ (g : Gate). alone g.closed) e)
Step-drains running closed (mark_closed m n c) e = absurd (ground (arith, ap Gate.transition e))
Step-drains running closed (finish m n c) e = absurd (ground (arith, ap Gate.transition e))

-- A change that waits for readers none of which is in `lookup_first` before the pack gets the store for
-- itself: it can, and each step that is possible either gives it the store or is a reader's that leaves.
pub waiting_change-drains :
    (running : ℕ) (closed : Bool)
    → Steps (waiting_change running 0 closed) (alone closed)
      × ((h : Gate) → Step (waiting_change running 0 closed) h → Draining running closed h)
waiting_change-drains running closed =
    (drains_to running closed, λ h s. Step-drains running closed s refl)

abbrev IsStuck : Gate → Type 0
IsStuck g = (g.transition ≡ Transition.draining) × (0 < g.before_pack) × (g.closed ≡ false)

Step-IsStuck : {g h : Gate} → Step g h → IsStuck g → IsStuck h × (h.before_pack ≡ g.before_pack)
Step-IsStuck (enter m n) (t, b, c) = ground arith
Step-IsStuck (enter_first m n) (t, b, c) = ground arith
Step-IsStuck (pass_pack m n) (t, b, c) = ground arith
Step-IsStuck (refuse_pack t' m n) (t, b, c) = ground arith
Step-IsStuck (leave t' m n c') (t, b, c) = ((t, b, c), refl)
Step-IsStuck (begin m n) (t, b, c) = ground arith
Step-IsStuck (drained c') (t, b, c) = ground arith
Step-IsStuck (mark_closed m n c') (t, b, c) = ground arith
Step-IsStuck (finish m n c') (t, b, c) = ground arith

Steps-IsStuck : {g h : Gate} → Steps g h → IsStuck g → IsStuck h × (h.before_pack ≡ g.before_pack)
Steps-IsStuck (stop g) x = (x, refl)
Steps-IsStuck (more s rest) x =
    let (y, e) = Step-IsStuck s x in let (z, f) = Steps-IsStuck rest y in (z, f ∙ e)

-- Once a change waits for the readers while a `lookup_first` has the state lease and not yet the pack,
-- both wait for each other for ever: after any steps the change still waits, the store is not closed, and
-- as many calls of `lookup_first` are still before the pack.
pub waiting_change-deadlock :
    (running before_pack : ℕ) (h : Gate)
    → 0 < before_pack
    → Steps (waiting_change running before_pack false) h
    → (h.transition ≡ Transition.draining) × (h.before_pack ≡ before_pack) × (h.closed ≡ false)
waiting_change-deadlock running before_pack h some_first steps =
    let ((t, b, c), e) = Steps-IsStuck steps (refl, some_first, refl) in (t, e, c)

-- ===== src/Store/Gate/Exclusion.antt =====
-- No reader holds the lease while a change runs.
use yomitan_audio_fast.Prelude.{◌≡◌, refl, arith}
use yomitan_audio_fast.Store.Gate.{
  Gate, Transition, Step, Steps, state_readers, open_gate, enter, enter_first, pass_pack,
  refuse_pack, leave, begin, drained, mark_closed, finish, stop, more,
}

abbrev pub IsExclusive : Gate → Type 0
IsExclusive g = g.transition ≡ Transition.exclusive → state_readers g ≡ 0

Step-IsExclusive : {g h : Gate} → Step g h → IsExclusive g → IsExclusive h
Step-IsExclusive (enter m n) x e = ground arith
Step-IsExclusive (enter_first m n) x e = ground arith
Step-IsExclusive (pass_pack m n) x e = ground arith
Step-IsExclusive (refuse_pack t m n) x e = omega (arith, x e)
Step-IsExclusive (leave t m n c) x e = omega (arith, x e)
Step-IsExclusive (begin m n) x e = ground arith
Step-IsExclusive (drained c) x e = refl
Step-IsExclusive (mark_closed m n c) x e = x e
Step-IsExclusive (finish m n c) x e = ground arith

Steps-IsExclusive_from : {g h : Gate} → Steps g h → IsExclusive g → IsExclusive h
Steps-IsExclusive_from (stop g) x = x
Steps-IsExclusive_from (more s rest) x = Steps-IsExclusive_from rest (Step-IsExclusive s x)

-- In every state of the gate that a new store reaches, if a change has the store for itself, no reader
-- holds a lease.
pub Steps-IsExclusive :
    {g : Gate} → Steps open_gate g → g.transition ≡ Transition.exclusive → state_readers g ≡ 0
Steps-IsExclusive steps = Steps-IsExclusive_from steps (λ e. refl)

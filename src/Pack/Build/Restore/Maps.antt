-- ===== src/Pack/Build/Restore/Maps.antt =====
-- The maps of `_restore_partial_build`: what a turn of its loop adds to them, and keeps.
use mathlib.Core.Path.{subst}
use yomitan_audio_fast.Prelude.{
  ◌⊎◌, if◌then◌else◌, ℕ, ◌≡◌, ◌≢◌, ◌∙◌, refl, sym, ap, List, [], ◌∷◌, Option, none, some, Bool,
  true, false, All, arith, inl, inr, ℕ_discrete,
}
use yomitan_audio_fast.Prelude.Text.{text_eq}
use yomitan_audio_fast.Bytes.{Bytes, slice}
use yomitan_audio_fast.Pack.Format.{IndexRecord}
use yomitan_audio_fast.Pack.Build.Consume.{find_region}
use yomitan_audio_fast.Pack.Build.Stored.Sound.{HasRecords}
use yomitan_audio_fast.Pack.Build.Restore.State.{same_record, all_same, set_length, add_offset}

pub same_record_refl : (r : IndexRecord) → same_record r r ≡ true
unfolding same_record
same_record_refl r = ground arith

pub all_same-HasRecords :
    (index : Bytes) (r : IndexRecord) (ids : List ℕ)
    → HasRecords index ids r
    → all_same index r ids ≡ true
unfolding all_same
all_same-HasRecords index r [] h = refl
all_same-HasRecords index r (id ∷ ids) h =
    rw (h.0, same_record_refl r) (all_same-HasRecords index r ids h.1)

pub set_length_keep :
    (offset size : ℕ) (lengths : ℕ → Option ℕ) (o k : ℕ)
    → lengths o ≡ some k
    → set_length offset size lengths o ≡ some k
unfolding set_length
set_length_keep offset size lengths o k h = elim (ℕ_discrete o offset) [
  | yes e ↦ ground (arith, e, (sym (ap lengths e) ∙ h))
  | no n ↦ ground (arith, n, h)
]

pub set_length_ne :
    (offset size : ℕ) (lengths : ℕ → Option ℕ) (o : ℕ)
    → o ≢ offset
    → set_length offset size lengths o ≡ lengths o
unfolding set_length
set_length_ne offset size lengths o n = ground (arith, n)

pub set_length_new :
    (offset size : ℕ) (lengths : ℕ → Option ℕ)
    → lengths offset ≡ none
    → set_length offset size lengths offset ≡ some size
unfolding set_length
set_length_new offset size lengths h = ground (arith, h)

pub add_offset_keep :
    (offset : ℕ) (seen : ℕ → Bool) (o : ℕ) → seen o ≡ true → add_offset offset seen o ≡ true
unfolding add_offset
add_offset_keep offset seen o h = ground arith

pub add_offset_ne :
    (offset : ℕ) (seen : ℕ → Bool) (o : ℕ)
    → o ≢ offset
    → seen o ≡ false
    → add_offset offset seen o ≡ false
unfolding add_offset
add_offset_ne offset seen o n h = ground (arith, n)

pub add_offset_self : (offset : ℕ) (seen : ℕ → Bool) → add_offset offset seen offset ≡ true
unfolding add_offset
add_offset_self offset seen = ground arith

pub found_or :
    {A : Type 0} (b : Bool) (x y : A) (rest : Option A)
    → (if b then some x else rest) ≡ some y
    → ((b ≡ true) × (x ≡ y)) ⊎ (rest ≡ some y)
found_or true x y rest e = inl (refl, cc)
found_or false x y rest e = inr e

-- what holds of every region holds of the one that is found
pub find_region-All :
    (Q : ℕ → Type 0) (content pack : Bytes) (regions : List (ℕ × ℕ)) (offset : ℕ)
    → All (λ e. Q e.0) regions
    → find_region content pack regions ≡ some offset
    → Q offset
unfolding find_region
find_region-All Q content pack [] offset h e = ground arith
find_region-All Q content pack ((o, n) ∷ regions) offset h e =
    elim (found_or (text_eq (slice o n pack) content) o offset (find_region content pack regions)
      e) [
        | inl same ↦ subst Q same.1 h.0
        | inr later ↦ find_region-All Q content pack regions offset h.1 later
      ]

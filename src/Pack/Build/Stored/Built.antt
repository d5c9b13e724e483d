-- ===== src/Pack/Build/Stored/Built.antt =====
-- The loop over the results: what each result wrote is still there at the end.
use mathlib.Core.List.{append-nil, append_assoc}
use yomitan_audio_fast.Prelude.{
  sym, ℕ, ◌+◌, ◌^◌, ◌<◌, ◌≡◌, ◌≢◌, ◌∙◌, refl, List, [], ◌∷◌, ◌++◌, Option, none, some, length,
  length-append, All, All-imp, arith,
}
use yomitan_audio_fast.Bytes.{Bytes, zeros}
use yomitan_audio_fast.Bytes.Laws.{slice-append, length-zeros}
use yomitan_audio_fast.Pack.{record_at}
use yomitan_audio_fast.Pack.Format.{IndexRecord}
use yomitan_audio_fast.Pack.Index.{index_size}
use yomitan_audio_fast.Pack.Build.Consume.{ReadResult, BuildState, new_build, consume, consume_all}
use yomitan_audio_fast.Pack.Build.Stored.Sound.{
  content_size, HasRecords, HasContent, Holds, IsSound, IsResult,
}
use yomitan_audio_fast.Pack.Build.Stored.Kept.{consume-Consumed}

abbrev pub total_size : List ReadResult → ℕ
total_size [] = 0
total_size (r ∷ results) = content_size r.content + total_size results

-- no row of the list is a row of the group
abbrev pub AreApart : List ℕ → ReadResult → Type 0
AreApart ids r = All (λ other. All (λ id. id ≢ other) r.group.row_ids) ids

-- no two groups have a row in common
abbrev pub HasDistinctRows : List ReadResult → Type 0
HasDistinctRows [] = Unit
HasDistinctRows (r ∷ results) = All (AreApart r.group.row_ids) results × HasDistinctRows results

All_refl : {A : Type 0} (f : ℕ → A) (ids : List ℕ) → All (λ id. f id ≡ f id) ids
All_refl f [] = tt
All_refl f (id ∷ ids) = (refl, All_refl f ids)

pub All_trans :
    {A : Type 0} (f g h : ℕ → A) (ids : List ℕ)
    → All (λ id. g id ≡ f id) ids
    → All (λ id. h id ≡ g id) ids
    → All (λ id. h id ≡ f id) ids
All_trans f g h [] p q = tt
All_trans f g h (id ∷ ids) p q = (q.0 ∙ p.0, All_trans f g h ids p.1 q.1)

pub keep_records :
    (index index' : Bytes) (ids : List ℕ) (r : IndexRecord)
    → All (λ id. record_at index' id ≡ record_at index id) ids
    → HasRecords index ids r
    → HasRecords index' ids r
keep_records index index' [] r same h = tt
keep_records index index' (id ∷ ids) r same h =
    (same.0 ∙ h.0, keep_records index index' ids r same.1 h.1)

-- the pack has only grown, and the rows of the group have the records that they had
pub record Keeps (r : ReadResult) (s s' : BuildState) : Type 0 where
  pub added : Bytes
  pub pack : s'.pack ≡ s.pack ++ added
  pub same : All (λ id. record_at s'.index id ≡ record_at s.index id) r.group.row_ids

trans_Keeps : (r : ReadResult) (s t u : BuildState) → Keeps r s t → Keeps r t u → Keeps r s u
trans_Keeps r s t u k l = record {
  added = k.added ++ l.added;
  pack = rw (l.pack, k.pack) (append_assoc s.pack k.added l.added);
  same =
      All_trans (record_at s.index) (record_at t.index) (record_at u.index) r.group.row_ids k.same
        l.same;
}

keep_content :
    (s s' : BuildState) (r : ReadResult) (content digest : Option Bytes)
    → Keeps r s s'
    → HasContent s r content digest
    → HasContent s' r content digest
keep_content s s' r none digest k h = keep_records s.index s'.index r.group.row_ids _ k.same h
keep_content s s' r (some content) none k h =
    keep_records s.index s'.index r.group.row_ids _ k.same h
keep_content s s' r (some content) (some digest) k (offset, records, held, after, inside) = (
  offset,
  keep_records s.index s'.index r.group.row_ids _ k.same records,
  rw k.pack (slice-append offset (length content) s.pack k.added inside ∙ held),
  after,
  rw k.pack (omega (arith, length-append s.pack k.added)),
)

module _ (maximum_id : ℕ) where
  consume-Keeps :
      (q r : ReadResult) (s : BuildState)
      → IsResult maximum_id q
      → IsSound maximum_id s
      → length s.pack + content_size q.content < 256 ^ 8
      → AreApart r.group.row_ids q
      → Keeps r s (consume q s)
  consume-Keeps q r s fine h room apart =
      let c = consume-Consumed maximum_id q fine s h room in
      record {
        added = c.added;
        pack = c.pack;
        same =
            All-imp (λ other. All (λ id. id ≢ other) q.group.row_ids)
              (λ id. record_at (consume q s).index id ≡ record_at s.index id) r.group.row_ids
              (λ other a. c.others other a) apart;
      }

  pub consume-room :
      (q : ReadResult) (s : BuildState) (rest : ℕ)
      → IsResult maximum_id q
      → IsSound maximum_id s
      → length s.pack + (content_size q.content + rest) < 256 ^ 8
      → length (consume q s).pack + rest < 256 ^ 8
  consume-room q s rest fine h room =
      let c = consume-Consumed maximum_id q fine s h (omega arith) in
      rw c.pack (omega (arith, length-append s.pack c.added, c.room))

  pub consume_all-Keeps :
      (results : List ReadResult) (r : ReadResult) (s : BuildState)
      → All (IsResult maximum_id) results
      → IsSound maximum_id s
      → length s.pack + total_size results < 256 ^ 8
      → All (AreApart r.group.row_ids) results
      → Keeps r s (consume_all results s)
  unfolding consume_all
  consume_all-Keeps [] r s fine h room apart = record {
    added = [];
    pack = sym (append-nil s.pack);
    same = All_refl (record_at s.index) r.group.row_ids;
  }
  consume_all-Keeps (q ∷ results) r s fine h room apart =
      trans_Keeps r s (consume q s) (consume_all results (consume q s))
        (consume-Keeps q r s fine.0 h (omega arith) apart.0)
        (consume_all-Keeps results r (consume q s) fine.1
          (consume-Consumed maximum_id q fine.0 s h (omega arith)).sound
          (consume-room q s (total_size results) fine.0 h room) apart.1)

  pub consume_all-IsSound :
      (results : List ReadResult) (s : BuildState)
      → All (IsResult maximum_id) results
      → IsSound maximum_id s
      → length s.pack + total_size results < 256 ^ 8
      → IsSound maximum_id (consume_all results s)
  unfolding consume_all
  consume_all-IsSound [] s fine h room = h
  consume_all-IsSound (q ∷ results) s fine h room =
      consume_all-IsSound results (consume q s) fine.1
        (consume-Consumed maximum_id q fine.0 s h (omega arith)).sound
        (consume-room q s (total_size results) fine.0 h room)

  consume_all-All_Holds :
      (results : List ReadResult) (s : BuildState)
      → All (IsResult maximum_id) results
      → HasDistinctRows results
      → IsSound maximum_id s
      → length s.pack + total_size results < 256 ^ 8
      → All (Holds (consume_all results s)) results
  unfolding consume_all
  consume_all-All_Holds [] s fine distinct h room = tt
  consume_all-All_Holds (q ∷ results) s fine distinct h room =
      let c = consume-Consumed maximum_id q fine.0 s h (omega arith) in
      let more = consume-room q s (total_size results) fine.0 h room in
      (
        keep_content (consume q s) (consume_all results (consume q s)) q q.content q.digest
            (consume_all-Keeps results q (consume q s) fine.1 c.sound more distinct.0) c.holds,
        consume_all-All_Holds results (consume q s) fine.1 distinct.1 c.sound more,
      )

  pub new_build-IsSound :
      (db_size db_mtime_ns : ℕ) → IsSound maximum_id (new_build db_size db_mtime_ns maximum_id)
  unfolding new_build zeros
  new_build-IsSound db_size db_mtime_ns = record {
    size = length-zeros (index_size maximum_id);
    header = omega arith;
    regions = λ digest size. tt;
  }

  pub length-new_build :
      (db_size db_mtime_ns : ℕ) → length (new_build db_size db_mtime_ns maximum_id).pack ≡ 64
  unfolding new_build zeros
  length-new_build db_size db_mtime_ns = refl

  -- After a new build has consumed the results of groups with distinct rows below the highest id, every
  -- row of a group whose recording could be read has a valid record with the type of the recording,
  -- whose region lies behind the pack's header and inside the pack and holds exactly the recording,
  -- shared or not; every row of the other groups has the empty record.
  pub new_build-Holds :
      (db_size db_mtime_ns : ℕ) (results : List ReadResult)
      → All (IsResult maximum_id) results
      → HasDistinctRows results
      → 64 + total_size results < 256 ^ 8
      → All (Holds (consume_all results (new_build db_size db_mtime_ns maximum_id))) results
  new_build-Holds db_size db_mtime_ns results fine distinct room =
      consume_all-All_Holds results (new_build db_size db_mtime_ns maximum_id) fine distinct
        (new_build-IsSound db_size db_mtime_ns) (rw (length-new_build db_size db_mtime_ns) room)

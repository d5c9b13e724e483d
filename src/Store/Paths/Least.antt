-- ===== src/Store/Paths/Least.antt =====
-- The row that stands for a path which a client kept: the first one, by id, that had this file.
use mathlib.Core.List.{Mem, mem-cons, mem-cons_self, mem-cons_of_mem, not-mem-nil}
use mathlib.Core.List.Perm
use mathlib.Core.Logic.Or
use mathlib.Core.Bool.{true≢false}
use yomitan_audio_fast.Prelude.{
  ℕ, ◌≡◌, ◌≤◌, ◌∙◌, refl, sym, ◌↔◌, All-imp, Bool, true, false, List, [], ◌∷◌, Option, none, some,
  ◌&&◌, if◌then◌else◌, map, arith, All, Bool-cases, inl, inr,
}
use native.Mathlib.Bridge.{le_prop}
use yomitan_audio_fast.Prelude.Order.{nat_ord}
use yomitan_audio_fast.Prelude.Text.{Text, text_eq, text_eq_iff}
use yomitan_audio_fast.Sort.{before}
use yomitan_audio_fast.Sort.Ordered.{IsSorted, sort_by-IsSorted, sort_by-perm}
use yomitan_audio_fast.Lookup.{Row, Entry}
use yomitan_audio_fast.Store.Payload.{with_slashes}
use yomitan_audio_fast.Store.Paths.{LegacyPaths, add_path, add_paths, rows_by_id, legacy_path_rows}

-- a row of the source, whose file has the path
pub record HasPath (source path : Text) (row : Row) : Type 0 where
  pub same_source : row.source ≡ source
  pub same_path : with_slashes row.file ≡ path

-- the least id of the rows that have the path, or none
abbrev pub IsLeast : Text → Text → List Row → Option ℕ → Type 0
IsLeast source path rows none = (row : Row) → Mem row rows → ¬ HasPath source path row
IsLeast source path rows (some id) =
    ((row : Row) × Mem row rows × HasPath source path row × (row.id ≡ id))
    × ((row : Row) → Mem row rows → HasPath source path row → id ≤ row.id)

module _ (source path : Text) where
  abbrev is_path : Row → Bool
  is_path row = text_eq source row.source && text_eq path (with_slashes row.file)

  is_path_sound : (row : Row) → is_path row ≡ true → HasPath source path row
  is_path_sound row h = record {
    same_source = ground (arith, text_eq_iff source row.source);
    same_path = ground (arith, text_eq_iff path (with_slashes row.file));
  }

  is_path_complete : (row : Row) → HasPath source path row → is_path row ≡ true
  is_path_complete row h = ground (
    arith,
    text_eq_iff source row.source,
    text_eq_iff path (with_slashes row.file),
    h.same_source,
    h.same_path,
  )

  -- the id of the first row that has the path
  first_id : List Row → Option ℕ
  first_id [] = none
  first_id (row ∷ rows) = if is_path row then some row.id else first_id rows

  abbrev earlier_or : Option ℕ → Option ℕ → Option ℕ
  earlier_or none later = later
  earlier_or (some id) later = some id

  add_paths-first_id :
      (rows : List Row) (paths : LegacyPaths)
      → add_paths rows paths source path ≡ earlier_or (paths source path) (first_id rows)
  unfolding add_paths add_path first_id
  add_paths-first_id [] paths = ground arith
  add_paths-first_id (row ∷ rows) paths =
      add_paths-first_id rows (add_path row paths) ∙ ground arith

  All-mem :
      (P : Row → Type 0) (rows : List Row)
      → ((r : Row) → IsProp (P r))
      → All P rows
      → (row : Row) → Mem row rows
      → P row
  All-mem P [] is_prop h row m = absurd (not-mem-nil m)
  All-mem P (r ∷ rows) is_prop h row m =
      Or.elim (is_prop row) (mem-cons.0 m) (λ e. rw e (h.0)) (λ n. All-mem P rows is_prop h.1 row n)

  -- no row of a sorted list comes before its first
  first_least :
      (r : Row) (rows : List Row)
      → All (λ later. before ⦃o = nat_ord⦄ (λ (row : Row). row.id) later r ≡ false) rows
      → (row : Row) → Mem row (r ∷ rows)
      → r.id ≤ row.id
  first_least r rows sorted row m =
      Or.elim (le_prop) (mem-cons.0 m) (λ e. rw e (omega arith))
        (λ n.
          All-mem (λ later. r.id ≤ later.id) rows (λ later. le_prop)
            (All-imp (λ later. before ⦃o = nat_ord⦄ (λ (x : Row). x.id) later r ≡ false)
              (λ later. r.id ≤ later.id) rows (λ later h. ground arith) sorted)
            row n)

  not_path : (r row : Row) → is_path r ≡ false → row ≡ r → ¬ HasPath source path row
  not_path r row e same p = true≢false (sym (is_path_complete r (rw same at p)) ∙ e)

  later-IsLeast :
      (r : Row) (rows : List Row) (found : Option ℕ)
      → is_path r ≡ false
      → IsLeast source path rows found
      → IsLeast source path (r ∷ rows) found
  later-IsLeast r rows none e h =
      λ row m p. Or.elim (hlevel) (mem-cons.0 m) (λ q. not_path r row e q p) (λ n. h row n p)
  later-IsLeast r rows (some id) e ((row, m, p, same_id), least) = (
    (row, mem-cons_of_mem r m, p, same_id),
    λ other n q.
        Or.elim le_prop (mem-cons.0 n) (λ f. absurd (not_path r other e f q))
          (λ k. least other k q),
  )

  first_id-IsLeast :
      (rows : List Row)
      → IsSorted (λ (row : Row). row.id) rows
      → IsLeast source path rows (first_id rows)
  unfolding first_id
  first_id-IsLeast [] sorted = λ row m. absurd (not-mem-nil m)
  first_id-IsLeast (r ∷ rows) sorted = elim (Bool-cases (is_path r)) [
    | inl e ↦
        rw (first_id, e)
          (
            (r, mem-cons_self, is_path_sound r e, refl),
            λ row m p. first_least r rows sorted.0 row m,
          )
    | inr e ↦
        rw (first_id, e) (later-IsLeast r rows (first_id rows) e (first_id-IsLeast rows sorted.1))
  ]

  same_rows-IsLeast :
      (rows rows' : List Row) (found : Option ℕ)
      → ((row : Row) → Mem row rows ↔ Mem row rows')
      → IsLeast source path rows found
      → IsLeast source path rows' found
  same_rows-IsLeast rows rows' none same h = λ row m. h row ((same row).1 m)
  same_rows-IsLeast rows rows' (some id) same ((row, m, p, same_id), least) =
      ((row, (same row).0 m, p, same_id), λ other n. least other ((same other).1 n))

-- What the dictionary of paths holds for a source and a path: the least id of the entries of that source
-- whose file has that path, with each backslash read as a slash, and nothing exactly if there is no such
-- entry, in whatever order the table is.
pub legacy_path_rows-IsLeast :
    (table : List Entry) (source path : Text)
    → IsLeast source path (map Entry.row table) (legacy_path_rows table source path)
unfolding legacy_path_rows rows_by_id
legacy_path_rows-IsLeast table source path =
    rw (add_paths-first_id source path (rows_by_id table) (λ s p. none)) (
      same_rows-IsLeast source path (rows_by_id table) (map Entry.row table)
        (first_id source path (rows_by_id table))
        (λ row. Perm.mem_iff (sort_by-perm (λ (x : Row). x.id) (map Entry.row table)))
        (first_id-IsLeast source path (rows_by_id table)
          (sort_by-IsSorted (λ (x : Row). x.id) (map Entry.row table))))

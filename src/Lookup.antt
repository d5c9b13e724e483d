-- ===== src/Lookup.antt =====
-- Lookup of audio rows: anki-addon/fast_store.py (requests, queries, `_select_rows`,
-- `_first_row_unleased`) and `execute_query` of anki-addon/db_utils.py.
pub mod Rank
pub mod Query
pub mod Select
pub mod First
pub mod Legacy
use yomitan_audio_fast.Prelude.{ℕ, List, Option}
use yomitan_audio_fast.Prelude.Text.{Text}

-- What a query returns for an entry; `id` is the table's primary key.
pub record Row : Type 0 where
  pub id : ℕ
  pub reading : Option Text
  pub source : Text
  pub speaker : Option Text
  pub display : Option Text
  pub file : Text

pub record Entry : Type 0 where
  pub expression : Text
  pub row : Row

-- A database as a store sees it. A SELECT with no ORDER BY returns rows in an order that SQLite chooses:
-- `table` is what the scan of all entries returns, and `arrange` the order in which the query for an
-- expression and a reading returns the rows that meet it, which an index may decide.
pub record Database : Type 0 where
  pub table : List Entry
  pub arrange : Text → Option Text → List Row → List Row

pub record LookupRequest : Type 0 where
  pub expression : Text
  pub reading : Option Text
  pub sources : List Text
  pub users : List Text

pub record FirstAudioRequest : Type 0 where
  pub expression : Text
  pub reading : Option Text

pub Row-set : IsSet (List Row)
Row-set = hlevel

-- ===== src/Storage/Repository/Ranking.antt =====
-- storage/requirements_repository.py: the effective MVR of an SVC and the superseded ones, by
-- `ROW_NUMBER() OVER (… ORDER BY datetime(m.date) DESC NULLS LAST)`. SQLite promises no order among
-- rows of equal rank, so the order in which it meets them is a parameter.
use mathlib.Core.Option
use mathlib.Core.List.{head?, tail, Perm}
use reqstool_client.Prelude.{
  none, ltb, not, true, some, ◌||◌, ◌&&◌, [], ◌+◌, ◌==◌, contains, map, false, ◌++◌, if◌then◌else◌,
  length, ℕ, Bool, ◌∷◌, Option, List,
}
use reqstool_client.Storage.Repository.Entities.{row_to_mvr_data}
use reqstool_client.Storage.Database.{mvr_key, Link, Database, MvrRow}
use reqstool_client.Models.UrnId.{UrnId, urn_id_eq}
use reqstool_client.Models.Entities.{MvrData, Datetime, to_second}
use reqstool_client.Storage.Table.{has}

-- One row of the join for each link of the MVR to the SVC
abbrev pub join_links : MvrRow → UrnId → List Link → List MvrRow
join_links m svc [] = []
join_links m svc (l ∷ links) =
    let rest = join_links m svc links in
    if l.owner == m.key && l.target == svc then m ∷ rest else rest

-- `FROM mvrs m JOIN mvr_svc_links l ON … WHERE l.svc_urn = ? AND l.svc_id = ?`
unfoldable pub candidates : List MvrRow → List Link → UrnId → List MvrRow
unfolding urn_id_eq
candidates [] links svc = []
candidates (m ∷ mvrs) links svc = join_links m svc links ++ candidates mvrs links svc

-- `datetime(a) DESC NULLS LAST` puts the first date strictly before the second.
unfoldable pub ranks_before : Option Datetime → Option Datetime → Bool
unfolding to_second
ranks_before none b = false
ranks_before (some a) none = true
ranks_before (some a) (some b) = ltb (to_second b) (to_second a)

unfoldable pub insert_ranked : MvrRow → List MvrRow → List MvrRow
insert_ranked m [] = m ∷ []
insert_ranked m (x ∷ rows) =
    let later = insert_ranked m rows in
    if ranks_before x.date m.date then x ∷ later else m ∷ x ∷ rows

-- In which order SQLite meets the rows that it sorts; it meets each of them once.
pub record TieOrder : Type 0 where
  pub arrange : List MvrRow → List MvrRow
  pub arrange-perm : (rows : List MvrRow) → Perm (arrange rows) rows

unfoldable pub sort_rows : List MvrRow → List MvrRow
unfolding insert_ranked ranks_before
sort_rows [] = []
sort_rows (m ∷ rows) = insert_ranked m (sort_rows rows)

module _ ⦃order : TieOrder⦄ where
  -- `ROW_NUMBER()` counts along this order.
  unfoldable pub ranked : List MvrRow → List MvrRow
  unfolding sort_rows
  ranked rows = sort_rows (order.arrange rows)

  unfoldable pub effective_row : Database → UrnId → Option MvrRow
  unfolding candidates ranked
  effective_row db svc = head? (ranked (candidates db.mvrs db.mvr_svc_links svc))

  -- `get_effective_mvr_for_svc`: `rn = 1`
  unfoldable pub get_effective_mvr_for_svc : Database → UrnId → Option MvrData
  unfolding effective_row row_to_mvr_data
  get_effective_mvr_for_svc db svc = Option.map (row_to_mvr_data db) (effective_row db svc)

  -- `get_superseded_mvrs_for_svc`: `rn > 1`
  unfoldable pub get_superseded_mvrs_for_svc : Database → UrnId → List MvrData
  unfolding candidates ranked row_to_mvr_data
  get_superseded_mvrs_for_svc db svc =
      map (row_to_mvr_data db) (tail (ranked (candidates db.mvrs db.mvr_svc_links svc)))

-- The SVCs that have a partition: those of the links whose MVR is in the table, each once
abbrev partitions : List MvrRow → List Link → List UrnId
partitions mvrs [] = []
partitions mvrs (l ∷ links) =
    let rest = partitions mvrs links in
    if contains rest l.target || not (has mvr_key mvrs l.owner) then rest else l.target ∷ rest

module _ ⦃order : TieOrder⦄ where
  abbrev effective_verdicts : Database → List UrnId → List Bool
  effective_verdicts db [] = []
  effective_verdicts db (svc ∷ svcs) =
      let rest = effective_verdicts db svcs in
      elim (effective_row db svc) [ none ↦ rest | some m ↦ m.passed ∷ rest ]

-- `SUM(passed)`
abbrev pub count_true : List Bool → ℕ
count_true [] = 0
count_true (b ∷ bs) = (if b then 1 else 0) + count_true bs

-- `SUM(1 - passed)`
abbrev pub count_false : List Bool → ℕ
count_false [] = 0
count_false (b ∷ bs) = (if b then 0 else 1) + count_false bs

module _ ⦃order : TieOrder⦄ where
  -- `get_effective_mvr_verdict_counts`: total, passed and failed
  unfoldable pub get_effective_mvr_verdict_counts : Database → ℕ × ℕ × ℕ
  unfolding effective_row urn_id_eq
  get_effective_mvr_verdict_counts db =
      let verdicts = effective_verdicts db (partitions db.mvrs db.mvr_svc_links) in
      (length verdicts, count_true verdicts, count_false verdicts)

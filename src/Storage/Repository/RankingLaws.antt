-- ===== src/Storage/Repository/RankingLaws.antt =====
-- The effective MVR is the one with the latest second, and the superseded ones are all the others.
use mathlib.Core.List.{reverse_perm, reverse, head?, tail, Perm}
use mathlib.Core.List.Perm
use mathlib.Core.Option
use mathlib.Core.Option.{some-injective}
use mathlib.Core.Path.{subst}
use reqstool_client.Prelude.{
  any-append, ==_iff, any, ◌&&◌, ◌==◌, All-map, sym, leb, inr, refl, inl, none, arith, map, some,
  [], true, Bool-cases, false, ◌≡◌, Bool, ◌∷◌, All, Option, List,
}
use reqstool_client.Storage.Repository.Entities.{row_to_mvr_data}
use reqstool_client.Storage.Repository.Ranking.{
  join_links, TieOrder, sort_rows, candidates, ranks_before, insert_ranked, ranked, effective_row,
  get_effective_mvr_for_svc, get_superseded_mvrs_for_svc,
}
use reqstool_client.Storage.Database.{same_link, has_mvr, mvr_key, Link, Database, MvrRow}
use reqstool_client.Models.Entities.{to_second, Datetime}
use reqstool_client.Models.UrnId.{urn_id_eq, UrnId}
use reqstool_client.Storage.Table.{has}

-- A verdict dated `v` may be returned although another MVR is dated `x`.
abbrev pub not_later : Option Datetime → Option Datetime → Bool
not_later none v = true
not_later (some x) none = false
not_later (some x) (some v) = leb (to_second x) (to_second v)

-- No row of the list is dated in a later second than `m`.
abbrev pub NoneLater : MvrRow → List MvrRow → Type 0
NoneLater m rows = All (λ x. not_later x.date m.date ≡ true) rows

not_later_of_not_before : (x v : Option Datetime) → ranks_before x v ≡ false → not_later x v ≡ true
unfolding ranks_before
not_later_of_not_before none v h = refl
not_later_of_not_before (some x) none h = cc
not_later_of_not_before (some x) (some v) h = ground arith

-- The MVRs of an SVC are the stored ones that a link relates to it.
has-join_links :
    (m : MvrRow) (svc : UrnId) (links : List Link) (k : UrnId)
    → has mvr_key (join_links m svc links) k ≡ (m.key == k && any (same_link m.key svc) links)
has-join_links m svc [] k = ground arith
has-join_links m svc (l ∷ links) k = elim (Bool-cases (l.owner == m.key && l.target == svc)) [
  | inl joined ↦ rw joined (ground (arith, has-join_links m svc links k))
  | inr other ↦ rw other (has-join_links m svc links k)
]

key-linked :
    (j k svc : UrnId) (links : List Link)
    → (j == k && any (same_link j svc) links) ≡ (j == k && any (same_link k svc) links)
key-linked j k svc links = elim (Bool-cases (j == k)) [
  | inl same ↦ rw ((==_iff j k).0 same)
  | inr other ↦ rw other
]

pub has-candidates :
    (mvrs : List MvrRow) (links : List Link) (svc k : UrnId)
    → has mvr_key (candidates mvrs links svc) k
      ≡ (has mvr_key mvrs k && any (same_link k svc) links)
unfolding candidates
has-candidates [] links svc k = refl
has-candidates (m ∷ mvrs) links svc k =
    rw
      (
        any-append,
        has-join_links m svc links k,
        key-linked m.key k svc links,
        has-candidates mvrs links svc k,
      )
      (ground arith)

-- No row of the list ranks strictly before `m`.
abbrev pub NoneBefore : MvrRow → List MvrRow → Type 0
NoneBefore m rows = All (λ x. ranks_before x.date m.date ≡ false) rows

abbrev IsRanked : List MvrRow → Type 0
IsRanked [] = Unit
IsRanked (m ∷ rows) = NoneBefore m rows × IsRanked rows

insert_ranked-perm : (m : MvrRow) (rows : List MvrRow) → Perm (insert_ranked m rows) (m ∷ rows)
unfolding insert_ranked
insert_ranked-perm m [] = Perm.refl (m ∷ [])
insert_ranked-perm m (x ∷ rows) = elim (Bool-cases (ranks_before x.date m.date)) [
  | inl later ↦ rw later (Perm.trans (Perm.cons x (insert_ranked-perm m rows)) (Perm.swap m x rows))
  | inr first ↦ rw first (Perm.refl (m ∷ x ∷ rows))
]

sort_rows-perm : (rows : List MvrRow) → Perm (sort_rows rows) rows
unfolding sort_rows
sort_rows-perm [] = Perm.refl []
sort_rows-perm (m ∷ rows) =
    Perm.trans (insert_ranked-perm m (sort_rows rows)) (Perm.cons m (sort_rows-perm rows))

module _ ⦃order : TieOrder⦄ where
  pub ranked-perm : (rows : List MvrRow) → Perm (ranked rows) rows
  unfolding ranked
  ranked-perm rows = Perm.trans (sort_rows-perm (order.arrange rows)) (order.arrange-perm rows)

-- Not ranking before is transitive.
not_before_trans :
    (a b c : Option Datetime)
    → ranks_before c b ≡ false
    → ranks_before b a ≡ false
    → ranks_before c a ≡ false
unfolding ranks_before
not_before_trans a b none p q = refl
not_before_trans none b (some c) p q = ground arith
not_before_trans (some a) none (some c) p q = cc
not_before_trans (some a) (some b) (some c) p q = ground arith

before_asym : (a b : Option Datetime) → ranks_before a b ≡ true → ranks_before b a ≡ false
unfolding ranks_before
before_asym none b h = cc
before_asym (some a) none h = refl
before_asym (some a) (some b) h = ground arith

NoneBefore-trans :
    (m x : MvrRow) (rows : List MvrRow)
    → ranks_before x.date m.date ≡ false
    → NoneBefore x rows
    → NoneBefore m rows
NoneBefore-trans m x [] p h = tt
NoneBefore-trans m x (y ∷ rows) p h =
    (not_before_trans m.date x.date y.date h.0 p, NoneBefore-trans m x rows p h.1)

module _ (P : MvrRow → Type 0) where
  All-insert_ranked :
      (m : MvrRow) (rows : List MvrRow) → P m → All P rows → All P (insert_ranked m rows)
  unfolding insert_ranked
  All-insert_ranked m [] p h = (p, tt)
  All-insert_ranked m (x ∷ rows) p h = elim (Bool-cases (ranks_before x.date m.date)) [
    | inl later ↦ rw later (h.0, All-insert_ranked m rows p h.1)
    | inr first ↦ rw first (p, h)
  ]

insert_ranked-IsRanked :
    (m : MvrRow) (rows : List MvrRow) → IsRanked rows → IsRanked (insert_ranked m rows)
unfolding insert_ranked
insert_ranked-IsRanked m [] h = (tt, tt)
insert_ranked-IsRanked m (x ∷ rows) h = elim (Bool-cases (ranks_before x.date m.date)) [
  | inl later ↦ rw later (
    All-insert_ranked (λ y. ranks_before y.date x.date ≡ false) m rows
        (before_asym x.date m.date later) h.0,
    insert_ranked-IsRanked m rows h.1,
  )
  | inr first ↦ rw first ((first, NoneBefore-trans m x rows first h.0), h)
]

sort_rows-IsRanked : (rows : List MvrRow) → IsRanked (sort_rows rows)
unfolding sort_rows
sort_rows-IsRanked [] = tt
sort_rows-IsRanked (m ∷ rows) = insert_ranked-IsRanked m (sort_rows rows) (sort_rows-IsRanked rows)

module _ ⦃order : TieOrder⦄ where
  ranked-IsRanked : (rows : List MvrRow) → IsRanked (ranked rows)
  unfolding ranked
  ranked-IsRanked rows = sort_rows-IsRanked (order.arrange rows)

-- What is wanted of a split of the MVRs of one SVC: they are the verdict and the others in some
-- order, none of which is dated in a later second; there is no verdict only if there are none.
abbrev pub IsVerdict : List MvrRow → Option MvrRow → List MvrRow → Type 0
IsVerdict rows none others = (rows ≡ []) × (others ≡ [])
IsVerdict rows (some m) others = Perm (m ∷ others) rows × NoneLater m others

module _ ⦃order : TieOrder⦄ where
  ranked-nil : (rows : List MvrRow) → ranked rows ≡ [] → rows ≡ []
  ranked-nil rows h = sym (Perm.nil-eq (subst (λ l. Perm l rows) h (ranked-perm rows)))

  ranked-IsVerdict :
      (rows : List MvrRow) → IsVerdict rows (head? (ranked rows)) (tail (ranked rows))
  ranked-IsVerdict rows = go (ranked rows) refl
    where
      go :
          (sorted : List MvrRow)
          → ranked rows ≡ sorted
          → IsVerdict rows (head? sorted) (tail sorted)
      go [] e = (ranked-nil rows e, refl)
      go (m ∷ others) e = (
        subst (λ l. Perm l rows) e (ranked-perm rows),
        All-map (λ x. ranks_before x.date m.date ≡ false) (λ x. not_later x.date m.date ≡ true)
            (λ x. not_later_of_not_before x.date m.date) others
            (subst IsRanked e (ranked-IsRanked rows)).0,
      )

not_before_same :
    (x y : Option Datetime) (d e : Datetime)
    → x ≡ some d
    → y ≡ some e
    → to_second d ≡ to_second e
    → ranks_before x y ≡ false
unfolding ranks_before
not_before_same x y d e p q s = rw (p, q) (ground arith)

module _ ⦃order : TieOrder⦄ where
  -- In whatever order SQLite meets the rows: the joined MVRs of an SVC are the stored ones that a link
  -- relates to it; the verdict that is returned for it and the MVRs that are returned as superseded
  -- are all of them; and none of the superseded is dated in a later second than the verdict.
  pub effective-IsVerdict :
      (db : Database) (svc : UrnId)
      → ((k : UrnId)
          → has mvr_key (candidates db.mvrs db.mvr_svc_links svc) k
            ≡ (has_mvr db k && any (same_link k svc) db.mvr_svc_links))
        × (v : Option MvrRow) × (others : List MvrRow) × IsVerdict
            (candidates db.mvrs db.mvr_svc_links svc)
            v
            others
        × (get_effective_mvr_for_svc db svc ≡ Option.map (row_to_mvr_data db) v)
        × (get_superseded_mvrs_for_svc db svc ≡ map (row_to_mvr_data db) others)
  unfolding get_effective_mvr_for_svc get_superseded_mvrs_for_svc effective_row
  effective-IsVerdict db svc =
      let rows = candidates db.mvrs db.mvr_svc_links svc in
      (
        has-candidates db.mvrs db.mvr_svc_links svc,
        head? (ranked rows),
        tail (ranked rows),
        ranked-IsVerdict rows,
        refl,
        refl,
      )

-- SQLite meets the rows as the table holds them, or the other way round.
abbrev pub forwards : TieOrder
forwards = record { arrange = λ rows. rows; arrange-perm = Perm.refl }

abbrev pub backwards : TieOrder
backwards = record { arrange = reverse; arrange-perm = reverse_perm }

-- Where the MVRs of an SVC are two that are dated in the same second, the one that is returned as its
-- verdict depends on the order in which SQLite meets the rows: it is the first or the second.
pub get_effective_mvr_for_svc_ambiguous :
    (db : Database) (svc : UrnId) (a b : MvrRow) (d e : Datetime)
    → candidates db.mvrs db.mvr_svc_links svc ≡ a ∷ b ∷ []
    → a.date ≡ some d
    → b.date ≡ some e
    → to_second d ≡ to_second e
    → (get_effective_mvr_for_svc ⦃order = forwards⦄ db svc ≡ some (row_to_mvr_data db a))
      × (get_effective_mvr_for_svc ⦃order = backwards⦄ db svc ≡ some (row_to_mvr_data db b))
unfolding get_effective_mvr_for_svc effective_row ranked sort_rows insert_ranked
get_effective_mvr_for_svc_ambiguous db svc a b d e c p q s = (
  rw (c, not_before_same b.date a.date e d q p (sym s)),
  rw (c, not_before_same a.date b.date d e p q s),
)

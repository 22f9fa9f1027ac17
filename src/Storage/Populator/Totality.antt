-- ===== src/Storage/Populator/Totality.antt =====
-- Storing what was parsed of a source succeeds when its ids are new.
use reqstool_client.Prelude.{
  ◌||◌, ==_iff, ap, sym, String, any-append, ==_refl, arith, inr, and-true, inl, false, ◌&&◌, refl,
  [], Bool-cases, any, not, contains, ◌∷◌, true, ◌≡◌, Bool, ◌∙◌, List, ◌==◌, ◌++◌,
}
use reqstool_client.Models.UrnId.{UrnId, urn_id_eq}
use reqstool_client.Models.Entities.{
  MvrData, SvcData, RequirementData, ReferenceData, Category, category_eq,
}
use reqstool_client.Storage.Database.{
  category_key, requirement_row, requirement_key, insert_requirement_row, insert_requirement,
  RequirementRow, same_link, CategoryRow, has_mvr, has_svc, insert_category, has_requirement,
  insert_references, insert_reference_ids, insert_reference, insert_categories, Database,
}
use reqstool_client.Prelude.Result.{Result, ok}
use mathlib.Core.Bool.{true≢false}
use reqstool_client.Storage.Table.{has-add_self, Refers, has}
use reqstool_client.Storage.Database.Integrity.{Leaves, IsConsistent}
use mathlib.Core.Path.{subst}
use reqstool_client.Storage.Database.Integrity.Operations.{insert_requirement-IsConsistent}

-- No category is listed twice.
abbrev pub are_different : List Category → Bool
are_different [] = true
are_different (c ∷ cs) = not (contains cs c) && are_different cs

-- The items that are there are those there were.
abbrev pub Keeps : Database → Database → Type 0
Keeps db db' =
    ((k : UrnId) → has_requirement db' k ≡ has_requirement db k)
    × ((k : UrnId) → has_svc db' k ≡ has_svc db k)
    × ((k : UrnId) → has_mvr db' k ≡ has_mvr db k)

pub Keeps-refl : (db : Database) → Keeps db db
Keeps-refl db = (λ k. refl, λ k. refl, λ k. refl)

pub Keeps-trans : (a b c : Database) → Keeps a b → Keeps b c → Keeps a c
Keeps-trans a b c (r, s, m) (r', s', m') = (λ k. r' k ∙ r k, λ k. s' k ∙ s k, λ k. m' k ∙ m k)

still_new :
    (rows : List CategoryRow) (k : UrnId) (c c' : Category)
    → any (λ (r : CategoryRow). r.key == k && r.category == c') rows ≡ false
    → (c == c') ≡ false
    → any
        (λ (r : CategoryRow). r.key == k && r.category == c')
        (rows ++ record { key = k; category = c } ∷ [])
      ≡ false
still_new rows k c c' h other =
    any-append (λ (r : CategoryRow). r.key == k && r.category == c') rows
      (record { key = k; category = c } ∷ [])
    ∙ rw (h, other) (ground arith)

differs :
    (c c' : Category) (cs : List Category)
    → not (contains cs c) ≡ true
    → contains cs c' ≡ true
    → (c == c') ≡ false
differs c c' cs once among = elim (Bool-cases (c == c')) [
  | inl same ↦
      let absent : contains cs c ≡ false = ground arith in
      absurd (true≢false (sym (ap (contains cs) ((==_iff c c').0 same) ∙ among) ∙ absent))
  | inr other ↦ other
]

insert_categories-total :
    (k : UrnId) (cs : List Category) (db : Database)
    → has_requirement db k ≡ true
    → ((c : Category)
        → contains cs c ≡ true
        → any (λ (r : CategoryRow). r.key == k && r.category == c) db.requirement_categories
          ≡ false)
    → are_different cs ≡ true
    → (db' : Database) × (insert_categories k cs db ≡ ok db') × Keeps db db'
unfolding insert_categories insert_category
insert_categories-total k [] db there new different = (db, refl, Keeps-refl db)
insert_categories-total k (c ∷ cs) db there new different =
    let (once, rest) = and-true (not (contains cs c)) different in
    let first = new c (ground (arith, ==_refl c)) in
    let next : Database = record db {
      requirement_categories = db.requirement_categories ++ record { key = k; category = c } ∷ [];
    } in
    let (db', p, keeps) =
      insert_categories-total k cs next there
        (λ c' among.
          still_new db.requirement_categories k c c' (new c' (ground (arith, among)))
            (differs c c' cs once among))
        rest in
    (db', rw (first, there) p, keeps)

insert_reference-total :
    (k ref : UrnId) (db : Database)
    → has_requirement db k ≡ true
    → (db' : Database) × (insert_reference k ref db ≡ ok db') × Keeps db db'
unfolding insert_reference
insert_reference-total k ref db there =
    elim (Bool-cases (any (same_link k ref) db.requirement_references)) [
      | inl again ↦ (db, rw again, Keeps-refl db)
      | inr new ↦ (
        record db {
          requirement_references =
              db.requirement_references ++ record { owner = k; target = ref } ∷ [];
        },
        rw (new, there),
        Keeps-refl db,
      )
    ]

insert_reference_ids-total :
    (k : UrnId) (refs : List UrnId) (db : Database)
    → has_requirement db k ≡ true
    → (db' : Database) × (insert_reference_ids k refs db ≡ ok db') × Keeps db db'
unfolding insert_reference_ids
insert_reference_ids-total k [] db there = (db, refl, Keeps-refl db)
insert_reference_ids-total k (ref ∷ refs) db there =
    let (one, p, (r, s, m)) = insert_reference-total k ref db there in
    let (db', q, keeps) = insert_reference_ids-total k refs one (r k ∙ there) in
    (db', rw (p, q), Keeps-trans db one db' (r, s, m) keeps)

insert_references-total :
    (k : UrnId) (refs : List ReferenceData) (db : Database)
    → has_requirement db k ≡ true
    → (db' : Database) × (insert_references k refs db ≡ ok db') × Keeps db db'
unfolding insert_references
insert_references-total k [] db there = (db, refl, Keeps-refl db)
insert_references-total k (ref ∷ refs) db there =
    let (one, p, (r, s, m)) = insert_reference_ids-total k ref.requirement_ids db there in
    let (db', q, keeps) = insert_references-total k refs one (r k ∙ there) in
    (db', rw (p, q), Keeps-trans db one db' (r, s, m) keeps)

-- A new requirement has no categories yet.
no_category :
    (rows : List CategoryRow) (requirements : List RequirementRow) (k : UrnId) (c : Category)
    → Refers requirement_key category_key requirements rows
    → has requirement_key requirements k ≡ false
    → any (λ (r : CategoryRow). r.key == k && r.category == c) rows ≡ false
no_category [] requirements k c refers new = refl
no_category (r ∷ rows) requirements k c (there, refers) new = elim (Bool-cases (r.key == k)) [
  | inl same ↦ absurd (
      true≢false
        (sym (ap (has requirement_key requirements) (sym ((==_iff r.key k).0 same)) ∙ there) ∙ new))
  | inr other ↦ rw other (no_category rows requirements k c refers new)
]

pub has_last {ℓ} :
    {A : Type ℓ} (key : A → UrnId) (rows : List A) (r : A) (k : UrnId)
    → has key (rows ++ r ∷ []) k ≡ (has key rows k || key r == k)
has_last key rows r k = any-append (λ x. key x == k) rows (r ∷ []) ∙ ground arith

-- The id under which an item of a source is stored
abbrev pub stored : String → UrnId → UrnId
stored urn k = record { urn = urn; id = k.id }

abbrev pub requirement_id : String → RequirementData → UrnId
requirement_id urn r = stored urn r.id

abbrev pub svc_id : String → SvcData → UrnId
svc_id urn s = stored urn s.id

abbrev pub mvr_id : String → MvrData → UrnId
mvr_id urn m = stored urn m.id

-- What an insertion leaves, if it adds the item `k` to those that `has_item` tells of
abbrev pub Adds : (Database → UrnId → Bool) → UrnId → Database → Database → Type 0
Adds has_item k db db' =
    IsConsistent db' × ((j : UrnId) → has_item db' j ≡ (has_item db j || k == j))

pub left_over :
    {db' : Database} (r : Result Database) → Leaves IsConsistent r → r ≡ ok db' → IsConsistent db'
left_over {db'} r h p = subst (Leaves IsConsistent) p h

pub insert_requirement-total :
    (urn : String) (req : RequirementData) (db : Database)
    → IsConsistent db
    → has_requirement db (requirement_id urn req) ≡ false
    → are_different req.categories ≡ true
    → (db' : Database) × (insert_requirement urn req db ≡ ok db')
      × Adds has_requirement (requirement_id urn req) db db'
      × ((j : UrnId) → has_svc db' j ≡ has_svc db j)
      × ((j : UrnId) → has_mvr db' j ≡ has_mvr db j)
unfolding insert_requirement insert_requirement_row
insert_requirement-total urn req db c new different =
    let k = requirement_id urn req in
    let row = requirement_row urn req in
    let first : Database = record db { requirements = db.requirements ++ row ∷ [] } in
    let there : has_requirement first k ≡ true = has-add_self requirement_key db.requirements row in
    let (one, p, (r1, s1, m1)) =
      insert_categories-total k req.categories first there
        (λ x i. no_category db.requirement_categories db.requirements k x c.categories new)
        different in
    let (db', q, (r2, s2, m2)) = insert_references-total k req.references one (r1 k ∙ there) in
    let done : insert_requirement urn req db ≡ ok db' = rw (new, p, q) in
    (
      db',
      done,
      (
        left_over (insert_requirement urn req db) (insert_requirement-IsConsistent urn req db c)
            done,
        λ j. r2 j ∙ r1 j ∙ has_last requirement_key db.requirements row j,
      ),
      λ j. s2 j ∙ s1 j,
      λ j. m2 j ∙ m1 j,
    )

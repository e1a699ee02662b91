-- ===== src/Storage/Tables/Laws.antt =====
-- The database in memory keeps its tables as `IsTable` says.
use evictor.Prelude.{
  ◌≡◌, ◌≢◌, ◌⊎◌, inl, inr, refl, sym, ap, subst, ◌∙◌, String, str_eq, eq_iff, Bool, true, false,
  ◌&&◌, ◌||◌, Option, none, some, List, [], ◌∷◌, ◌++◌, All, map, if◌then◌else◌, both, arith,
}
use evictor.Storage.Sql.{
  Value, instant, OnConflict, raise, do_update, Row, Insert, Select, IsTable, zip, column, pick,
  added, with_value, primary_key,
}
use evictor.Storage.Tables.{
  value_eq_refl, is_value, matches, Stored, find, has, put, append, with_returned, tables,
}

both-false : (a b : Bool) → (a || b) ≡ false → (a ≡ false) × (b ≡ false)
both-false true b h = absurd (ground arith)
both-false false b h = (refl, h)

raise≢do_update : raise ≢ do_update
raise≢do_update e = ground (arith, e)

with_value-eq-some :
    (o : Option Value) (p : Option (List Value)) {values : List Value}
    → with_value o p ≡ some values
    → (v : Value) × (vs : List Value) × ((o ≡ some v) × ((p ≡ some vs) × (v ∷ vs ≡ values)))
unfolding with_value
with_value-eq-some none p h = absurd (ground arith)
with_value-eq-some (some v) none h = absurd (ground arith)
with_value-eq-some (some v) (some vs) h = (v, vs, (refl, (refl, ground (arith, h))))

matches-pick :
    (names : List String) (row : Row) {values : List Value}
    → pick names row ≡ some values
    → matches (zip names values) row ≡ true
unfolding pick matches zip is_value
matches-pick [] row {values} h = refl
matches-pick (name ∷ names) row {values} h =
    let (v, vs, parts) = with_value-eq-some (column name row) (pick names row) h in
    let first : is_value (column name row) v ≡ true =
      ap (λ o. is_value o v) parts.0 ∙ value_eq_refl v in
    subst (λ l. matches (zip (name ∷ names) l) row ≡ true) parts.1.1
      (both (is_value (column name row) v) (matches (zip names vs) row) first
        (matches-pick names row parts.1.0))

some_pair :
    {A B : Type 0} {a c : A} {b d : B}
    → ◌≡◌ {A = Option (A × B)} (some (a, b)) (some (c, d))
    → (a ≡ c) × (b ≡ d)
some_pair h = ground (arith, h)

with_returned-eq-some :
    (returned : List Value) (o : Option Stored) {r : List Value} {t : Stored}
    → with_returned returned o ≡ some (r, t)
    → (o ≡ some t) × (returned ≡ r)
unfolding with_returned
with_returned-eq-some returned none h = absurd (ground arith)
with_returned-eq-some returned (some s) h =
    let parts = some_pair h in (ap (λ l. some l) parts.1, parts.0)

abbrev Appended : OnConflict → String → Row → Option (List Value) → Stored → Stored → Type 0
Appended c table row key s t =
    ((c ≡ do_update) × ((table, row) ∷ s ≡ t))
    ⊎ ((values : List Value) × ((key ≡ some values)
          × ((has table (zip (primary_key table) values) s ≡ false)
              × (s ++ (table, row) ∷ [] ≡ t))))

if_some :
    {A : Type 0} (b : Bool) {a t : A}
    → (if b then none else some a) ≡ some t
    → (b ≡ false) × (a ≡ t)
if_some true h = absurd (ground arith)
if_some false h = (refl, ground (arith, h))

put-Appended :
    (c : OnConflict) (table : String) (row : Row) (key : Option (List Value)) (s : Stored)
    {t : Stored}
    → put c table row key s ≡ some t
    → Appended c table row key s t
unfolding put
put-Appended do_update table row key s h = inl (refl, ground (arith, h))
put-Appended raise table row none s h = absurd (ground arith)
put-Appended raise table row (some values) s h =
    let parts = if_some (has table (zip (primary_key table) values) s) h in
    inr (values, (refl, parts))

append-Appended :
    (i : Insert) (s : Stored) {t : Stored} {returned : List Value}
    → append i s ≡ some (returned, t)
    → Appended i.on_conflict i.table
        (added i returned)
        (pick (primary_key i.table) (added i returned))
        s
        t
unfolding append
append-Appended i s {t} h =
    let given = map (λ _. instant 7) i.returning in
    let placed : Row → Option Stored =
      λ row. put i.on_conflict i.table row (pick (primary_key i.table) row) s in
    let parts = with_returned-eq-some given (placed (added i given)) h in
    put-Appended i.on_conflict i.table (added i _) (pick (primary_key i.table) (added i _)) s
      (subst (λ r. placed (added i r) ≡ some t) parts.1 parts.0)

find-skip : (q : Select) (s u : Stored) → has q.table q.key s ≡ false → find q (s ++ u) ≡ find q u
unfolding find has
find-skip q [] u h = refl
find-skip q ((table, row) ∷ s) u h =
    let parts = both-false (str_eq q.table table && matches q.key row) (has q.table q.key s) h in
    rw parts.0 (find-skip q s u parts.1)

if_kept :
    {A : Type 0} (b : Bool) (x y z : A) {v : A}
    → (if b then x else y) ≡ v
    → (y ≡ v → z ≡ v)
    → (if b then x else z) ≡ v
if_kept true x y z h kept = h
if_kept false x y z h kept = kept h

find-kept :
    (q : Select) (s u : Stored) {values : List Value}
    → find q s ≡ some values
    → find q (s ++ u) ≡ some values
unfolding find
find-kept q [] u h = absurd (ground arith)
find-kept q ((table, row) ∷ s) u h =
    if_kept (str_eq q.table table && matches q.key row) (pick q.columns row) (find q s)
      (find q (s ++ u)) h (find-kept q s u)

find-other :
    (q : Select) (table : String) (row : Row) (s : Stored)
    → str_eq q.table table ≡ false
    → find q ((table, row) ∷ s) ≡ find q s
unfolding find
find-other q table row s h = rw h refl

find-first :
    (q : Select) (row : Row) (s : Stored)
    → matches q.key row ≡ true
    → find q ((q.table, row) ∷ s) ≡ pick q.columns row
unfolding find
find-first q row s h = rw ((eq_iff q.table q.table).1 refl) (rw h refl)

abbrev pub Anything : Value → Type 0
Anything v = Unit

pub All-Anything : (values : List Value) → All Anything values
All-Anything [] = tt
All-Anything (v ∷ values) = (tt, All-Anything values)

-- It is a table in the sense of the theorems, with every value exact.
pub tables-IsTable : IsTable tables Anything
unfolding tables
tables-IsTable = record {
  reads_back = λ i names {s} {t} {returned} {values} e h k.
      let row = added i returned in
      let q : Select = record {
        table = i.table;
        columns = names;
        key = zip (primary_key i.table) values;
      } in
      let found = find-first q row in
      let is_it = matches-pick (primary_key i.table) row k in
      elim (append-Appended i s e) [
        | inl p ↦ ap (find q) (sym p.1) ∙ found s is_it
        | inr p ↦
            let same : p.0 ≡ values = ground (arith, p.1.0, k) in
            ap (find q) (sym p.1.1.1)
            ∙ find-skip q s ((i.table, row) ∷ [])
                (subst (λ l. has i.table (zip (primary_key i.table) l) s ≡ false) same p.1.1.0)
            ∙ found [] is_it
      ];
  keeps = λ i q {s} {t} {returned} e other keyed there. elim (append-Appended i s e) [
    | inl p ↦ elim other [
      | inl c ↦ absurd (raise≢do_update (sym c ∙ p.0))
      | inr c ↦ ap (find q) (sym p.1) ∙ find-other q i.table (added i returned) s c ∙ there
    ]
    | inr p ↦ ap (find q) (sym p.1.1.1) ∙ find-kept q s _ there
  ];
}

-- ===== src/Platform/Query.antt =====
-- `Query` of libs/platform/db.go, and what the routes of the services make of its rows.
use logicore_wms.Base.{ℕ, none, some, List, [], ◌∷◌, String, map, ◌≡◌, refl, str_eq, if◌then◌else◌}
use logicore_wms.Platform.Types.{internal, Context, not_found, Result, ok, err, after, id_check}

-- The rows of a result (`pgx.Rows`): what `Scan` gives for each of them, and `Err` after the last.
pub record Cursor : Type 0 where
  pub scans : List (Result String)
  pub ends : Result (Unit {0})

module _ {A : Type 0} where
  -- The loop over the rows: the first row that cannot be read ends it.
  abbrev pub read_rows : (String → Result A) → List (Result String) → Result (List A)
  read_rows decode [] = ok []
  read_rows decode (scan ∷ scans) =
      after scan λ text. after (decode text) λ x. after (read_rows decode scans) λ out. ok (x ∷ out)

  -- `Query`
  unfoldable pub query : (String → Result A) → Result Cursor → Result (List A)
  query decode result =
      after result λ rows. after (read_rows decode rows.scans) λ out. after rows.ends λ _. ok out

  -- The only row of a table with the key, or NOT_FOUND.
  abbrev pub first_row : String → List A → Result A
  first_row message [] = err (not_found message)
  first_row message (x ∷ rows) = ok x

-- A text as the key of a row: `$1` where the query wants a uuid.
abbrev pub row_key : Context → String → Result ℕ
row_key c id = elim (c.cast id) [
  | none ↦ err (internal "invalid input syntax for type uuid")
  | some k ↦ ok k
]

-- An identifier that may be left out.
abbrev pub check_optional : Context → String → Result (Unit {0})
check_optional c id = if str_eq id "" then ok tt else id_check c id

-- The rows of a table as PostgreSQL hands them over: the JSON text of each, and no error.
abbrev pub handed : {R : Type 0} → (R → String) → List R → Cursor
handed row_text rows = record { scans = map (λ x. ok (row_text x)) rows; ends = ok tt }

-- A driver: what comes of a selection, and the texts that it consists of if nothing goes wrong.
pub record Driver (R A : Type 0) : Type 0 where
  pub fetch : List R → Result Cursor
  pub row_text : R → String
  pub decode : String → Result A
  pub view : R → A

-- The database answers, and the JSON text of a row reads back as the row's columns.
pub record IsSound {R A : Type 0} (d : Driver R A) : Type 0 where
  pub answers : (rows : List R) → d.fetch rows ≡ ok (handed d.row_text rows)
  pub reads : (x : R) → d.decode (d.row_text x) ≡ ok (d.view x)

module _ {R A : Type 0} (d : Driver R A) (sound : IsSound d) where
  read_rows-handed :
      (rows : List R) → read_rows d.decode (handed d.row_text rows).scans ≡ ok (map d.view rows)
  read_rows-handed [] = refl
  read_rows-handed (x ∷ rows) = rw (sound.reads x, read_rows-handed rows) refl

  -- A query gives the columns of the selected rows, each once and in their order.
  pub query-view : (rows : List R) → query d.decode (d.fetch rows) ≡ ok (map d.view rows)
  unfolding query
  query-view rows = rw (sound.answers rows, read_rows-handed rows) refl

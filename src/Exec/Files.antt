-- ===== src/Exec/Files.antt =====
-- src/exec.rs: the files that go into a container and come out of it. The bytes live in the blob
-- store; a directory of the host is a tree here.
pub mod Stored
use Prim.Native.String.{[] as []ˢ, ◌++◌ as ◌++ˢ◌}
use dokan.Prelude.{
  ℕ, ◌*◌, String, Bool, true, false, Option, none, some, List, [], ◌∷◌, ◌++◌, ltb, is_empty,
  decimal, if◌then◌else◌,
}
use dokan.Prelude.Result.{Result}
use dokan.Json.{Value, Fields, insert}
use dokan.Db.{Db}
use dokan.Db.Retention.{get_blob, put_blob}
use dokan.Mcp.{is_bad_file_name}

-- The files of a directory, by name.
abbrev pub Files : Type 0
Files = List (String × List ℕ)

abbrev is_there : Option (List ℕ) → Bool
is_there none = false
is_there (some bytes) = true

abbrev or_no_bytes : Option (List ℕ) → List ℕ
or_no_bytes none = []
or_no_bytes (some bytes) = bytes

abbrev at_dir : String → Result Files String → Result (Option (String × Files)) String
at_dir dir (Result.ok files) = Result.ok (some (dir, files))
at_dir dir (Result.err e) = Result.err e

-- `{}` is no output.
abbrev object_of : Result Fields String → Result (Option Value) String
object_of (Result.ok Fields.end) = Result.ok none
object_of (Result.ok (Fields.field k v fs)) = Result.ok (some (Value.object (Fields.field k v fs)))
object_of (Result.err e) = Result.err e

-- `debug` is Rust's `{:?}` of a text.
module _ (debug : String → String) (now : ℕ) where
  abbrev not_a_handle : String → String
  not_a_handle name = "input_blobs[" ++ˢ (name ++ˢ "] is not a string handle")

  -- The bytes of each handle, fetched in order until one is missing.
  unfoldable pub write_files : Fields → Files → Db → Result Files String × Db
  unfolding is_bad_file_name get_blob
  write_files Fields.end files db = (Result.ok files, db)
  write_files (Fields.field name (Value.string sha) fs) files db =
      let (bytes, db2) = get_blob now sha db in
      let rest = write_files fs (files ++ (name, or_no_bytes bytes) ∷ []) db2 in
      if is_bad_file_name name
      then (Result.err ("invalid input file name: " ++ˢ debug name), db)
      else if is_there bytes
      then rest
      else (Result.err ("input blob not found for handle " ++ˢ sha), db2)
  write_files (Fields.field name v fs) files db =
      if is_bad_file_name name
      then (Result.err ("invalid input file name: " ++ˢ debug name), db)
      else (Result.err (not_a_handle name), db)

  -- `ok none`: the run declares no files, and nothing is mounted.
  unfoldable pub materialize_input :
      Option String → ℕ → Option Value → Db → Result (Option (String × Files)) String × Db
  unfolding write_files decimal
  materialize_input home run_id (some (Value.object (Fields.field name v fs))) db = elim home [
    | none ↦ (Result.err "HOME unset; cannot materialize /input", db)
    | some h ↦
        let (written, db2) = write_files (Fields.field name v fs) [] db in
        (at_dir (h ++ˢ ("/.dokan/runs/" ++ˢ (decimal run_id ++ˢ "/input"))) written, db2)
  ]
  materialize_input home run_id _ db = (Result.ok none, db)

unfoldable pub prepare_output_dir : Option String → ℕ → Result String String
unfolding decimal
prepare_output_dir none run_id = Result.err "HOME unset; cannot prepare /output"
prepare_output_dir (some h) run_id =
    Result.ok (h ++ˢ ("/.dokan/runs/" ++ˢ (decimal run_id ++ˢ "/output")))

abbrev pub max_output_file_bytes : ℕ
max_output_file_bytes = 256 * 1024 * 1024

-- A directory as it is read: its entries in the order of `read_dir`, or not at all. `lost` is an
-- entry that cannot be looked at, and a special file is neither a directory nor regular. A regular
-- file has its size and its bytes.
mutual
  pub data Dir : Type 0 where
    unreadable : Dir
    readable : Entries → Dir

  pub data Entries : Type 0 where
    no_more : Entries
    subdir : String → Dir → Entries → Entries
    file : String → ℕ → List ℕ → Entries → Entries
    special : String → Entries → Entries
    lost : String → Entries → Entries

-- What the walk comes by: a file under its path below the root, or the end of the walk.
pub data Found : Type 0 where
  blob : String → List ℕ → Found
  fault : String → Found

abbrev pub below : String → String → String
below prefix name = if is_empty prefix then name else prefix ++ˢ ("/" ++ˢ name)

-- The files of a directory first, then its directories, the last one first: the stack's order.
unfoldable mutual
  pub walk : String → Dir → List Found
  walk prefix unreadable = []
  walk prefix (readable es) = here prefix es ++ deeper prefix es

  pub here : String → Entries → List Found
  here prefix no_more = []
  here prefix (subdir name d es) = here prefix es
  here prefix (file name size bytes es) =
      let rest = here prefix es in
      if ltb max_output_file_bytes size then rest else blob (below prefix name) bytes ∷ rest
  here prefix (special name es) = here prefix es
  here prefix (lost e es) = fault e ∷ []

  pub deeper : String → Entries → List Found
  deeper prefix no_more = []
  deeper prefix (subdir name d es) = deeper prefix es ++ walk (below prefix name) d
  deeper prefix (file name size bytes es) = deeper prefix es
  deeper prefix (special name es) = deeper prefix es
  deeper prefix (lost e es) = []

module _ (sha256_hex : List ℕ → String) (now : ℕ) where
  -- A fault ends the capture; the files before it are stored.
  unfoldable pub store_found : List Found → Fields → Db → Result Fields String × Db
  unfolding put_blob insert
  store_found [] m db = (Result.ok m, db)
  store_found (fault e ∷ fs) m db = (Result.err e, db)
  store_found (blob name bytes ∷ fs) m db =
      let ((sha, size), db2) = put_blob sha256_hex now bytes db in
      store_found fs (insert name (Value.string sha) m) db2

  unfoldable pub capture_output : Dir → Db → Result (Option Value) String × Db
  unfolding walk store_found
  capture_output dir db =
      let (stored, db2) = store_found (walk []ˢ dir) Fields.end db in (object_of stored, db2)

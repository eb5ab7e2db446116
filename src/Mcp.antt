-- ===== src/Mcp.antt =====
-- src/mcp.rs: what the tools check of their arguments, and the canonical texts behind the cache key
-- and the receipts.
pub mod Canonical
pub mod Scripts
pub mod Runs
pub mod Flows
pub mod Reproduce
use Prim.Native.String.{◌++◌ as ◌++ˢ◌}
use dokan.Prelude.{
  ℕ, zero, suc, ◌+◌, ◌*◌, ◌/◌, ◌%◌, ◌^◌, String, Bool, true, false, not, ◌&&◌, ◌||◌, Option, none,
  some, List, [], ◌∷◌, ◌++◌, map, length, ltb, leb, ◌==◌, str_eq, if◌then◌else◌, as_bytes, decimal,
  join, leb_text, sort_texts, split_whitespace, contains, contains_char, is_empty,
}
use dokan.Prelude.Int.{ℤ, pos, negsuc}
use dokan.Prelude.Result.{Result}
use dokan.Json.{Number, Value, Items, Fields, lookup, insert, as_str}
use dokan.Db.{Db}
use dokan.Db.Retention.{blob_exists}

-- What the serde_json crate prints and reads, and the `{:?}` form of a text.
pub record Printer : Type 0 where
  pub to_text : Value → String
  pub from_text : String → Option Value
  pub debug : String → String

abbrev insert_pair : String → String → List (String × String) → List (String × String)
insert_pair k v [] = (k, v) ∷ []
insert_pair k v ((j, w) ∷ ps) =
    let rest = insert_pair k v ps in if leb_text k j then (k, v) ∷ (j, w) ∷ ps else (j, w) ∷ rest

-- The keys in order, each with the text of its value.
unfoldable pub sort_pairs : List (String × String) → List (String × String)
sort_pairs [] = []
sort_pairs ((k, v) ∷ ps) = insert_pair k v (sort_pairs ps)

abbrev pub pair_text : (String → String) → String × String → String
pair_text debug (k, v) = debug k ++ˢ (":" ++ˢ v)

module _ (printer : Printer) where
  unfoldable mutual
    unfolding sort_pairs join

    pub canonical_json : Value → String
    canonical_json (Value.object fs) =
        "{"
        ++ˢ (join "," (map (pair_text printer.debug) (sort_pairs (canonical_fields fs))) ++ˢ "}")
    canonical_json (Value.array vs) = "[" ++ˢ (join "," (canonical_items vs) ++ˢ "]")
    canonical_json Value.null = printer.to_text Value.null
    canonical_json (Value.bool b) = printer.to_text (Value.bool b)
    canonical_json (Value.number n) = printer.to_text (Value.number n)
    canonical_json (Value.string s) = printer.to_text (Value.string s)

    pub canonical_items : Items → List String
    canonical_items Items.nil = []
    canonical_items (Items.cons v vs) = canonical_json v ∷ canonical_items vs

    pub canonical_fields : Fields → List (String × String)
    canonical_fields Fields.end = []
    canonical_fields (Fields.field k v fs) = (k, canonical_json v) ∷ canonical_fields fs

  abbrev is_container : Value → Bool
  is_container (Value.object fs) = true
  is_container (Value.array vs) = true
  is_container _ = false

  abbrev container_or : Value → Option Value → Value
  container_or v none = v
  container_or v (some parsed) = if is_container parsed then parsed else v

  -- A text that is itself the JSON of an object or an array is decoded once.
  unfoldable pub destringify : Value → Value
  destringify (Value.string s) = container_or (Value.string s) (printer.from_text s)
  destringify v = v

abbrev str_or_empty : Value → String
str_or_empty (Value.string s) = s
str_or_empty _ = ""

-- `name:sha` for each file.
unfoldable pub blob_texts : Fields → List String
blob_texts Fields.end = []
blob_texts (Fields.field name sha fs) = (name ++ˢ (":" ++ˢ str_or_empty sha)) ∷ blob_texts fs

unfoldable pub canonical_input_blobs : Option Value → String
unfolding blob_texts sort_texts join
canonical_input_blobs (some (Value.object fs)) = join "," (sort_texts (blob_texts fs))
canonical_input_blobs _ = ""

abbrev pub max_blob_bytes : ℕ
max_blob_bytes = 32 * 1024 * 1024

unfoldable pub validate_blob_bytes : ℕ → Result (Unit {0}) String
validate_blob_bytes len =
    if len == 0
    then Result.err "blob is empty (0 bytes)"
    else if ltb max_blob_bytes len
    then Result.err (
        "blob too large: "
        ++ˢ (decimal len ++ˢ (" bytes (cap " ++ˢ (decimal max_blob_bytes ++ˢ " bytes / 32 MiB)"))))
    else Result.ok tt

abbrev pub show_ℤ : ℤ → String
show_ℤ (pos n) = decimal n
show_ℤ (negsuc n) = "-" ++ˢ decimal (suc n)

abbrev pub in_bounds : ℤ → ℕ → Bool
in_bounds (pos t) max_secs = leb 1 t && leb t max_secs
in_bounds (negsuc t) max_secs = false

unfoldable pub validate_timeout : Option ℤ → ℕ → Result (Unit {0}) String
validate_timeout none max_secs = Result.ok tt
validate_timeout (some t) max_secs =
    if in_bounds t max_secs
    then Result.ok tt
    else Result.err (
        "timeout_secs must be between 1 and "
        ++ˢ (decimal max_secs ++ˢ (" (this daemon's --max-timeout-secs); got " ++ˢ show_ℤ t)))

-- A name that would leave its directory.
unfoldable pub is_bad_file_name : String → Bool
is_bad_file_name name = is_empty name || contains_char 47 name || contains name ".."

-- Why a file map is refused; nothing is created then.
pub data FileError : Type 0 where
  invalid_file_name : String → FileError
  unknown_blob_handle : String → String → FileError

-- The files of a call in the order in which the `HashMap` gives them.
unfoldable pub resolve_each : Db → List (String × String) → Fields → Result (Option Value) FileError
unfolding is_bad_file_name insert
resolve_each db [] m = Result.ok (some (Value.object m))
resolve_each db ((name, handle) ∷ files) m =
    let rest = resolve_each db files (insert name (Value.string handle) m) in
    if is_bad_file_name name
    then Result.err (FileError.invalid_file_name name)
    else if not (blob_exists handle db)
    then Result.err (FileError.unknown_blob_handle name handle)
    else rest

unfoldable pub resolve_files : Db → List (String × String) → Result (Option Value) FileError
unfolding resolve_each
resolve_files db [] = Result.ok none
resolve_files db (f ∷ files) = resolve_each db (f ∷ files) Fields.end

-- The little-endian bytes of a 64-bit number.
unfoldable pub le_bytes : ℕ → ℕ → List ℕ
le_bytes zero n = []
le_bytes (suc k) n = n % 256 ∷ le_bytes k (n / 256)

-- The key of a run is a hash of these bytes: the parts, separated by 0x1f.
unfoldable pub key_bytes : Printer → String → String → String → Value → ℕ → Option Value → List ℕ
unfolding canonical_json le_bytes canonical_input_blobs
key_bytes printer runtime image_digest source input secrets_gen input_blobs =
    as_bytes runtime
    ++ (31
        ∷ (as_bytes image_digest
            ++ (31
                ∷ (as_bytes source
                    ++ (31
                        ∷ (as_bytes (canonical_json printer input)
                            ++ (31
                                ∷ (le_bytes 8 secrets_gen
                                    ++ (31 ∷ as_bytes (canonical_input_blobs input_blobs))))))))))

unfoldable pub run_cache_key :
    (List ℕ → String) → Printer → String → String → String → Value → ℕ → Option Value → String
unfolding key_bytes
run_cache_key sha256_hex printer runtime image_digest source input secrets_gen input_blobs =
    sha256_hex (key_bytes printer runtime image_digest source input secrets_gen input_blobs)

unfoldable pub insert_all : Fields → Fields → Fields
unfolding insert
insert_all Fields.end o = o
insert_all (Fields.field k v fs) o = insert_all fs (insert k v o)

abbrev hint_into : Option String → Fields → Fields
hint_into none o = o
hint_into (some h) o = insert "hint" (Value.string h) o

abbrev extra_into : Value → Fields → Fields
extra_into (Value.object m) o = insert_all m o
extra_into _ o = o

unfoldable pub error_envelope : String → String → Option String → Value → Value
unfolding insert_all insert
error_envelope code message hint extra = Value.object (
    extra_into extra (
      hint_into hint (
        Fields.field "error" (Value.string code)
          (Fields.field "message" (Value.string message) Fields.end))))

-- `none`: six fields, the first of them seconds.
unfoldable pub validate_cron : String → Option ℕ
validate_cron expr = let n = length (split_whitespace expr) in if n == 6 then none else some n

-- ===== src/Exec/Files/Stored.antt =====
-- Every file that a capture names is in the blob store.
use Prim.Native.String.{[] as []ˢ}
use dokan.Prelude.{
  ℕ, String, Bool, true, false, ◌≡◌, refl, ap, ◌∙◌, some, List, [], ◌∷◌, any, str_eq, arith,
  Bool-cases, inl, inr, update_where, any-append, eq_of_some,
}
use dokan.Prelude.Result.{Result, eq_of_ok}
use text.Mathlib.TextPositions.{eq_refl}
use dokan.Json.{Value, Fields, insert}
use dokan.Db.{Blob, Db}
use dokan.Db.Retention.{has_sha, put_blob}
use dokan.Exec.Files.{Found, blob, fault, Dir, walk, store_found, object_of, capture_output}

abbrev is_stored : String → Db → Bool
is_stored sha db = any (has_sha sha) db.blobs

abbrev is_handle : Value → Db → Bool
is_handle (Value.string sha) db = is_stored sha db
is_handle _ db = false

any-touched :
    (now : ℕ) (sha t : String) (blobs : List Blob)
    → any (has_sha t) (update_where (has_sha sha) (λ b. record b { last_used_at = now }) blobs)
      ≡ any (has_sha t) blobs
unfolding update_where
any-touched now sha t [] = refl
any-touched now sha t (b ∷ blobs) = ground (arith, any-touched now sha t blobs)

put_blob-stored :
    (sha256_hex : List ℕ → String) (now : ℕ) (bytes : List ℕ) (db : Db)
    → is_stored (sha256_hex bytes) (put_blob sha256_hex now bytes db).1 ≡ true
unfolding put_blob
put_blob-stored sha256_hex now bytes db =
    elim (Bool-cases (any (has_sha (sha256_hex bytes)) db.blobs)) [
      | inl e ↦ rw e (any-touched now (sha256_hex bytes) (sha256_hex bytes) db.blobs ∙ e)
      | inr e ↦ rw (e, any-append) (rw (e, eq_refl (sha256_hex bytes)) refl)
    ]

put_blob-keeps :
    (sha256_hex : List ℕ → String) (now : ℕ) (bytes : List ℕ) (sha : String) (db : Db)
    → is_stored sha db ≡ true
    → is_stored sha (put_blob sha256_hex now bytes db).1 ≡ true
unfolding put_blob
put_blob-keeps sha256_hex now bytes sha db h =
    elim (Bool-cases (any (has_sha (sha256_hex bytes)) db.blobs)) [
      | inl e ↦ rw e (any-touched now (sha256_hex bytes) sha db.blobs ∙ h)
      | inr e ↦ rw (e, any-append) (rw h refl)
    ]

-- Every value is the handle of a blob that is there.
unfoldable pub AllStored : Db → Fields → Type 0
AllStored db Fields.end = Unit
AllStored db (Fields.field name v fs) = (is_handle v db ≡ true) × AllStored db fs

put_blob-is_handle :
    (sha256_hex : List ℕ → String) (now : ℕ) (bytes : List ℕ) (v : Value) (db : Db)
    → is_handle v db ≡ true
    → is_handle v (put_blob sha256_hex now bytes db).1 ≡ true
put_blob-is_handle sha256_hex now bytes (Value.string sha) db h =
    put_blob-keeps sha256_hex now bytes sha db h
put_blob-is_handle sha256_hex now bytes Value.null db h = absurd (ground (arith, h))
put_blob-is_handle sha256_hex now bytes (Value.bool b) db h = absurd (ground (arith, h))
put_blob-is_handle sha256_hex now bytes (Value.number n) db h = absurd (ground (arith, h))
put_blob-is_handle sha256_hex now bytes (Value.array vs) db h = absurd (ground (arith, h))
put_blob-is_handle sha256_hex now bytes (Value.object fs) db h = absurd (ground (arith, h))

AllStored-put_blob :
    (sha256_hex : List ℕ → String) (now : ℕ) (bytes : List ℕ) (db : Db) (fs : Fields)
    → AllStored db fs
    → AllStored (put_blob sha256_hex now bytes db).1 fs
unfolding AllStored
AllStored-put_blob sha256_hex now bytes db Fields.end h = tt
AllStored-put_blob sha256_hex now bytes db (Fields.field name v fs) h = (
  put_blob-is_handle sha256_hex now bytes v db h.0,
  AllStored-put_blob sha256_hex now bytes db fs h.1,
)

AllStored-insert :
    (name sha : String) (db : Db) (fs : Fields)
    → is_stored sha db ≡ true
    → AllStored db fs
    → AllStored db (insert name (Value.string sha) fs)
unfolding AllStored insert
AllStored-insert name sha db Fields.end s h = (s, tt)
AllStored-insert name sha db (Fields.field j v fs) s h = elim (Bool-cases (str_eq j name)) [
  | inl e ↦ rw e (s, h.1)
  | inr e ↦ rw e (h.0, AllStored-insert name sha db fs s h.1)
]

store_found-AllStored :
    (sha256_hex : List ℕ → String) (now : ℕ) (found : List Found) (m out : Fields) (db : Db)
    → (store_found sha256_hex now found m db).0 ≡ Result.ok out
    → AllStored db m
    → AllStored (store_found sha256_hex now found m db).1 out
unfolding store_found
store_found-AllStored sha256_hex now [] m out db e h = rw⁻¹ (eq_of_ok e) h
store_found-AllStored sha256_hex now (fault f ∷ fs) m out db e h = absurd (ground (arith, e))
store_found-AllStored sha256_hex now (blob name bytes ∷ fs) m out db e h =
    store_found-AllStored sha256_hex now fs _ out _ e (
      AllStored-insert name (sha256_hex bytes) _ m (put_blob-stored sha256_hex now bytes db)
        (AllStored-put_blob sha256_hex now bytes db m h))

abbrev fields_of : Value → Fields
fields_of (Value.object fs) = fs
fields_of _ = Fields.end

ok_of_object :
    (stored : Result Fields String) (out : Fields)
    → object_of stored ≡ Result.ok (some (Value.object out))
    → stored ≡ Result.ok out
ok_of_object (Result.err f) out e = absurd (ground (arith, e))
ok_of_object (Result.ok Fields.end) out e = absurd (ground (arith, eq_of_ok e))
ok_of_object (Result.ok (Fields.field k v fs)) out e =
    ap (λ fs. Result.ok fs) (ap fields_of (eq_of_some (eq_of_ok e)))

-- Every handle of the map that a capture answers is the hash of a blob that is in the store then,
-- whatever the directory held and whatever was in the store before.
pub capture_output-AllStored :
    (sha256_hex : List ℕ → String) (now : ℕ) (dir : Dir) (db : Db) (out : Fields)
    → (capture_output sha256_hex now dir db).0 ≡ Result.ok (some (Value.object out))
    → AllStored (capture_output sha256_hex now dir db).1 out
unfolding capture_output AllStored
capture_output-AllStored sha256_hex now dir db out e =
    let (stored, db2) = store_found sha256_hex now (walk []ˢ dir) Fields.end db in
    store_found-AllStored sha256_hex now (walk []ˢ dir) Fields.end out db
      (ok_of_object stored out e) tt

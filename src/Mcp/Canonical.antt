-- ===== src/Mcp/Canonical.antt =====
-- The canonical text of a file map: the order of the files does not show in it, and a name may hold
-- the separators.
use Prim.Native.String.{◌++◌ as ◌++ˢ◌}
use mathlib.Core.List.{Permᴰ}
use text.Mathlib.TextLemmas.{append_assoc}
use dokan.Prelude.{String, true, ◌≡◌, ap, some, leb_text, sort_texts, sort_texts-Permᴰ, join}
use dokan.Json.{Value, Fields}
use dokan.Mcp.{blob_texts, canonical_input_blobs}

-- Two file maps with the same `name:sha` pairs, in whatever order each map gives them, have one
-- canonical text.
pub canonical_input_blobs-Permᴰ :
    (fs gs : Fields)
    → Permᴰ (blob_texts fs) (blob_texts gs)
    → canonical_input_blobs (some (Value.object fs))
      ≡ canonical_input_blobs (some (Value.object gs))
unfolding canonical_input_blobs
canonical_input_blobs-Permᴰ fs gs h = ap (join ",") (sort_texts-Permᴰ h)

-- Two files, and the one file whose name is made of the first file's pair and the second's name.
pub canonical_input_blobs-collides :
    (a x b y : String)
    → leb_text (a ++ˢ (":" ++ˢ x)) (b ++ˢ (":" ++ˢ y)) ≡ true
    → canonical_input_blobs (
        some (
          Value.object
            (Fields.field a (Value.string x) (Fields.field b (Value.string y) Fields.end))))
      ≡ canonical_input_blobs (
          some (
            Value.object
              (Fields.field (a ++ˢ (":" ++ˢ (x ++ˢ ("," ++ˢ b)))) (Value.string y) Fields.end)))
unfolding canonical_input_blobs blob_texts sort_texts join
canonical_input_blobs-collides a x b y h = rw h (simp append_assoc)

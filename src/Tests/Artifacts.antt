-- ===== src/Tests/Artifacts.antt =====
-- A pool of one image, a release for this platform, and hexadecimal text.
use dokan.Prelude.{◌+◌, ◌≤◌, ◌≡◌, refl, true, false, some, none, [], ◌∷◌, arith, ◌⊎◌, contains}
use dokan.Pool.{WarmPool, acquire, fill_image}
use dokan.Pool.Handed.{one, idle_count, Step, Reach, empty_pool, Reach-handed_once}
use dokan.Receipt.Codec.{hex, unhex, decoded}
use dokan.Receipt.Hex.{unhex-hex}
use dokan.Update.{Libraries, World, Assets, install}
use dokan.Update.Installs.{IsRelease, install-IsRelease}

unhex-hex_example : unhex (hex (0 ∷ 171 ∷ 255 ∷ [])) ≡ decoded (0 ∷ 171 ∷ 255 ∷ [])
unhex-hex_example = unhex-hex (0 ∷ 171 ∷ 255 ∷ []) (omega arith, (omega arith, (omega arith, tt)))

-- The filler makes two containers, of which two callers get one each.
abbrev filled : WarmPool
filled = fill_image 2 (true ∷ true ∷ []) "python" (empty_pool 2)

abbrev served_twice : WarmPool
served_twice = (acquire true "python" (acquire true "python" filled).1).1

Reach-handed_once_example : one 1 served_twice.used + idle_count 1 served_twice.idle ≤ 1
Reach-handed_once_example = Reach-handed_once 2 served_twice 1 (
    Reach.next
      (Reach.next (Reach.next Reach.here (Step.filled 2 (true ∷ true ∷ []) "python"))
        (Step.acquired true "python"))
      (Step.acquired true "python"))

abbrev toy : Libraries
toy = record {
  sha256 = λ bytes. 171 ∷ [];
  b64_decode = λ s. none;
  is_key = λ bytes. false;
  verify_strict = λ key msg sig. false;
  from_utf8 = λ bytes. some "ab  dokan-aarch64-apple-darwin";
  to_lowercase = λ s. s;
}

abbrev online : World
online = record {
  os = "macos";
  arch = "aarch64";
  download = λ url. some (7 ∷ []);
  pinned = none;
  renames = true;
  prints = some "dokan 1.2.3";
}

abbrev published : Assets
published = ("dokan-aarch64-apple-darwin", "u1") ∷ ("SHA256SUMS", "u2") ∷ []

install-IsRelease_example :
    ((install toy online published "1.2.3" (1 ∷ [])).1 ≡ 1 ∷ [])
    ⊎ IsRelease toy online published "1.2.3" (install toy online published "1.2.3" (1 ∷ [])).1
install-IsRelease_example = install-IsRelease toy online published "1.2.3" (1 ∷ [])

installed : (install toy online published "1.2.3" (1 ∷ [])).1 ≡ 7 ∷ []
unfolding install contains
installed = refl

-- ===== src/Update.antt =====
-- src/update.rs: the update of the daemon's own binary: the gate on versions, the choice of the asset, its
-- checksum and signature, and the replacement of the file. The order of versions is semver's; the
-- network, the file system and the started process are a `World`.
pub mod Installs
use Prim.Native.Char.{code}
use Prim.Native.String.{[] as []ˢ, ◌∷◌ as ◌∷ˢ◌, ◌++◌ as ◌++ˢ◌}
use dokan.Prelude.{
  ℕ, String, Bool, true, false, not, ◌&&◌, ◌||◌, Option, none, some, List, [], ◌∷◌, length, find?,
  ◌==◌, str_eq, is_empty, trim, split, split_whitespace, contains, if◌then◌else◌,
}
use dokan.Prelude.Result.{Result}
use dokan.Db.Flows.{and_then}
use dokan.Receipt.Codec.{hex}

pub data Order : Type 0 where
  less equal greater : Order

pub data Gate : Type 0 where
  up_to_date update ahead dev_build : Gate

-- `current.cmp(latest)`
unfoldable pub gate : Order → Bool → Bool → Gate
gate Order.equal force debug_build = Gate.up_to_date
gate Order.greater false debug_build = Gate.ahead
gate Order.greater true debug_build = Gate.update
gate Order.less force debug_build = if debug_build && not force then Gate.dev_build else Gate.update

unfoldable pub target_for : String → String → Option String
target_for os arch =
    if str_eq os "macos" && str_eq arch "aarch64"
    then some "aarch64-apple-darwin"
    else if str_eq os "macos" && str_eq arch "x86_64"
    then some "x86_64-apple-darwin"
    else if str_eq os "linux" && str_eq arch "x86_64"
    then some "x86_64-unknown-linux-gnu"
    else if str_eq os "linux" && str_eq arch "aarch64"
    then some "aarch64-unknown-linux-gnu"
    else none

abbrev named_target : Option String → Option String
named_target none = none
named_target (some t) = some ("dokan-" ++ˢ t)

unfoldable pub asset_name_for : String → String → Option String
unfolding target_for
asset_name_for os arch = named_target (target_for os arch)

-- `trim_start_matches('*')`
unfoldable pub unstarred : String → String
unstarred []ˢ = []ˢ
unstarred (c ∷ˢ s) = if code c == 42 then unstarred s else c ∷ˢ s

abbrev last_of : String → List String → String
last_of w [] = w
last_of w (v ∷ ws) = last_of v ws

-- The digest of a line that names the asset.
abbrev digest_in : String → List String → Option String
digest_in asset [] = none
digest_in asset (d ∷ []) = none
digest_in asset (d ∷ w ∷ ws) = if str_eq (unstarred (last_of w ws)) asset then some d else none

abbrev or_later : Option String → Option String → Option String
or_later (some d) later = some d
or_later none later = later

unfoldable pub sha_in_lines : String → List String → Option String
unfolding unstarred split_whitespace trim
sha_in_lines asset [] = none
sha_in_lines asset (l ∷ ls) =
    or_later (digest_in asset (split_whitespace (trim l))) (sha_in_lines asset ls)

abbrev lowered : (String → String) → Option String → Option String
lowered to_lowercase none = none
lowered to_lowercase (some d) = some (to_lowercase d)

unfoldable pub sha_for_asset : (String → String) → String → String → Option String
unfolding sha_in_lines split
sha_for_asset to_lowercase sums asset = lowered to_lowercase (sha_in_lines asset (split 10 sums))

-- The cryptography and texts of the libraries.
pub record Libraries : Type 0 where
  pub sha256 : List ℕ → List ℕ
  pub b64_decode : String → Option (List ℕ)
  pub is_key : List ℕ → Bool
  pub verify_strict : List ℕ → List ℕ → List ℕ → Bool
  pub from_utf8 : List ℕ → Option String
  pub to_lowercase : String → String

abbrev with_sig : Libraries → List ℕ → List ℕ → Option (List ℕ) → Bool
with_sig lib key msg none = false
with_sig lib key msg (some sig) = length sig == 64 && lib.verify_strict key msg sig

abbrev with_key : Libraries → Option (List ℕ) → List ℕ → Option (List ℕ) → Bool
with_key lib none msg sig = false
with_key lib (some key) msg sig = length key == 32 && lib.is_key key && with_sig lib key msg sig

unfoldable pub ed25519_verify_detached : Libraries → String → List ℕ → String → Bool
unfolding trim
ed25519_verify_detached lib pubkey msg sig =
    with_key lib (lib.b64_decode (trim pubkey)) msg (lib.b64_decode (trim sig))

-- No key is baked in: only the environment pins one.
unfoldable pub release_pubkey : Option String → Option String
unfolding trim is_empty
release_pubkey none = none
release_pubkey (some k) = let key = trim k in if is_empty key then none else some key

-- A name and its URL.
abbrev pub Assets : Type 0
Assets = List (String × String)

-- What happens in one installation: downloads, whether the new file is written and renamed, and what
-- the new binary prints as its version.
pub record World : Type 0 where
  pub os : String
  pub arch : String
  pub download : String → Option (List ℕ)
  pub pinned : Option String
  pub renames : Bool
  pub prints : Option String

abbrev asset_of : String → Assets → Option (String × String)
asset_of name assets = find? (λ a. str_eq a.0 name) assets

abbrev url_of : Option (String × String) → Option String
url_of none = none
url_of (some a) = some a.1

-- `none` for an asset that is not there or cannot be had.
unfoldable pub fetch : World → Assets → String → Option (List ℕ)
fetch world assets name = and_then (url_of (asset_of name assets)) world.download

module _ (lib : Libraries) (world : World) (assets : Assets) (latest : String) where
  -- The signature of the checksums, where a key is pinned.
  unfoldable pub is_authentic : List ℕ → Bool
  unfolding release_pubkey fetch ed25519_verify_detached
  is_authentic sums_raw = elim (release_pubkey world.pinned) [
    | none ↦ true
    | some pubkey ↦ elim (and_then (fetch world assets "SHA256SUMS.sig") lib.from_utf8) [
      | none ↦ false
      | some sig ↦ ed25519_verify_detached lib pubkey sums_raw sig
    ]
  ]

  abbrev pub expected : String → List ℕ → Option String
  expected asset sums_raw =
      and_then (lib.from_utf8 sums_raw) (λ sums. sha_for_asset lib.to_lowercase sums asset)

  abbrev pub has_digest : List ℕ → Option String → Bool
  has_digest bin none = false
  has_digest bin (some d) = str_eq (hex (lib.sha256 bin)) d

  abbrev pub reports : Option String → Bool
  reports none = false
  reports (some out) = contains out latest

  -- The rename, and then the check of the binary that is in place.
  unfoldable pub replace : List ℕ → List ℕ → Result (Unit {0}) String × List ℕ
  replace bin exe =
      if world.renames
      then (if reports world.prints
          then (Result.ok tt, bin)
          else (Result.err "post-install verification", bin))
      else (Result.err "atomic install", exe)

  unfoldable pub install_as :
      String → Option (List ℕ) → Option (List ℕ) → List ℕ → Result (Unit {0}) String × List ℕ
  unfolding is_authentic sha_for_asset hex replace
  install_as asset (some bin) (some sums_raw) exe =
      if is_authentic sums_raw
      then (if has_digest bin (expected asset sums_raw)
          then replace bin exe
          else (Result.err "checksum", exe))
      else (Result.err "signature", exe)
  install_as asset (some bin) none exe = (Result.err "downloading SHA256SUMS", exe)
  install_as asset none sums exe = (Result.err "downloading the release binary", exe)

  -- The answer, and the bytes at the path of the running binary afterwards.
  unfoldable pub install : List ℕ → Result (Unit {0}) String × List ℕ
  unfolding asset_name_for fetch install_as
  install exe = elim (asset_name_for world.os world.arch) [
    | none ↦ (Result.err "no prebuilt release asset for this platform", exe)
    | some asset ↦ install_as asset (fetch world assets asset) (fetch world assets "SHA256SUMS") exe
  ]

-- ===== src/Update/Installs.antt =====
-- What may take the place of the running binary.
use dokan.Prelude.{
  ℕ, String, Bool, true, false, ◌≡◌, refl, ap, sym, subst, ◌∙◌, ◌⊎◌, ◌≢◌, inl, inr, some, List,
  arith, Bool-cases, Option-cases,
}
use dokan.Prelude.Result.{Result}
use dokan.Update.{
  Libraries, World, Assets, asset_name_for, fetch, is_authentic, expected, has_digest, reports,
  replace, install_as, install, Order, Gate, gate,
}

module _ (lib : Libraries) (world : World) (assets : Assets) (latest : String) where
  -- The file at the path is the asset of this platform, with the digest of the checksums, which are
  -- signed under the pinned key where there is one.
  abbrev pub IsRelease : List ℕ → Type 0
  IsRelease bin =
      (asset : String) × (asset_name_for world.os world.arch ≡ some asset)
      × (fetch world assets asset ≡ some bin)
      × ((sums : List ℕ) × (fetch world assets "SHA256SUMS" ≡ some sums)
          × (is_authentic lib world assets latest sums ≡ true)
          × (has_digest lib world assets latest bin (expected lib world assets latest asset sums)
              ≡ true))

  replace-cases :
      (bin exe : List ℕ)
      → ((replace lib world assets latest bin exe).1 ≡ exe)
        ⊎ ((replace lib world assets latest bin exe).1 ≡ bin)
  unfolding replace
  replace-cases bin exe = elim (Bool-cases world.renames) [
    | inr e ↦ inl (ground (arith, e))
    | inl e ↦ inr (ground (arith, e))
  ]

  -- Whatever the network and the host do in an installation, the binary at the path is the one that was
  -- there, or a release whose checksum, and whose signature under a pinned key, were checked.
  pub install-IsRelease :
      (exe : List ℕ)
      → ((install lib world assets latest exe).1 ≡ exe)
        ⊎ IsRelease (install lib world assets latest exe).1
  unfolding install install_as
  install-IsRelease exe = elim (Option-cases (asset_name_for world.os world.arch)) [
    | inl e ↦ inl (rw (e, install) refl)
    | inr (asset, e) ↦ elim (Option-cases (fetch world assets asset)) [
      | inl f ↦ inl (rw (e, f, install) refl)
      | inr (bin, f) ↦ elim (Option-cases (fetch world assets "SHA256SUMS")) [
        | inl g ↦ inl (rw (e, f, g, install) refl)
        | inr (sums, g) ↦ elim (Bool-cases (is_authentic lib world assets latest sums)) [
          | inr h ↦ inl (rw (e, f, g, h, install) refl)
          | inl h ↦
              elim (Bool-cases (
                has_digest lib world assets latest bin
                  (expected lib world assets latest asset sums))) [
                    | inr k ↦ inl (rw (e, f, g, h, k, install) refl)
                    | inl k ↦ elim (replace-cases bin exe) [
                      | inl same ↦ inl (rw (e, f, g, h, k, install) same)
                      | inr new ↦
                          let installed : install lib world assets latest exe
                              ≡ replace lib world assets latest bin exe =
                            rw (e, f, g, h, k, install) refl in
                          let same : (install lib world assets latest exe).1 ≡ bin =
                            ap (λ (x : Result (Unit {0}) String × List ℕ). x.1) installed ∙ new in
                          inr (subst IsRelease (sym same) (asset, e, f, (sums, g, h, k)))
                    ]
                  ]
        ]
      ]
    ]
  ]

  -- An installation whose new binary does not report the release's version fails after that binary
  -- has taken the place of the old one.
  replace-unverified :
      (bin exe : List ℕ)
      → world.renames ≡ true
      → reports lib world assets latest world.prints ≡ false
      → replace lib world assets latest bin exe ≡ (Result.err "post-install verification", bin)
  unfolding replace
  replace-unverified bin exe r v = rw (r, v, replace) refl

-- Without force a debug build is never replaced, and no version is replaced by an older one.
pub gate-update :
    (order : Order) (force debug_build : Bool)
    → gate order force debug_build ≡ Gate.update
    → (order ≢ Order.equal) × (force ≡ false → (order ≡ Order.less) × (debug_build ≡ false))
unfolding gate
gate-update Order.equal force debug_build h = absurd (ground (arith, h))
gate-update Order.greater false debug_build h = absurd (ground (arith, h))
gate-update Order.greater true debug_build h =
    (λ e. ground (arith, e), λ e. absurd (ground (arith, e)))
gate-update Order.less true debug_build h =
    (λ e. ground (arith, e), λ e. absurd (ground (arith, e)))
gate-update Order.less false true h = absurd (ground (arith, h))
gate-update Order.less false false h = (λ e. ground (arith, e), λ e. (refl, refl))

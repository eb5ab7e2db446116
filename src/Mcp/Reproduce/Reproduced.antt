-- ===== src/Mcp/Reproduce/Reproduced.antt =====
-- What the verdict REPRODUCED says.
use dokan.Prelude.{
  subst, ℕ, String, true, false, ◌≡◌, refl, ap, Option, none, some, List, arith, Bool-cases,
  Option-cases, inl, inr, ◌&&◌, as_bytes, str_eq, eq_of_some,
}
use dokan.Json.{Value}
use dokan.Db.{Status, Script, Db}
use dokan.Db.Receipts.{Invocation, run_receipt, run_reproduce_inputs}
use dokan.Receipt.{Crypto, Signer, sha256_hex, verify_hmac}
use dokan.Receipt.Verify.{VerifyReport, is_ok, verify_receipt_with}
use dokan.Mcp.Reproduce.{
  Verdict, networked, same_output, text_at, ran, compared, polled, inserted, with_script,
  with_inputs, reproduce_run,
}

module _ (crypto : Crypto) (signer : Signer) (trusted : Option (List String)) where
  -- The new run has a receipt with the output of the old one.
  abbrev pub Matches : Value → ℕ → Db → Type 0
  Matches orig id u =
      (repro : Value) × (run_receipt id u ≡ some repro) × (same_output orig repro ≡ true)

  abbrev id_in : Verdict → ℕ
  id_in (Verdict.reproduced id) = id
  id_in _ = 0

  compared-Matches :
      (orig : Value) (id n : ℕ) (u : Db) (o : Option Value)
      → run_receipt id u ≡ o
      → compared crypto signer trusted orig id o ≡ Verdict.reproduced n
      → (id ≡ n) × Matches orig id u
  compared-Matches orig id n u none e h = absurd (ground (arith, h))
  compared-Matches orig id n u (some repro) e h = elim (Bool-cases (same_output orig repro)) [
    | inl t ↦ (ap id_in (rw t at h), (repro, e, t))
    | inr f ↦ absurd (ground (arith, rw f at h))
  ]

  -- A verdict and the database at the end.
  Sound : Value → Verdict × Db → Type 0
  Sound orig x = (n : ℕ) → x.0 ≡ Verdict.reproduced n → Matches orig n x.1

  polled-Sound :
      (orig : Value) (id : ℕ) (x : Option Status × Db)
      → Sound orig (polled crypto signer trusted orig id x)
  unfolding Sound
  polled-Sound orig id (st, u) n h = elim (Bool-cases (ran st)) [
    | inl t ↦
        let (same, matches) = compared-Matches orig id n u (run_receipt id u) refl (rw t at h) in
        rw t (subst (λ i. Matches orig i u) same matches)
    | inr f ↦ absurd (ground (arith, rw f at h))
  ]

  inserted-Sound :
      (waited : Db → Db) (timeout : ℕ) (orig : Value) (x : Option ℕ × Db)
      → Sound orig (inserted crypto signer trusted waited timeout orig x)
  unfolding Sound
  inserted-Sound waited timeout orig (none, u) n h = absurd (ground (arith, h))
  inserted-Sound waited timeout orig (some id, u) n h = polled-Sound orig id _ n h

  with_script-Sound :
      (waited : Db → Db) (now timeout : ℕ) (agent : Option String) (orig : Value) (inv : Invocation)
      (s : Option Script) (db : Db)
      → Sound orig (with_script crypto signer trusted waited now timeout agent orig inv s db)
  unfolding Sound
  with_script-Sound waited now timeout agent orig inv none db n h = absurd (ground (arith, h))
  with_script-Sound waited now timeout agent orig inv (some s) db n h =
      elim (Bool-cases
        (str_eq (sha256_hex crypto (as_bytes s.source)) (text_at "source_sha256" orig))) [
          | inl t ↦ rw t (inserted-Sound waited timeout orig _ n (rw t at h))
          | inr f ↦ absurd (ground (arith, rw f at h))
        ]

  with_inputs-Sound :
      (waited : Db → Db) (now timeout : ℕ) (agent : Option String) (orig : Value)
      (inv : Option Invocation) (db : Db)
      → Sound orig (with_inputs crypto signer trusted waited now timeout agent orig inv db)
  unfolding Sound
  with_inputs-Sound waited now timeout agent orig none db n h = absurd (ground (arith, h))
  with_inputs-Sound waited now timeout agent orig (some inv) db n h =
      with_script-Sound waited now timeout agent orig inv _ db n h

  -- The verdict REPRODUCED is given only where the run has a receipt without network access that
  -- verifies under its signature, its trusted keys and the HMAC, and where a new run has a receipt
  -- with the same hash of its result and the same files.
  pub reproduce_run_sound :
      (waited : Db → Db) (now timeout : ℕ) (agent : Option String) (run_id n : ℕ) (db u : Db)
      → reproduce_run crypto signer trusted waited now timeout agent run_id db
        ≡ some (Verdict.reproduced n, u)
      → (orig : Value) × (run_receipt run_id db ≡ some orig)
        × (networked orig ≡ false)
        × ((rep : VerifyReport) × (verify_receipt_with crypto orig trusted ≡ some rep)
            × ((is_ok rep && verify_hmac crypto signer orig) ≡ true))
        × Matches orig n u
  unfolding reproduce_run Sound
  reproduce_run_sound waited now timeout agent run_id n db u h =
      elim (Option-cases (run_receipt run_id db)) [
        | inl e ↦ absurd (ground (arith, rw (e, reproduce_run) at h))
        | inr (orig, e) ↦ elim (Bool-cases (networked orig)) [
          | inl t ↦ absurd (ground (arith, rw (e, t, reproduce_run) at h))
          | inr f ↦ elim (Option-cases (verify_receipt_with crypto orig trusted)) [
            | inl g ↦ absurd (ground (arith, rw (e, f, g, reproduce_run) at h))
            | inr (rep, g) ↦ elim (Bool-cases (is_ok rep && verify_hmac crypto signer orig)) [
              | inr k ↦ absurd (ground (arith, rw (e, f, g, k, reproduce_run) at h))
              | inl k ↦
                  let x =
                    with_inputs crypto signer trusted waited now timeout agent orig
                      (run_reproduce_inputs run_id db) db in
                  let same : x ≡ (Verdict.reproduced n, u) =
                    eq_of_some (rw (e, f, g, k, reproduce_run) at h) in
                  let sound =
                    with_inputs-Sound waited now timeout agent orig (run_reproduce_inputs run_id db)
                      db in
                  (
                    orig,
                    e,
                    f,
                    (rep, g, k),
                    subst (λ y. Matches orig n y.1) same
                        (sound n (ap (λ (y : Verdict × Db). y.0) same)),
                  )
            ]
          ]
        ]
      ]

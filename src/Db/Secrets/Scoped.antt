-- ===== src/Db/Secrets/Scoped.antt =====
-- Which value of a name a job sees.
use text.Mathlib.TextPositions.{eq_refl}
use dokan.Prelude.{
  ℕ, String, Bool, true, false, ◌≡◌, refl, ◌⊎◌, inl, inr, Option, none, some, List, [], ◌∷◌, ◌++◌,
  any, all, update_where, str_eq, not, ◌||◌, if◌then◌else◌, arith, eq_iff, Bool-cases,
}
use dokan.Db.{Secret, AgentSecret, Db}
use dokan.Db.Secrets.{
  Cipher, Codec, encrypt, is_named, is_scoped, put_secret, put_agent_secret, upsert_secret, put,
  lookup, add_global, add_scoped, load_secrets_for,
}

lookup-put :
    (k j v : String) (m : List (String × String))
    → lookup j (put k v m) ≡ (if str_eq k j then some v else lookup j m)
unfolding lookup put
lookup-put k j v [] = refl
lookup-put k j v ((i, w) ∷ m) =
    ground (arith, eq_iff k j, eq_iff i k, eq_iff i j, lookup-put k j v m)

-- Every row of the name holds the value.
abbrev holds : String → String → List Secret → Bool
holds name sealed rows = all (λ s. not (is_named name s) || str_eq s.value sealed) rows

abbrev holds_scoped : String → String → String → List AgentSecret → Bool
holds_scoped agent name sealed rows =
    all (λ s. not (is_scoped agent name s) || str_eq s.value sealed) rows

module _ (name sealed : String) where
  updated-holds :
      (rows : List Secret)
      → holds name sealed (update_where (is_named name) (λ s. record s { value = sealed }) rows)
        ≡ true
  unfolding update_where
  updated-holds [] = refl
  updated-holds (s ∷ rows) = ground (arith, updated-holds rows, eq_refl sealed)

  updated-any :
      (rows : List Secret)
      → any (is_named name) (update_where (is_named name) (λ s. record s { value = sealed }) rows)
        ≡ any (is_named name) rows
  unfolding update_where
  updated-any [] = refl
  updated-any (s ∷ rows) = ground (arith, updated-any rows)

  appended-holds :
      (rows : List Secret)
      → any (is_named name) rows ≡ false
      → (holds name sealed (rows ++ record { name = name; value = sealed } ∷ []) ≡ true)
        × (any (is_named name) (rows ++ record { name = name; value = sealed } ∷ []) ≡ true)
  appended-holds [] h = (ground (arith, eq_refl name, eq_refl sealed), ground (arith, eq_refl name))
  appended-holds (s ∷ rows) h =
      (ground (arith, appended-holds rows), ground (arith, appended-holds rows))

  put_secret-holds :
      (rows : List Secret)
      → (holds name sealed (put_secret name sealed rows) ≡ true)
        × (any (is_named name) (put_secret name sealed rows) ≡ true)
  unfolding put_secret
  put_secret-holds rows = elim (Bool-cases (any (is_named name) rows)) [
    | inl e ↦ rw e (updated-holds rows, rw (updated-any rows) e)
    | inr e ↦ rw e (appended-holds rows e)
  ]

module _ (decrypt : String → String) (name sealed : String) where
  lookup-add_global :
      (rows : List Secret) (m : List (String × String))
      → holds name sealed rows ≡ true
      → (any (is_named name) rows ≡ true) ⊎ (lookup name m ≡ some (decrypt sealed))
      → lookup name (add_global decrypt rows m) ≡ some (decrypt sealed)
  unfolding add_global
  lookup-add_global [] m h (inl e) = cc
  lookup-add_global [] m h (inr e) = e
  lookup-add_global (s ∷ rows) m h k =
      let rest = lookup-add_global rows (put s.name (decrypt s.value) m) in
      let new = lookup-put s.name name (decrypt s.value) m in
      elim (Bool-cases (str_eq s.name name)) [
        | inl e ↦
            let same : s.value ≡ sealed = (eq_iff s.value sealed).0 (ground arith) in
            rest (ground arith) (inr (rw (new, e, same) refl))
        | inr e ↦
            rest (ground arith)
              (elim k [ inl a ↦ inl (ground arith) | inr l ↦ inr (rw (new, e) l) ])
      ]

module _ (agent name sealed : String) where
  updated-holds_scoped :
      (rows : List AgentSecret)
      → holds_scoped agent name sealed
          (update_where (is_scoped agent name) (λ s. record s { value = sealed }) rows)
        ≡ true
  unfolding update_where
  updated-holds_scoped [] = refl
  updated-holds_scoped (s ∷ rows) = ground (arith, updated-holds_scoped rows, eq_refl sealed)

  updated-any_scoped :
      (rows : List AgentSecret)
      → any
          (is_scoped agent name)
          (update_where (is_scoped agent name) (λ s. record s { value = sealed }) rows)
        ≡ any (is_scoped agent name) rows
  unfolding update_where
  updated-any_scoped [] = refl
  updated-any_scoped (s ∷ rows) = ground (arith, updated-any_scoped rows)

  appended-holds_scoped :
      (rows : List AgentSecret)
      → any (is_scoped agent name) rows ≡ false
      → (holds_scoped agent name sealed
            (rows ++ record { agent_id = agent; name = name; value = sealed } ∷ [])
          ≡ true)
        × (any
              (is_scoped agent name)
              (rows ++ record { agent_id = agent; name = name; value = sealed } ∷ [])
            ≡ true)
  appended-holds_scoped [] h = (
    ground (arith, eq_refl agent, eq_refl name, eq_refl sealed),
    ground (arith, eq_refl agent, eq_refl name),
  )
  appended-holds_scoped (s ∷ rows) h =
      (ground (arith, appended-holds_scoped rows), ground (arith, appended-holds_scoped rows))

  put_agent_secret-holds :
      (rows : List AgentSecret)
      → (holds_scoped agent name sealed (put_agent_secret agent name sealed rows) ≡ true)
        × (any (is_scoped agent name) (put_agent_secret agent name sealed rows) ≡ true)
  unfolding put_agent_secret
  put_agent_secret-holds rows = elim (Bool-cases (any (is_scoped agent name) rows)) [
    | inl e ↦ rw e (updated-holds_scoped rows, rw (updated-any_scoped rows) e)
    | inr e ↦ rw e (appended-holds_scoped rows e)
  ]

  lookup-add_scoped :
      (decrypt : String → String) (rows : List AgentSecret) (m : List (String × String))
      → holds_scoped agent name sealed rows ≡ true
      → (any (is_scoped agent name) rows ≡ true) ⊎ (lookup name m ≡ some (decrypt sealed))
      → lookup name (add_scoped decrypt agent rows m) ≡ some (decrypt sealed)
  unfolding add_scoped
  lookup-add_scoped decrypt [] m h (inl e) = cc
  lookup-add_scoped decrypt [] m h (inr e) = e
  lookup-add_scoped decrypt (s ∷ rows) m h k = elim (Bool-cases (str_eq s.agent_id agent)) [
    | inr other ↦ rw other (
        lookup-add_scoped decrypt rows m (ground arith)
          (elim k [ inl a ↦ inl (ground arith) | inr l ↦ inr l ]))
    | inl mine ↦
        let rest = lookup-add_scoped decrypt rows (put s.name (decrypt s.value) m) in
        let new = lookup-put s.name name (decrypt s.value) m in
        rw mine (elim (Bool-cases (str_eq s.name name)) [
          | inl e ↦
              let same : s.value ≡ sealed = (eq_iff s.value sealed).0 (ground arith) in
              rest (ground arith) (inr (rw (new, e, same) refl))
          | inr e ↦
              rest (ground arith)
                (elim k [ inl a ↦ inl (ground arith) | inr l ↦ inr (rw (new, e) l) ])
        ])
  ]

-- What a load gives under the name of a secret that was set last, for an agent or for all, if the
-- stored text is read back; whatever was stored before, also for all agents under the same name.
pub upsert_secret-seen :
    (codec : Codec) (cipher : Option Cipher) (nonce : List ℕ) (name value : String)
    (agent : Option String) (decrypt : String → String) (db : Db)
    → decrypt (encrypt codec cipher nonce value) ≡ value
    → lookup name
        (load_secrets_for decrypt agent (upsert_secret codec cipher nonce name value agent db))
      ≡ some value
unfolding upsert_secret load_secrets_for
upsert_secret-seen codec cipher nonce name value none decrypt db back =
    let sealed = encrypt codec cipher nonce value in
    let (h, a) = put_secret-holds name sealed db.secrets in
    let seen =
      lookup-add_global decrypt name sealed (put_secret name sealed db.secrets) [] h (inl a) in
    rw back at seen
upsert_secret-seen codec cipher nonce name value (some agent) decrypt db back =
    let sealed = encrypt codec cipher nonce value in
    let (h, a) = put_agent_secret-holds agent name sealed db.agent_secrets in
    let seen =
      lookup-add_scoped agent name sealed decrypt
        (put_agent_secret agent name sealed db.agent_secrets) (add_global decrypt db.secrets []) h
        (inl a) in
    rw back at seen

-- ===== src/Registration/Attempt.antt =====
-- What opening a credential and trying a one-shot token leaves.
use elab_core.Prelude.{
  String, ◌≡◌, refl, ◌∙◌, Bool, true, false, Option, none, some, ◌==◌, ◌||◌, is_some, arith, eq_iff,
  Option-cases, Bool-cases, inl, inr, ◌⊎◌,
}
use elab_core.Prelude.Dict.{get, get-set}
use elab_core.ConfigStore.{
  pending, approved, pending_row, get_credential, upsert_pending_credential, approve_credential,
}
use elab_core.Pairing.{
  Ephemeral, get_ephemeral_credential, set_ephemeral_credential, approve_ephemeral_credential,
  consume_auto_approve_token, store_ephemeral,
}
use elab_core.State.{State}
use elab_core.Registration.Request.{
  Env, Paired, of_row, of_ephemeral, stored_credential, credential_of, with_store, open_credential,
  approve_device, open_and_try_token,
}

-- the credential that `open_credential` leaves where there was none for this manifest
abbrev pub fresh : Env → String → Paired
fresh env hash = record { secret_hex = env.fresh_secret; manifest_hash = hash; status = pending }

-- There is no credential of the device for this manifest.
abbrev pub Unpaired : String → Option Paired → Type 0
Unpaired hash o = (o ≡ none) ⊎ ((c : Paired) × (o ≡ some c) × ((c.manifest_hash == hash) ≡ false))

module _ (env : Env) (d hash : String) (ip : Option String) where
  open_ephemeral :
      (s : State)
      → Unpaired hash (credential_of true d s)
      → credential_of true d (open_credential env true d hash ip s) ≡ some (fresh env hash)
  unfolding credential_of of_ephemeral open_credential get_ephemeral_credential
      set_ephemeral_credential store_ephemeral
  open_ephemeral s u =
      let entry : Ephemeral = record {
        secret_hex = env.fresh_secret;
        manifest_hash = hash;
        status = pending;
      } in
      elim (Option-cases (get s.pairing.ephemeral_credentials d)) [
        | inl e ↦ ground (arith, e, get-set s.pairing.ephemeral_credentials d entry d, eq_iff d d)
        | inr (x, e) ↦ elim u [
          | inl n ↦ absurd (ground (arith, e, n))
          | inr (c, f, ne) ↦
              ground
                (arith, e, f, ne, get-set s.pairing.ephemeral_credentials d entry d, eq_iff d d)
        ]
      ]

  open_stored :
      (s : State)
      → is_some s.config_store ≡ true
      → Unpaired hash (credential_of false d s)
      → credential_of false d (open_credential env false d hash ip s) ≡ some (fresh env hash)
  unfolding credential_of of_row stored_credential open_credential with_store get_credential
      upsert_pending_credential
  open_stored s h u = elim (Option-cases s.config_store) [
    | inl n ↦ absurd (ground (arith, n, h))
    | inr (c, k) ↦
        let old = get c.provider_credentials d in
        let row = pending_row env.fresh_secret hash ip env.now old in
        elim (Option-cases old) [
          | inl e ↦ ground (arith, k, e, get-set c.provider_credentials d row d, eq_iff d d)
          | inr (x, e) ↦ elim u [
            | inl n ↦ absurd (ground (arith, k, e, n))
            | inr (y, f, ne) ↦
                ground (arith, k, e, f, ne, get-set c.provider_credentials d row d, eq_iff d d)
          ]
        ]
  ]

  approve_ephemeral :
      (s : State) (x : Paired)
      → credential_of true d s ≡ some x
      → x.manifest_hash ≡ hash
      → credential_of true d (approve_device env true d hash s)
        ≡ some (record x { status = approved })
  unfolding credential_of of_ephemeral approve_device get_ephemeral_credential
      approve_ephemeral_credential
  approve_ephemeral s x f h = elim (Option-cases (get s.pairing.ephemeral_credentials d)) [
    | inl e ↦ absurd (ground (arith, e, f))
    | inr (y, e) ↦ ground (
      arith,
      e,
      f,
      h,
      eq_iff y.manifest_hash hash,
      eq_iff d d,
      get-set s.pairing.ephemeral_credentials d (record y { status = approved }) d,
    )
  ]

  approve_stored :
      (s : State) (x : Paired)
      → credential_of false d s ≡ some x
      → x.manifest_hash ≡ hash
      → credential_of false d (approve_device env false d hash s)
        ≡ some (record x { status = approved })
  unfolding credential_of of_row stored_credential approve_device with_store get_credential
      approve_credential
  approve_stored s x f h = elim (Option-cases s.config_store) [
    | inl n ↦ absurd (ground (arith, n, f))
    | inr (c, k) ↦ elim (Option-cases (get c.provider_credentials d)) [
      | inl e ↦ absurd (ground (arith, k, e, f))
      | inr (y, e) ↦ ground (
        arith,
        k,
        e,
        f,
        h,
        eq_iff y.manifest_hash hash,
        eq_iff d d,
        get-set c.provider_credentials d
            (record y { status = approved; approved_at = some env.now }) d,
      )
    ]
  ]

  open_lem :
      (e : Bool) (s : State)
      → (is_some s.config_store || e) ≡ true
      → Unpaired hash (credential_of e d s)
      → credential_of e d (open_credential env e d hash ip s) ≡ some (fresh env hash)
  open_lem true s h u = open_ephemeral s u
  open_lem false s h u = open_stored s (ground arith) u

  pub approve_lem :
      (e : Bool) (s : State) (x : Paired)
      → credential_of e d s ≡ some x
      → x.manifest_hash ≡ hash
      → credential_of e d (approve_device env e d hash s) ≡ some (record x { status = approved })
  approve_lem true = approve_ephemeral
  approve_lem false = approve_stored

consume_keeps :
    (e : Bool) (d : String) (token : Option String) (s : State)
    → credential_of e d (record s { pairing = (consume_auto_approve_token token s.pairing).0 })
      ≡ credential_of e d s
unfolding credential_of consume_auto_approve_token get_ephemeral_credential
consume_keeps e d none s = refl
consume_keeps e d (some t) s = ground arith

-- what `open_and_try_token` leaves: the fresh credential, approved and handed out, or not
abbrev pub Outcome : Env → String → Option Paired → Option String → Type 0
Outcome env hash o issued =
    ((o ≡ some (fresh env hash)) × (issued ≡ none))
    ⊎ ((o ≡ some (record (fresh env hash) { status = approved }))
        × (issued ≡ some env.fresh_secret))

pub open_and_try_token_lem :
    (env : Env) (e : Bool) (d hash : String) (ip token : Option String) (s : State)
    → (is_some s.config_store || e) ≡ true
    → Unpaired hash (credential_of e d s)
    → let (t, issued) = open_and_try_token env e d hash ip token s in
      Outcome env hash (credential_of e d t) issued
unfolding open_and_try_token
open_and_try_token_lem env e d hash ip token s h u =
    let opened = open_credential env e d hash ip s in
    let consumed = record opened {
      pairing = (consume_auto_approve_token token opened.pairing).0;
    } in
    let o = consume_keeps e d token opened ∙ open_lem env d hash ip e s h u in
    elim (Bool-cases (consume_auto_approve_token token opened.pairing).1) [
      | inl ok ↦ inr (
        ground (arith, ok, approve_lem env d hash ip e consumed (fresh env hash) o refl),
        ground (arith, ok),
      )
      | inr bad ↦ inl (ground (arith, bad, o), ground (arith, bad))
    ]

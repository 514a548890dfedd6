-- ===== src/ConfigStore/Upsert.antt =====
-- What a device that asks again does to its credential.
use elab_core.Prelude.{
  ℕ, String, ◌≡◌, refl, ◌⊎◌, inl, inr, Option, none, some, ◌==◌, ◌&&◌, arith, eq_iff, Bool-cases,
}
use elab_core.Prelude.Dict.{get, get-set}
use elab_core.ConfigStore.{
  ConfigStore, Credential, pending, approved, get_credential, pending_row, is_approved,
  upsert_pending_credential,
}
use elab_core.ConfigStore.Credentials.{IsApproved}

pending_row-cases :
    (secret hash : String) (ip : Option String) (now : ℕ) (o : Option Credential)
    → let new = pending_row secret hash ip now o in
      (new.manifest_hash ≡ hash)
      × (((row : Credential) × (o ≡ some row)
            × (row.status ≡ approved)
            × (row.manifest_hash ≡ hash)
            × (row.secret_hex ≡ new.secret_hex)
            × (new.status ≡ approved))
          ⊎ ((new.status ≡ pending) × (new.secret_hex ≡ secret) × (new.approved_at ≡ none)))
unfolding pending_row is_approved
pending_row-cases secret hash ip now none = (refl, inr (refl, refl, refl))
pending_row-cases secret hash ip now (some row) =
    elim (Bool-cases (is_approved row.status && row.manifest_hash == hash)) [
      | inl kept ↦ (
        ground (arith, kept, eq_iff row.manifest_hash hash),
        inl (
          row,
          refl,
          ground (arith, kept),
          ground (arith, kept, eq_iff row.manifest_hash hash),
          ground (arith, kept),
          ground (arith, kept),
        ),
      )
      | inr reset ↦ (
        ground (arith, reset),
        inr (ground (arith, reset), ground (arith, reset), ground (arith, reset)),
      )
    ]

-- `upsert_pending_credential` leaves a credential for the given hash: it stays approved, with the
-- secret that it had, if it was approved for that hash; in all other cases it is pending, with
-- the new secret and no time of approval.
pub upsert_lem :
    (d secret hash : String) (ip : Option String) (now : ℕ) (c : ConfigStore)
    → (row : Credential) × (get_credential (upsert_pending_credential d secret hash ip now c) d
        ≡ some row)
      × (row.manifest_hash ≡ hash)
      × ((IsApproved c d hash row.secret_hex × (row.status ≡ approved))
          ⊎ ((row.status ≡ pending) × (row.secret_hex ≡ secret) × (row.approved_at ≡ none)))
unfolding upsert_pending_credential get_credential
upsert_lem d secret hash ip now c =
    let old = get c.provider_credentials d in
    let new = pending_row secret hash ip now old in
    let (hash_eq, outcome) = pending_row-cases secret hash ip now old in
    (
      new,
      ground (arith, get-set c.provider_credentials d new d, eq_iff d d),
      hash_eq,
      elim outcome [
        | inl (row, found, status, same, secret_eq, kept) ↦ inl (
          record {
            row = row;
            found = found;
            status = status;
            hash_eq = same;
            secret_eq = secret_eq;
          },
          kept,
        )
        | inr fresh ↦ inr fresh
      ],
    )

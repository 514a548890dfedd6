-- ===== src/ConfigStore/Credentials.antt =====
-- The life of a credential in the table, over every method that writes one.
use elab_core.Prelude.{
  ℕ, String, ◌≡◌, sym, ◌∙◌, ◌⊎◌, inl, inr, Bool, true, false, Option, none, some, List, [], ◌∷◌,
  ◌==◌, ◌&&◌, any, arith, eq_iff, Option-cases, Bool-cases,
}
use elab_core.Prelude.Dict.{get, get-set, get-pop}
use elab_core.ConfigStore.{
  ConfigStore, Credential, approved, revoked, get_credential, pending_row,
  upsert_pending_credential, approve_credential, revoke_credential, delete_credential,
}

-- the calls that write the table `provider_credentials`
pub data Call : Type 0 where
  upsert : (device_id secret hash : String) → Option String → ℕ → Call
  approve : (device_id hash : String) → ℕ → Call
  revoke : (device_id : String) → Call
  delete : (device_id : String) → Call

unfoldable pub call : Call → ConfigStore → ConfigStore
call (upsert d secret hash ip now) c = upsert_pending_credential d secret hash ip now c
call (approve d hash now) c = (approve_credential d hash now c).0
call (revoke d) c = (revoke_credential d c).0
call (delete d) c = (delete_credential d c).0

abbrev target : Call → String
target (upsert d _ _ _ _) = d
target (approve d _ _) = d
target (revoke d) = d
target (delete d) = d

-- A call on one device leaves the credentials of every other device as they were.
pub call-frame :
    (k : Call) (c : ConfigStore) (d : String)
    → (target k == d) ≡ false
    → get_credential (call k c) d ≡ get_credential c d
unfolding call get_credential upsert_pending_credential approve_credential revoke_credential
    delete_credential
call-frame (upsert e secret hash ip now) c d h = ground (
  arith,
  get-set c.provider_credentials e (pending_row secret hash ip now (get c.provider_credentials e))
      d,
)
call-frame (approve e hash now) c d h = elim (Option-cases (get c.provider_credentials e)) [
  | inl p ↦ ground (arith, p)
  | inr (row, p) ↦ ground (
    arith,
    p,
    get-set c.provider_credentials e (record row { status = approved; approved_at = some now }) d,
  )
]
call-frame (revoke e) c d h = elim (Option-cases (get c.provider_credentials e)) [
  | inl p ↦ ground (arith, p)
  | inr (row, p) ↦
      ground (arith, p, get-set c.provider_credentials e (record row { status = revoked }) d)
]
call-frame (delete e) c d h = ground (arith, get-pop c.provider_credentials e d)

abbrev pub is_approval : String → String → Call → Bool
is_approval d hash (approve e h _) = e == d && h == hash
is_approval d hash _ = false

-- The credential of `d` is approved, for the manifest `hash`, with this secret.
pub record IsApproved (c : ConfigStore) (d hash secret : String) : Type 0 where
  pub row : Credential
  pub found : get_credential c d ≡ some row
  pub status : row.status ≡ approved
  pub hash_eq : row.manifest_hash ≡ hash
  pub secret_eq : row.secret_hex ≡ secret

upsert-origin :
    (d secret hash : String) (ip : Option String) (now : ℕ) (c : ConfigStore) {h s : String}
    → IsApproved (upsert_pending_credential d secret hash ip now c) d h s
    → IsApproved c d h s
unfolding upsert_pending_credential get_credential
upsert-origin d secret hash ip now c a =
    let new = pending_row secret hash ip now (get c.provider_credentials d) in
    elim (Option-cases (get c.provider_credentials d)) [
      | inl p ↦
          ground (arith, p, a.found, a.status, get-set c.provider_credentials d new d, eq_iff d d)
      | inr (row, p) ↦ record {
        row = row;
        found = p;
        status =
            ground
              (arith, p, a.found, a.status, get-set c.provider_credentials d new d, eq_iff d d);
        hash_eq = ground (
          arith,
          p,
          a.found,
          a.status,
          a.hash_eq,
          get-set c.provider_credentials d new d,
          eq_iff d d,
        );
        secret_eq = ground (
          arith,
          p,
          a.found,
          a.status,
          a.secret_eq,
          get-set c.provider_credentials d new d,
          eq_iff d d,
        );
      }
    ]

-- If the lookup of `d` is what it was, so is its approval.
unchanged :
    (c c' : ConfigStore) (d : String) {h s : String}
    → get_credential c' d ≡ get_credential c d
    → IsApproved c' d h s
    → IsApproved c d h s
unchanged c c' d e a = record {
  row = a.row;
  found = sym e ∙ a.found;
  status = a.status;
  hash_eq = a.hash_eq;
  secret_eq = a.secret_eq;
}

approve-origin :
    (d hash : String) (now : ℕ) (c : ConfigStore) {h s : String}
    → IsApproved (approve_credential d hash now c).0 d h s
    → (is_approval d h (approve d hash now) ≡ true) ⊎ IsApproved c d h s
unfolding approve_credential get_credential
approve-origin d hash now c {h} a = elim (Option-cases (get c.provider_credentials d)) [
  | inl p ↦ ground (arith, p, a.found)
  | inr (row, p) ↦ elim (Bool-cases (row.manifest_hash == hash)) [
    | inl same ↦ inl (
        ground (
          arith,
          p,
          same,
          a.found,
          a.hash_eq,
          eq_iff d d,
          eq_iff hash h,
          eq_iff row.manifest_hash hash,
          get-set c.provider_credentials d
              (record row { status = approved; approved_at = some now }) d,
        ))
    | inr other ↦
        inr (unchanged c (approve_credential d hash now c).0 d (ground (arith, p, other)) a)
  ]
]

revoke-origin :
    (d : String) (c : ConfigStore) {h s : String} → IsApproved (revoke_credential d c).0 d h s → ⊥
unfolding revoke_credential get_credential
revoke-origin d c a = elim (Option-cases (get c.provider_credentials d)) [
  | inl p ↦ ground (arith, p, a.found)
  | inr (row, p) ↦ ground (
    arith,
    p,
    a.found,
    a.status,
    eq_iff d d,
    get-set c.provider_credentials d (record row { status = revoked }) d,
  )
]

delete-origin :
    (d : String) (c : ConfigStore) {h s : String} → IsApproved (delete_credential d c).0 d h s → ⊥
unfolding delete_credential get_credential
delete-origin d c a = ground (arith, a.found, eq_iff d d, get-pop c.provider_credentials d d)

same_device :
    (k : Call) (c : ConfigStore) (d : String) {h s : String}
    → target k ≡ d
    → IsApproved (call k c) d h s
    → (is_approval d h k ≡ true) ⊎ IsApproved c d h s
unfolding call
same_device (upsert e secret hash ip now) c d p =
    rw (← p) (λ a. inr (upsert-origin e secret hash ip now c a))
same_device (approve e hash now) c d p = rw (← p) (approve-origin e hash now c)
same_device (revoke e) c d p = rw (← p) (λ a. absurd (revoke-origin e c a))
same_device (delete e) c d p = rw (← p) (λ a. absurd (delete-origin e c a))

-- After one call the credential of a device is approved only if the call approved it for the
-- manifest hash that the credential bears, or if it was approved before, for the same hash and
-- with the same secret.
pub call-origin :
    (k : Call) (c : ConfigStore) (d : String) {h s : String}
    → IsApproved (call k c) d h s
    → (is_approval d h k ≡ true) ⊎ IsApproved c d h s
call-origin k c d a = elim (Bool-cases (target k == d)) [
  | inl same ↦ same_device k c d ((eq_iff (target k) d).0 same) a
  | inr other ↦ inr (unchanged c (call k c) d (call-frame k c d other) a)
]

unfoldable pub calls : List Call → ConfigStore → ConfigStore
calls [] c = c
calls (k ∷ ks) c = calls ks (call k c)

calls-origin :
    (ks : List Call) (c : ConfigStore) (d : String) {h s : String}
    → IsApproved (calls ks c) d h s
    → (any (is_approval d h) ks ≡ true) ⊎ IsApproved c d h s
unfolding calls
calls-origin [] c d a = inr a
calls-origin (k ∷ ks) c d a = elim (calls-origin ks (call k c) d a) [
  | inl later ↦ inl (ground (arith, later))
  | inr before ↦ elim (call-origin k c d before) [
    | inl now ↦ inl (ground (arith, now))
    | inr first ↦ inr first
  ]
]

-- Whatever the calls, in whatever order: the credential of a device that the table did not know
-- is approved only if one of the calls approved that device for exactly that manifest hash.
pub approval_needed :
    (ks : List Call) (c : ConfigStore) (d : String) {h s : String}
    → get_credential c d ≡ none
    → IsApproved (calls ks c) d h s
    → any (is_approval d h) ks ≡ true
approval_needed ks c d fresh a = elim (calls-origin ks c d a) [
  | inl yes' ↦ yes'
  | inr old ↦ cc (fresh, old.found)
]

-- ===== src/Stream/Gate.antt =====
-- Which packets the authentication gate lets through.
use elab_core.Prelude.{
  String, ◌≤◌, ◌≡◌, refl, true, false, Option, none, some, ◌&&◌, opt_eq, opt_eq_iff, arith,
  distance, eq_iff, Option-cases, inl, inr, ◌↔◌, ◌⊎◌, ◌+◌,
}
use elab_core.Prelude.Dict.{get}
use elab_core.Manifest.{Manifest, resolve_device_id}
use elab_core.ConfigStore.{ConfigStore, Credential, get_credential}
use elab_core.Registry.{find_provider_sid, find_owner, manifests, Registry}
use elab_core.Pairing.{Pairing, is_ui_internal, get_secret_for_source, forget_secret}
use elab_core.Pairing.Secrets.{forget_secret_lem}
use elab_core.State.{State}
use elab_core.Registration.Operator.{handle_revoke_device}
use elab_core.Registration.Revocation.{pairing-after, registry-after}
use elab_core.Stream.{
  Timestamp, epoch, before_epoch, infinity, minus_infinity, nan, is_skewed, Auth, Payload, Keys,
  sign_payload, check_signature, check_block, verify_payload, verified, accepts,
}

-- The time is no more than the limit from the server's clock.
abbrev pub IsRecent : Keys → Timestamp → Type 0
IsRecent k (epoch t) = distance k.server_time t ≤ k.max_skew
IsRecent k (before_epoch t) = k.server_time + t ≤ k.max_skew
IsRecent k infinity = ⊥
IsRecent k minus_infinity = ⊥
IsRecent k nan = ⊥

-- The packet was sent by the session that owns its source, and bears a signature of its body with
-- the secret of the source's device, for a time close to the server's or for NaN.
pub record IsAuthentic (k : Keys) (sid : String) (x : Payload) (s : State) : Type 0 where
  pub owner : find_provider_sid s.registry x.source_id ≡ some sid
  pub secret : String
  pub held : get_secret_for_source x.source_id s.registry s.pairing ≡ some secret
  pub ts : Timestamp
  pub block : x.auth ≡ some (record { sig = some (sign_payload k secret ts x.body); ts = some ts })
  pub recent : IsRecent k ts ⊎ (ts ≡ nan)

is_skewed-eq : (k : Keys) (ts : Timestamp) → (is_skewed k ts ≡ false) ↔ (IsRecent k ts ⊎ (ts ≡ nan))
unfolding is_skewed
is_skewed-eq k (epoch t) = (
  λ h. inl (ground (arith, h)),
  λ o. elim o [ inl h ↦ ground (arith, h) | inr e ↦ ground (arith, e) ],
)
is_skewed-eq k (before_epoch t) = (
  λ h. inl (ground (arith, h)),
  λ o. elim o [ inl h ↦ ground (arith, h) | inr e ↦ ground (arith, e) ],
)
is_skewed-eq k infinity =
    (λ h. ground (arith, h), λ o. elim o [ inl h ↦ absurd h | inr e ↦ ground (arith, e) ])
is_skewed-eq k minus_infinity =
    (λ h. ground (arith, h), λ o. elim o [ inl h ↦ absurd h | inr e ↦ ground (arith, e) ])
is_skewed-eq k nan = (λ h. inr refl, λ o. refl)

-- The block of a packet that verifies.
block_of :
    (k : Keys) (secret body : String) (sig : Option String) (ts : Option Timestamp)
    → check_block k secret body sig ts ≡ none
    → (t : Timestamp) × (sig ≡ some (sign_payload k secret t body))
      × (ts ≡ some t)
      × (IsRecent k t ⊎ (t ≡ nan))
unfolding check_block check_signature
block_of k secret body none ts h = cc
block_of k secret body (some sig) none h = cc
block_of k secret body (some sig) (some ts) h = (
  ts,
  ground (arith, h, eq_iff (sign_payload k secret ts body) sig),
  refl,
  (is_skewed-eq k ts).0 (ground (arith, h)),
)

verify_lem :
    (k : Keys) (x : Payload) (secret : String) (o : Option Auth)
    → x.auth ≡ o
    → verify_payload k x secret ≡ none
    → (t : Timestamp) × (x.auth
        ≡ some (record { sig = some (sign_payload k secret t x.body); ts = some t }))
      × (IsRecent k t ⊎ (t ≡ nan))
unfolding verify_payload
verify_lem k x secret none e h = ground (arith, e, h)
verify_lem k x secret (some a) e h =
    let (t, p, q, near) = block_of k secret x.body a.sig a.ts (ground (arith, e, h)) in
    (t, ground (arith, e, p, q), near)

verify_complete :
    (k : Keys) (x : Payload) (secret : String) (t : Timestamp)
    → x.auth ≡ some (record { sig = some (sign_payload k secret t x.body); ts = some t })
    → (IsRecent k t ⊎ (t ≡ nan))
    → verify_payload k x secret ≡ none
unfolding verify_payload check_block check_signature
verify_complete k x secret t e near = ground (
  arith,
  e,
  (is_skewed-eq k t).1 near,
  eq_iff (sign_payload k secret t x.body) (sign_payload k secret t x.body),
)

module _ (k : Keys) (sid : String) (x : Payload) (s : State) (required : k.is_auth_required ≡ true)
    (foreign : is_ui_internal x.source_id s.pairing ≡ false) where
  accepts-eq : accepts k sid x s ≡ (
      opt_eq (find_provider_sid s.registry x.source_id) (some sid)
      && verified k x (get_secret_for_source x.source_id s.registry s.pairing))
  unfolding accepts
  accepts-eq = ground (arith, required, foreign)

  sound : accepts k sid x s ≡ true → IsAuthentic k sid x s
  unfolding verified
  sound h = elim (Option-cases (get_secret_for_source x.source_id s.registry s.pairing)) [
    | inl e ↦ absurd (ground (arith, e, h, accepts-eq))
    | inr (secret, e) ↦
        let (t, block, near) =
          verify_lem k x secret x.auth refl (ground (arith, e, h, accepts-eq)) in
        record {
          owner = ground (
            arith,
            e,
            h,
            accepts-eq,
            opt_eq_iff (find_provider_sid s.registry x.source_id) (some sid),
          );
          secret = secret;
          held = e;
          ts = t;
          block = block;
          recent = near;
        }
  ]

  complete : IsAuthentic k sid x s → accepts k sid x s ≡ true
  unfolding verified
  complete a = ground (
    arith,
    accepts-eq,
    a.held,
    a.owner,
    verify_complete k x a.secret a.ts a.block a.recent,
    opt_eq_iff (find_provider_sid s.registry x.source_id) (some sid),
  )

  -- Where authentication is required, a packet for a source that is not the user interface's own
  -- passes the gate exactly if the session that sent it owns the source and the packet bears the
  -- signature of its body with the secret of the source's device, for a time within the limit or
  -- for NaN, which passes at any time.
  pub accepts_lem : (accepts k sid x s ≡ true) ↔ IsAuthentic k sid x s
  accepts_lem = (sound, complete)

secret_of_owner :
    (source d : String) (r : Registry) (p : Pairing) (m : Manifest)
    → find_owner source (manifests r.providers) ≡ some m
    → resolve_device_id m ≡ d
    → get p.approved_secrets d ≡ none
    → get_secret_for_source source r p ≡ none
unfolding get_secret_for_source
secret_of_owner source d r p m owned same gone = ground (arith, owned, same, gone)

-- Where authentication is required: once the operator has revoked a device that has a stored
-- credential, no packet for a source that a provider of that device owns and that is not the user
-- interface's own passes the gate, whoever sends it and however it is signed.
pub revoked_is_silent :
    (k : Keys) (sid d : String) (x : Payload) (s : State) (c : ConfigStore) (row : Credential)
    (m : Manifest)
    → k.is_auth_required ≡ true
    → is_ui_internal x.source_id s.pairing ≡ false
    → s.config_store ≡ some c
    → get_credential c d ≡ some row
    → find_owner x.source_id (manifests s.registry.providers) ≡ some m
    → resolve_device_id m ≡ d
    → accepts k sid x (handle_revoke_device d s) ≡ false
unfolding accepts verified is_ui_internal forget_secret
revoked_is_silent k sid d x s c row m required foreign store known owned same =
    let gone =
      secret_of_owner x.source_id d s.registry (forget_secret d s.pairing) m owned same
        (forget_secret_lem d s.pairing).0 in
    ground (
      arith,
      required,
      foreign,
      gone,
      pairing-after d s store known,
      registry-after d s store known,
    )

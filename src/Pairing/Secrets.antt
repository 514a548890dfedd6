-- ===== src/Pairing/Secrets.antt =====
-- Secrets of devices and sessions: who has one, and how it is forgotten.
use elab_core.Prelude.{
  String, ◌≡◌, refl, true, none, some, List, [], ◌∷◌, ◌==◌, ◌&&◌, opt_eq, is_some, if◌then◌else◌,
  arith, eq_iff, Option-cases, inl, inr,
}
use elab_core.Prelude.Dict.{Dict, get, pop, get-pop}
use elab_core.Prelude.TextSet.{has}
use elab_core.Pairing.{
  Pairing, get_ephemeral_credential, get_secret_for_sid, unmap_device, sessions, forget_secret,
}

get-unmap_device :
    (d : String) (sids : List String) (m : Dict String) (q : String)
    → get (unmap_device d sids m) q
      ≡ (if has sids q && opt_eq (get m q) (some d) then none else get m q)
unfolding unmap_device has
get-unmap_device d [] m q = refl
get-unmap_device d (s ∷ sids) m q = ground (
  arith,
  get-unmap_device d sids (if opt_eq (get m s) (some d) then pop m s else m) q,
  get-pop m s q,
  eq_iff s q,
)

has-sessions : (m : Dict String) (q : String) → is_some (get m q) ≡ true → has (sessions m) q ≡ true
unfolding get has
has-sessions [] q h = cc
has-sessions ((s, d) ∷ m) q h = ground (arith, has-sessions m q)

sid_to_device-forget_secret :
    (d : String) (p : Pairing) (q : String)
    → get (forget_secret d p).sid_to_device q
      ≡ (if opt_eq (get p.sid_to_device q) (some d) then none else get p.sid_to_device q)
unfolding forget_secret
sid_to_device-forget_secret d p q = ground (
  arith,
  get-unmap_device d (sessions p.sid_to_device) p.sid_to_device q,
  has-sessions p.sid_to_device q,
)

other_secret :
    (d f : String) (p : Pairing)
    → get (forget_secret d p).approved_secrets f
      ≡ (if d == f then none else get p.approved_secrets f)
unfolding forget_secret
other_secret d f p = get-pop p.approved_secrets d f

-- Once a device's secret is forgotten no session of that device has a secret and its session-only
-- credential is gone; a session of another device keeps the secret that it had.
pub forget_secret_lem :
    (d : String) (p : Pairing)
    → let p' = forget_secret d p in
      (get p'.approved_secrets d ≡ none)
      × (get_ephemeral_credential d p' ≡ none)
      × ((sid : String)
          → get_secret_for_sid sid p' ≡ (
              if opt_eq (get p.sid_to_device sid) (some d) then none else get_secret_for_sid sid p))
unfolding get_secret_for_sid get_ephemeral_credential
forget_secret_lem d p = (
  unfold forget_secret in ground (arith, get-pop p.approved_secrets d d, eq_iff d d),
  unfold forget_secret in ground (arith, get-pop p.ephemeral_credentials d d, eq_iff d d),
  λ sid. elim (Option-cases (get p.sid_to_device sid)) [
    | inl e ↦ ground (arith, e, sid_to_device-forget_secret d p sid)
    | inr (f, e) ↦
        ground (
          arith,
          e,
          sid_to_device-forget_secret d p sid,
          other_secret d f p,
          eq_iff d f,
          eq_iff f d,
        )
  ],
)

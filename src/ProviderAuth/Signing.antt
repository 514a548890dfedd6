-- ===== src/ProviderAuth/Signing.antt =====
-- A packet that the client signs, at the server's gate.
use elab_core.Prelude.{ℕ, String, inl, ◌≤◌, ◌≡◌, refl, true, false, some, distance}
use elab_core.Registry.{find_provider_sid}
use elab_core.Pairing.{is_ui_internal, get_secret_for_source}
use elab_core.State.{State}
use elab_core.Stream.{epoch, Payload, Keys, sign_payload, accepts}
use elab_core.Stream.Gate.{accepts_lem}
use elab_core.ProviderAuth.{Signer, ProviderAuth, Machine, Files, on_approved, sign, sign_body}

-- the client computes HMAC-SHA256 and formats times as the server does
abbrev pub signer : Keys → Signer
signer k = record { hmac = k.hmac; format_time = λ t. k.format_time (epoch t) }

signed_alike :
    (k : Keys) (secret : String) (ts : ℕ) (body : String)
    → sign_body (signer k) secret ts body ≡ sign_payload k secret (epoch ts) body
unfolding sign_body sign_payload
signed_alike k secret ts body = refl

-- A client that has been sent the secret of its device signs every packet, and the signed packet passes the
-- server's gate, where the session owns the source, the server holds that secret for it, and the
-- clocks differ by no more than the limit; the packet keeps its source and its body.
pub signed_packet_passes :
    (m : Machine) (k : Keys) (a : ProviderAuth) (files : Files) (secret sid : String) (now : ℕ)
    (x : Payload) (s : State)
    → k.is_auth_required ≡ true
    → is_ui_internal x.source_id s.pairing ≡ false
    → find_provider_sid s.registry x.source_id ≡ some sid
    → get_secret_for_source x.source_id s.registry s.pairing ≡ some secret
    → distance k.server_time now ≤ k.max_skew
    → (x' : Payload) × (sign (signer k) (on_approved m (some secret) a files).0 now x ≡ some x')
      × (x'.source_id ≡ x.source_id)
      × (x'.body ≡ x.body)
      × (accepts k sid x' s ≡ true)
unfolding sign on_approved sign_body sign_payload
signed_packet_passes m k a files secret sid now x s required foreign owner held recent =
    let x' = record x {
      auth =
          some (record {
            sig = some (sign_payload k secret (epoch now) x.body);
            ts = some (epoch now);
          });
    } in
    (
      x',
      refl,
      refl,
      refl,
      (accepts_lem k sid x' s required foreign).1 (record {
        owner = owner;
        secret = secret;
        held = held;
        ts = epoch now;
        block = refl;
        recent = inl recent;
      }),
    )

-- ===== src/DataStream/Effects.antt =====
-- Which packets have an effect, and which.
use elab_core.Prelude.{
  ℕ, String, ◌≤◌, ◌≡◌, true, false, Option, none, some, ◌==◌, ◌⊎◌, inl, inr, arith, Bool-cases,
}
use elab_core.Pairing.{is_ui_internal}
use elab_core.Stream.{accepts}
use elab_core.Stream.Gate.{IsAuthentic, accepts_lem}
use elab_core.DataStream.{
  Bytes, Binary, no_binary, raw_list, raw_number, raw_bytes, bytes, other_value, base64,
  base64_bytes, octets, decoded_base64, Packet, Env, System, within, binary_data,
  handle_data_stream,
}

-- Where authentication is required, a packet for a source that is not the user interface's own either
-- changes nothing at all, no offset of a clock, recording, message or delivery, or it is authentic: it
-- was sent by the session that owns its source, signed with the secret of the source's device, for a
-- time within the limit or for NaN.
pub handle_data_stream-IsAuthentic :
    (e : Env) (sid : String) (x : Packet) (y : System)
    → e.keys.is_auth_required ≡ true
    → is_ui_internal x.signed.source_id y.state.pairing ≡ false
    → (handle_data_stream e sid x y ≡ y) ⊎ IsAuthentic e.keys sid x.signed y.state
unfolding handle_data_stream
handle_data_stream-IsAuthentic e sid x y required foreign =
    elim (Bool-cases (accepts e.keys sid x.signed y.state)) [
      | inl a ↦ inr ((accepts_lem e.keys sid x.signed y.state required foreign).0 a)
      | inr a ↦ inl (ground (arith, a))
    ]

-- A list of numbers that are bytes has as many bytes.
abbrev pub IsSized : Binary → Type 0
IsSized (raw_list n (some b)) = b.size ≡ n
IsSized _ = Unit

within_lem :
    (limit : ℕ) (o : Option Bytes) (b : Bytes)
    → within limit o ≡ some (some (octets b))
    → b.size ≤ limit
unfolding within
within_lem limit none b h = ground (arith, h)
within_lem limit (some c) b h = ground (arith, h)

decoded_lem :
    (limit : ℕ) (o : Option Bytes) (text : String) (b : Bytes)
    → decoded_base64 limit o text ≡ some (some (octets b))
    → b.size ≤ limit
unfolding decoded_base64
decoded_lem limit o text b h = elim (Bool-cases (text == "")) [
  | inl empty ↦ ground (arith, h, empty)
  | inr some_text ↦ within_lem limit o b (ground (arith, h, some_text))
]

-- The bytes that a frame is decoded from are never more than the limit, except where `raw_bytes` is a bare
-- number, when they are as many as the number says, or has arrived as bytes, when they are these.
pub binary_data_bounded :
    (e : Env) (x : Binary) (b : Bytes)
    → IsSized x
    → binary_data e x ≡ some (some (octets b))
    → (b.size ≤ e.max_binary_payload) ⊎ ((x ≡ raw_number b.size) ⊎ (x ≡ raw_bytes b))
unfolding binary_data
binary_data_bounded e no_binary b sized h = ground (arith, h)
binary_data_bounded e (raw_list n none) b sized h = ground (arith, h)
binary_data_bounded e (raw_list n (some c)) b sized h = inl (ground (arith, h, sized))
binary_data_bounded e (raw_number n) b sized h = inr (inl (ground (arith, h)))
binary_data_bounded e (raw_bytes c) b sized h = inr (inr (ground (arith, h)))
binary_data_bounded e (bytes c) b sized h = inl (within_lem e.max_binary_payload (some c) b h)
binary_data_bounded e (other_value text) b sized h = ground (arith, h)
binary_data_bounded e (base64 n text) b sized h =
    inl (decoded_lem e.max_binary_payload (e.decode_base64 text) text b (ground (arith, h)))
binary_data_bounded e (base64_bytes text) b sized h =
    inl (decoded_lem e.max_binary_payload (e.decode_base64 text) text b h)

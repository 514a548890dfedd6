-- ===== src/Stream.antt =====
-- The entrance of `data_stream`: `verify_payload` of elab_server/auth.py and the authentication gate of
-- `handle_data_stream` in elab_server/socket_handlers/provider_handlers.py. The server's clock reads a
-- natural number; the time in a packet is any number that JSON can bring. HMAC-SHA256 is a parameter.
pub mod Gate
use Prim.Native.String.{◌++◌ as append}
use elab_core.Prelude.{
  ℕ, String, ◌+◌, ◌-◌, Bool, true, false, not, Option, none, some, List, [], ◌∷◌, ◌==◌, ◌&&◌, ◌||◌,
  opt_eq, is_some, length, leb, ltb, distance, if◌then◌else◌,
}
use elab_core.Prelude.Dict.{Dict, get, set, pop}
use elab_core.Registry.{find_provider_sid}
use elab_core.Pairing.{is_ui_internal, get_secret_for_source}
use elab_core.State.{State}

-- `float(ts)`: a time from 1970 on, one before, an infinity or NaN. Python's JSON reads `NaN` and
-- `Infinity`, and an integer that no float can hold raises, which ends the handler: it is too far off.
pub data Timestamp : Type 0 where
  epoch : ℕ → Timestamp
  before_epoch : ℕ → Timestamp
  infinity minus_infinity nan : Timestamp

-- `payload['auth']`; a field of another type than the code accepts is `none`
pub record Auth : Type 0 where
  pub sig : Option String
  pub ts : Option Timestamp

-- `body` is the canonical form of all that is not the `auth` block.
pub record Payload : Type 0 where
  pub source_id : String
  pub auth : Option Auth
  pub body : String

-- What the gate takes from outside: the switch, the clock, the limit, HMAC-SHA256 of a message under
-- a secret, and the decimal form of a time.
pub record Keys : Type 0 where
  pub is_auth_required : Bool
  pub server_time : ℕ
  pub max_skew : ℕ
  pub hmac : String → String → String
  pub format_time : Timestamp → String

-- The MAC covers the time, so that a signature cannot be moved to another one.
unfoldable pub sign_payload : Keys → String → Timestamp → String → String
sign_payload k secret ts body = k.hmac secret (append (k.format_time ts) (append "\n" body))

pub data Reason : Type 0 where
  missing_auth malformed_auth skewed mismatched : Reason

-- `abs(server_time - float(ts)) > max_skew_sec`; a comparison with NaN is false.
pub is_skewed : Keys → Timestamp → Bool
is_skewed k (epoch t) = ltb k.max_skew (distance k.server_time t)
is_skewed k (before_epoch t) = ltb k.max_skew (k.server_time + t)
is_skewed k infinity = true
is_skewed k minus_infinity = true
is_skewed k nan = false

pub check_signature : Keys → String → String → String → Timestamp → Option Reason
check_signature k secret body sig ts =
    if is_skewed k ts
    then some skewed
    else if sign_payload k secret ts body == sig
    then none
    else some mismatched

pub check_block : Keys → String → String → Option String → Option Timestamp → Option Reason
check_block k secret body none ts = some malformed_auth
check_block k secret body (some sig) none = some malformed_auth
check_block k secret body (some sig) (some ts) = check_signature k secret body sig ts

-- `none` is "verified".
pub verify_payload : Keys → Payload → String → Option Reason
verify_payload k x secret = elim x.auth [
  | none ↦ some missing_auth
  | some a ↦ check_block k secret x.body a.sig a.ts
]

pub verified : Keys → Payload → Option String → Bool
verified k x none = false
verified k x (some secret) = not (is_some (verify_payload k x secret))

-- Does the handler go on after its authentication gate?
pub accepts : Keys → String → Payload → State → Bool
accepts k sid x s =
    if k.is_auth_required && not (is_ui_internal x.source_id s.pairing)
    then if not (opt_eq (find_provider_sid s.registry x.source_id) (some sid))
      then false
      else verified k x (get_secret_for_source x.source_id s.registry s.pairing)
    else true

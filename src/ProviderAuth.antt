-- ===== src/ProviderAuth.antt =====
-- `ProviderAuth` of elab_clients_core/python/shared/auth.py: the secret of a device on the client's side,
-- its file, and the signature of a packet. The file system, JSON, SHA-256 and HMAC are parameters.
pub mod Signing
pub mod Files
use Prim.Native.String.{◌++◌ as append}
use elab_core.Prelude.{
  ℕ, String, Bool, true, false, not, Option, none, some, ◌==◌, ◌&&◌, leb, is_some, if◌then◌else◌,
}
use elab_core.Prelude.Dict.{Dict, get, set, pop}
use elab_core.Stream.{epoch, Auth, Payload}

-- What the client takes from outside: the two steps of a file's name, the text of a credential and the
-- secret in one (none if it has none, or if it is not JSON), `len`, and whether the file system works.
pub record Machine : Type 0 where
  pub sanitize : String → String
  pub digest : String → String
  pub dumps : (device_id secret : String) → String
  pub loads : String → Option String
  pub len : String → ℕ
  pub can_read : Bool
  pub can_write : Bool
  pub can_delete : Bool

-- HMAC-SHA256 of a message under a secret, and "%.6f" of a time
pub record Signer : Type 0 where
  pub hmac : String → String → String
  pub format_time : ℕ → String

pub record ProviderAuth : Type 0 where
  pub device_id : String
  pub persist : Bool
  pub secret_hex : Option String
  pub approved : Bool

-- the files of the credentials directory
abbrev pub Files : Type 0
Files = Dict String

pub credential_path : Machine → String → String
credential_path m device_id =
    let safe = m.sanitize device_id in
    if safe == device_id
    then append safe ".json"
    else append safe (append "." (append (m.digest device_id) ".json"))

pub accept_secret : Machine → Option String → ProviderAuth → ProviderAuth
accept_secret m none a = a
accept_secret m (some secret) a =
    if leb 32 (m.len secret) then record a { secret_hex = some secret; approved = true } else a

pub load_secret : Machine → Files → ProviderAuth → ProviderAuth
load_secret m files a = elim (get files (credential_path m a.device_id)) [
  | none ↦ a
  | some text ↦ if m.can_read then accept_secret m (m.loads text) a else a
]

pub init : Machine → Files → String → Bool → ProviderAuth
init m files device_id persist =
    let a : ProviderAuth = record {
      device_id = device_id;
      persist = persist;
      secret_hex = none;
      approved = false;
    } in
    if persist then load_secret m files a else a

pub save_secret : Machine → String → ProviderAuth → Files → Files
save_secret m secret a files =
    if a.persist && m.can_write
    then set files (credential_path m a.device_id) (m.dumps a.device_id secret)
    else files

pub forget : Machine → ProviderAuth → Files → ProviderAuth × Files
forget m a files = (
  record a { secret_hex = none; approved = false },
  if m.can_delete then pop files (credential_path m a.device_id) else files,
)

pub has_secret : ProviderAuth → Bool
has_secret a = is_some a.secret_hex

-- "registration_approved"; `secret` is none if it is no text
pub on_approved : Machine → Option String → ProviderAuth → Files → ProviderAuth × Files
on_approved m none a files = (a, files)
on_approved m (some secret) a files =
    (record a { secret_hex = some secret; approved = true }, save_secret m secret a files)

-- "registration_revoked", before the client disconnects
pub on_revoked : Machine → ProviderAuth → Files → ProviderAuth × Files
on_revoked m a files = forget m a files

-- `_sign`
pub sign_body : Signer → String → ℕ → String → String
sign_body k secret timestamp body =
    k.hmac secret (append (k.format_time timestamp) (append "\n" body))

-- `none` is the RuntimeError of a client without a secret.
pub sign : Signer → ProviderAuth → ℕ → Payload → Option Payload
sign k a now x = elim a.secret_hex [
  | none ↦ none
  | some secret ↦ some (record x {
    auth = some (record { sig = some (sign_body k secret now x.body); ts = some (epoch now) });
  })
]

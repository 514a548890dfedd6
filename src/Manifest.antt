-- ===== src/Manifest.antt =====
-- The manifest of a provider, as the dispatcher reads it, and the functions of
-- elab_server/auth.py that read its device block. A manifest is a JSON object that the schema
-- (schemas/ManifestSchema.json) gives its shape; a text field that is absent or no text is `""`,
-- which the code treats alike.
use elab_core.Prelude.{
  ℕ, String, Bool, Option, none, some, List, [], ◌∷◌, ◌==◌, ◌&&◌, truthy, any, if◌then◌else◌,
}
use elab_core.Prelude.Dict.{Dict}

-- `task['decoder']`, with the parameters as the text that the device sent
pub record DecoderConfig : Type 0 where
  pub type : String
  pub parameters : String

-- `task['ui']`
pub record Ui : Type 0 where
  pub mode : String
  pub url : Option String
  pub integrity : Option String

pub record Task : Type 0 where
  pub id : String
  pub name : String
  pub group : Option String
  pub alias : Option String
  pub color : Option String
  pub decimals : Option ℕ
  pub actions : List String
  pub config : Dict String
  pub decoder : Option DecoderConfig
  pub ui : Option Ui

-- `manifest['device']`
pub record Device : Type 0 where
  pub id : String
  pub anchor : String
  pub name : Option String
  pub persist_capable : Option Bool

-- `sid` and `connected_at` are written at registration, `client_ip` on arrival.
pub record Manifest : Type 0 where
  pub id : String
  pub name : String
  pub device : Option Device
  pub persist_config : Bool
  pub is_ui_instance : Bool
  pub actions : List String
  pub tasks : List Task
  pub auto_approve_token : Option String
  pub client_ip : Option String
  pub sid : Option String
  pub connected_at : Option ℕ

-- The id of the device that a manifest belongs to: its device block's, or the provider's own.
unfoldable pub resolve_device_id : Manifest → String
resolve_device_id m = elim m.device [ none ↦ m.id | some d ↦ if truthy d.id then d.id else m.id ]

abbrev pub device_anchors : List String
device_anchors = "efuse_mac" ∷ "serial" ∷ "ble_mac" ∷ "assigned" ∷ "ephemeral" ∷ []

unfoldable pub resolve_device_anchor : Manifest → String
resolve_device_anchor m = elim m.device [
  | none ↦ "ephemeral"
  | some d ↦ if any (λ a. d.anchor == a) device_anchors then d.anchor else "ephemeral"
]

legacy_or : Bool → Option Bool → Bool
legacy_or legacy none = legacy
legacy_or legacy (some b) = b

pub is_persist_capable : Manifest → Bool
unfolding legacy_or
is_persist_capable m = elim m.device [
  | none ↦ m.persist_config
  | some d ↦ legacy_or m.persist_config d.persist_capable
]

-- A value of JSON; a number is its text.
mutual
  pub data Json : Type 0 where
    null : Json
    boolean : Bool → Json
    numeral : String → Json
    text : String → Json
    array : Items → Json
    object : Fields → Json

  pub data Items : Type 0 where
    no_items : Items
    item : Json → Items → Items

  pub data Fields : Type 0 where
    no_fields : Fields
    field : String → Json → Fields → Fields

-- fields that vary per connection
abbrev pub volatile_manifest_fields : List String
volatile_manifest_fields = "sid" ∷ "connected_at" ∷ "client_ip" ∷ "isUiInstance" ∷ []

-- They are stripped from every object in the value, however deep.
mutual
  pub strip_volatile : Json → Json
  strip_volatile (array xs) = array (strip_items xs)
  strip_volatile (object fs) = object (strip_fields fs)
  strip_volatile j = j

  pub strip_items : Items → Items
  strip_items no_items = no_items
  strip_items (item x xs) = item (strip_volatile x) (strip_items xs)

  pub strip_fields : Fields → Fields
  strip_fields no_fields = no_fields
  strip_fields (field k x fs) =
      let rest = strip_fields fs in
      let x' = strip_volatile x in
      if any (λ v. k == v) volatile_manifest_fields then rest else field k x' rest

-- `json.dumps` with sorted keys, the hexadecimal SHA-256 digest, and the JSON object that a manifest is,
-- of which `Manifest` has the fields that the dispatcher reads
pub record Hashing : Type 0 where
  pub value : Manifest → Json
  pub dumps : Json → String
  pub sha256 : String → String

pub canonicalize_manifest : Hashing → Manifest → String
canonicalize_manifest h m = h.dumps (strip_volatile (h.value m))

pub compute_manifest_hash : Hashing → Manifest → String
compute_manifest_hash h m = h.sha256 (canonicalize_manifest h m)

-- Does one of the tasks bear the id `k`? An empty id is no id.
abbrev pub names : String → List Task → Bool
names k = any (λ t. truthy t.id && t.id == k)

-- Does one of the manifests bear the id `k`?
abbrev pub has_provider : String → List Manifest → Bool
has_provider k = any (λ m. truthy m.id && m.id == k)

-- Does a task of one of the manifests bear the id `k`?
abbrev pub has_task : String → List Manifest → Bool
has_task k = any (λ m. names k m.tasks)

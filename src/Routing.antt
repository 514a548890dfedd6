-- ===== src/Routing.antt =====
-- The route from a source to the actuators that are linked to it: `_route_to_actuators` and its helpers in
-- elab_server/socket_handlers/provider_handlers.py. A sample is a text; the clock counts milliseconds.
pub mod Chunks
use elab_core.Prelude.{
  ℕ, String, ◌+◌, Bool, true, false, not, Option, none, some, List, [], ◌∷◌, ◌++◌, map, ◌==◌, ◌&&◌,
  ◌||◌, any, keep, length, leb, ltb, take, drop, is_some, or_else, truthy, if◌then◌else◌,
}
use elab_core.Prelude.TextSet.{TextSet, has}
use elab_core.Manifest.{Task, Manifest}
use elab_core.Registry.{Registry, get_provider_manifest, find_provider_sid}
use elab_core.Links.{Links, get_actuator_links}

-- the measurement of a packet; a list that is absent is empty
pub record Sample : Type 0 where
  pub value : Option String
  pub values : List String
  pub start_time : Option ℕ
  pub end_time : Option ℕ
  pub timestamp : Option ℕ

-- `command_payload`; `binary` is the encoded form, which takes the place of the values
pub record Delivery : Type 0 where
  pub value : Option String
  pub values : Option (List String)
  pub start_time : Option ℕ
  pub end_time : Option ℕ
  pub timestamp : Option ℕ
  pub binary : Option String

-- the interval is 0 if there is no rate; a negative buffer size counts as none
pub record Prefs : Type 0 where
  pub scalar_only : Bool
  pub min_interval : ℕ
  pub max_buffer_size : Option ℕ
  pub encode : Option (List (Option String) → Option String)

abbrev no_prefs : Prefs
no_prefs = record { scalar_only = false; min_interval = 0; max_buffer_size = none; encode = none }

-- What a task's config says; `accepts` is in lower case.
pub record DeliveryConfig : Type 0 where
  pub accepts : List String
  pub min_interval : ℕ
  pub max_buffer_size : Option ℕ
  pub encode : Option (List (Option String) → Option String)

abbrev is_array_word : String → Bool
is_array_word a = a == "array" || a == "values" || a == "stream"

pub actuator_delivery_prefs : Option DeliveryConfig → Prefs
actuator_delivery_prefs none = no_prefs
actuator_delivery_prefs (some c) = record {
  scalar_only = any (λ a. true) c.accepts && not (any is_array_word c.accepts);
  min_interval = c.min_interval;
  max_buffer_size = c.max_buffer_size;
  encode = c.encode;
}

pub find_task_of : String → List Task → Option Task
find_task_of k [] = none
find_task_of k (t ∷ ts) = if t.id == k then some t else find_task_of k ts

pub first_task : List Task → Option Task
first_task [] = none
first_task (t ∷ ts) = some t

-- the task of that id, or the provider's first one
pub resolve_actuator_task : Registry → String → Option Task
resolve_actuator_task r actuator_id = elim (get_provider_manifest r actuator_id) [
  | none ↦ none
  | some m ↦ or_else (find_task_of actuator_id m.tasks) (first_task m.tasks)
]

pub record Buffer : Type 0 where
  pub values : List String
  pub start_time : Option ℕ
  pub end_time : Option ℕ
  pub timestamp : Option ℕ

-- (source_id, actuator_id)
abbrev pub Route : Type 0
Route = String × String

abbrev pub Routes {ℓ} : Type ℓ → Type ℓ
Routes V = List (Route × V)

abbrev same_route : Route → Route → Bool
same_route (a, b) (c, d) = a == c && b == d

module _ {ℓ} {V : Type ℓ} where
  pub get_route : Routes V → Route → Option V
  get_route [] k = none
  get_route ((j, v) ∷ rs) k = if same_route j k then some v else get_route rs k

  pub set_route : Routes V → Route → V → Routes V
  set_route [] k v = (k, v) ∷ []
  set_route ((j, w) ∷ rs) k v =
      let rest = set_route rs k v in if same_route j k then (j, v) ∷ rs else (j, w) ∷ rest

  -- one registry of `_drop_actuator_routes_for`
  pub drop_routes : TextSet → Routes V → Routes V
  drop_routes gone rs = keep (λ (k, v). not (has gone k.0 || has gone k.1)) rs

pub record Router : Type 0 where
  pub route_ts : Routes ℕ
  pub buffers : Routes Buffer
  -- session, actuator and payload
  pub delivered : List (String × (String × Delivery))

-- `_drop_actuator_routes_for`
pub drop_actuator_routes_for : TextSet → Router → Router
drop_actuator_routes_for gone r = record r {
  route_ts = drop_routes gone r.route_ts;
  buffers = drop_routes gone r.buffers;
}

-- `_pick_observed_value`: the value, or the last of the values, or 0
pub last_of : List String → Option String
last_of [] = none
last_of (v ∷ []) = some v
last_of (v ∷ w ∷ vs) = last_of (w ∷ vs)

pub pick_observed_value : Sample → String
pick_observed_value x = elim (or_else x.value (last_of x.values)) [ none ↦ "0.0" | some v ↦ v ]

unfoldable pub incoming_values : Sample → List String
incoming_values x = elim x.values [ [] ↦ pick_observed_value x ∷ [] | v ∷ vs ↦ v ∷ vs ]

-- `a or b`: a time of 0 counts as none
pub or_time : Option ℕ → Option ℕ → Option ℕ
or_time none b = b
or_time (some t) b = if leb t 0 then b else some t

pub new_buffer : Sample → Buffer
new_buffer x = record {
  values = [];
  start_time = or_time x.start_time x.timestamp;
  end_time = none;
  timestamp = none;
}

pub fill : Sample → Buffer → Buffer
fill x b = record {
  values = b.values ++ incoming_values x;
  start_time = b.start_time;
  end_time = or_time x.end_time x.timestamp;
  timestamp = x.timestamp;
}

-- A packet goes into the buffer; a chunk of `size` values comes out if there are as many.
pub accumulate : (size : ℕ) → Sample → Buffer → Buffer × Option Delivery
accumulate size x b =
    let b' = fill x b in
    if ltb (length b'.values) size then (b', none) else (
      record b' { values = drop size b'.values; start_time = b'.end_time },
      some (record {
        value = last_of (take size b'.values);
        values = some (take size b'.values);
        start_time = b'.start_time;
        end_time = b'.end_time;
        timestamp = b'.timestamp;
        binary = none;
      }),
    )

pub direct : Prefs → Sample → Delivery
direct p x =
    if p.scalar_only || (elim p.max_buffer_size [ none ↦ false | some n ↦ leb n 0 ])
    then record {
      value = some (pick_observed_value x);
      values = none;
      start_time = none;
      end_time = none;
      timestamp = x.timestamp;
      binary = none;
    }
    else record {
      value = x.value;
      values = some x.values;
      start_time = x.start_time;
      end_time = x.end_time;
      timestamp = x.timestamp;
      binary = none;
    }

-- a value that is absent is encoded as None
pub values_to_encode : Delivery → List (Option String)
values_to_encode d = elim d.values [
  | none ↦ d.value ∷ []
  | some vs ↦ elim vs [ [] ↦ d.value ∷ [] | v ∷ ws ↦ map some (v ∷ ws) ]
]

-- An encoder that raises leaves the payload as it is.
pub encoded : Prefs → Delivery → Delivery
encoded p d = elim p.encode [
  | none ↦ d
  | some encode ↦ elim (encode (values_to_encode d)) [
    | none ↦ d
    | some b64 ↦ record d { value = none; values = none; binary = some b64 }
  ]
]

pub deliver : String → Prefs → String → Delivery → Router → Router
deliver sid p actuator_id d r = record r {
  delivered = r.delivered ++ ((sid, (actuator_id, encoded p d)) ∷ []);
}

abbrev buffer_of : Route → Sample → Router → Buffer
buffer_of k x r = elim (get_route r.buffers k) [ none ↦ new_buffer x | some b ↦ b ]

pub deliver_buffered : (size : ℕ) → String → Prefs → Route → Sample → Router → Router
deliver_buffered size sid p k x r =
    let (b, chunk) = accumulate size x (buffer_of k x r) in
    let r' = record r { buffers = set_route r.buffers k b } in
    elim chunk [ none ↦ r' | some d ↦ deliver sid p k.1 d r' ]

pub is_too_early : Prefs → ℕ → Option ℕ → Bool
is_too_early p now none = ltb now p.min_interval
is_too_early p now (some last) = ltb now (last + p.min_interval)

pub deliver_direct : ℕ → String → Prefs → Route → Sample → Router → Router
deliver_direct now sid p k x r =
    if ltb 0 p.min_interval && not (is_some p.max_buffer_size)
    then if is_too_early p now (get_route r.route_ts k)
      then r
      else deliver sid p k.1 (direct p x) (record r { route_ts = set_route r.route_ts k now })
    else deliver sid p k.1 (direct p x) r

pub route_to : ℕ → String → Prefs → Route → Sample → Router → Router
route_to now sid p k x r = elim p.max_buffer_size [
  | none ↦ deliver_direct now sid p k x r
  | some size ↦
      if ltb 0 size then deliver_buffered size sid p k x r else deliver_direct now sid p k x r
]

pub route_each :
    (Option Task → Option DeliveryConfig)
    → ℕ
    → String
    → Sample
    → Registry
    → List String
    → Router
    → Router
route_each config now source_id x g [] r = r
route_each config now source_id x g (a ∷ targets) r =
    route_each config now source_id x g targets (elim (find_provider_sid g a) [
      | none ↦ r
      | some sid ↦
          if truthy sid
          then route_to now sid (actuator_delivery_prefs (config (resolve_actuator_task g a)))
              (source_id, a) x r
          else r
    ])

-- `config` reads the task's configuration.
pub route_to_actuators :
    (Option Task → Option DeliveryConfig) → ℕ → String → Sample → Links → Registry → Router → Router
route_to_actuators config now source_id x links g r =
    route_each config now source_id x g (get_actuator_links source_id links) r

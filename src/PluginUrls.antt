-- ===== src/PluginUrls.antt =====
-- The plugin allow-list of elab_server/socket_handlers/_helpers.py: `_is_plugin_url_allowed` and
-- `_sanitize_plugin_urls`. Python's `urlparse` and `str.lower` are parameters.
pub mod Laws
use Prim.Native.String.{◌++◌ as append}
use elab_core.Prelude.{
  String, Bool, true, false, not, Option, none, some, List, [], ◌∷◌, ◌==◌, ◌&&◌, ◌||◌, truthy,
  if◌then◌else◌,
}
use elab_core.Prelude.TextSet.{TextSet, has}
use elab_core.Manifest.{Task, Ui, Manifest}

-- What `parsed.port` gives: no port (or port 0), its digits, or a `ValueError`.
pub data Port : Type 0 where
  absent invalid : Port
  digits : String → Port

-- The parts of a parsed URL; a host that is absent is `""`.
pub record Url : Type 0 where
  pub scheme : String
  pub hostname : String
  pub port : Port

-- `urlparse` is `none` where it raises a `ValueError`; `allowlist` is `_PLUGIN_ORIGIN_ALLOWLIST`.
pub record Web : Type 0 where
  pub urlparse : String → Option Url
  pub lower : String → String
  pub allowlist : TextSet

module _ (w : Web) where
  unfoldable pub in_allowlist : String → Bool
  in_allowlist origin = has w.allowlist (w.lower origin)

  -- The part of the check after the comparison with the client's address; `none` is an exception
  -- that leaves the function.
  unfoldable pub origin_allowed : Url → String → Option Bool
  origin_allowed u host = elim u.port [
    | invalid ↦ none
    | absent ↦
        let origin = append u.scheme (append "://" host) in
        some (in_allowlist origin || in_allowlist (append origin ":*"))
    | digits port ↦
        let origin = append u.scheme (append "://" host) in
        some (in_allowlist (append origin (append ":" port)) || in_allowlist (append origin ":*"))
  ]

  unfoldable pub parsed_allowed : String → Option Url → Option Bool
  parsed_allowed client_ip none = some false
  parsed_allowed client_ip (some u) =
      if not (u.scheme == "http" || u.scheme == "https")
      then some false
      else if not (truthy u.hostname)
      then some false
      else (let host = w.lower u.hostname in
          if truthy client_ip && host == w.lower client_ip
          then some true
          else origin_allowed u host)

  unfoldable pub is_plugin_url_allowed : String → String → Option Bool
  is_plugin_url_allowed url client_ip =
      if truthy url then parsed_allowed client_ip (w.urlparse url) else some false

  unfoldable pub strip_url : Ui → Option Bool → Option Ui
  strip_url ui none = none
  strip_url ui (some true) = some ui
  strip_url ui (some false) = some (record ui { mode = "generic"; url = none; integrity = none })

  unfoldable pub sanitize_url : String → Ui → Option String → Option Ui
  sanitize_url client_ip ui none = some ui
  sanitize_url client_ip ui (some url) =
      if truthy url then strip_url ui (is_plugin_url_allowed url client_ip) else some ui

  unfoldable pub keep_task : Task → Option Ui → Option Task
  keep_task t none = none
  keep_task t (some ui) = some (record t { ui = some ui })

  unfoldable pub sanitize_task : String → Task → Option Task
  sanitize_task client_ip t = elim t.ui [
    | none ↦ some t
    | some ui ↦ keep_task t (sanitize_url client_ip ui ui.url)
  ]

  unfoldable pub cons_both : Option Task → Option (List Task) → Option (List Task)
  cons_both none ts = none
  cons_both (some t) none = none
  cons_both (some t) (some ts) = some (t ∷ ts)

  unfoldable pub sanitize_tasks : String → List Task → Option (List Task)
  sanitize_tasks client_ip [] = some []
  sanitize_tasks client_ip (t ∷ ts) =
      cons_both (sanitize_task client_ip t) (sanitize_tasks client_ip ts)

  unfoldable pub put_tasks : Manifest → Option (List Task) → Option Manifest
  put_tasks m none = none
  put_tasks m (some ts) = some (record m { tasks = ts })

  -- The manifest with every plugin URL that is not allowed taken out, or `none` where the check
  -- raises.
  unfoldable pub sanitize_plugin_urls : String → Manifest → Option Manifest
  sanitize_plugin_urls client_ip m = put_tasks m (sanitize_tasks client_ip m.tasks)

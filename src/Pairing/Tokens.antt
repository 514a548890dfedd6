-- ===== src/Pairing/Tokens.antt =====
-- One-shot tokens and the sources of the user interface.
use elab_core.Prelude.{
  String, ◌≡◌, refl, Bool, false, not, some, List, [], ◌∷◌, ◌==◌, ◌&&◌, ◌||◌, truthy, is_some,
  if◌then◌else◌, arith, eq_iff,
}
use elab_core.Prelude.Dict.{get, get-pop}
use elab_core.Prelude.TextSet.{TextSet, has, discard, has-discard}
use elab_core.Manifest.{Task, Manifest, names, has_provider, has_task}
use elab_core.Pairing.{
  Pairing, consume_auto_approve_token, is_ui_internal, discard_tasks, discard_sources,
  forget_sources,
}

-- Is the token valid now?
abbrev pub is_valid_token : String → Pairing → Bool
is_valid_token token p = truthy token && is_some (get p.auto_approve_tokens token)

-- A token is accepted exactly while it is valid; once it has been presented it is not valid, so
-- it cannot be accepted again, and every other token is as valid as before.
pub consume_auto_approve_token_lem :
    (token q : String) (p : Pairing)
    → let (p', accepted) = consume_auto_approve_token (some token) p in
      (accepted ≡ is_valid_token token p)
      × ((consume_auto_approve_token (some token) p').1 ≡ false)
      × (is_valid_token q p' ≡ (not (token == q) && is_valid_token q p))
unfolding consume_auto_approve_token
consume_auto_approve_token_lem token q p = (
  ground arith,
  ground (arith, get-pop p.auto_approve_tokens token token, eq_iff token token),
  ground (arith, get-pop p.auto_approve_tokens token q, eq_iff token q),
)

has-discard_tasks :
    (ts : List Task) (s : TextSet) (k : String)
    → has (discard_tasks ts s) k ≡ (not (names k ts) && has s k)
unfolding discard_tasks
has-discard_tasks [] s k = refl
has-discard_tasks (t ∷ ts) s k = ground (
  arith,
  has-discard_tasks ts (if truthy t.id then discard s t.id else s) k,
  has-discard s t.id k,
)

has-discard_sources :
    (ms : List Manifest) (s : TextSet) (k : String)
    → has (discard_sources ms s) k ≡ (not (has_provider k ms || has_task k ms) && has s k)
unfolding discard_sources
has-discard_sources [] s k = refl
has-discard_sources (m ∷ ms) s k =
    let first = if truthy m.id then discard s m.id else s in
    ground (
      arith,
      has-discard_sources ms (discard_tasks m.tasks first) k,
      has-discard_tasks m.tasks first k,
      has-discard s m.id k,
    )

-- A source is trusted as the user interface's own exactly if it was marked so and none of the
-- providers removed since bears its id.
pub is_ui_internal-forget_sources :
    (ms : List Manifest) (k : String) (p : Pairing)
    → is_ui_internal k (forget_sources ms p)
      ≡ (not (has_provider k ms || has_task k ms) && is_ui_internal k p)
unfolding is_ui_internal forget_sources
is_ui_internal-forget_sources ms k p = has-discard_sources ms p.ui_internal_sources k

-- ===== src/PluginUrls/Laws.antt =====
-- What the sanitizer guarantees.
use elab_core.Prelude.{
  String, ◌≡◌, refl, Bool, true, false, not, Option, none, some, List, [], ◌∷◌, ◌==◌, ◌&&◌, ◌||◌,
  truthy, arith, eq_iff, Option-cases, inl, inr,
}
use elab_core.Manifest.{Task, Ui, Manifest, names}
use elab_core.PluginUrls.{
  Web, Url, invalid, is_plugin_url_allowed, parsed_allowed, origin_allowed, strip_url, sanitize_url,
  keep_task, sanitize_task, cons_both, sanitize_tasks, put_tasks, sanitize_plugin_urls,
}

abbrev is_true : Option Bool → Bool
is_true none = false
is_true (some b) = b

module _ (w : Web) (ip : String) where
  -- A URL that the browser would load has passed the check.
  abbrev pub url_ok : Option String → Bool
  url_ok none = true
  url_ok (some url) = not (truthy url) || is_true (is_plugin_url_allowed w url ip)

  abbrev pub ui_ok : Option Ui → Bool
  ui_ok none = true
  ui_ok (some ui) = url_ok ui.url

  abbrev pub all_ok : List Task → Bool
  all_ok [] = true
  all_ok (t ∷ ts) = ui_ok t.ui && all_ok ts

  sanitize_url-ok :
      (ui u : Ui) (o : Option String)
      → ui.url ≡ o
      → sanitize_url w ip ui o ≡ some u
      → url_ok u.url ≡ true
  unfolding sanitize_url strip_url
  sanitize_url-ok ui u none e h = ground (arith, e, h)
  sanitize_url-ok ui u (some url) e h = ground (arith, e, h)

  sanitize_task-ok :
      (t u : Task) → sanitize_task w ip t ≡ some u → (ui_ok u.ui ≡ true) × (u.id ≡ t.id)
  unfolding sanitize_task keep_task
  sanitize_task-ok t u h = elim (Option-cases t.ui) [
    | inl e ↦ (ground (arith, e, h), ground (arith, e, h))
    | inr (ui, e) ↦ elim (Option-cases (sanitize_url w ip ui ui.url)) [
      | inl f ↦ absurd (ground (arith, e, f, h))
      | inr (clean, f) ↦
          (ground (arith, e, f, h, sanitize_url-ok ui clean ui.url refl f), ground (arith, e, f, h))
    ]
  ]

  sanitize_tasks-ok :
      (ts us : List Task)
      → sanitize_tasks w ip ts ≡ some us
      → (all_ok us ≡ true) × ((k : String) → names k us ≡ names k ts)
  unfolding sanitize_tasks cons_both
  sanitize_tasks-ok [] us h = (ground (arith, h), λ k. ground (arith, h))
  sanitize_tasks-ok (t ∷ ts) us h = elim (Option-cases (sanitize_task w ip t)) [
    | inl e ↦ absurd (ground (arith, e, h))
    | inr (u, e) ↦ elim (Option-cases (sanitize_tasks w ip ts)) [
      | inl f ↦ absurd (ground (arith, e, f, h))
      | inr (vs, f) ↦
          let (ok, same) = sanitize_tasks-ok ts vs f in
          let (ok1, same1) = sanitize_task-ok t u e in
          (ground (arith, e, f, h, ok, ok1), λ k. ground (arith, e, f, h, same k, same1))
    ]
  ]

  -- Whatever the manifest: when the sanitizer returns, each plugin URL that is left and not empty
  -- has passed the check for the client's address, and the ids are what they were.
  pub sanitize_plugin_urls-ok :
      (m m' : Manifest)
      → sanitize_plugin_urls w ip m ≡ some m'
      → (all_ok m'.tasks ≡ true)
        × ((k : String) → names k m'.tasks ≡ names k m.tasks)
        × (m'.id ≡ m.id)
  unfolding sanitize_plugin_urls put_tasks
  sanitize_plugin_urls-ok m m' h = elim (Option-cases (sanitize_tasks w ip m.tasks)) [
    | inl e ↦ absurd (ground (arith, e, h))
    | inr (ts, e) ↦
        let (ok, same) = sanitize_tasks-ok m.tasks ts e in
        (ground (arith, e, h, ok), λ k. ground (arith, e, h, same k), ground (arith, e, h))
  ]

  -- The sanitizer changes nothing but the tasks.
  pub only_tasks :
      (m m' : Manifest)
      → sanitize_plugin_urls w ip m ≡ some m'
      → (ts : List Task) × (m' ≡ record m { tasks = ts })
  unfolding sanitize_plugin_urls put_tasks
  only_tasks m m' h = elim (Option-cases (sanitize_tasks w ip m.tasks)) [
    | inl e ↦ absurd (ground (arith, e, h))
    | inr (ts, e) ↦ (ts, ground (arith, e, h))
  ]

  sanitize_url_lem :
      (ui : Ui) (o : Option String)
      → ui.url ≡ o
      → url_ok o ≡ true
      → sanitize_url w ip ui o ≡ some ui
  unfolding sanitize_url strip_url
  sanitize_url_lem ui none e h = refl
  sanitize_url_lem ui (some url) e h = elim (Option-cases (is_plugin_url_allowed w url ip)) [
    | inl f ↦ ground (arith, e, h, f)
    | inr (b, f) ↦ ground (arith, e, h, f)
  ]

  sanitize_tasks_lem : (ts : List Task) → all_ok ts ≡ true → sanitize_tasks w ip ts ≡ some ts
  unfolding sanitize_tasks cons_both sanitize_task keep_task
  sanitize_tasks_lem [] h = refl
  sanitize_tasks_lem (t ∷ ts) h = elim (Option-cases t.ui) [
    | inl e ↦ ground (arith, e, h, sanitize_tasks_lem ts)
    | inr (ui, e) ↦ ground (arith, e, h, sanitize_tasks_lem ts, sanitize_url_lem ui ui.url refl)
  ]

  -- A manifest whose plugin URLs are all allowed comes out as it went in.
  pub sanitize_plugin_urls_lem :
      (m : Manifest) → all_ok m.tasks ≡ true → sanitize_plugin_urls w ip m ≡ some m
  unfolding sanitize_plugin_urls put_tasks
  sanitize_plugin_urls_lem m h = ground (arith, sanitize_tasks_lem m.tasks h)

  -- A URL of another host than the client's whose port `urlparse` accepts but cannot read as a
  -- number makes the check raise: the exception is not caught.
  pub invalid_port_raises :
      (url : String) (u : Url)
      → truthy url ≡ true
      → w.urlparse url ≡ some u
      → u.scheme ≡ "http"
      → truthy u.hostname ≡ true
      → (w.lower u.hostname == w.lower ip) ≡ false
      → u.port ≡ invalid
      → is_plugin_url_allowed w url ip ≡ none
  unfolding is_plugin_url_allowed parsed_allowed origin_allowed
  invalid_port_raises url u t p s h ne bad =
      ground (arith, t, p, s, h, ne, bad, eq_iff u.scheme "http")

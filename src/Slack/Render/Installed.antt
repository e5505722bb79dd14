-- ===== src/Slack/Render/Installed.antt =====
-- `Renderer::new` of crates/slack/src/render/mod.rs: which sources the templates have in the end.
use alertthread.Base.{String, ◌≡◌, refl, sym, ap, ◌∙◌, Option, none, some, List, [], ◌∷◌, ◌++◌}
use mathlib.Core.List.{append-nil}
use alertthread.Slack.Vars.{TemplateKind, as_str}
use alertthread.Slack.Render.{
  RejectedOverride, Engine, Installation, get_template, supplied, install, install_builtin,
  install_override, install_kind, renderer,
}

module _ (engine : Engine) where
  -- The override of a kind if there is one and it compiles, and else the source that is built in.
  abbrev pub choice : TemplateKind → Option String → String
  choice k none = engine.source k
  choice k (some source) = elim (engine.compile (as_str k) source) [
    | none ↦ source
    | some detail ↦ engine.source k
  ]

  -- What is said of an override that does not compile.
  abbrev pub refusal : TemplateKind → Option String → List RejectedOverride
  refusal k none = []
  refusal k (some source) = elim (engine.compile (as_str k) source) [
    | none ↦ []
    | some detail ↦ record { template = k; detail = detail } ∷ []
  ]

  abbrev pub Compiles : TemplateKind → Type 0
  Compiles k = engine.compile (as_str k) (engine.source k) ≡ none

  abbrev Installed : TemplateKind → Option String → Installation → Installation → Type 0
  Installed k o i j =
      (j.env ≡ (as_str k, choice k o) ∷ i.env) × (j.rejected ≡ i.rejected ++ refusal k o)

  builtin-Installed :
      (k : TemplateKind) (i : Installation)
      → Compiles k
      → ((install engine k (engine.source k) i).1.env ≡ (as_str k, engine.source k) ∷ i.env)
        × ((install engine k (engine.source k) i).1.rejected ≡ i.rejected)
  unfolding install
  builtin-Installed k i h = rw (install, h) (refl, refl)

  override-Installed :
      (k : TemplateKind) (o : Option String) (i : Installation)
      → Compiles k
      → Installed k o i (install_builtin engine k (install_override engine k o i))
  unfolding install_builtin install_override install
  override-Installed k none i h =
      let b = builtin-Installed k i h in (b.0, b.1 ∙ sym (append-nil i.rejected))
  override-Installed k (some source) i h = go (engine.compile (as_str k) source) refl
    where
      go :
          (c : Option String)
          → engine.compile (as_str k) source ≡ c
          → Installed k
              (some source)
              i
              (install_builtin engine k (install_override engine k (some source) i))
      go none e = rw (install, choice, refusal, e) (refl, sym (append-nil i.rejected))
      go (some detail) e =
          rw (install, choice, refusal, e)
            (builtin-Installed k
              (record i { rejected = i.rejected ++ record { template = k; detail = detail } ∷ [] })
              h)

module _ (engine : Engine) (overrides : List (TemplateKind × String)) where
  abbrev pub chosen : TemplateKind → String
  chosen k = choice engine k (supplied overrides k)

  abbrev pub refused : TemplateKind → List RejectedOverride
  refused k = refusal engine k (supplied overrides k)

  install_kind-lem :
      (k : TemplateKind) (i : Installation)
      → Compiles engine k
      → ((install_kind engine (supplied overrides) k i).env ≡ (as_str k, chosen k) ∷ i.env)
        × ((install_kind engine (supplied overrides) k i).rejected ≡ i.rejected ++ refused k)
  unfolding install_kind
  install_kind-lem k i h = override-Installed engine k (supplied overrides k) i h

  abbrev next : TemplateKind → Installation → Installation
  next = install_kind engine (supplied overrides)

  abbrev first : Installation
  first = next TemplateKind.firing (record { env = []; rejected = [] })

  abbrev third : Installation
  third = next TemplateKind.group_summary (next TemplateKind.resolved first)

  entries :
      ((k : TemplateKind) → Compiles engine k)
      → ((renderer engine overrides).env
          ≡ (as_str TemplateKind.thread_reply, chosen TemplateKind.thread_reply)
            ∷ (as_str TemplateKind.group_summary, chosen TemplateKind.group_summary)
            ∷ (as_str TemplateKind.resolved, chosen TemplateKind.resolved)
            ∷ (as_str TemplateKind.firing, chosen TemplateKind.firing)
            ∷ [])
        × ((renderer engine overrides).rejected
            ≡ ((refused TemplateKind.firing ++ refused TemplateKind.resolved)
                ++ refused TemplateKind.group_summary)
              ++ refused TemplateKind.thread_reply)
  unfolding renderer
  entries h =
      let a =
        install_kind-lem TemplateKind.firing (record { env = []; rejected = [] })
          (h TemplateKind.firing) in
      let b = install_kind-lem TemplateKind.resolved first (h TemplateKind.resolved) in
      let c =
        install_kind-lem TemplateKind.group_summary (next TemplateKind.resolved first)
          (h TemplateKind.group_summary) in
      let d = install_kind-lem TemplateKind.thread_reply third (h TemplateKind.thread_reply) in
      (
        d.0
            ∙ ap (λ r. (as_str TemplateKind.thread_reply, chosen TemplateKind.thread_reply) ∷ r)
                (c.0
                  ∙ ap
                      (λ r.
                        (as_str TemplateKind.group_summary, chosen TemplateKind.group_summary) ∷ r)
                      (b.0
                        ∙ ap (λ r. (as_str TemplateKind.resolved, chosen TemplateKind.resolved) ∷ r)
                            a.0)),
        d.1
            ∙ ap (λ r. r ++ refused TemplateKind.thread_reply)
                (c.1
                  ∙ ap (λ r. r ++ refused TemplateKind.group_summary)
                      (b.1 ∙ ap (λ r. r ++ refused TemplateKind.resolved) a.1)),
      )

  found :
      (k : TemplateKind)
      → get_template (as_str k) (
          (as_str TemplateKind.thread_reply, chosen TemplateKind.thread_reply)
          ∷ (as_str TemplateKind.group_summary, chosen TemplateKind.group_summary)
          ∷ (as_str TemplateKind.resolved, chosen TemplateKind.resolved)
          ∷ (as_str TemplateKind.firing, chosen TemplateKind.firing)
          ∷ [])
        ≡ some (chosen k)
  unfolding as_str
  found TemplateKind.firing = refl
  found TemplateKind.resolved = refl
  found TemplateKind.group_summary = refl
  found TemplateKind.thread_reply = refl

  -- If the sources that are built in compile, every template is there: with the last override for it, if
  -- that compiles, and else with the source that is built in. The overrides that do not compile are what
  -- is reported.
  pub renderer_lem :
      ((k : TemplateKind) → Compiles engine k)
      → ((k : TemplateKind)
          → get_template (as_str k) (renderer engine overrides).env ≡ some (chosen k))
        × ((renderer engine overrides).rejected
            ≡ ((refused TemplateKind.firing ++ refused TemplateKind.resolved)
                ++ refused TemplateKind.group_summary)
              ++ refused TemplateKind.thread_reply)
  renderer_lem h = let e = entries h in ((λ k. ap (get_template (as_str k)) e.0 ∙ found k), e.1)

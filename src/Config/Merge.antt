-- ===== src/Config/Merge.antt =====
-- What the merge with a template keeps and adds (internal/controller/template_merge.go).
use kubeopencode.Prelude.{
  ◌≡◌, refl, ap, sym, ◌∙◌, String, Option, none, some, List, [], ◌∷◌, Bool-cases, inl, inr,
  if◌then◌else◌,
}
use text.Mathlib.TextEquality.{eq_iff}
use kubeopencode.Prelude.Text.{str_eq}
use kubeopencode.Api.Agent.{Agent, AgentTemplateSpec, AgentTemplate}
use kubeopencode.Config.{
  default_string, resolve_agent_config, resolve_template_to_config, merge_agent_with_template,
  first_non_nil, first_non_empty_string_slice,
}

-- A spec that sets nothing.
abbrev pub empty_spec : AgentTemplateSpec
empty_spec = record {
  agent_image = "";
  executor_image = "";
  attach_image = "";
  workspace_dir = "";
  command = [];
  contexts = none;
  skills = none;
  plugins = none;
  config = none;
  credentials = none;
  pod_spec = none;
  service_account_name = "";
  ca_bundle = none;
  proxy = none;
  image_pull_secrets = none;
  extra_ports = none;
  max_concurrent_tasks = none;
  quota = none;
}

first_non_nil-none {ℓ} : {A : Type ℓ} (o : Option A) → first_non_nil o none ≡ o
unfolding first_non_nil
first_non_nil-none none = refl
first_non_nil-none (some a) = refl

first_non_empty-[] : (xs : List String) → first_non_empty_string_slice xs [] ≡ xs
unfolding first_non_empty_string_slice
first_non_empty-[] [] = refl
first_non_empty-[] (x ∷ xs) = refl

default_string-empty : (s : String) → default_string s "" ≡ s
unfolding default_string
default_string-empty s = elim (Bool-cases (str_eq s "")) [
  | inl e ↦ ap (λ b. if b then "" else s) e ∙ sym ((eq_iff s "").0 e)
  | inr e ↦ ap (λ b. if b then "" else s) e
]

empty_default-string : (d : String) → default_string "" d ≡ d
unfolding default_string
empty_default-string d = refl

first_non_nil_of-none {ℓ} : {A : Type ℓ} (o : Option A) → first_non_nil none o ≡ o
unfolding first_non_nil
first_non_nil_of-none o = refl

first_non_empty_of-[] : (xs : List String) → first_non_empty_string_slice [] xs ≡ xs
unfolding first_non_empty_string_slice
first_non_empty_of-[] xs = refl

-- The merge of an Agent with a template that sets nothing is the Agent's own configuration.
pub merge_with_empty_template :
    (agent : Agent) (tmpl : AgentTemplate)
    → tmpl.spec ≡ empty_spec
    → merge_agent_with_template agent tmpl ≡ resolve_agent_config agent
unfolding merge_agent_with_template resolve_agent_config
merge_with_empty_template agent tmpl e =
    ap (λ spec. merge_agent_with_template agent (record tmpl { spec = spec })) e
    ∙ simp (first_non_nil-none, first_non_empty-[], default_string-empty, empty_default-string)

-- An Agent that sets nothing of what a template can set has, merged with a template, the
-- configuration of the template, with the limits of the template, which the template alone does
-- not have, and the Agent's own port, persistence, suspension and readiness.
pub merge_of_empty_agent :
    (agent : Agent) (tmpl : AgentTemplate)
    → agent.spec.base ≡ empty_spec
    → merge_agent_with_template agent tmpl ≡ record (resolve_template_to_config tmpl) {
      max_concurrent_tasks = tmpl.spec.max_concurrent_tasks;
      quota = tmpl.spec.quota;
      port = agent.spec.port;
      persistence = agent.spec.persistence;
      suspend = agent.spec.suspend;
      server_ready = agent.status.ready;
    }
unfolding merge_agent_with_template resolve_template_to_config
merge_of_empty_agent agent tmpl e =
    ap
      (λ base.
        merge_agent_with_template (record agent { spec = record agent.spec { base = base } }) tmpl)
      e
    ∙ simp (first_non_nil_of-none, first_non_empty_of-[], empty_default-string)

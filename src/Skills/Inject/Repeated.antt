-- ===== src/Skills/Inject/Repeated.antt =====
-- Injecting the same skills and plugins again (internal/controller/skill_processor.go).
use kubeopencode.Prelude.{◌≡◌, String, Option, List, ◌∷◌}
use kubeopencode.Api.Errors.{ok}
use kubeopencode.Api.Library.{Library}
use kubeopencode.Api.Agent.{Raw, PluginSpec}
use kubeopencode.Skills.Inject.{inject_plugins_into_config, inject_skills_into_config}
use kubeopencode.Skills.Inject.Kept.{RoundTrips}
use kubeopencode.Skills.Inject.Kept.Plugins.{
  Injected, inject_plugins_into_config-Injected, inject_plugins_into_config_idem,
}
use kubeopencode.Skills.Inject.Kept.Paths.{
  Extended, inject_skills_into_config-Extended, inject_skills_into_config_idem,
}

-- With a JSON library that reads back what it prints, after a successful injection of at least one
-- plugin, and one of at least one skill path: the configuration is there; with plugins, it loads
-- every plugin of the list and all plugins that it loaded before; with paths, its skill paths are
-- those of before, in order, followed by those of the list that it did not have, in order; every
-- other key has the value that it had; and the same injection changes nothing more.
pub injections_settle :
    (lib : Library)
    → RoundTrips lib
    → (config plugged extended : Option Raw) (plugin : PluginSpec) (plugins : List PluginSpec)
      (path : String) (paths : List String)
    → inject_plugins_into_config lib config (plugin ∷ plugins) ≡ ok plugged
    → inject_skills_into_config lib config (path ∷ paths) ≡ ok extended
    → Injected lib config (plugin ∷ plugins) plugged
      × Extended lib config (path ∷ paths) extended
      × (inject_plugins_into_config lib plugged (plugin ∷ plugins) ≡ ok plugged)
      × (inject_skills_into_config lib extended (path ∷ paths) ≡ ok extended)
injections_settle lib rt config plugged extended plugin plugins path paths p e = (
  inject_plugins_into_config-Injected lib rt config plugin plugins plugged p,
  inject_skills_into_config-Extended lib rt config path paths extended e,
  inject_plugins_into_config_idem lib rt config (plugin ∷ plugins) plugged p,
  inject_skills_into_config_idem lib rt config (path ∷ paths) extended e,
)

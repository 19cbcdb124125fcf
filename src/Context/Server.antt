-- ===== src/Context/Server.antt =====
-- The ConfigMap of an Agent's server and the hash of its data
-- (internal/controller/context_processor.go).
use kubeopencode.Prelude.{String, Option, none, some, List, [], ◌∷◌, map, if◌then◌else◌}
use kubeopencode.Prelude.Text.{Dict, concat, get_or_empty}
use kubeopencode.Api.Library.{Library}
use kubeopencode.Api.Agent.{Agent}
use kubeopencode.Client.{ConfigMap}
use kubeopencode.Skills.Inject.{is_nil}
use kubeopencode.Task.Queue.{agent_label_key}

-- What is written to the hash, key after key, with a null byte after each text.
unfoldable pub hash_input : Dict String → List String → List String
hash_input entries [] = []
hash_input entries (k ∷ ks) = k ∷ "\0" ∷ get_or_empty k entries ∷ "\0" ∷ hash_input entries ks

-- `hashConfigMapData`
unfoldable pub hash_config_map_data : Library → Dict String → String
unfolding hash_input
hash_config_map_data lib entries =
    if is_nil entries
    then ""
    else lib.digest (hash_input entries (lib.sort_strings (map (λ entry. entry.0) entries)))

-- `ServerContextConfigMapName`
unfoldable pub server_context_config_map_name : String → String
server_context_config_map_name agent_name = concat agent_name "-server-context"

-- `BuildServerContextConfigMap`
unfoldable pub build_server_context_config_map : Agent → Dict String → Option ConfigMap
unfolding server_context_config_map_name
build_server_context_config_map agent entries =
    if is_nil entries
    then none
    else some (record {
      meta = record {
        name = server_context_config_map_name agent.meta.name;
        namespace = agent.meta.namespace;
        uid = "";
        resource_version = "";
        generation = 0;
        labels =
            ("app", "kubeopencode")
            ∷ ("app.kubernetes.io/component", "server")
            ∷ (agent_label_key, agent.meta.name)
            ∷ [];
        annotations = [];
        owner = none;
      };
      entries = entries;
    })

-- ===== src/Context/Reads.antt =====
-- Context items are resolved by reading ConfigMaps of one namespace, and nothing else.
use kubeopencode.Prelude.{ℕ, suc, String, Bool, Option, List, [], ◌∷◌}
use kubeopencode.Api.Context.{ContextType, ConfigMapContext, ContextItem}
use kubeopencode.Client.{Env, Call}
use kubeopencode.Client.Rules.{
  Only, Only-pure, Only-throw, Only-bind, Only-attempt, Only-on_result, only_rules,
}
use kubeopencode.Client.Rules.Calls.{Only-get_config_map}
use kubeopencode.Context.{
  get_config_map_key, get_config_map_all_keys, resolve_config_map, resolve_content_of_type,
  resolve_context_item, process_items_from, process_context_items,
}

module _ {P : Env → Call → Type 0} (ns : String)
    (cm : (env : Env) (name : String)
      → P env (Call.get_config_map (record { name = name; namespace = ns }))) where
  get_config_map_key-Only :
      (name key : String) (optional : Option Bool)
      → Only P (get_config_map_key ns name key optional)
  unfolding get_config_map_key
  get_config_map_key-Only name key optional =
      Only-bind _ _ (Only-attempt _ (Only-get_config_map _ (λ env. cm env name)))
        (λ r. search only_rules)

  get_config_map_all_keys-Only :
      (name : String) (optional : Option Bool) → Only P (get_config_map_all_keys ns name optional)
  unfolding get_config_map_all_keys
  get_config_map_all_keys-Only name optional =
      Only-bind _ _ (Only-attempt _ (Only-get_config_map _ (λ env. cm env name)))
        (λ r. search only_rules)

  resolve_config_map-Only :
      (mount_path : String) (c : ConfigMapContext) → Only P (resolve_config_map ns mount_path c)
  unfolding resolve_config_map
  resolve_config_map-Only mount_path c =
      search (only_rules, get_config_map_key-Only, get_config_map_all_keys-Only)

  resolve_content_of_type-Only :
      (type : ContextType) (name dir : String) (item : ContextItem) (path : String)
      → Only P (resolve_content_of_type type ns name dir item path)
  unfolding resolve_content_of_type
  resolve_content_of_type-Only ContextType.text name dir item path = Only-pure _
  resolve_content_of_type-Only ContextType.config_map name dir item path =
      search (only_rules, resolve_config_map-Only)
  resolve_content_of_type-Only ContextType.git name dir item path = search only_rules
  resolve_content_of_type-Only ContextType.runtime name dir item path = Only-pure _
  resolve_content_of_type-Only ContextType.url name dir item path = Only-throw _

  resolve_context_item-Only :
      (item : ContextItem) (dir : String) → Only P (resolve_context_item item ns dir)
  unfolding resolve_context_item
  resolve_context_item-Only item dir = search (only_rules, resolve_content_of_type-Only)

  process_items_from-Only :
      (i : ℕ) (items : List ContextItem) (dir : String) → Only P (process_items_from i items ns dir)
  unfolding process_items_from
  process_items_from-Only i [] dir = Only-pure _
  process_items_from-Only i (item ∷ items) dir =
      Only-bind _ _ (Only-attempt _ (resolve_context_item-Only item dir)) (λ r.
        Only-on_result r _ _ (λ e. Only-throw _)
          (λ c. Only-bind _ _ (process_items_from-Only (suc i) items dir) (λ cs. Only-pure _)))

  pub process_context_items-Only :
      (items : List ContextItem) (dir : String) → Only P (process_context_items items ns dir)
  unfolding process_context_items
  process_context_items-Only items dir = process_items_from-Only 0 items dir

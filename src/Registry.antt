-- ===== src/Registry.antt =====
-- internal/engine/agent_registry.go: the agents of all tenants, with an index by model and tenant.
-- A call holds the lock, so it is one step. A `*AgentDefinition` is the definition with the address
-- that the code compares pointers by; `S` is the rest of the definition.
pub mod Smallest
pub mod Buckets
pub mod Index
pub mod Fresh
pub mod Register
pub mod Removal
pub mod History
pub mod Lookups
mod Examples
use mock_agents.Prelude.{
  ℕ, ◌+◌, Bool, true, false, not, ◌&&◌, ◌||◌, String, Option, none, some, List, [], ◌∷◌,
  if◌then◌else◌, ◌==◌, str_eq, str_lt, Assoc, Entry, lookup, insert, delete, length,
}

-- `m[k]` of a map of maps: a nil map reads like an empty one.
abbrev pub bucket_of {ℓ} : {A : Type ℓ} → String → Assoc (Assoc A) → Assoc A
bucket_of k m = elim (lookup k m) [ none ↦ [] | some b ↦ b ]

-- An empty inner map is not kept.
abbrev pub put_bucket {ℓ} : {A : Type ℓ} → String → Assoc A → Assoc (Assoc A) → Assoc (Assoc A)
put_bucket k b m = if length b == 0 then delete k m else insert k b m

abbrev pub or_else {ℓ} : {A : Type ℓ} → Option A → Option A → Option A
or_else none o = o
or_else (some a) o = some a

module _ (S : Type 0) where
  pub record AgentDefinition : Type 0 where
    pub address : ℕ
    pub tenant_id : String
    pub name : String
    pub model : String
    pub rest : S

  -- By name.
  abbrev pub Bucket : Type 0
  Bucket = Assoc AgentDefinition

  pub record AgentRegistry : Type 0 where
    pub agents : Assoc Bucket
    pub by_model : Assoc AgentDefinition
    pub by_model_tenant : Assoc Bucket
    pub sources : Assoc (Assoc String)

  unfoldable pub new_agent_registry : AgentRegistry
  new_agent_registry = record { agents = []; by_model = []; by_model_tenant = []; sources = [] }

  -- The inner body of the loops: the smaller name wins.
  abbrev pub smaller : Option AgentDefinition → AgentDefinition → AgentDefinition
  smaller none def = def
  smaller (some cur) def = if str_lt def.name cur.name then def else cur

  unfoldable pub scan_bucket : String → String → Bucket → Bucket → Bucket
  scan_bucket model owner [] owners = owners
  scan_bucket model owner (e ∷ rest) owners = scan_bucket model owner rest (
      if str_eq e.val.model model
      then insert owner (smaller (lookup owner owners) e.val) owners
      else owners)

  unfoldable pub scan_agents : String → Assoc Bucket → Bucket → Bucket
  scan_agents model [] owners = owners
  scan_agents model (e ∷ rest) owners =
      scan_agents model rest (scan_bucket model e.key e.val owners)

  unfoldable pub rebuild_model_bucket : String → AgentRegistry → AgentRegistry
  rebuild_model_bucket model r = if str_eq model "" then r else record r {
    by_model_tenant = put_bucket model (scan_agents model r.agents []) r.by_model_tenant;
  }

  -- The entry of a model goes only if it still points at this agent.
  abbrev pub unclaim : AgentDefinition → Assoc AgentDefinition → Assoc AgentDefinition
  unclaim prev m = if str_eq prev.model "" then m else (elim (lookup prev.model m) [
    | none ↦ m
    | some indexed ↦ if indexed.address == prev.address then delete prev.model m else m
  ])

  abbrev pub unclaim_old : Option AgentDefinition → Assoc AgentDefinition → Assoc AgentDefinition
  unclaim_old none m = m
  unclaim_old (some prev) m = unclaim prev m

  abbrev pub claim : AgentDefinition → Assoc AgentDefinition → Assoc AgentDefinition
  claim def m = if str_eq def.model "" then m else insert def.model def m

  abbrev pub old_model : Option AgentDefinition → String
  old_model none = ""
  old_model (some prev) = prev.model

  -- The registration before the rebuilds.
  abbrev pub put_agent : AgentDefinition → AgentRegistry → AgentRegistry
  put_agent def r = record r {
    agents = insert def.tenant_id (insert def.name def (bucket_of def.tenant_id r.agents)) r.agents;
    by_model =
        claim def (unclaim_old (lookup def.name (bucket_of def.tenant_id r.agents)) r.by_model);
  }

  unfoldable pub register_locked : AgentDefinition → AgentRegistry → AgentRegistry
  register_locked def r =
      let old = old_model (lookup def.name (bucket_of def.tenant_id r.agents)) in
      let rebuilt = rebuild_model_bucket def.model (put_agent def r) in
      if not (str_eq old "") && not (str_eq old def.model)
      then rebuild_model_bucket old rebuilt
      else rebuilt

  -- A nil definition is ignored.
  unfoldable pub register : Option AgentDefinition → AgentRegistry → AgentRegistry
  register none r = r
  register (some def) r = register_locked def r

  unfoldable pub register_with_source :
      Option AgentDefinition → String → AgentRegistry → AgentRegistry
  register_with_source none source_path r = r
  register_with_source (some def) source_path r =
      let registered = register_locked def r in
      if str_eq source_path "" then registered else record registered {
        sources =
            insert def.tenant_id
              (insert def.name source_path (bucket_of def.tenant_id registered.sources))
              registered.sources;
      }

  abbrev pub prune_source : String → String → Assoc (Assoc String) → Assoc (Assoc String)
  prune_source owner name sources = elim (lookup owner sources) [
    | none ↦ sources
    | some sb ↦ put_bucket owner (delete name sb) sources
  ]

  -- What both removals do for one agent, before the rebuilds.
  abbrev pub drop_agent : String → String → AgentDefinition → Bucket → AgentRegistry → AgentRegistry
  drop_agent owner name def by_name r = record r {
    agents = put_bucket owner (delete name by_name) r.agents;
    by_model = unclaim def r.by_model;
    sources = prune_source owner name r.sources;
  }

  -- The loop of Remove, with the models that it meets, newest first.
  unfoldable pub remove_loop :
      String → Assoc Bucket → AgentRegistry → List String → AgentRegistry × List String × Bool
  remove_loop name [] r models = (r, models, false)
  remove_loop name (e ∷ rest) r models = elim (lookup name e.val) [
    | none ↦ remove_loop name rest r models
    | some def ↦
        let later =
          remove_loop name rest (drop_agent e.key name def e.val r)
            (if str_eq def.model "" then models else def.model ∷ models) in
        (later.0, later.1, true)
  ]

  unfoldable pub rebuild_all : List String → AgentRegistry → AgentRegistry
  rebuild_all [] r = r
  rebuild_all (m ∷ ms) r = rebuild_all ms (rebuild_model_bucket m r)

  -- `none` is the error that there is no such agent; the registry is then as it was.
  unfoldable pub remove : String → AgentRegistry → Option AgentRegistry
  remove name r =
      let removed = remove_loop name r.agents r [] in
      if removed.2 then some (rebuild_all removed.1 removed.0) else none

  unfoldable pub remove_for_tenant : String → String → AgentRegistry → Option AgentRegistry
  remove_for_tenant name tenant r = elim (lookup name (bucket_of tenant r.agents)) [
    | none ↦ none
    | some def ↦
        some (
          rebuild_model_bucket def.model (drop_agent tenant name def (bucket_of tenant r.agents) r))
  ]

  unfoldable pub get : String → AgentRegistry → Option AgentDefinition
  get name r = lookup name (bucket_of "" r.agents)

  unfoldable pub get_by_model : String → AgentRegistry → Option AgentDefinition
  get_by_model model r = lookup model r.by_model

  unfoldable pub source : String → String → AgentRegistry → String
  source name tenant r = elim (lookup name (bucket_of tenant r.sources)) [
    | none ↦ ""
    | some path ↦ path
  ]

  unfoldable pub get_owned_for_tenant : String → String → AgentRegistry → Option AgentDefinition
  get_owned_for_tenant name tenant r = lookup name (bucket_of tenant r.agents)

  unfoldable pub get_for_tenant : String → String → AgentRegistry → Option AgentDefinition
  get_for_tenant name tenant r =
      or_else (lookup name (bucket_of tenant r.agents))
        (if str_eq tenant "" then none else lookup name (bucket_of "" r.agents))

  unfoldable pub get_by_model_for_tenant : String → String → AgentRegistry → Option AgentDefinition
  get_by_model_for_tenant model tenant r =
      let owners = bucket_of model r.by_model_tenant in
      or_else (lookup tenant owners) (lookup "" owners)

  -- `for name, def := range bucket { merged[name] = def }`
  unfoldable pub merge_into : Bucket → Bucket → Bucket
  merge_into [] merged = merged
  merge_into (e ∷ rest) merged = merge_into rest (insert e.key e.val merged)

  unfoldable pub merged_for_tenant : String → AgentRegistry → Bucket
  merged_for_tenant tenant r =
      let globals = merge_into (bucket_of "" r.agents) [] in
      if str_eq tenant "" then globals else merge_into (bucket_of tenant r.agents) globals

  unfoldable pub count_locked : Assoc Bucket → ℕ
  count_locked [] = 0
  count_locked (e ∷ rest) = length e.val + count_locked rest

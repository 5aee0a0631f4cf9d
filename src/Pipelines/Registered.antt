-- ===== src/Pipelines/Registered.antt =====
-- internal/engine/pipeline_registry.go: pipelines by name, with the files that they came from. A call
-- holds the lock, so it is one step.
use mock_agents.Prelude.{
  ℕ, false, String, Option, none, some, [], if◌then◌else◌, str_eq, Assoc, lookup, insert, delete,
  length, ◌≡◌, ap, ◌∙◌, by_test, lookup-insert, lookup-delete, sym, str_eq→eq,
}
use mock_agents.Pipelines.{PipelineDefinition}

pub record PipelineRegistry : Type 0 where
  pub pipelines : Assoc PipelineDefinition
  pub sources : Assoc String

unfoldable pub new_pipeline_registry : PipelineRegistry
new_pipeline_registry = record { pipelines = []; sources = [] }

abbrev pub put_pipeline : PipelineDefinition → PipelineRegistry → PipelineRegistry
put_pipeline def r = record r { pipelines = insert def.name def r.pipelines }

-- A nil definition or one without a name is ignored.
unfoldable pub register : Option PipelineDefinition → PipelineRegistry → PipelineRegistry
register none r = r
register (some def) r = if str_eq def.name "" then r else put_pipeline def r

abbrev pub put_source : String → String → Assoc String → Assoc String
put_source name source_path sources =
    if str_eq source_path "" then delete name sources else insert name source_path sources

unfoldable pub register_with_source :
    Option PipelineDefinition → String → PipelineRegistry → PipelineRegistry
register_with_source none source_path r = r
register_with_source (some def) source_path r =
    if str_eq def.name ""
    then r
    else record (put_pipeline def r) { sources = put_source def.name source_path r.sources }

abbrev pub text_or_empty : Option String → String
text_or_empty none = ""
text_or_empty (some path) = path

unfoldable pub source : String → PipelineRegistry → String
source name r = text_or_empty (lookup name r.sources)

unfoldable pub get_pipeline : String → PipelineRegistry → Option PipelineDefinition
get_pipeline name r = lookup name r.pipelines

unfoldable pub count : PipelineRegistry → ℕ
count r = length r.pipelines

-- A named definition that is registered with a source, "" for an unknown one, is what its name leads
-- to, with that source; other names lead to what they led to.
pub register_with_source_lem :
    (def : PipelineDefinition) (path name : String) (r : PipelineRegistry)
    → str_eq def.name "" ≡ false
    → let later = register_with_source (some def) path r in
      (get_pipeline name later ≡ (if str_eq def.name name then some def else get_pipeline name r))
      × (source name later ≡ (if str_eq def.name name then path else source name r))
unfolding register_with_source get_pipeline source
register_with_source_lem def path name r named =
    by_test
      (λ (later : PipelineRegistry).
        (lookup name later.pipelines
          ≡ (if str_eq def.name name then some def else lookup name r.pipelines))
        × (text_or_empty (lookup name later.sources)
            ≡ (if str_eq def.name name then path else text_or_empty (lookup name r.sources))))
      (str_eq def.name "") r _ (λ empty. absurd (cc (sym named ∙ empty)))
      (λ _. (lookup-insert def.name name def r.pipelines, written))
  where
    written :
        text_or_empty (lookup name (put_source def.name path r.sources))
        ≡ (if str_eq def.name name then path else text_or_empty (lookup name r.sources))
    written =
        by_test
          (λ t.
            text_or_empty (lookup name t)
            ≡ (if str_eq def.name name then path else text_or_empty (lookup name r.sources)))
          (str_eq path "") _ _
          (λ unknown.
            ap text_or_empty (lookup-delete def.name name r.sources)
            ∙ by_test
                (λ o.
                  text_or_empty o
                  ≡ (if str_eq def.name name then path else text_or_empty (lookup name r.sources)))
                (str_eq def.name name) none (lookup name r.sources)
                (λ same. sym (
                  ap (λ b. if b then path else text_or_empty (lookup name r.sources)) same
                  ∙ str_eq→eq path "" unknown))
                (λ other.
                  sym (ap (λ b. if b then path else text_or_empty (lookup name r.sources)) other)))
          (λ _.
            ap text_or_empty (lookup-insert def.name name path r.sources)
            ∙ by_test
                (λ o.
                  text_or_empty o
                  ≡ (if str_eq def.name name then path else text_or_empty (lookup name r.sources)))
                (str_eq def.name name) (some path) (lookup name r.sources)
                (λ same.
                  sym (ap (λ b. if b then path else text_or_empty (lookup name r.sources)) same))
                (λ other.
                  sym (ap (λ b. if b then path else text_or_empty (lookup name r.sources)) other)))

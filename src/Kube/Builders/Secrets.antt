-- ===== src/Kube/Builders/Secrets.antt =====
-- What a secret holds for the environment of a container.
use text.Mathlib.Text.{◌==◌ as str_eq}
use text.Mathlib.TextEquality.{eq_iff}
use greatsql_operator.Prelude.{
  String, ◌≡◌, refl, Option, none, some, List, [], ◌∷◌, arith, if◌then◌else◌,
}
use greatsql_operator.Api.Meta.{Raw, StringMap}
use greatsql_operator.Api.Pod.{EnvVar}
use greatsql_operator.Kube.Builders.Plain.{insert, secret_data, new_secret_env}
use greatsql_operator.Kube.Platform.{Platform}

-- The value under a name.
unfoldable pub lookup : String → StringMap → Option String
lookup name [] = none
lookup name ((other, text) ∷ rest) = if str_eq other name then some text else lookup name rest

lookup-insert :
    (name other text : String) (items : StringMap)
    → lookup other (insert name text items)
      ≡ (if str_eq name other then some text else lookup other items)
unfolding lookup insert
lookup-insert name other text [] = refl
lookup-insert name other text ((head, old) ∷ items) = ground (
  arith,
  lookup-insert name other text items,
  eq_iff head other,
  eq_iff head name,
  eq_iff name other,
)

-- The source of the last variable of a name.
unfoldable pub last_source : String → List EnvVar → Option (Option Raw)
last_source k [] = none
last_source k (env ∷ envs) =
    let rest = last_source k envs in
    elim rest [ some s ↦ some s | none ↦ if str_eq env.name k then some env.value_from else none ]

module _ {W : Type 0} (p : Platform W) where
  -- The text of a source that was found, and else what is there already.
  abbrev held : Option (Option Raw) → Option String → Option String
  held none old = old
  held (some source) old = some (p.env_source_string source)

  lookup-secret_data :
      (k : String) (envs : List EnvVar) (m : StringMap)
      → lookup k (secret_data p envs m) ≡ held (last_source k envs) (lookup k m)
  unfolding secret_data last_source
  lookup-secret_data k [] m = refl
  lookup-secret_data k (env ∷ envs) m = ground (
    arith,
    lookup-secret_data k envs (insert env.name (p.env_source_string env.value_from) m),
    lookup-insert env.name k (p.env_source_string env.value_from) m,
  )

  -- Under each name a secret holds the text of the source, never the plain value, of the last variable
  -- of that name, and nothing if there is none.
  pub lookup-new_secret_env :
      (name namespace k : String) (envs : List EnvVar)
      → lookup k (new_secret_env p name namespace envs).items ≡ held (last_source k envs) none
  unfolding new_secret_env lookup
  lookup-new_secret_env name namespace k envs = lookup-secret_data k envs []

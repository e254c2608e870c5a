-- ===== src/Version.antt =====
-- internal/pkg/version/version.go: the version command.
use Prim.Native.String.{◌++◌}
use mathlib.Core.List.{◌++◌ as append}
use greatsql_operator.Prelude.{String, List, [], ◌∷◌}

-- The variables that the linker sets; `GoVersion`, `Compiler` and `Platform` are not read.
pub record BuildVariables : Type 0 where
  pub version : String
  pub git_branch : String
  pub git_commit : String
  pub build_time : String

-- The package `runtime`.
pub record GoRuntime : Type 0 where
  pub version : String
  pub compiler : String
  pub goos : String
  pub goarch : String

-- `versionInfo`
pub record VersionInfo : Type 0 where
  pub version : String
  pub git_branch : String
  pub git_commit : String
  pub build_time : String
  pub go_version : String
  pub compiler : String
  pub platform : String

-- `getVersion`
unfoldable pub get_version : BuildVariables → GoRuntime → VersionInfo
get_version vars go = record {
  version = vars.version;
  git_branch = vars.git_branch;
  git_commit = vars.git_commit;
  build_time = vars.build_time;
  go_version = go.version;
  compiler = go.compiler;
  platform = go.goos ++ ("/" ++ go.goarch);
}

-- `(v *versionInfo) String()`
unfoldable pub version_string : VersionInfo → String
version_string v = v.git_commit

-- An error of `json.MarshalIndent`, or its text.
pub data Marshalled : Type 0 where
  json_text : String → Marshalled
  json_error : String → Marshalled

-- `(v *versionInfo) json()`: the text, empty after an error, and the lines printed before.
unfoldable pub version_json : (VersionInfo → Marshalled) → VersionInfo → String × List String
version_json marshal_indent v = elim (marshal_indent v) [
  | json_text t ↦ (t, [])
  | json_error e ↦ ("", ("Error marshalling JSON: " ++ (e ++ "\n")) ∷ [])
]

-- `VersionCmd`: what it prints, in order.
unfoldable pub version_cmd : (VersionInfo → Marshalled) → BuildVariables → GoRuntime → List String
unfolding get_version version_json
version_cmd marshal_indent vars go =
    let (text, lines) = version_json marshal_indent (get_version vars go) in
    append lines ((text ++ "\n") ∷ [])

-- ===== src/Languages.antt =====
-- pkg/languages: the C++ and Python handlers and the registry that resolves a language name.
pub mod Resolve
use remote_runtime_engine.Base.{
  ◌≡◌, refl, Bool, true, false, Option, none, some, List, [], ◌∷◌, ◌++◌, Text, codes, text_eq,
  to_lower, CaseTable, Result, ok, err, map, if◌then◌else◌,
}
use remote_runtime_engine.Models.Request.{normalize_language}

-- The implementations of `LanguageHandler`: `CppHandler` and `PythonHandler`.
pub data LanguageHandler : Type 0 where
  cpp python : LanguageHandler

unfoldable pub name : LanguageHandler → Text
name cpp = codes "cpp"
name python = codes "python3"

unfoldable pub source_filename : LanguageHandler → Text
source_filename cpp = codes "solution.cpp"
source_filename python = codes "solution.py"

unfoldable pub binary_filename : LanguageHandler → Text
binary_filename cpp = codes "solution"
binary_filename python = []

unfoldable pub needs_compilation : LanguageHandler → Bool
needs_compilation cpp = true
needs_compilation python = false

-- A command with its arguments.
unfoldable pub compile_command : LanguageHandler → Text → Text → Text × List Text
compile_command cpp source binary = (
  codes "g++",
  codes "-O3"
      ∷ codes "-std=c++17"
      ∷ codes "-Wall"
      ∷ codes "-Wextra"
      ∷ codes "-DONLINE_JUDGE"
      ∷ codes "-pipe"
      ∷ source
      ∷ codes "-o"
      ∷ binary
      ∷ [],
)
compile_command python source binary = ([], [])

unfoldable pub run_command : LanguageHandler → Text → Text × List Text
run_command cpp target = (target, [])
run_command python target = (codes "python3", codes "-u" ∷ codes "-B" ∷ target ∷ [])

abbrev pub Registry : Type 0
Registry = List (Text × LanguageHandler)

unfoldable pub find : Text → Registry → Option LanguageHandler
find key [] = none
find key ((k, h) ∷ rest) = if text_eq k key then some h else find key rest

-- A write to a Go map replaces the entry of the key; the newest entry comes first here.
unfoldable pub register : CaseTable → LanguageHandler → Registry → Registry
register table h registry = (to_lower table (name h), h) ∷ registry

-- `init`.
unfoldable pub registry : CaseTable → Registry
unfolding register
registry table = register table python (register table cpp [])

unfoldable pub unsupported : Text → Text
unsupported lang = codes "unsupported language: '" ++ (lang ++ codes "' (supported: cpp, python3)")

-- `languages.Get`. Its normalisation is spelled as that of `Normalize` is.
unfoldable pub get : CaseTable → Text → Result Text LanguageHandler
unfolding registry
get table lang = elim (find (normalize_language table lang) (registry table)) [
  | none ↦ err (unsupported lang)
  | some h ↦ ok h
]

-- `SupportedLanguages`, which lists the keys in any order.
unfoldable pub supported_languages : CaseTable → List Text
unfolding registry
supported_languages table = map (λ p. p.0) (registry table)

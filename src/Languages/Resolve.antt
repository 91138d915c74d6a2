-- ===== src/Languages/Resolve.antt =====
-- Which names `languages.Get` of pkg/languages/language.go resolves.
use remote_runtime_engine.Base.{
  ◌≡◌, refl, ◌↔◌, some, Text, codes, text_eq, text_eq_iff, to_lower, CaseTable, ok, arith,
  lower_rune, trim_space, is_space,
}
use remote_runtime_engine.Models.Request.{normalize_language, alias}
use remote_runtime_engine.Languages.{LanguageHandler, cpp, python, name, find, registry, get}

find-registry :
    (table : CaseTable) (key : Text) (h : LanguageHandler)
    → (find key (registry table) ≡ some h) ↔ (key ≡ name h)
unfolding find registry to_lower lower_rune name
find-registry table key h =
    ground (arith, text_eq_iff (codes "python3") key, text_eq_iff (codes "cpp") key)

-- A name resolves to a handler exactly when its normal form is the handler's name.
pub get_iff :
    (table : CaseTable) (lang : Text) (h : LanguageHandler)
    → (get table lang ≡ ok h) ↔ (normalize_language table lang ≡ name h)
unfolding get
get_iff table lang h = ground (arith, find-registry table (normalize_language table lang) h)

normalize_language-name :
    (table : CaseTable) (h : LanguageHandler) → normalize_language table (name h) ≡ name h
unfolding normalize_language alias to_lower lower_rune name trim_space is_space text_eq
normalize_language-name table cpp = refl
normalize_language-name table python = refl

-- A name that resolves still resolves to the same handler after `Normalize` has rewritten it.
pub get-normalize_language :
    (table : CaseTable) (lang : Text) (h : LanguageHandler)
    → get table lang ≡ ok h
    → get table (normalize_language table lang) ≡ ok h
get-normalize_language table lang h e =
    (get_iff table _ h).1 (rw ((get_iff table lang h).0 e) (normalize_language-name table h))

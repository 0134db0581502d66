-- ===== src/Config.antt =====
-- src/config/mod.rs: where a provider's library is found. The process environment and the debug text
-- of a list of aliases are arguments; reading and parsing the file are not modelled.
pub mod Expansion
use liuzx_skf.Common.{
  leb, ◌==◌, if◌then◌else◌, Result, ok, err, length, Text, ◌===◌, text_eq, text, split_once, trim,
  get, ℕ, zero, suc, ◌+◌, Bool, true, false, ◌&&◌, ◌||◌, not, Option, none, some, List, [], ◌∷◌,
  ◌++◌, map, arith,
}

pub record SkfConfig : Type 0 where
  pub default : Text
  pub vendor : List (Text × Text)
  pub allow_remote : Option Bool
  pub libs : List (Text × List (Text × Text))

-- `to_ascii_lowercase` of a character
unfoldable pub lower : ℕ → ℕ
lower c = if leb b'A' c && leb c b'Z' then c + 32 else c

-- `eq_ignore_ascii_case`
unfoldable pub eq_ignore_ascii_case : Text → Text → Bool
unfolding lower
eq_ignore_ascii_case a b = map lower a === map lower b

-- The truth of a switch in the environment: `1` or `true`, once trimmed and in lower case.
unfoldable pub switched_on : Option Text → Bool
unfolding lower
switched_on none = false
switched_on (some v) = map lower (trim v) === text "1" || map lower (trim v) === text "true"

-- `SkfConfig::allows_remote`, with the value of `SKF_ALLOW_REMOTE`
unfoldable pub allows_remote : SkfConfig → Option Text → Bool
unfolding switched_on
allows_remote config remote_env = elim config.allow_remote [
  | some true ↦ true
  | some false ↦ switched_on remote_env
  | none ↦ switched_on remote_env
]

-- `contains_key`
unfoldable pub contains_key : {A : Type 0} → Text → List (Text × A) → Bool
contains_key k m = elim (get k m) [ none ↦ false | some a ↦ true ]

module _ (env : Text → Option Text) where
  -- What a closed `%name%` becomes.
  unfoldable pub substituted : Text → Text
  substituted [] = b'%' ∷ []
  substituted (c ∷ name) = elim (env (c ∷ name)) [
    | some val ↦ val
    | none ↦ b'%' ∷ c ∷ name ++ b'%' ∷ []
  ]

  -- The loop of `expand_env_vars`, on fuel: each turn takes a character at least.
  unfoldable pub expand : ℕ → Text → Text
  unfolding substituted
  expand zero s = []
  expand (suc n) [] = []
  expand (suc n) (c ∷ s) = elim (c == b'%') [
    | false ↦ c ∷ expand n s
    | true ↦ elim (split_once b'%' s) [
      | some (name, rest) ↦ substituted name ++ expand n rest
      | none ↦ b'%' ∷ s
    ]
  ]

  unfoldable pub expand_env_vars : Text → Text
  unfolding expand
  expand_env_vars path = expand (length path) path

  -- `m.iter().find(|(k, _)| k.eq_ignore_ascii_case(os))`
  unfoldable pub find_ignoring_case : Text → List (Text × Text) → Option Text
  unfolding eq_ignore_ascii_case
  find_ignoring_case os [] = none
  find_ignoring_case os ((k, v) ∷ m) =
      let rest = find_ignoring_case os m in if eq_ignore_ascii_case k os then some v else rest

  -- The path as it is configured: the exact name of the system first.
  unfoldable pub raw_path : List (Text × List (Text × Text)) → Text → Text → Option Text
  unfolding find_ignoring_case
  raw_path libs provider os = elim (get provider libs) [
    | none ↦ none
    | some m ↦ elim (get os m) [ some p ↦ some p | none ↦ find_ignoring_case os m ]
  ]

  -- `resolve_lib_path`; `debug` is the text of the list of the aliases.
  unfoldable pub resolve_lib_path :
      (List Text → Text) → List (Text × List (Text × Text)) → Text → Text → Result Text Text
  unfolding raw_path expand_env_vars
  resolve_lib_path debug libs provider os = elim (raw_path libs provider os) [
    | some raw ↦ ok (expand_env_vars raw)
    | none ↦ err (
        text "Provider '"
        ++ provider
        ++ text "' not configured for OS '"
        ++ os
        ++ text "'. Avail Provs: "
        ++ debug (map (λ e. e.0) libs))
  ]

  unfoldable pub has_percent : Text → Bool
  has_percent [] = false
  has_percent (c ∷ s) = c == b'%' || has_percent s

  unfoldable pub when : Bool → Text → List Text
  when b s = if b then s ∷ [] else []

  -- What `validate` reports of the default provider.
  unfoldable pub default_problems : SkfConfig → Text → List Text
  unfolding when has_percent resolve_lib_path contains_key
  default_problems config os =
      if contains_key config.default config.libs
      then elim (resolve_lib_path (λ _. []) config.libs config.default os) [
        | ok path ↦
            when (trim path === [])
              (text "default provider '" ++ config.default ++ text "' resolved to an empty path")
            ++ when (has_percent path) (
                text "default provider '"
                ++ config.default
                ++ text "' has an unresolved environment variable in path '"
                ++ path
                ++ text "'")
        | err e ↦
            (text "default provider '"
              ++ config.default
              ++ text "' has no path configured for OS '"
              ++ os
              ++ text "'")
            ∷ []
      ]
      else (text "default provider '"
          ++ config.default
          ++ text "' is not defined in the provider map")
        ∷ []

  -- Of the other providers.
  unfoldable pub other_problems : SkfConfig → Text → List Text → List Text
  unfolding when has_percent resolve_lib_path
  other_problems config os [] = []
  other_problems config os (alias ∷ aliases) =
      (if alias === config.default
        then []
        else elim (resolve_lib_path (λ _. []) config.libs alias os) [
          | ok path ↦ when (has_percent path) (
              text "provider '"
              ++ alias
              ++ text "' has an unresolved environment variable in path '"
              ++ path
              ++ text "'")
          | err e ↦ []
        ])
      ++ other_problems config os aliases

  -- Of the vendor map.
  unfoldable pub vendor_problems : SkfConfig → List (Text × Text) → List Text
  unfolding when contains_key
  vendor_problems config [] = []
  vendor_problems config ((vpid, alias) ∷ vendor) =
      when (not (contains_key alias config.libs)) (
        text "vendor mapping '"
        ++ vpid
        ++ text "' references unknown provider '"
        ++ alias
        ++ text "'")
      ++ vendor_problems config vendor

  unfoldable pub validate : SkfConfig → Text → List Text
  unfolding default_problems other_problems vendor_problems
  validate config os =
      default_problems config os
      ++ other_problems config os (map (λ e. e.0) config.libs)
      ++ vendor_problems config config.vendor

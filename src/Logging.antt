-- ===== src/Logging.antt =====
-- src/logging.rs: the file logger that rotates by size, and `sanitize`. A file system is the map of
-- its files; writing and renaming succeed, and whether the log opens again is an argument. A line is
-- the text that `serde_json` gives a record, in bytes.
pub mod Bounds
pub mod Places
pub mod Retention
pub mod Sanitizing
use liuzx_skf.Config.{lower}
use liuzx_skf.Common.{
  ltb, leb, ◌==◌, if◌then◌else◌, ==_iff, Bool-cases, Option-cases, Result, Result-cases, is_ok, ok,
  err, length, get_elem?, take, drop, replicate, length-append, length-take, length-drop,
  length-replicate, All, All-append, ℤ, as_i32, pos, negsuc, Text, Bytes, Lacks, Eq, ◌===◌, text_eq,
  text_eq_iff, ===-refl, split_once-join, split_once-Lacks, append-split_once, split-Lacks,
  split-join, text, text_beq, split_once, splitn, trim, trim_start, is_whitespace, split,
  decimal-injective, decimal-Lacks, decimal, hex8, hex_upper, get-insert, get-remove, get-retain,
  IsMap, insert-IsMap, remove-IsMap, retain-IsMap, remove_absent, length-insert_absent,
  length-remove, get, insert, remove, retain, ℕ, zero, suc, ◌+◌, ◌-◌, ◌*◌, ◌/◌, ◌%◌, ◌^◌, ◌≤◌, ◌<◌,
  String, ◌≡◌, refl, sym, ap, subst, ◌∙◌, ◌≡⟨◌⟩◌, ◌∎, fun_ext, ◌≢◌, ◌↔◌, ◌⊎◌, inl, inr, Bool, true,
  false, ◌&&◌, ◌||◌, not, Option, none, some, List, [], ◌∷◌, ◌++◌, map, append-nil, append_assoc,
  arith,
}

-- `MAX_LOG_BYTES`, `KEEP_LOG_FILES` and `SANITIZE_MAX_CHARS`
abbrev pub max_log_bytes : ℕ
max_log_bytes = 10 * 1024 * 1024

abbrev pub keep_log_files : ℕ
keep_log_files = 7

abbrev pub sanitize_max_chars : ℕ
sanitize_max_chars = 512

-- `char::is_control`: the two rows of control characters of Unicode.
unfoldable pub is_control : ℕ → Bool
is_control c = ltb c 32 || (leb 127 c && leb c 159)

-- `value.chars().filter(|c| !c.is_control())`
unfoldable pub uncontrolled : Text → Text
unfolding is_control
uncontrolled [] = []
uncontrolled (c ∷ s) = let rest = uncontrolled s in if is_control c then rest else c ∷ rest

-- The character `…`.
abbrev pub ellipsis : ℕ
ellipsis = 0x2026

unfoldable pub sanitize : Text → Text
unfolding uncontrolled
sanitize value =
    let cleaned = take sanitize_max_chars (uncontrolled value) in
    if ltb sanitize_max_chars (length value) then cleaned ++ ellipsis ∷ [] else cleaned

pub data LevelFilter : Type 0 where
  trace debug info warn error : LevelFilter

-- `str::starts_with` and `str::contains`
unfoldable pub starts_with : Text → Text → Bool
starts_with [] s = true
starts_with (p ∷ prefix) [] = false
starts_with (p ∷ prefix) (c ∷ s) = p == c && starts_with prefix s

unfoldable pub contains : Text → Text → Bool
unfolding starts_with
contains p [] = starts_with p []
contains p (c ∷ s) = starts_with p (c ∷ s) || contains p s

-- `level_from_env`, with the value of `RUST_LOG`
unfoldable pub level_from_env : Option Text → LevelFilter
unfolding contains lower
level_from_env none = info
level_from_env (some raw) =
    let lowered = map lower raw in
    if contains (text "trace") lowered
    then trace
    else if contains (text "debug") lowered
    then debug
    else if contains (text "warn") lowered
    then warn
    else if contains (text "error") lowered
    then error
    else info

abbrev pub Files : Type 0
Files = List (Text × Bytes)

-- `Path::exists` and `std::fs::rename`
unfoldable pub exists : Text → Files → Bool
exists path fs = elim (get path fs) [ none ↦ false | some content ↦ true ]

unfoldable pub rename : Text → Text → Files → Files
rename from to fs = elim (get from fs) [
  | none ↦ fs
  | some content ↦ insert to content (remove from fs)
]

-- Opening a file to append to it makes it if it is not there.
unfoldable pub create_append : Text → Files → Files
create_append path fs = elim (get path fs) [ none ↦ insert path [] fs | some content ↦ fs ]

-- The number of bytes of a file.
unfoldable pub file_len : Text → Files → ℕ
file_len path fs = elim (get path fs) [ none ↦ 0 | some content ↦ length content ]

-- `Inner`: whether the file is open, and how many bytes it has.
pub record Inner : Type 0 where
  pub file : Bool
  pub path : Text
  pub written : ℕ
  pub keep : ℕ

-- `RotatingFileLogger::new`, where the file can be opened
unfoldable pub new : Text → ℕ → Files → Inner × Files
unfolding create_append file_len
new path keep fs =
    let opened = create_append path fs in
    (record { file = true; path = path; written = file_len path opened; keep = keep }, opened)

-- `RotatingFileLogger::numbered`
unfoldable pub numbered : Text → ℕ → Text
numbered path i = path ++ b'.' ∷ decimal i

-- The loop of `rotate`, from the `n`-th file down to the first.
unfoldable pub shift : Text → ℕ → Files → Files
unfolding exists rename numbered
shift path zero fs = fs
shift path (suc n) fs =
    let from = numbered path (suc n) in
    let to = numbered path (suc n + 1) in
    shift path n (if exists from fs then rename from to fs else fs)

-- `RotatingFileLogger::rotate`; `opens` says whether the log opens again.
unfoldable pub rotate : Bool → Inner → Files → Inner × Files
unfolding shift exists rename numbered create_append
rotate opens inner fs =
    let removed = remove (numbered inner.path inner.keep) fs in
    let shifted = shift inner.path (inner.keep - 1) removed in
    let moved =
      (if exists inner.path shifted
        then rename inner.path (numbered inner.path 1) shifted
        else shifted) in
    if opens
    then (record inner { file = true; written = 0 }, create_append inner.path moved)
    else (record inner { file = false }, moved)

-- `file.write_all(line)`, then the line break
unfoldable pub append : Text → Bytes → Files → Files
append path bytes fs = elim (get path fs) [
  | none ↦ fs
  | some content ↦ insert path (content ++ bytes) fs
]

-- `Log::log`, after the lock is taken
unfoldable pub write_line : Bytes → Inner → Files → Inner × Files
unfolding append
write_line line inner fs =
    if inner.file
    then (
      record inner { written = inner.written + (length line + 1) },
      append inner.path (line ++ b'\n' ∷ []) fs,
    )
    else (inner, fs)

unfoldable pub log : Bool → ℕ → Bytes → Inner → Files → Inner × Files
unfolding rotate write_line
log opens max_bytes line inner fs =
    if ltb max_bytes (inner.written + length line + 1)
    then (let (inner', fs') = rotate opens inner fs in write_line line inner' fs')
    else write_line line inner fs

-- ===== src/Logging/Retention.antt =====
-- What the files of src/logging.rs hold: a list of segments, the newest first, of which the logger
-- keeps the active one and `keep` others.
use liuzx_skf.Common.{
  ltb, ◌==◌, if◌then◌else◌, Bool-cases, length, get_elem?, take, length-append, Text, Bytes,
  text_eq, insert, ℕ, zero, suc, ◌+◌, ◌-◌, ◌≤◌, ◌<◌, ◌≡◌, refl, sym, ap, subst, ◌∙◌, inl, inr, true,
  none, some, List, [], ◌∷◌, ◌++◌, arith,
}
use liuzx_skf.Logging.{Files, Inner, new, rotate, create_append, file_len, write_line, append, log}
use liuzx_skf.Logging.Places.{slot, slot-rotate, slot-inserted}

-- The bytes of the active file, and those of the rotated ones.
abbrev pub Segments : Type 0
Segments = Bytes × List Bytes

unfoldable pub log_segments : ℕ → ℕ → Bytes → Segments → Segments
log_segments max_bytes keep line (current, older) =
    let entry = line ++ b'\n' ∷ [] in
    if ltb max_bytes (length current + length line + 1)
    then (entry, take keep (current ∷ older))
    else (current ++ entry, older)

-- The logger's files are the segments, and it knows the length of the active one.
unfoldable pub Represents : Inner × Files → Segments → Type 0
Represents (inner, fs) (current, older) =
    (inner.file ≡ true)
    × (slot inner.path fs 0 ≡ some current)
    × (inner.written ≡ length current)
    × ((i : ℕ) → i < inner.keep → slot inner.path fs (suc i) ≡ get_elem? older i)

take-get : {A : Type 0} → (n i : ℕ) (xs : List A) → i < n → get_elem? (take n xs) i ≡ get_elem? xs i
take-get zero i xs h = absurd (omega (arith, h))
take-get (suc n) i [] h = refl
take-get (suc n) zero (x ∷ xs) h = refl
take-get (suc n) (suc i) (x ∷ xs) h = take-get n i xs (omega (arith, h))

slot-append :
    (path : Text) (j : ℕ) (bytes content : Bytes) (fs : Files)
    → slot path fs 0 ≡ some content
    → slot path (append path bytes fs) j
      ≡ (if j == 0 then some (content ++ bytes) else slot path fs j)
unfolding append
slot-append path j bytes content fs h =
    ground (arith, h, slot-inserted path 0 j (content ++ bytes) fs)

rotate-Represents :
    (inner : Inner) (fs : Files) (current : Bytes) (older : List Bytes)
    → 1 ≤ inner.keep
    → Represents (inner, fs) (current, older)
    → Represents (rotate true inner fs) ([], take inner.keep (current ∷ older))
unfolding Represents rotate
rotate-Represents inner fs current older kept (opened, active, size, rest) =
    (refl, slot-rotate inner k 0 fs whole, refl, λ i h. moved i h ∙ earlier i h)
  where
    k : ℕ
    k = inner.keep - 1

    whole : inner.keep ≡ suc k
    whole = omega (arith, kept)

    moved :
        (i : ℕ)
        → i < inner.keep
        → slot inner.path (rotate true inner fs).1 (suc i) ≡ slot inner.path fs i
    moved i h = ground (
      arith,
      h,
      slot-rotate inner k (suc i) fs whole,
      λ (p : suc i - 1 ≡ i). ap (slot inner.path fs) p,
    )

    earlier :
        (i : ℕ)
        → i < inner.keep
        → slot inner.path fs i ≡ get_elem? (take inner.keep (current ∷ older)) i
    earlier zero h = active ∙ sym (take-get inner.keep 0 (current ∷ older) h)
    earlier (suc i) h =
        rest i (omega (arith, h)) ∙ sym (take-get inner.keep (suc i) (current ∷ older) h)

write_line-Represents :
    (line : Bytes) (inner : Inner) (fs : Files) (current : Bytes) (older : List Bytes)
    → Represents (inner, fs) (current, older)
    → Represents (write_line line inner fs) (current ++ (line ++ b'\n' ∷ []), older)
unfolding Represents write_line
write_line-Represents line inner fs current older (opened, active, size, rest) = rw opened (
  refl,
  at 0,
  omega (arith, size, length-append current entry, length-append line (b'\n' ∷ [])),
  λ i h. ground (arith, at (suc i)) ∙ rest i h,
)
  where
    entry : Bytes
    entry = line ++ b'\n' ∷ []

    at :
        (j : ℕ)
        → slot inner.path (append inner.path entry fs) j
          ≡ (if j == 0 then some (current ++ entry) else slot inner.path fs j)
    at j = slot-append inner.path j entry current fs active

-- Logging a line does to the files what it does to the segments.
log-Represents :
    (max_bytes : ℕ) (line : Bytes) (inner : Inner) (fs : Files) (segments : Segments)
    → 1 ≤ inner.keep
    → Represents (inner, fs) segments
    → Represents
        (log true max_bytes line inner fs)
        (log_segments max_bytes inner.keep line segments)
unfolding log log_segments Represents
log-Represents max_bytes line inner fs (current, older) kept (opened, active, size, rest) =
    elim (Bool-cases (ltb max_bytes (length current + length line + 1))) [
      | inl e ↦ rw (same ∙ e) (
          rw e (
            write_line-Represents line (rotate true inner fs).0 (rotate true inner fs).1 []
              (take inner.keep (current ∷ older))
              (rotate-Represents inner fs current older kept (opened, active, size, rest))))
      | inr e ↦
          rw (same ∙ e)
            (rw e (write_line-Represents line inner fs current older (opened, active, size, rest)))
    ]
  where
    same :
        ltb max_bytes (inner.written + length line + 1)
        ≡ ltb max_bytes (length current + length line + 1)
    same = ap (λ n. ltb max_bytes (n + length line + 1)) size

log-keep :
    (max_bytes : ℕ) (line : Bytes) (inner : Inner) (fs : Files)
    → (log true max_bytes line inner fs).0.keep ≡ inner.keep
unfolding log rotate write_line
log-keep max_bytes line inner fs = ground arith

-- The lines that a logger is given, one after the other.
unfoldable pub log_all : ℕ → List Bytes → Inner × Files → Inner × Files
unfolding log
log_all max_bytes [] s = s
log_all max_bytes (line ∷ lines) (inner, fs) =
    log_all max_bytes lines (log true max_bytes line inner fs)

unfoldable pub log_all_segments : ℕ → ℕ → List Bytes → Segments → Segments
unfolding log_segments
log_all_segments max_bytes keep [] segments = segments
log_all_segments max_bytes keep (line ∷ lines) segments =
    log_all_segments max_bytes keep lines (log_segments max_bytes keep line segments)

-- The active log file and the rotated ones up to `keep` hold the segments of the list that the
-- specification keeps, and `written` is the length of the active one: each logged line keeps that
-- so, where the log opens again after each rotation and at least one rotated file is kept.
pub log_all-Represents :
    (max_bytes : ℕ) (lines : List Bytes) (s : Inner × Files) (segments : Segments)
    → 1 ≤ s.0.keep
    → Represents s segments
    → Represents (log_all max_bytes lines s) (log_all_segments max_bytes s.0.keep lines segments)
unfolding log_all log_all_segments
log_all-Represents max_bytes [] s segments kept h = h
log_all-Represents max_bytes (line ∷ lines) (inner, fs) segments kept h =
    let same = log-keep max_bytes line inner fs in
    subst
      (λ keep.
        Represents (log_all max_bytes lines (log true max_bytes line inner fs))
          (log_all_segments max_bytes keep lines (log_segments max_bytes inner.keep line segments)))
      same
      (log_all-Represents max_bytes lines (log true max_bytes line inner fs)
        (log_segments max_bytes inner.keep line segments) (omega (arith, kept, same))
        (log-Represents max_bytes line inner fs segments kept h))

pub new-Represents :
    (path : Text) (keep : ℕ) (fs : Files)
    → ((i : ℕ) → i ≤ keep → slot path fs i ≡ none)
    → Represents (new path keep fs) ([], [])
unfolding Represents new create_append file_len
new-Represents path keep fs free =
    let start = free 0 (omega arith) in
    (
      refl,
      ground (arith, start, at 0),
      ground (arith, start, at 0),
      λ i h. ground (arith, start, at (suc i)) ∙ free (suc i) (omega (arith, h)),
    )
  where
    at : (j : ℕ) → slot path (insert path [] fs) j ≡ (if j == 0 then some [] else slot path fs j)
    at j = slot-inserted path 0 j [] fs

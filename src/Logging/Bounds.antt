-- ===== src/Logging/Bounds.antt =====
-- What the logger of src/logging.rs keeps of the lines it was given, and what it drops.
use liuzx_skf.Common.{
  ltb, Bool-cases, length, take, length-append, length-take, All, Text, Bytes, text_eq, ℕ, zero,
  suc, ◌+◌, ◌≤◌, ◌<◌, ◌≡◌, refl, sym, ap, subst, ◌∙◌, ◌⊎◌, inl, inr, none, List, [], ◌∷◌, ◌++◌,
  append-nil, append_assoc, arith,
}
use liuzx_skf.Logging.{Files, new}
use liuzx_skf.Logging.Places.{slot}
use liuzx_skf.Logging.Retention.{
  Segments, log_segments, log_all, log_all_segments, Represents, log_all-Represents, new-Represents,
}

unfoldable pub lines_text : List Bytes → Bytes
lines_text [] = []
lines_text (line ∷ lines) = (line ++ b'\n' ∷ []) ++ lines_text lines

-- The text of rotated files, the oldest first, and that of all the files.
unfoldable pub older_text : List Bytes → Bytes
older_text [] = []
older_text (segment ∷ older) = older_text older ++ segment

-- `longest` bounds a line and its line break.
IsFull : ℕ → ℕ → Bytes → Type 0
IsFull max_bytes longest segment =
    (length segment ≤ max_bytes) × (max_bytes < length segment + longest)

unfoldable pub Retains : ℕ → ℕ → ℕ → Bytes → Segments → Type 0
unfolding IsFull older_text
Retains max_bytes keep longest logged (current, older) =
    (dropped : Bytes) × (logged ≡ dropped ++ (older_text older ++ current))
    × (length current ≤ max_bytes)
    × All (IsFull max_bytes longest) older
    × (length older ≤ keep)
    × ((dropped ≡ []) ⊎ (length older ≡ keep))

take-All : (P : Bytes → Type 0) (n : ℕ) (xs : List Bytes) → All P xs → All P (take n xs)
take-All P zero xs h = tt
take-All P (suc n) [] h = tt
take-All P (suc n) (x ∷ xs) h = (h.0, take-All P n xs h.1)

older_text-take :
    (n : ℕ) (xs : List Bytes)
    → (lost : Bytes) × (older_text xs ≡ lost ++ older_text (take n xs))
      × ((lost ≡ []) ⊎ (length (take n xs) ≡ n))
unfolding older_text
older_text-take zero xs = (older_text xs, sym (append-nil (older_text xs)), inr refl)
older_text-take (suc n) [] = ([], refl, inl refl)
older_text-take (suc n) (x ∷ xs) =
    let (lost, e, full) = older_text-take n xs in
    (lost, ap (λ t. t ++ x) e ∙ append_assoc lost (older_text (take n xs)) x, ground (arith, full))

log_segments-Retains :
    (max_bytes keep longest : ℕ) (line logged : Bytes) (segments : Segments)
    → longest ≤ max_bytes
    → length line + 1 ≤ longest
    → Retains max_bytes keep longest logged segments
    → Retains max_bytes keep longest
        (logged ++ (line ++ b'\n' ∷ []))
        (log_segments max_bytes keep line segments)
unfolding log_segments Retains
log_segments-Retains max_bytes keep longest line logged (current, older) fits short
      (dropped, e, size, full, few, lossless) =
    elim (Bool-cases (ltb max_bytes (length current + length line + 1))) [
      | inl t ↦ rw t (
          let (lost, e', few') = older_text-take keep (current ∷ older) in
          (
            dropped ++ lost,
            rw e (rw e' (simp append_assoc refl)),
            omega (arith, entry_length, short, fits),
            take-All _ keep (current ∷ older) ((size, ground (arith, t, short)), full),
            ground (arith, length-take keep (current ∷ older)),
            ground (arith, few', lossless, length-take keep (current ∷ older), append-nil dropped),
          ))
      | inr t ↦ rw t (
        dropped,
        rw e (simp append_assoc refl),
        ground (arith, t, entry_length, length-append current entry),
        full,
        few,
        lossless,
      )
    ]
  where
    entry : Bytes
    entry = line ++ b'\n' ∷ []

    entry_length : length entry ≡ length line + 1
    entry_length = omega (arith, length-append line (b'\n' ∷ []))

lines-Retains :
    (max_bytes keep longest : ℕ) (lines : List Bytes) (logged : Bytes) (segments : Segments)
    → longest ≤ max_bytes
    → All (λ line. length line + 1 ≤ longest) lines
    → Retains max_bytes keep longest logged segments
    → Retains max_bytes keep longest
        (logged ++ lines_text lines)
        (log_all_segments max_bytes keep lines segments)
unfolding lines_text log_all_segments
lines-Retains max_bytes keep longest [] logged segments fits short h = rw (append-nil logged) h
lines-Retains max_bytes keep longest (line ∷ lines) logged segments fits short h =
    subst
      (λ text.
        Retains max_bytes keep longest text
          (log_all_segments max_bytes keep lines (log_segments max_bytes keep line segments)))
      (append_assoc logged (line ++ b'\n' ∷ []) (lines_text lines))
      (lines-Retains max_bytes keep longest lines (logged ++ (line ++ b'\n' ∷ []))
        (log_segments max_bytes keep line segments) fits short.1
        (log_segments-Retains max_bytes keep longest line logged segments fits short.0 h))

-- A logger is opened where there are no log files numbered up to `keep`, and given lines that with
-- their line breaks have at most `longest` bytes, which is no more than a file may have; the log
-- opens again after each rotation. Then the active file and the rotated ones up to `keep` hold, the
-- oldest first, what the logger was given but for a part dropped from its front. None has more than
-- `max_bytes` bytes, each rotated one has more than `max_bytes - longest`, and nothing is dropped
-- unless there are `keep` rotated ones.
pub log_all-Retains :
    (max_bytes keep longest : ℕ) (path : Text) (lines : List Bytes) (fs : Files)
    → 1 ≤ keep
    → longest ≤ max_bytes
    → All (λ line. length line + 1 ≤ longest) lines
    → ((i : ℕ) → i ≤ keep → slot path fs i ≡ none)
    → (segments : Segments) × Represents (log_all max_bytes lines (new path keep fs)) segments
      × Retains max_bytes keep longest (lines_text lines) segments
unfolding new Retains older_text
log_all-Retains max_bytes keep longest path lines fs kept fits short free = (
  log_all_segments max_bytes keep lines ([], []),
  log_all-Represents max_bytes lines (new path keep fs) ([], []) kept
      (new-Represents path keep fs free),
  lines-Retains max_bytes keep longest lines [] ([], []) fits short
      ([], refl, omega arith, tt, omega arith, inl refl),
)

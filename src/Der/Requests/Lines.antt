-- ===== src/Der/Requests/Lines.antt =====
-- The lines of the text of a certificate request of src/domain/crypto.rs.
use liuzx_skf.Der.{concat}
use liuzx_skf.Der.Requests.{columns, end_line, begin_line, last_line, pem}
use liuzx_skf.Common.{
  ◌==◌, if◌then◌else◌, Bool-cases, length, All, Text, Lacks, text_eq, split-Lacks, split-join, text,
  split, ℕ, ◌+◌, ◌%◌, ◌≤◌, ◌<◌, ◌≡◌, refl, sym, ap, subst, ◌∙◌, inl, inr, true, false, List, [],
  ◌∷◌, ◌++◌, append_assoc, arith,
}

-- The rows of a text that begins at a column, by the place of its first character.
push : ℕ → List Text → List Text
push c [] = (c ∷ []) ∷ []
push c (row ∷ rows) = (c ∷ row) ∷ rows

pub rows_from : ℕ → Text → List Text
unfolding push
rows_from i [] = []
rows_from i (c ∷ []) = (c ∷ []) ∷ []
rows_from i (c ∷ d ∷ s) =
    let rest = rows_from (i + 1) (d ∷ s) in
    if (i + 1) % 64 == 0 then (c ∷ []) ∷ rest else push c rest

joined : List Text → Text
joined [] = []
joined (row ∷ rows) = row ++ b'\n' ∷ joined rows

-- Every row has 64 characters, with those before the first one's column, but the last, which has
-- fewer or as many; none is empty.
abbrev pub Filled : ℕ → List Text → Type 0
Filled k [] = Unit
Filled k (row ∷ []) = (0 < length row) × (k + length row ≤ 64)
Filled k (row ∷ next ∷ rows) = (0 < length row) × (k + length row ≡ 64) × Filled 0 (next ∷ rows)

-- The rows of a text that is not empty, with the first one apart.
rows_from-cons :
    (i c : ℕ) (s : Text) → (row : Text) × (rows : List Text) × (rows_from i (c ∷ s) ≡ row ∷ rows)
unfolding rows_from push
rows_from-cons i c [] = (c ∷ [], [], refl)
rows_from-cons i c (d ∷ s) =
    let (row, rows, e) = rows_from-cons (i + 1) d s in
    elim (Bool-cases ((i + 1) % 64 == 0)) [
      | inl h ↦ (c ∷ [], rows_from (i + 1) (d ∷ s), rw h)
      | inr h ↦ (c ∷ row, rows, rw (h, e))
    ]

concat-push : (c : ℕ) (rows : List Text) → concat (push c rows) ≡ c ∷ concat rows
unfolding concat push
concat-push c [] = refl
concat-push c (row ∷ rows) = refl

concat-rows_from : (i : ℕ) (s : Text) → concat (rows_from i s) ≡ s
unfolding concat rows_from
concat-rows_from i [] = refl
concat-rows_from i (c ∷ []) = refl
concat-rows_from i (c ∷ d ∷ s) = elim (Bool-cases ((i + 1) % 64 == 0)) [
  | inl h ↦ rw h (ap (λ l. c ∷ l) (concat-rows_from (i + 1) (d ∷ s)))
  | inr h ↦ rw h (
      concat-push c (rows_from (i + 1) (d ∷ s))
      ∙ ap (λ l. c ∷ l) (concat-rows_from (i + 1) (d ∷ s)))
]

Filled-push :
    (k c : ℕ) (row : Text) (rows : List Text)
    → Filled (k + 1) (row ∷ rows)
    → Filled k ((c ∷ row) ∷ rows)
Filled-push k c row [] h = omega (arith, h)
Filled-push k c row (next ∷ rows) h = (omega arith, omega (arith, h.1), h.2)

Filled-cons :
    (c : ℕ) (row : Text) (rows : List Text)
    → Filled 0 (row ∷ rows)
    → Filled 63 ((c ∷ []) ∷ row ∷ rows)
Filled-cons c row rows h = (omega arith, omega arith, h)

Filled-rows_from : (i : ℕ) (s : Text) → Filled (i % 64) (rows_from i s)
unfolding rows_from push
Filled-rows_from i [] = tt
Filled-rows_from i (c ∷ []) = omega arith
Filled-rows_from i (c ∷ d ∷ s) =
    let (row, rows, e) = rows_from-cons (i + 1) d s in
    let ih : Filled ((i + 1) % 64) (row ∷ rows) =
      subst (Filled ((i + 1) % 64)) e (Filled-rows_from (i + 1) (d ∷ s)) in
    elim (Bool-cases ((i + 1) % 64 == 0)) [
      | inl h ↦
          let at_end : i % 64 ≡ 63 = ground arith in
          let start : (i + 1) % 64 ≡ 0 = ground arith in
          rw (h, e, at_end) (Filled-cons c row rows (subst (λ k. Filled k (row ∷ rows)) start ih))
      | inr h ↦
          let later : (i + 1) % 64 ≡ i % 64 + 1 = ground arith in
          rw (h, e) (Filled-push (i % 64) c row rows (subst (λ k. Filled k (row ∷ rows)) later ih))
    ]

-- `columns` writes these rows.
columns-cons : (i c : ℕ) (s : Text) → (t : Text) × (columns i (c ∷ s) ≡ c ∷ t)
unfolding columns
columns-cons i c s = (_, refl)

joined-push :
    (c : ℕ) (row : Text) (rows : List Text) → joined (push c (row ∷ rows)) ≡ c ∷ joined (row ∷ rows)
unfolding joined push
joined-push c row rows = refl

columns_end :
    (i c : ℕ) (s : Text)
    → (i + 1) % 64 == 0 ≡ true
    → columns i (c ∷ s) ≡ c ∷ b'\n' ∷ columns (i + 1) s
unfolding columns
columns_end i c s h = rw h

columns_inside :
    (i c : ℕ) (s : Text) → (i + 1) % 64 == 0 ≡ false → columns i (c ∷ s) ≡ c ∷ columns (i + 1) s
unfolding columns
columns_inside i c s h = rw h

rows_end :
    (i c d : ℕ) (s : Text)
    → (i + 1) % 64 == 0 ≡ true
    → rows_from i (c ∷ d ∷ s) ≡ (c ∷ []) ∷ rows_from (i + 1) (d ∷ s)
unfolding rows_from
rows_end i c d s h = rw h

rows_inside :
    (i c d : ℕ) (s : Text)
    → (i + 1) % 64 == 0 ≡ false
    → rows_from i (c ∷ d ∷ s) ≡ push c (rows_from (i + 1) (d ∷ s))
unfolding rows_from
rows_inside i c d s h = rw h

-- A line break in front of a text that goes on, and a character.
end_line-cons : (c : ℕ) (x t : Text) (d : ℕ) → x ≡ d ∷ t → end_line (c ∷ x) ≡ c ∷ end_line x
unfolding end_line
end_line-cons c x t d e = rw e

end_line-columns :
    (i c : ℕ) (s : Text)
    → Lacks b'\n' (c ∷ s)
    → end_line (columns i (c ∷ s)) ≡ joined (rows_from i (c ∷ s))
unfolding joined
end_line-columns i c [] n = unfold end_line columns rows_from in ground (arith, n.0)
end_line-columns i c (d ∷ s) n =
    let (t, x) = columns-cons (i + 1) d s in
    let ih = end_line-columns (i + 1) d s n.1 in
    let (row, rows, e) = rows_from-cons (i + 1) d s in
    elim (Bool-cases ((i + 1) % 64 == 0)) [
      | inl h ↦
          rw (columns_end i c (d ∷ s) h, rows_end i c d s h)
            (end_line-cons c (b'\n' ∷ columns (i + 1) (d ∷ s)) (columns (i + 1) (d ∷ s)) b'\n' refl
              ∙ ap (λ l. c ∷ l) (end_line-cons b'\n' (columns (i + 1) (d ∷ s)) t d x)
              ∙ ap (λ l. c ∷ b'\n' ∷ l) ih)
      | inr h ↦
          rw (columns_inside i c (d ∷ s) h, rows_inside i c d s h)
            (end_line-cons c (columns (i + 1) (d ∷ s)) t d x
              ∙ ap (λ l. c ∷ l) ih
              ∙ rw e (sym (joined-push c row rows)))
    ]

end_line-append : (a x t : Text) (d : ℕ) → x ≡ d ∷ t → end_line (a ++ x) ≡ a ++ end_line x
unfolding end_line
end_line-append [] x t d e = refl
end_line-append (c ∷ []) x t d e = end_line-cons c x t d e
end_line-append (c ∷ b ∷ a) x t d e = ap (λ l. c ∷ l) (end_line-append (b ∷ a) x t d e)

-- The rows as lines.
rows-Lacks : (i : ℕ) (s : Text) → Lacks b'\n' s → All (Lacks b'\n') (rows_from i s)
unfolding rows_from push
rows-Lacks i [] n = tt
rows-Lacks i (c ∷ []) n = ((n.0, tt), tt)
rows-Lacks i (c ∷ d ∷ s) n =
    let (row, rows, e) = rows_from-cons (i + 1) d s in
    let ih : All (Lacks b'\n') (row ∷ rows) =
      subst (All (Lacks b'\n')) e (rows-Lacks (i + 1) (d ∷ s) n.1) in
    elim (Bool-cases ((i + 1) % 64 == 0)) [
      | inl h ↦ rw (h, e) ((n.0, tt), ih)
      | inr h ↦ rw (h, e) ((n.0, ih.0), ih.1)
    ]

split-joined :
    (rows : List Text) (last : Text)
    → All (Lacks b'\n') rows
    → Lacks b'\n' last
    → split b'\n' (joined rows ++ last) ≡ rows ++ last ∷ []
unfolding joined
split-joined [] last n l = split-Lacks b'\n' last l
split-joined (row ∷ rows) last n l = rw (append_assoc row (b'\n' ∷ joined rows) last) (
    split-join b'\n' row (joined rows ++ last) n.0
    ∙ ap (λ x. row ∷ x) (split-joined rows last n.1 l))

pem_form :
    (s : Text) → Lacks b'\n' s → pem s ≡ (begin_line ++ b'\n' ∷ joined (rows_from 0 s)) ++ last_line
unfolding pem
pem_form [] n = unfold columns end_line joined rows_from text in refl
pem_form (c ∷ s) n =
    let (t, x) = columns-cons 0 c s in
    ap (λ l. l ++ last_line)
      (end_line-append (begin_line ++ b'\n' ∷ []) (columns 0 (c ∷ s)) t c x
        ∙ append_assoc begin_line (b'\n' ∷ []) (end_line (columns 0 (c ∷ s)))
        ∙ ap (λ l. begin_line ++ b'\n' ∷ l) (end_line-columns 0 c s n))

-- The text of a request, of a base64 text without a line break, is its begin line, the base64 text
-- in rows, and its end line: every row but the last has 64 characters, the last has at least one and
-- at most 64, and one behind the other they are the base64 text.
pub split-pem :
    (s : Text)
    → Lacks b'\n' s
    → (rows : List Text) × (split b'\n' (pem s) ≡ begin_line ∷ (rows ++ last_line ∷ []))
      × (concat rows ≡ s)
      × Filled 0 rows
split-pem s n = (
  rows_from 0 s,
  rw (pem_form s n) (
      ap (split b'\n') (append_assoc begin_line (b'\n' ∷ joined (rows_from 0 s)) last_line)
      ∙ split-join b'\n' begin_line (joined (rows_from 0 s) ++ last_line)
          (unfold text in omega arith)
      ∙ ap (λ l. begin_line ∷ l)
          (split-joined (rows_from 0 s) last_line (rows-Lacks 0 s n) (unfold text in omega arith))),
  concat-rows_from 0 s,
  Filled-rows_from 0 s,
)

-- ===== src/Logging/Sanitizing.antt =====
-- What `sanitize` of src/logging.rs leaves of a value.
use liuzx_skf.Common.{
  ltb, if◌then◌else◌, Bool-cases, length, take, drop, length-take, All, All-append, Text, text_eq,
  ℕ, zero, suc, ◌≤◌, ◌≡◌, refl, sym, ap, subst, ◌⊎◌, inl, inr, Bool, true, false, [], ◌∷◌, ◌++◌,
  append-nil, arith,
}
use liuzx_skf.Logging.{is_control, uncontrolled, sanitize, sanitize_max_chars, ellipsis}

abbrev pub IsPrintable : Text → Type 0
IsPrintable = All (λ c. is_control c ≡ false)

uncontrolled-IsPrintable : (s : Text) → IsPrintable (uncontrolled s)
unfolding uncontrolled
uncontrolled-IsPrintable [] = tt
uncontrolled-IsPrintable (c ∷ s) = elim (Bool-cases (is_control c)) [
  | inl e ↦ rw e (uncontrolled-IsPrintable s)
  | inr e ↦ rw e (e, uncontrolled-IsPrintable s)
]

take-IsPrintable : (n : ℕ) (s : Text) → IsPrintable s → IsPrintable (take n s)
take-IsPrintable zero s h = tt
take-IsPrintable (suc n) [] h = tt
take-IsPrintable (suc n) (c ∷ s) h = (h.0, take-IsPrintable n s h.1)

ellipsis-IsPrintable : IsPrintable (ellipsis ∷ [])
unfolding is_control
ellipsis-IsPrintable = (refl, tt)

-- The second text is the first without its control characters, and with all the others in order.
pub data Cleans : Text → Text → Type 0 where
  done : Cleans [] []
  dropped : {c : ℕ} {s t : Text} → is_control c ≡ true → Cleans s t → Cleans (c ∷ s) t
  kept : {c : ℕ} {s t : Text} → is_control c ≡ false → Cleans s t → Cleans (c ∷ s) (c ∷ t)

uncontrolled-Cleans : (s : Text) → Cleans s (uncontrolled s)
unfolding uncontrolled
uncontrolled-Cleans [] = done
uncontrolled-Cleans (c ∷ s) = elim (Bool-cases (is_control c)) [
  | inl e ↦ rw e (dropped e (uncontrolled-Cleans s))
  | inr e ↦ rw e (kept e (uncontrolled-Cleans s))
]

take-drop : (n : ℕ) (s : Text) → take n s ++ drop n s ≡ s
take-drop zero s = refl
take-drop (suc n) [] = refl
take-drop (suc n) (c ∷ s) = ap (λ l. c ∷ l) (take-drop n s)

drop_short : (n : ℕ) (s : Text) → (length (take n s) ≡ n) ⊎ (drop n s ≡ [])
drop_short zero s = inl refl
drop_short (suc n) [] = inr refl
drop_short (suc n) (c ∷ s) = ground (arith, drop_short n s)

-- A sanitized value begins with the characters of the value that are no control characters, line
-- breaks among these, in order and up to the 512th; it is that, and the sign `…` behind it exactly
-- if the value has more than 512 characters, control characters counted, so that it has up to 513.
pub sanitize_lem :
    (value : Text)
    → (cleaned : Text) × (rest : Text) × Cleans value (cleaned ++ rest)
      × ((length cleaned ≡ sanitize_max_chars) ⊎ (rest ≡ []))
      × (length cleaned ≤ sanitize_max_chars)
      × (sanitize value
          ≡ cleaned ++ (if ltb sanitize_max_chars (length value) then ellipsis ∷ [] else []))
      × IsPrintable (sanitize value)
unfolding sanitize
sanitize_lem value =
    let cleaned = take sanitize_max_chars (uncontrolled value) in
    let rest = drop sanitize_max_chars (uncontrolled value) in
    (
      cleaned,
      rest,
      subst (Cleans value) (sym (take-drop sanitize_max_chars (uncontrolled value)))
          (uncontrolled-Cleans value),
      drop_short sanitize_max_chars (uncontrolled value),
      omega (arith, length-take sanitize_max_chars (uncontrolled value)),
      marked (ltb sanitize_max_chars (length value)) cleaned,
      printed (ltb sanitize_max_chars (length value)),
    )
  where
    marked :
        (b : Bool) (s : Text)
        → (if b then s ++ ellipsis ∷ [] else s) ≡ s ++ (if b then ellipsis ∷ [] else [])
    marked true s = refl
    marked false s = sym (append-nil s)

    clean : IsPrintable (take sanitize_max_chars (uncontrolled value))
    clean =
        take-IsPrintable sanitize_max_chars (uncontrolled value) (uncontrolled-IsPrintable value)

    printed :
        (b : Bool)
        → IsPrintable (
            if b
            then take sanitize_max_chars (uncontrolled value) ++ ellipsis ∷ []
            else take sanitize_max_chars (uncontrolled value))
    printed true =
        All-append (λ (c : ℕ). is_control c ≡ false) (take sanitize_max_chars (uncontrolled value))
          (ellipsis ∷ []) clean ellipsis-IsPrintable
    printed false = clean

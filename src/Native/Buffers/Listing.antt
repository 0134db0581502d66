-- ===== src/Native/Buffers/Listing.antt =====
-- The name lists of src/provider/native.rs: each name is followed by a zero byte.
use liuzx_skf.Native.Buffers.{split_nul, non_empty, parse_cstr_list}
use liuzx_skf.Common.{
  length, take, replicate, All, Text, Bytes, Lacks, text_eq, ℕ, zero, suc, ◌<◌, ◌≡◌, refl, ap, ◌∙◌,
  List, [], ◌∷◌, ◌++◌, map, append_assoc, arith,
}

-- The list as the library writes it.
abbrev pub nul_list : List Bytes → Bytes
nul_list [] = []
nul_list (name ∷ names) = name ++ 0 ∷ nul_list names

-- A name has a byte, and no zero byte.
abbrev pub IsName : Bytes → Type 0
IsName name = (0 < length name) × Lacks 0 name

split_nul-append :
    (name bs : Bytes) → Lacks 0 name → split_nul (name ++ 0 ∷ bs) ≡ name ∷ split_nul bs
unfolding split_nul
split_nul-append [] bs h = refl
split_nul-append (b ∷ name) bs h = ground (arith, split_nul-append name bs h.1)

non_empty-zeros : (k : ℕ) → non_empty (split_nul (replicate k 0)) ≡ []
unfolding non_empty split_nul
non_empty-zeros zero = refl
non_empty-zeros (suc k) = non_empty-zeros k

non_empty-name :
    (name : Bytes) (pieces : List Bytes)
    → 0 < length name
    → non_empty (name ∷ pieces) ≡ name ∷ non_empty pieces
unfolding non_empty
non_empty-name [] pieces h = absurd (omega (arith, h))
non_empty-name (b ∷ name) pieces h = refl

pieces :
    (names : List Bytes) (k : ℕ)
    → All IsName names
    → non_empty (split_nul (nul_list names ++ replicate k 0)) ≡ names
pieces [] k h = non_empty-zeros k
pieces (name ∷ names) k h = rw (append_assoc name (0 ∷ nul_list names) (replicate k 0)) (
    rw (split_nul-append name (nul_list names ++ replicate k 0) h.0.1) (
      non_empty-name name (split_nul (nul_list names ++ replicate k 0)) h.0.0
      ∙ ap (λ ps. name ∷ ps) (pieces names k h.1)))

take-append : (xs ys : Bytes) → take (length xs) (xs ++ ys) ≡ xs
take-append [] ys = refl
take-append (x ∷ xs) ys = ap (λ zs. x ∷ zs) (take-append xs ys)

-- Names without a zero byte, each followed by one, and then any number of zero bytes, are read
-- back as the names, whatever lies behind them in the buffer.
pub parse_cstr_list-nul_list :
    (utf8_lossy : Bytes → Text) (names : List Bytes) (k : ℕ) (rest : Bytes)
    → All IsName names
    → parse_cstr_list utf8_lossy
        ((nul_list names ++ replicate k 0) ++ rest)
        (length (nul_list names ++ replicate k 0))
      ≡ map utf8_lossy names
unfolding parse_cstr_list
parse_cstr_list-nul_list utf8_lossy names k rest h =
    rw (take-append (nul_list names ++ replicate k 0) rest, pieces names k h) refl

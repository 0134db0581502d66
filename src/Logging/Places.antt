-- ===== src/Logging/Places.antt =====
-- Where `rotate` of src/logging.rs moves each file.
use liuzx_skf.Logging.{Files, Inner, numbered, exists, rename, shift, rotate, create_append}
use liuzx_skf.Common.{
  leb, ◌==◌, if◌then◌else◌, ==_iff, Bool-cases, length, length-append, Text, Bytes, ◌===◌, text_eq,
  text_eq_iff, decimal-injective, decimal, get-insert, get-remove, get, insert, remove, ℕ, zero,
  suc, ◌+◌, ◌-◌, ◌≡◌, refl, sym, ap, ◌∙◌, ◌≢◌, inl, inr, true, Option, none, some, [], ◌∷◌, ◌++◌,
  arith,
}

-- The active file, and the rotated ones by their numbers.
abbrev pub place : Text → ℕ → Text
place path zero = path
place path (suc i) = numbered path (suc i)

abbrev pub slot : Text → Files → ℕ → Option Bytes
slot path fs i = get (place path i) fs

append-injective : (p s t : Text) → p ++ s ≡ p ++ t → s ≡ t
append-injective [] s t h = h
append-injective (c ∷ p) s t h = append-injective p s t (cc)

numbered-ne : (path : Text) (i : ℕ) → path ≢ numbered path i
unfolding numbered
numbered-ne path i h = absurd (omega (arith, ap length h, length-append path (b'.' ∷ decimal i)))

place-injective : (path : Text) (i j : ℕ) → place path i ≡ place path j → i ≡ j
unfolding numbered
place-injective path zero zero h = refl
place-injective path zero (suc j) h = absurd (numbered-ne path (suc j) h)
place-injective path (suc i) zero h = absurd (numbered-ne path (suc i) (sym h))
place-injective path (suc i) (suc j) h =
    decimal-injective (suc i) (suc j)
      (cons_tail (append-injective path (b'.' ∷ decimal (suc i)) (b'.' ∷ decimal (suc j)) h))
  where
    cons_tail : {s t : Text} → b'.' ∷ s ≡ b'.' ∷ t → s ≡ t
    cons_tail h = cc

place-=== : (path : Text) (i j : ℕ) → (place path i === place path j) ≡ (i == j)
place-=== path i j = elim (Bool-cases (i == j)) [
  | inl e ↦
      rw e ((text_eq_iff (place path i) (place path j)).1 (ap (place path) ((==_iff i j).0 e)))
  | inr e ↦ rw e (
      ground
        (arith, text_eq_iff (place path i) (place path j), place-injective path i j, ==_iff i j))
]

-- A file that is moved to a place where there is none.
slot-moved :
    (path : Text) (a b j : ℕ) (fs : Files)
    → a ≢ b
    → slot path fs b ≡ none
    → slot path (if exists (place path a) fs then rename (place path a) (place path b) fs else fs) j
      ≡ (if j == b then slot path fs a else if j == a then none else slot path fs j)
unfolding exists rename
slot-moved path a b j fs n free = ground (
  arith,
  get-insert (place path b) (place path j) (value (slot path fs a)) (remove (place path a) fs),
  get-remove (place path a) (place path j) fs,
  place-=== path b j,
  place-=== path a j,
  λ (p : j ≡ a). ap (slot path fs) p,
  λ (p : j ≡ b). ap (slot path fs) p,
)
  where
    value : Option Bytes → Bytes
    value none = []
    value (some v) = v

slot-removed :
    (path : Text) (a j : ℕ) (fs : Files)
    → slot path (remove (place path a) fs) j ≡ (if j == a then none else slot path fs j)
slot-removed path a j fs =
    ground (arith, get-remove (place path a) (place path j) fs, place-=== path a j)

pub slot-inserted :
    (path : Text) (a j : ℕ) (v : Bytes) (fs : Files)
    → slot path (insert (place path a) v fs) j ≡ (if j == a then some v else slot path fs j)
slot-inserted path a j v fs =
    ground (arith, get-insert (place path a) (place path j) v fs, place-=== path a j)

-- The loop moves each of the files up to the `n`-th one place on.
slot-shift :
    (path : Text) (n j : ℕ) (fs : Files)
    → slot path fs (suc n) ≡ none
    → slot path (shift path n fs) j ≡ (
        if j == 0
        then slot path fs 0
        else if j == 1
        then none
        else if leb j (n + 1)
        then slot path fs (j - 1)
        else slot path fs j)
unfolding shift
slot-shift path zero j fs free =
    ground (arith, λ (p : j ≡ 1). ap (slot path fs) p, λ (p : j ≡ 0). ap (slot path fs) p)
slot-shift path (suc n) j fs free = rw plus (
    let moved : Files =
      (if exists (numbered path (suc n)) fs
        then rename (numbered path (suc n)) (numbered path (suc (suc n))) fs
        else fs) in
    let at = λ (i : ℕ). slot-moved path (suc n) (suc (suc n)) i fs (omega arith) free in
    slot-shift path n j moved (at (suc n) ∙ ground arith)
    ∙ ground (
      arith,
      at 0,
      at (j - 1),
      at j,
      free,
      λ (p : j ≡ suc (suc n)). ap (slot path fs) p,
      λ (p : j - 1 ≡ suc n). ap (slot path fs) p,
    ))
  where
    plus : suc n + 1 ≡ suc (suc n)
    plus = omega arith

-- A rotation moves each file one place on, drops the last, and starts an empty one.
pub slot-rotate :
    (inner : Inner) (k j : ℕ) (fs : Files)
    → inner.keep ≡ suc k
    → slot inner.path (rotate true inner fs).1 j ≡ (
        if j == 0
        then some []
        else if leb j (suc k)
        then slot inner.path fs (j - 1)
        else slot inner.path fs j)
unfolding rotate exists rename create_append
slot-rotate inner k j fs kept = rw kept (
    rw minus (
      let path = inner.path in
      let removed : Files = remove (numbered path (suc k)) fs in
      let shifted : Files = shift path k removed in
      let moved : Files =
        (if exists path shifted then rename path (numbered path 1) shifted else shifted) in
      let cut = λ (i : ℕ). slot-removed path (suc k) i fs in
      let on = λ (i : ℕ). slot-shift path k i removed (cut (suc k) ∙ ground arith) in
      let to = λ (i : ℕ). slot-moved path 0 1 i shifted (omega arith) (on 1) in
      ground (
        arith,
        slot-inserted path 0 j [] moved,
        to 0,
        to j,
        on 0,
        on j,
        cut 0,
        cut (j - 1),
        cut j,
        λ (p : j ≡ 0). ap (slot path moved) p,
        λ (p : j ≡ 1). ap (slot path fs) p,
        λ (p : j ≡ 1). ap (λ (i : ℕ). slot path fs (i - 1)) p,
      )))
  where
    minus : suc k - 1 ≡ k
    minus = omega arith

-- ===== src/Session/Registry/History.antt =====
-- What src/session/registry.rs counts, after any history of sessions that begin and end.
use liuzx_skf.Session.Registry.{
  Registry, new, create, drop_guard, session_count, prune, register, deregister,
}
use liuzx_skf.Common.{
  ◌==◌, if◌then◌else◌, Bool-cases, length, Text, ◌===◌, text_eq, IsMap, remove-IsMap, remove_absent,
  get, insert, remove, ℕ, ◌+◌, ◌-◌, ◌≤◌, ◌<◌, ◌≡◌, refl, sym, ap, subst, ◌∙◌, ◌≢◌, inl, inr, none,
  some, List, [], ◌∷◌, map, arith,
}

-- A history, with the guards that are owned after it by their ids: a session begins with an id that
-- none of them has, a guard ends, or the sessions are counted.
pub data Lives : Registry → List (Text × ℕ) → Type 0 where
  none_yet : Lives new []
  session_began :
      (id : Text) (r : Registry) (gs : List (Text × ℕ))
      → Lives r gs
      → get id gs ≡ none
      → Lives (create id r).1 ((id, (create id r).0.marker) ∷ gs)
  session_ended :
      (id : Text) (marker : ℕ) (r : Registry) (gs : List (Text × ℕ))
      → Lives r gs
      → get id gs ≡ some marker
      → Lives (drop_guard (record { id = id; marker = marker }) r) (remove id gs)
  counted : (r : Registry) (gs : List (Text × ℕ)) → Lives r gs → Lives (session_count r).1 gs

-- Each guard owns the one reference to its marker, and no two guards have the same marker.
Apart : ℕ → List (Text × ℕ) → Type 0
Apart n [] = Unit
Apart n ((id, m) ∷ gs) = (n ≢ m) × Apart n gs

Owning : (ℕ → ℕ) → ℕ → List (Text × ℕ) → Type 0
Owning count n [] = Unit
Owning count n ((id, m) ∷ gs) = (count m ≡ 1) × (m < n) × Apart m gs × Owning count n gs

Apart-fresh : (count : ℕ → ℕ) (n : ℕ) (gs : List (Text × ℕ)) → Owning count n gs → Apart n gs
unfolding Apart Owning
Apart-fresh count n [] h = tt
Apart-fresh count n ((id, m) ∷ gs) h = ((λ e. omega (arith, h.1, e)), Apart-fresh count n gs h.3)

Apart-remove : (id : Text) (n : ℕ) (gs : List (Text × ℕ)) → Apart n gs → Apart n (remove id gs)
unfolding Apart remove
Apart-remove id n [] h = tt
Apart-remove id n ((j, m) ∷ gs) h = ground (arith, Apart-remove id n gs h.1)

-- A reference count that changes at one number only, which no guard has.
Owning-other :
    (count count' : ℕ → ℕ) (n n' k : ℕ) (gs : List (Text × ℕ))
    → ((m : ℕ) → m ≢ k → count' m ≡ count m)
    → n ≤ n'
    → Apart k gs
    → Owning count n gs
    → Owning count' n' gs
unfolding Apart Owning
Owning-other count count' n n' k [] same le a h = tt
Owning-other count count' n n' k ((j, m) ∷ gs) same le a h = (
  same m (λ e. a.0 (sym e)) ∙ h.0,
  omega (arith, le, h.1),
  h.2,
  Owning-other count count' n n' k gs same le a.1 h.3,
)

Apart-get : (id : Text) (n m : ℕ) (gs : List (Text × ℕ)) → Apart n gs → get id gs ≡ some m → n ≢ m
unfolding Apart get
Apart-get id n m [] a h = ground arith
Apart-get id n m ((j, k) ∷ gs) a h = ground (arith, Apart-get id n m gs a.1)

-- The guard that ends, and the others.
Owning-remove :
    (count count' : ℕ → ℕ) (n : ℕ) (id : Text) (k : ℕ) (gs : List (Text × ℕ))
    → ((m : ℕ) → m ≢ k → count' m ≡ count m)
    → IsMap gs
    → get id gs ≡ some k
    → Owning count n gs
    → Owning count' n (remove id gs)
unfolding Owning get remove
Owning-remove count count' n id k [] same map got h = tt
Owning-remove count count' n id k ((j, m) ∷ gs) same map got h = elim (Bool-cases (j === id)) [
  | inl e ↦
      let m_k : m ≡ k = ground (arith, got, e) in
      let gone : get id gs ≡ none =
        subst (λ i. get i gs ≡ none) ((text_eq.beq_iff j id).0 e) map.0 in
      rw (e, remove_absent id gs gone)
        (Owning-other count count' n n m gs (λ i other. same i (λ p. other (p ∙ sym m_k)))
          (omega arith) h.2 h.3)
  | inr e ↦
      let rest : get id gs ≡ some k = ground (arith, got, e) in
      rw e (
        same m (Apart-get id m k gs h.2 rest) ∙ h.0,
        h.1,
        Apart-remove id m gs h.2,
        Owning-remove count count' n id k gs same map.1 rest h.3,
      )
]

Owning-prune :
    (count : ℕ → ℕ) (n : ℕ) (gs : List (Text × ℕ)) → Owning count n gs → prune count gs ≡ gs
unfolding Owning prune
Owning-prune count n [] h = refl
Owning-prune count n ((id, m) ∷ gs) h = ground (arith, Owning-prune count n gs h.3)

Owning-get :
    (count : ℕ → ℕ) (n : ℕ) (gs : List (Text × ℕ)) (id : Text) (m : ℕ)
    → Owning count n gs
    → get id gs ≡ some m
    → count m ≡ 1
unfolding Owning get
Owning-get count n [] id m h got = ground arith
Owning-get count n ((j, k) ∷ gs) id m h got =
    ground (arith, Owning-get count n gs id m h.3, h.0, λ (p : k ≡ m). ap count p)

-- The map of the registry is exactly the guards.
Agrees : Registry → List (Text × ℕ) → Type 0
Agrees r gs = (r.sessions ≡ gs) × IsMap gs × Owning r.strong_count r.allocated gs

Agrees-session_began :
    (id : Text) (r : Registry) (gs : List (Text × ℕ))
    → Agrees r gs
    → get id gs ≡ none
    → Agrees (create id r).1 ((id, (create id r).0.marker) ∷ gs)
unfolding Agrees Owning create register insert
Agrees-session_began id r gs h fresh =
    let apart = Apart-fresh r.strong_count r.allocated gs h.2 in
    (
      ap (λ m. (id, r.allocated) ∷ remove id m) h.0
          ∙ ap (λ m. (id, r.allocated) ∷ m) (remove_absent id gs fresh),
      (fresh, h.1),
      (
        ground arith,
        omega arith,
        apart,
        Owning-other r.strong_count (create id r).1.strong_count r.allocated (r.allocated + 1)
            r.allocated gs (λ m other. ground arith) (omega arith) apart h.2,
      ),
    )

Agrees-session_ended :
    (id : Text) (k : ℕ) (r : Registry) (gs : List (Text × ℕ))
    → Agrees r gs
    → get id gs ≡ some k
    → Agrees (drop_guard (record { id = id; marker = k }) r) (remove id gs)
unfolding Agrees drop_guard deregister
Agrees-session_ended id k r gs h got = (
  ap (remove id) h.0,
  remove-IsMap id gs h.1,
  Owning-remove r.strong_count (λ m. if m == k then r.strong_count m - 1 else r.strong_count m)
      r.allocated id k gs (λ m other. ground arith) h.1 got h.2,
)

Agrees-Lives : (r : Registry) (gs : List (Text × ℕ)) → Lives r gs → Agrees r gs
unfolding Agrees new session_count Owning
Agrees-Lives _ _ none_yet = (refl, tt, tt)
Agrees-Lives _ _ (session_began id r gs l fresh) =
    Agrees-session_began id r gs (Agrees-Lives r gs l) fresh
Agrees-Lives _ _ (session_ended id k r gs l got) =
    Agrees-session_ended id k r gs (Agrees-Lives r gs l) got
Agrees-Lives _ _ (counted r gs l) =
    let h = Agrees-Lives r gs l in
    (ap (prune r.strong_count) h.0 ∙ Owning-prune r.strong_count r.allocated gs h.2, h.1, h.2)

-- After any history of sessions that begin, each with an id that no open one has, and end, the
-- count is that of the guards that are owned, whatever was counted before, and the guard of each has
-- the one reference to its marker: the registry keeps no session alive.
pub session_count-Lives :
    (r : Registry) (gs : List (Text × ℕ))
    → Lives r gs
    → ((session_count r).0 ≡ length gs)
      × ((id : Text) (m : ℕ) → get id gs ≡ some m → r.strong_count m ≡ 1)
unfolding Agrees session_count
session_count-Lives r gs l =
    let h = Agrees-Lives r gs l in
    (
      ap length (ap (prune r.strong_count) h.0 ∙ Owning-prune r.strong_count r.allocated gs h.2),
      λ id m got. Owning-get r.strong_count r.allocated gs id m h.2 got,
    )

-- ===== src/Session/Registry.antt =====
-- src/session/registry.rs: the map of live sessions. An `Arc<SessionMarker>` is the number of its
-- allocation, and a `Weak` is the number alone; the counts of strong references are part of the state.
-- The mutex of the map makes each operation one step. The slot of `SessionGuard` for the session's
-- state is in Service/Connection.
pub mod History
use liuzx_skf.Common.{
  ltb, ◌==◌, if◌then◌else◌, length, Text, text_eq, insert, remove, ℕ, ◌+◌, ◌-◌, List, [], ◌∷◌,
  arith,
}

-- `SessionRegistry` with the markers of all sessions: `allocated` of them were made so far.
pub record Registry : Type 0 where
  pub sessions : List (Text × ℕ)
  pub strong_count : ℕ → ℕ
  pub allocated : ℕ

-- `SessionGuard`: its id, and the marker that it owns
pub record SessionGuard : Type 0 where
  pub id : Text
  pub marker : ℕ

unfoldable pub new : Registry
new = record { sessions = []; strong_count = λ m. 0; allocated = 0 }

-- `register`: the reference that it takes is dropped when it returns.
unfoldable pub register : Text → ℕ → Registry → Registry
register id marker r = record r { sessions = insert id marker r.sessions }

unfoldable pub deregister : Text → Registry → Registry
deregister id r = record r { sessions = remove id r.sessions }

-- `sessions.retain(|_, weak| weak.strong_count() > 0)`
unfoldable pub prune : (ℕ → ℕ) → List (Text × ℕ) → List (Text × ℕ)
prune strong_count [] = []
prune strong_count ((id, weak) ∷ sessions) =
    let rest = prune strong_count sessions in
    if ltb 0 (strong_count weak) then (id, weak) ∷ rest else rest

unfoldable pub session_count : Registry → ℕ × Registry
unfolding prune
session_count r =
    let live = prune r.strong_count r.sessions in (length live, record r { sessions = live })

-- `SessionGuard::create`, of a state with this id
unfoldable pub create : Text → Registry → SessionGuard × Registry
unfolding register
create id r =
    let marker = r.allocated in
    let counts = λ (m : ℕ). if m == marker then 1 else r.strong_count m in
    (
      record { id = id; marker = marker },
      register id marker (record r { strong_count = counts; allocated = marker + 1 }),
    )

-- The end of a guard: its `Drop`, and then the end of its reference to the marker.
unfoldable pub drop_guard : SessionGuard → Registry → Registry
unfolding deregister
drop_guard g r =
    let gone = deregister g.id r in
    record gone {
      strong_count =
          λ (m : ℕ). if m == g.marker then gone.strong_count m - 1 else gone.strong_count m;
    }

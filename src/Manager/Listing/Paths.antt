-- ===== src/Manager/Listing/Paths.antt =====
-- rust/session-core/src/manager.rs: the paths that `recent_working_directories` gives.
use slight.Base.{
  ℕ, ◌+◌, ◌≤◌, ◌<◌, max, String, ◌≡◌, refl, List, [], ◌∷◌, ◌++◌, map, true, false, ◌||◌, ◌&&◌, not,
  length, length-append, leb, arith, inl, inr, Bool-cases,
}
use slight.Base.Text.{◌==◌, eq_iff}
use slight.Acp.External.{Externals}
use slight.Manager.State.{Inner}
use slight.Manager.Listing.{contains, add_paths, list_sessions, recent_working_directories}

-- No path stands twice.
abbrev pub IsDistinct : List String → Type 0
IsDistinct [] = Unit {0}
IsDistinct (p ∷ ps) = (contains p ps ≡ false) × IsDistinct ps

contains-snoc :
    (q p : String) (ps : List String) → contains q (ps ++ p ∷ []) ≡ (contains q ps || p == q)
unfolding contains
contains-snoc q p [] = ground arith
contains-snoc q p (r ∷ ps) = ground (arith, contains-snoc q p ps)

IsDistinct-snoc :
    (p : String) (ps : List String)
    → contains p ps ≡ false
    → IsDistinct ps
    → IsDistinct (ps ++ p ∷ [])
unfolding contains
IsDistinct-snoc p [] h d = (refl, tt)
IsDistinct-snoc p (r ∷ ps) h d = (
  ground (arith, contains-snoc r p ps, eq_iff r p, eq_iff p r),
  IsDistinct-snoc p ps (ground arith) d.1,
)

module _ (limit : ℕ) (paths : List String) (p : String) (ps : List String) where
  known_path : contains p paths ≡ true → add_paths limit paths (p ∷ ps) ≡ add_paths limit paths ps
  unfolding add_paths
  known_path h = rw (h, add_paths) refl

  last_path :
      contains p paths ≡ false
      → leb limit (length (paths ++ p ∷ [])) ≡ true
      → add_paths limit paths (p ∷ ps) ≡ paths ++ p ∷ []
  unfolding add_paths
  last_path h k = rw (h, k, add_paths) refl

  new_path :
      contains p paths ≡ false
      → leb limit (length (paths ++ p ∷ [])) ≡ false
      → add_paths limit paths (p ∷ ps) ≡ add_paths limit (paths ++ p ∷ []) ps
  unfolding add_paths
  new_path h k = rw (h, k, add_paths) refl

-- A property of the paths so far that holds whether a path is known, the last, or a new one.
add_paths-ind :
    (limit : ℕ) (P : List String → List String → List String → Type 0)
    → ((paths : List String) → P paths [] paths)
    → ((paths : List String) (p : String) (ps out : List String)
        → contains p paths ≡ true
        → P paths ps out
        → P paths (p ∷ ps) out)
    → ((paths : List String) (p : String) (ps : List String)
        → contains p paths ≡ false
        → leb limit (length (paths ++ p ∷ [])) ≡ true
        → P paths (p ∷ ps) (paths ++ p ∷ []))
    → ((paths : List String) (p : String) (ps out : List String)
        → contains p paths ≡ false
        → leb limit (length (paths ++ p ∷ [])) ≡ false
        → P (paths ++ p ∷ []) ps out
        → P paths (p ∷ ps) out)
    → (paths ps : List String) → P paths ps (add_paths limit paths ps)
unfolding add_paths
add_paths-ind limit P done known last new paths [] = done paths
add_paths-ind limit P done known last new paths (p ∷ ps) = elim (Bool-cases (contains p paths)) [
  | inl h ↦ rw (known_path limit paths p ps h) (
      known paths p ps (add_paths limit paths ps) h
        (add_paths-ind limit P done known last new paths ps))
  | inr h ↦ elim (Bool-cases (leb limit (length (paths ++ p ∷ [])))) [
    | inl k ↦ rw (last_path limit paths p ps h k) (last paths p ps h k)
    | inr k ↦ rw (new_path limit paths p ps h k) (
        new paths p ps (add_paths limit (paths ++ p ∷ []) ps) h k
          (add_paths-ind limit P done known last new (paths ++ p ∷ []) ps))
  ]
]

add_paths-IsDistinct :
    (limit : ℕ) (paths ps : List String) → IsDistinct paths → IsDistinct (add_paths limit paths ps)
add_paths-IsDistinct limit =
    add_paths-ind limit (λ paths ps out. IsDistinct paths → IsDistinct out) (λ paths d. d)
      (λ paths p ps out h k d. k d) (λ paths p ps h k d. IsDistinct-snoc p paths h d)
      (λ paths p ps out h k l d. l (IsDistinct-snoc p paths h d))

length-add_paths :
    (limit : ℕ) (paths ps : List String)
    → length paths + 1 ≤ max limit 1
    → length (add_paths limit paths ps) ≤ max limit 1
length-add_paths limit =
    add_paths-ind limit (λ paths ps out. length paths + 1 ≤ max limit 1 → length out ≤ max limit 1)
      (λ paths few. omega arith) (λ paths p ps out h k few. k few)
      (λ paths p ps h k few. omega (arith, length-append paths (p ∷ [])))
      (λ paths p ps out h k l few. l (ground (arith, length-append paths (p ∷ []))))

-- Every path was there or is one of the new ones.
add_paths_sound :
    (limit : ℕ) (q : String) (paths ps : List String)
    → contains q (add_paths limit paths ps) ≡ true
    → (contains q paths || contains q ps) ≡ true
unfolding contains
add_paths_sound limit q =
    add_paths-ind limit
      (λ paths ps out. contains q out ≡ true → (contains q paths || contains q ps) ≡ true)
      (λ paths found. ground arith) (λ paths p ps out h k found. ground (arith, k found))
      (λ paths p ps h k found. ground (arith, contains-snoc q p paths))
      (λ paths p ps out h k l found. ground (arith, contains-snoc q p paths, l found))

-- Below the limit no path is left out.
add_paths_complete :
    (limit : ℕ) (q : String) (paths ps : List String)
    → length (add_paths limit paths ps) < limit
    → (contains q paths || contains q ps) ≡ true
    → contains q (add_paths limit paths ps) ≡ true
unfolding contains
add_paths_complete limit q =
    add_paths-ind limit
      (λ paths ps out.
        length out < limit → (contains q paths || contains q ps) ≡ true → contains q out ≡ true)
      (λ paths few found. ground arith)
      (λ paths p ps out h k few found. k few (ground (arith, eq_iff p q)))
      (λ paths p ps h k few found. absurd (ground arith))
      (λ paths p ps out h k l few found. l few (ground (arith, contains-snoc q p paths)))

module _ {X : Externals} where
  -- The paths of recent_working_directories are distinct, at most `limit` of them (one where
  -- `limit` is 0), and each is the label of a session.
  pub recent_working_directories_lem :
      (limit : ℕ) (i : Inner X) (q : String)
      → let found = recent_working_directories limit i in
        let labels = map (λ s. s.working_directory_label) (list_sessions i) in
        IsDistinct found
        × (length found ≤ max limit 1)
        × ((contains q found && not (contains q labels)) ≡ false)
  unfolding recent_working_directories contains
  recent_working_directories_lem limit i q =
      let labels = map (λ s. s.working_directory_label) (list_sessions i) in
      (
        add_paths-IsDistinct limit [] labels tt,
        length-add_paths limit [] labels (omega arith),
        ground (arith, add_paths_sound limit q [] labels),
      )

  -- Where recent_working_directories gives fewer paths than the limit, they are all the labels of
  -- the sessions.
  pub recent_working_directories_all :
      (limit : ℕ) (i : Inner X) (q : String)
      → length (recent_working_directories limit i) < limit
      → contains q (recent_working_directories limit i)
        ≡ contains q (map (λ s. s.working_directory_label) (list_sessions i))
  unfolding recent_working_directories contains
  recent_working_directories_all limit i q few =
      let labels = map (λ s. s.working_directory_label) (list_sessions i) in
      ground (arith, add_paths_sound limit q [] labels, add_paths_complete limit q [] labels few)

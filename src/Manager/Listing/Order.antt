-- ===== src/Manager/Listing/Order.antt =====
-- rust/session-core/src/manager.rs: the order of `list_sessions`.
use mathlib.Core.List.{Perm}
use slight.Base.{List, [], ◌∷◌, ◌++◌, map, ◌≡◌, refl, true, false, arith}
use slight.Base.Int.{ℤ, pos, negsuc, leb_ℤ}
use slight.Base.Sort.{sort_by-perm, sort_by-IsSorted, IsSorted, AllLe}
use slight.Base.HashMap.{values}
use slight.Types.Event.{SessionSummary}
use slight.Acp.External.{Externals}
use slight.Manager.State.{Inner}
use slight.Manager.Listing.{later_first, all_summaries, list_sessions}

leb_ℤ_total : (a b : ℤ) → leb_ℤ a b ≡ false → leb_ℤ b a ≡ true
leb_ℤ_total (pos a) (pos b) h = ground arith
leb_ℤ_total (pos a) (negsuc b) h = cc
leb_ℤ_total (negsuc a) (pos b) h = cc
leb_ℤ_total (negsuc a) (negsuc b) h = ground arith

leb_ℤ_trans : (a b c : ℤ) → leb_ℤ a b ≡ true → leb_ℤ b c ≡ true → leb_ℤ a c ≡ true
leb_ℤ_trans (pos a) (pos b) (pos c) h k = ground arith
leb_ℤ_trans (pos a) (pos b) (negsuc c) h k = cc
leb_ℤ_trans (pos a) (negsuc b) c h k = cc
leb_ℤ_trans (negsuc a) (pos b) (pos c) h k = refl
leb_ℤ_trans (negsuc a) (negsuc b) (pos c) h k = refl
leb_ℤ_trans (negsuc a) (pos b) (negsuc c) h k = cc
leb_ℤ_trans (negsuc a) (negsuc b) (negsuc c) h k = ground arith

-- No session of the list was active later.
abbrev pub NoneLater : SessionSummary → List SessionSummary → Type 0
NoneLater s [] = Unit {0}
NoneLater s (t ∷ rest) =
    (leb_ℤ t.last_activity_at_ms s.last_activity_at_ms ≡ true) × NoneLater s rest

-- The latest activity comes first, and so on down the list.
abbrev pub IsLatestFirst : List SessionSummary → Type 0
IsLatestFirst [] = Unit {0}
IsLatestFirst (s ∷ rest) = NoneLater s rest × IsLatestFirst rest

AllLe-NoneLater :
    (s : SessionSummary) (l : List SessionSummary) → AllLe later_first s l → NoneLater s l
AllLe-NoneLater s [] a = tt
AllLe-NoneLater s (t ∷ l) (h, a) = (h, AllLe-NoneLater s l a)

IsSorted-IsLatestFirst : (l : List SessionSummary) → IsSorted later_first l → IsLatestFirst l
IsSorted-IsLatestFirst [] s = tt
IsSorted-IsLatestFirst (x ∷ l) (a, s) = (AllLe-NoneLater x l a, IsSorted-IsLatestFirst l s)

-- list_sessions gives the summaries of all the live sessions and of all those that were not
-- recovered, each as often as it is there and no other, and no entry was active later than one
-- before it.
pub list_sessions_lem :
    {X : Externals} (i : Inner X)
    → Perm
        (list_sessions i)
        (map (λ s. s.summary) (values i.sessions) ++ map (λ s. s.summary) (values i.recovered))
      × IsLatestFirst (list_sessions i)
unfolding list_sessions all_summaries
list_sessions_lem i = (
  sort_by-perm later_first (all_summaries i),
  IsSorted-IsLatestFirst _ (
      sort_by-IsSorted later_first (λ x y. leb_ℤ_total y.last_activity_at_ms x.last_activity_at_ms)
        (λ x y z h k.
          leb_ℤ_trans z.last_activity_at_ms y.last_activity_at_ms x.last_activity_at_ms k h)
        (all_summaries i)),
)

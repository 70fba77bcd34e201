-- ===== src/Rpc/Handlers/Offers.antt =====
-- rust/acp-types/src/client.rs: what the approving handler selects.
use slight.Base.{
  String, List, [], ◌∷◌, Option, none, some, Bool, true, false, ◌≡◌, refl, inl, inr, ◌||◌,
  Bool-cases, ap, ◌++◌, subst, ◌⊎◌,
}
use slight.Base.Text.{◌==◌, eq_iff}
use slight.Rpc.Handlers.{
  WireOption, WireOptionKind, RequestPermissionOutcome, allows, find_option, preferred, select,
}

unfoldable pub offered : String → List WireOption → Bool
offered id [] = false
offered id (o ∷ options) = o.option_id == id || offered id options

-- The option that the handler prefers is among those offered.
unfoldable pub preference_offered : Option String → List WireOption → Bool
unfolding offered
preference_offered none options = false
preference_offered (some id) options = offered id options

-- To select the option gives the permission.
abbrev pub Allows : WireOption → Type 0
Allows o = (o.kind ≡ WireOptionKind.allow_once) ⊎ (o.kind ≡ WireOptionKind.allow_always)

abbrev pub NoneAllows : List WireOption → Type 0
NoneAllows [] = Unit {0}
NoneAllows (o ∷ options) = ¬ Allows o × NoneAllows options

-- What may be selected of the options that are offered.
pub data Selects (preferred_id : Option String) (options : List WireOption)
    (outcome : RequestPermissionOutcome) : Type 0 where
  the_preferred :
      (id : String)
      → preferred_id ≡ some id
      → offered id options ≡ true
      → outcome ≡ RequestPermissionOutcome.selected id
      → Selects preferred_id options outcome
  the_first_allowing :
      (before : List WireOption) (o : WireOption) (after : List WireOption)
      → preference_offered preferred_id options ≡ false
      → options ≡ before ++ o ∷ after
      → NoneAllows before
      → Allows o
      → outcome ≡ RequestPermissionOutcome.selected o.option_id
      → Selects preferred_id options outcome
  the_first :
      (o : WireOption) (after : List WireOption)
      → preference_offered preferred_id options ≡ false
      → options ≡ o ∷ after
      → NoneAllows options
      → outcome ≡ RequestPermissionOutcome.selected o.option_id
      → Selects preferred_id options outcome
  nothing_offered :
      options ≡ []
      → outcome ≡ RequestPermissionOutcome.cancelled
      → Selects preferred_id options outcome

allowing_kind :
    (k : WireOptionKind)
    → allows k ≡ true
    → (k ≡ WireOptionKind.allow_once) ⊎ (k ≡ WireOptionKind.allow_always)
unfolding allows
allowing_kind WireOptionKind.allow_once e = inl refl
allowing_kind WireOptionKind.allow_always e = inr refl
allowing_kind WireOptionKind.reject_once e = absurd cc
allowing_kind WireOptionKind.reject_always e = absurd cc
allowing_kind WireOptionKind.other e = absurd cc

allows-not_Allows : (o : WireOption) → allows o.kind ≡ false → ¬ Allows o
unfolding allows
allows-not_Allows o e (inl k) = let same : allows o.kind ≡ true = rw k refl in absurd cc
allows-not_Allows o e (inr k) = let same : allows o.kind ≡ true = rw k refl in absurd cc

-- The search by kind: nothing, or the first that allows.
FirstAllowing : List WireOption → Option WireOption → Type 0
FirstAllowing options none = NoneAllows options
FirstAllowing options (some o) =
    (before : List WireOption) × (after : List WireOption) × (options ≡ before ++ o ∷ after)
    × NoneAllows before
    × Allows o

FirstAllowing-cons :
    (p : WireOption) (options : List WireOption) (found : Option WireOption)
    → ¬ Allows p
    → FirstAllowing options found
    → FirstAllowing (p ∷ options) found
unfolding FirstAllowing
FirstAllowing-cons p options none h f = (h, f)
FirstAllowing-cons p options (some o) h (before, after, e, n, a) =
    (p ∷ before, after, ap (λ l. p ∷ l) e, (h, n), a)

find_option-FirstAllowing :
    (options : List WireOption) → FirstAllowing options (find_option (λ o. allows o.kind) options)
unfolding find_option FirstAllowing
find_option-FirstAllowing [] = tt
find_option-FirstAllowing (p ∷ options) = elim (Bool-cases (allows p.kind)) [
  | inl passes ↦ rw (passes, find_option) ([], options, refl, tt, allowing_kind p.kind passes)
  | inr fails ↦
      rw (fails, find_option)
        (FirstAllowing-cons p options _ (allows-not_Allows p fails)
          (find_option-FirstAllowing options))
]

-- The search by id: nothing where the id is not offered, or an option of that id.
FoundId : String → Bool → Option WireOption → Type 0
FoundId id is_offered none = is_offered ≡ false
FoundId id is_offered (some o) = (is_offered ≡ true) × (o.option_id ≡ id)

find_option-FoundId :
    (id : String) (options : List WireOption)
    → FoundId id (offered id options) (find_option (λ o. o.option_id == id) options)
unfolding find_option offered FoundId
find_option-FoundId id [] = refl
find_option-FoundId id (p ∷ options) = elim (Bool-cases (p.option_id == id)) [
  | inl same ↦ rw (same, find_option, offered) (refl, (eq_iff p.option_id id).0 same)
  | inr differs ↦ rw (differs, find_option, offered) (find_option-FoundId id options)
]

not_preferred :
    (preferred_id : Option String) (options : List WireOption)
    → preferred preferred_id options ≡ none
    → preference_offered preferred_id options ≡ false
    → Selects preferred_id options (select preferred_id options)
unfolding select FirstAllowing find_option
not_preferred preferred_id [] e h = nothing_offered refl (rw (e, select) refl)
not_preferred preferred_id (o ∷ options) e h = by_kind _ refl
  where
    by_kind :
        (found : Option WireOption)
        → find_option (λ p. allows p.kind) (o ∷ options) ≡ found
        → Selects preferred_id (o ∷ options) (select preferred_id (o ∷ options))
    by_kind none q =
        the_first o options h refl
          (subst (FirstAllowing (o ∷ options)) q (find_option-FirstAllowing (o ∷ options)))
          (rw (e, select, q) refl)
    by_kind (some p) q =
        let (before, after, split, n, a) =
          subst (FirstAllowing (o ∷ options)) q (find_option-FirstAllowing (o ∷ options)) in
        the_first_allowing before p after h split n a (rw (e, select, q) refl)

-- The approving handler selects the preferred option where it is offered; else the first option
-- that allows, once or always; else, where none allows, the first option; and where no option is
-- offered it cancels.
pub select-Selects :
    (preferred_id : Option String) (options : List WireOption)
    → Selects preferred_id options (select preferred_id options)
unfolding preferred preference_offered select FoundId
select-Selects none options = not_preferred none options refl refl
select-Selects (some id) options = by_id _ refl
  where
    by_id :
        (found : Option WireOption)
        → find_option (λ o. o.option_id == id) options ≡ found
        → Selects (some id) options (select (some id) options)
    by_id none q =
        not_preferred (some id) options q (subst (FoundId id _) q (find_option-FoundId id options))
    by_id (some o) q =
        let (is_offered, same) = subst (FoundId id _) q (find_option-FoundId id options) in
        the_preferred id refl is_offered (rw (q, select, preferred, same) refl)

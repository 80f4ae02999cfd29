-- ===== src/Explainer/Grounding.antt =====
-- What `validate` of app/agent/explainer.py accepts.
use mathlib.Core.Option.{some-injective}
use paper_trading_agent.Base.{
  ◌≡◌, ◌≢◌, refl, ap, sym, ◌∙◌, subst, length, ◌↔◌, ◌⊎◌, inl, inr, true, not, none, some, List, [],
  ◌∷◌, ◌++◌, map, ℤ, Text, same_text_iff, select, All, Option-cases, arith,
}
use paper_trading_agent.Numbers.Sorting.{sorted, length-sorted}
use paper_trading_agent.Explainer.{
  DriverExplanation, ExplanationCall, Retrieved, lookup, contains, check_ids, check_driver,
  check_drivers, has_entry, missing, missing_problem, text_le, validate,
}

abbrev pub Within : ℤ → List ℤ → Type 0
Within hid [] = ⊥
Within hid (h ∷ hs) = (hid ≡ h) ⊎ Within hid hs

-- A driver of a day that was asked about, which cites only headlines retrieved for that day.
abbrev pub Cites : Retrieved → DriverExplanation → Type 0
Cites retrieved d =
    (allowed : List ℤ) × (lookup d.date retrieved ≡ some allowed)
    × All (λ hid. Within hid allowed) d.headline_ids

abbrev pub Covered : List DriverExplanation → Text → Type 0
Covered [] day = ⊥
Covered (d ∷ ds) day = (d.date ≡ day) ⊎ Covered ds day

contains_iff : (hid : ℤ) (hs : List ℤ) → (contains hid hs ≡ true) ↔ Within hid hs
contains_iff hid [] = ground arith
contains_iff hid (h ∷ hs) = ground (arith, contains_iff hid hs)

none-ne-some : {A : Type 0} (a : A) → none ≢ some a
none-ne-some a e = cc

check_ids_iff :
    (day : Text) (allowed hids : List ℤ)
    → (check_ids day allowed hids ≡ []) ↔ All (λ hid. Within hid allowed) hids
unfolding check_ids
check_ids_iff day allowed [] = (λ e. tt, λ e. refl)
check_ids_iff day allowed (hid ∷ hids) =
    ground (arith, contains_iff hid allowed, check_ids_iff day allowed hids)

append-nil_iff : {A : Type 0} (xs ys : List A) → (xs ++ ys ≡ []) ↔ ((xs ≡ []) × (ys ≡ []))
append-nil_iff [] ys = (λ e. (refl, e), λ e. e.1)
append-nil_iff (x ∷ xs) ys = ground arith

check_driver-known :
    (retrieved : Retrieved) (d : DriverExplanation) (allowed : List ℤ)
    → lookup d.date retrieved ≡ some allowed
    → check_driver retrieved d ≡ check_ids d.date allowed d.headline_ids
unfolding check_driver
check_driver-known retrieved d allowed h = ground arith

check_driver-unknown :
    (retrieved : Retrieved) (d : DriverExplanation)
    → lookup d.date retrieved ≡ none
    → check_driver retrieved d ≢ []
unfolding check_driver
check_driver-unknown retrieved d h = ground arith

check_driver_iff :
    (retrieved : Retrieved) (d : DriverExplanation)
    → (check_driver retrieved d ≡ []) ↔ Cites retrieved d
check_driver_iff retrieved d = elim (Option-cases (lookup d.date retrieved)) [
  | inl unknown ↦ (
    λ e. absurd (check_driver-unknown retrieved d unknown e),
    λ (xs, found, within). absurd (none-ne-some xs (sym unknown ∙ found)),
  )
  | inr (allowed, known) ↦
      (let same = check_driver-known retrieved d allowed known in
        let ids = check_ids_iff d.date allowed d.headline_ids in
        (
          λ e. (allowed, known, ids.0 (sym same ∙ e)),
          λ (xs, found, within).
              same
              ∙ ids.1 (
                  subst (λ ys. All (λ hid. Within hid ys) d.headline_ids)
                    (some-injective _ _ (sym found ∙ known)) within),
        ))
]

check_drivers_iff :
    (retrieved : Retrieved) (ds : List DriverExplanation)
    → (check_drivers retrieved ds ≡ []) ↔ All (Cites retrieved) ds
unfolding check_drivers
check_drivers_iff retrieved [] = (λ e. tt, λ e. refl)
check_drivers_iff retrieved (d ∷ ds) =
    let both = append-nil_iff (check_driver retrieved d) (check_drivers retrieved ds) in
    let here = check_driver_iff retrieved d in
    let rest = check_drivers_iff retrieved ds in
    (λ e. (here.0 (both.0 e).0, rest.0 (both.0 e).1), λ h. both.1 (here.1 h.0, rest.1 h.1))

has_entry_iff :
    (ds : List DriverExplanation) (day : Text) → (has_entry ds day ≡ true) ↔ Covered ds day
has_entry_iff [] day = ground arith
has_entry_iff (d ∷ ds) day = ground (arith, same_text_iff d.date day, has_entry_iff ds day)

uncovered-nil_iff :
    (ds : List DriverExplanation) (days : List Text)
    → (select (λ day. not (has_entry ds day)) days ≡ []) ↔ All (Covered ds) days
uncovered-nil_iff ds [] = (λ e. tt, λ h. refl)
uncovered-nil_iff ds (day ∷ days) = ground (arith, has_entry_iff ds day, uncovered-nil_iff ds days)

sorted-nil_iff : (days : List Text) → (sorted text_le days ≡ []) ↔ (days ≡ [])
unfolding sorted
sorted-nil_iff [] = (λ e. refl, λ e. refl)
sorted-nil_iff (day ∷ days) =
    (λ e. absurd (omega (arith, ap length e, length-sorted text_le (day ∷ days))), λ e. cc)

missing_problem-nil_iff : (days : List Text) → (missing_problem days ≡ []) ↔ (days ≡ [])
missing_problem-nil_iff [] = (λ e. refl, λ e. refl)
missing_problem-nil_iff (day ∷ days) = ground arith

missing-nil_iff :
    (ds : List DriverExplanation) (retrieved : Retrieved)
    → (missing_problem (missing retrieved ds) ≡ []) ↔ All (Covered ds) (map (λ r. r.0) retrieved)
unfolding missing
missing-nil_iff ds retrieved =
    let days = map (λ r. r.0) retrieved in
    let left = select (λ day. not (has_entry ds day)) days in
    let a = missing_problem-nil_iff (sorted text_le left) in
    let b = sorted-nil_iff left in
    let c = uncovered-nil_iff ds days in (λ e. c.0 (b.0 (a.0 e)), λ h. a.1 (b.1 (c.1 h)))

-- An explanation has no problem exactly when each of its drivers is for a day that was asked about and
-- cites only headlines retrieved for that day, and each such day has a driver.
pub validate_iff_grounded :
    (call : ExplanationCall) (retrieved : Retrieved)
    → ((validate call retrieved).1 ≡ [])
      ↔ (All (Cites retrieved) call.drivers × All (Covered call.drivers) (map (λ r. r.0) retrieved))
unfolding validate
validate_iff_grounded call retrieved =
    let both =
      append-nil_iff (check_drivers retrieved call.drivers)
        (missing_problem (missing retrieved call.drivers)) in
    let cites = check_drivers_iff retrieved call.drivers in
    let covers = missing-nil_iff call.drivers retrieved in
    (λ e. (cites.0 (both.0 e).0, covers.0 (both.0 e).1), λ h. both.1 (cites.1 h.0, covers.1 h.1))

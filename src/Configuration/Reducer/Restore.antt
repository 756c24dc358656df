-- ===== src/Configuration/Reducer/Restore.antt =====
-- Restoring a configuration: what the guard lets through, and that it never throws.
use sewn_covers.Prelude.{
  Bool, true, false, not, Option, none, some, List, [], ◌∷◌, ◌≡◌, ap, sym, ◌∙◌, ◌⊎◌, inl, inr, refl,
  arith, if◌then◌else◌, Option-cases,
}
use sewn_covers.Prelude.Result.{Result, ok, throw, >>=-eq-ok}
use sewn_covers.Number.{Num}
use sewn_covers.Number.Laws.{num_eq→eq}
use sewn_covers.Text.{Text}
use sewn_covers.Configuration.Types.{CushionShape, ConfigurationState}
use sewn_covers.Configuration.Measurements.{
  is_nullable_committed_measurement, has_valid_measurements_for_shape, round_measurement,
  is_finite_positive_measurement,
}
use sewn_covers.Configuration.Measurements.Validity.{
  IsValid, measurements-IsValid, within_range_positive, positive-value,
}
use sewn_covers.Configuration.Scale.{normalize_pattern_scale}
use sewn_covers.Configuration.Scale.Steps.{normalize-positive}
use sewn_covers.Configuration.Cover.{has_supported_cover_options}
use sewn_covers.Configuration.Reducer.Defs.{
  any_of, is_known_shape, is_unrounded, is_unrounded_if_set, is_restorable_pattern,
  restored_pattern, is_unnormalized_scale, restore_checks, is_unrestorable, restore,
}

-- Every check of an `||` that is false is false.
any_of-clear :
    (r : Result Bool) (rs : List (Result Bool))
    → any_of (r ∷ rs) ≡ ok false
    → (r ≡ ok false) × (any_of rs ≡ ok false)
any_of-clear (ok false) rs h = (refl, h)
any_of-clear (ok true) rs h = absurd (cc)
any_of-clear (throw e) rs h = absurd (cc)

unset : (b : Bool) → ◌≡◌ {A = Result Bool} (ok (not b)) (ok false) → b ≡ true
unset true h = refl
unset false h = cc

-- What the guard of `restoreConfiguration` demands of the configuration.
pub record IsRestorable (c : ConfigurationState) (legacy : Option Text) : Type 0 where
  pub known : is_known_shape c.shape ≡ true
  pub valid :
      has_valid_measurements_for_shape c.shape c.width c.height c.thickness c.unit c.back_width
      ≡ true
  pub width_rounded : is_unrounded c.width ≡ ok false
  pub height_rounded : is_unrounded c.height ≡ ok false
  pub thickness_rounded : is_unrounded c.thickness ≡ ok false
  pub pattern : is_restorable_pattern (restored_pattern c.pattern legacy) ≡ true
  pub scale : is_unnormalized_scale c.pattern_scale ≡ false
  pub back_committed : is_nullable_committed_measurement c.back_width ≡ true
  pub back_rounded : is_unrounded_if_set c.back_width ≡ ok false
  pub cover : has_supported_cover_options c ≡ true

ok_injective : (a b : Bool) → ◌≡◌ {A = Result Bool} (ok a) (ok b) → a ≡ b
ok_injective a b h = cc

pub unrestorable-IsRestorable :
    (c : ConfigurationState) (legacy : Option Text)
    → is_unrestorable c legacy ≡ ok false
    → IsRestorable c legacy
unfolding is_unrestorable
unrestorable-IsRestorable c legacy h =
    let (known, h1) = any_of-clear _ _ h in
    let (valid, h2) = any_of-clear _ _ h1 in
    let (w, h3) = any_of-clear _ _ h2 in
    let (ht, h4) = any_of-clear _ _ h3 in
    let (t, h5) = any_of-clear _ _ h4 in
    let (p, h6) = any_of-clear _ _ h5 in
    let (s, h7) = any_of-clear _ _ h6 in
    let (bc, h8) = any_of-clear _ _ h7 in
    let (br, h9) = any_of-clear _ _ h8 in
    let (cover, h10) = any_of-clear _ _ h9 in
    record {
      known = unset _ known;
      valid = unset _ valid;
      width_rounded = w;
      height_rounded = ht;
      thickness_rounded = t;
      pattern = unset _ p;
      scale = ok_injective _ _ s;
      back_committed = unset _ bc;
      back_rounded = br;
      cover = unset _ cover;
    }

pub IsRestorable-unrestorable :
    (c : ConfigurationState) (legacy : Option Text)
    → IsRestorable c legacy
    → is_unrestorable c legacy ≡ ok false
unfolding is_unrestorable
IsRestorable-unrestorable c legacy r = rw (
  r.known, r.valid, r.width_rounded, r.height_rounded, r.thickness_rounded, r.pattern, r.scale,
  r.back_committed, r.back_rounded, r.cover,
)

unrounded_total :
    (v : Option Num)
    → is_finite_positive_measurement v ≡ true
    → (b : Bool) × (is_unrounded v ≡ ok b)
unfolding is_unrounded round_measurement
unrounded_total v h = let (x, e, finite, pos) = positive-value v h in rw e (rw finite (_, refl))

unrounded_if_set_total :
    (v : Option Num)
    → is_nullable_committed_measurement v ≡ true
    → (b : Bool) × (is_unrounded_if_set v ≡ ok b)
unfolding is_unrounded_if_set is_nullable_committed_measurement
unrounded_if_set_total none h = (false, refl)
unrounded_if_set_total (some x) h = unrounded_total (some x) h

abbrev IsTotal : Result Bool → Type 0
IsTotal r = (b : Bool) × (r ≡ ok b)

-- A check is made only when those before it are false, and need only then not throw.
abbrev AreGuarded : List (Result Bool) → Type 0
AreGuarded [] = Unit
AreGuarded (r ∷ rs) = IsTotal r × (r ≡ ok false → AreGuarded rs)

any_of-IsTotal : (rs : List (Result Bool)) → AreGuarded rs → IsTotal (any_of rs)
any_of-IsTotal [] h = (false, refl)
any_of-IsTotal (r ∷ rs) ((true, e), more) = (true, rw e)
any_of-IsTotal (r ∷ rs) ((false, e), more) = rw e (any_of-IsTotal rs (more e))

module _ (c : ConfigurationState) (legacy : Option Text) where
  pub shape_is_set : is_known_shape c.shape ≡ true → (s : CushionShape) × (c.shape ≡ some s)
  unfolding is_known_shape
  shape_is_set h = elim (Option-cases c.shape) [
    | inl missing ↦ absurd (ground arith)
    | inr found ↦ found
  ]

  pub IsRestorable-IsValid :
      (s : CushionShape)
      → c.shape ≡ some s
      → has_valid_measurements_for_shape c.shape c.width c.height c.thickness c.unit c.back_width
        ≡ true
      → IsValid s c.width c.height c.thickness c.unit c.back_width
  IsRestorable-IsValid s e v =
      measurements-IsValid s c.width c.height c.thickness c.unit c.back_width (rw (← e) v)

  unrestorable-IsTotal : IsTotal (is_unrestorable c legacy)
  unfolding is_unrestorable
  unrestorable-IsTotal = any_of-IsTotal (restore_checks c legacy) (
    (_, refl),
    λ known. (
      (_, refl),
      λ valid.
          let (s, e) = shape_is_set (unset _ known) in
          let v = IsRestorable-IsValid s e (unset _ valid) in
          (
            unrounded_total c.width (within_range_positive _ _ _ v.width_within),
            λ _. (
              unrounded_total c.height (within_range_positive _ _ _ v.height_within),
              λ _. (
                unrounded_total c.thickness (within_range_positive _ _ _ v.thickness_within),
                λ _. (
                  (_, refl),
                  λ _. (
                    (_, refl),
                    λ _. (
                      (_, refl),
                      λ committed. (
                        unrounded_if_set_total c.back_width (unset _ committed),
                        λ _. ((_, refl), λ _. tt),
                      ),
                    ),
                  ),
                ),
              ),
            ),
          ),
    ),
  )

-- A scale that its normal form equals by `===` is its own normal form.
unnormalized_scale-normal :
    (scale : Num) → is_unnormalized_scale scale ≡ false → normalize_pattern_scale scale ≡ some scale
unfolding is_unnormalized_scale
unnormalized_scale-normal scale h = elim (Option-cases (normalize_pattern_scale scale)) [
  | inl outside ↦ absurd (ground arith)
  | inr (n, e) ↦
      let same : n ≡ scale = num_eq→eq n scale (ground arith) (normalize-positive scale n e) in
      e ∙ ap some same
]

pub restorable_scale :
    {c : ConfigurationState} {legacy : Option Text}
    → IsRestorable c legacy
    → normalize_pattern_scale c.pattern_scale ≡ some c.pattern_scale
restorable_scale r = unnormalized_scale-normal _ r.scale

-- The restored configuration: that of the action with the pattern that was found.
abbrev pub restored : ConfigurationState → Option Text → ConfigurationState
restored c legacy = record c { pattern = restored_pattern c.pattern legacy }

module _ (state c : ConfigurationState) (legacy : Option Text) where
  pub restore-eq-ok :
      (next : ConfigurationState)
      → restore state c legacy ≡ ok next
      → (next ≡ state) ⊎ (IsRestorable c legacy × (next ≡ restored c legacy))
  unfolding restore
  restore-eq-ok next h =
      let (refused, checked, e) = >>=-eq-ok (is_unrestorable c legacy) _ h in
      split refused checked e
    where
      split :
          (refused : Bool)
          → is_unrestorable c legacy ≡ ok refused
          → ◌≡◌ {A = Result ConfigurationState}
              (ok (if refused then state else restored c legacy))
              (ok next)
          → (next ≡ state) ⊎ (IsRestorable c legacy × (next ≡ restored c legacy))
      split true checked e = inl cc
      split false checked e = inr (unrestorable-IsRestorable c legacy checked, cc)

  pub restore_of_IsRestorable :
      IsRestorable c legacy → restore state c legacy ≡ ok (restored c legacy)
  unfolding restore
  restore_of_IsRestorable r = rw (IsRestorable-unrestorable c legacy r)

  pub restore_total : (next : ConfigurationState) × (restore state c legacy ≡ ok next)
  unfolding restore
  restore_total =
      let (refused, e) = unrestorable-IsTotal c legacy in
      (if refused then state else restored c legacy, rw e)

IsRestorable-cases :
    (c : ConfigurationState) (legacy : Option Text)
    → IsRestorable c legacy ⊎ (is_unrestorable c legacy ≡ ok true)
IsRestorable-cases c legacy = split (unrestorable-IsTotal c legacy)
  where
    split :
        IsTotal (is_unrestorable c legacy)
        → IsRestorable c legacy ⊎ (is_unrestorable c legacy ≡ ok true)
    split (true, e) = inr e
    split (false, e) = inl (unrestorable-IsRestorable c legacy e)

-- Restoring a configuration never throws. It gives the configuration, with the legacy pattern id in
-- place of a missing pattern, exactly when the configuration is restorable: a known shape with
-- valid measurements, all rounded, a pattern with acceptable ids or colour, a normalised scale,
-- supported cover choices. Otherwise the state stays as it is.
pub restore_lem :
    (state c : ConfigurationState) (legacy : Option Text)
    → (IsRestorable c legacy × (restore state c legacy ≡ ok (restored c legacy)))
      ⊎ ((IsRestorable c legacy → ⊥) × (restore state c legacy ≡ ok state))
unfolding restore
restore_lem state c legacy = elim (IsRestorable-cases c legacy) [
  | inl r ↦ inl (r, restore_of_IsRestorable state c legacy r)
  | inr refused ↦
      inr (λ r. ok_differ (sym refused ∙ IsRestorable-unrestorable c legacy r), rw refused)
]
  where
    ok_differ : ◌≡◌ {A = Result Bool} (ok true) (ok false) → ⊥
    ok_differ e = cc

-- ===== src/Configuration/Draft/Restoring.antt =====
-- A draft that was sanitised may be restored: the reducer takes it as it is.
use sewn_covers.Prelude.{Option, none, some, List, [], ◌∷◌, ◌≡◌}
use sewn_covers.Prelude.Result.{ok}
use sewn_covers.Value.{Value}
use sewn_covers.Configuration.Types.{
  PatternChoice, built_in, solid, custom, ConfigurationState, ConfigurationAction, restore_draft,
}
use sewn_covers.Configuration.Draft.Defs.{sanitize_draft_configuration}
use sewn_covers.Configuration.Draft.Sound.{IsDraftPattern, sanitize-IsDraft}
use sewn_covers.Configuration.Reducer.{initial_configuration_state}
use sewn_covers.Configuration.Reducer.Invariant.{
  IsColored, IsWellFormed, IsChecked, AreChecked, initial-IsWellFormed, run, run-IsWellFormed,
}

draft-IsColored : (p : Option PatternChoice) → IsDraftPattern p → IsColored p
draft-IsColored none h = tt
draft-IsColored (some (built_in id)) h = tt
draft-IsColored (some (solid color)) h = h
draft-IsColored (some (custom c)) h = tt

sanitize-IsWellFormed : (v : Value) → IsWellFormed (sanitize_draft_configuration v)
sanitize-IsWellFormed v =
    let d = sanitize-IsDraft v in
    record {
      equal_face = d.equal_face;
      scale = d.scale;
      color = draft-IsColored (sanitize_draft_configuration v).pattern d.pattern;
    }

-- Every draft that is restored is what sanitising made of a stored value.
abbrev IsSanitized : ConfigurationAction → Type 0
IsSanitized (restore_draft c) = (v : Value) × (c ≡ sanitize_draft_configuration v)
IsSanitized _ = Unit {0}

abbrev pub AreSanitized : List ConfigurationAction → Type 0
AreSanitized [] = Unit {0}
AreSanitized (a ∷ rest) = IsSanitized a × AreSanitized rest

IsSanitized-IsChecked : (a : ConfigurationAction) → IsSanitized a → IsChecked a
IsSanitized-IsChecked (restore_draft c) (v, same) = rw same (sanitize-IsWellFormed v)
IsSanitized-IsChecked _ h = tt

AreSanitized-AreChecked :
    (actions : List ConfigurationAction) → AreSanitized actions → AreChecked actions
AreSanitized-AreChecked [] h = tt
AreSanitized-AreChecked (a ∷ rest) (h, hs) =
    (IsSanitized-IsChecked a h, AreSanitized-AreChecked rest hs)

-- If every draft that is restored on the way is what sanitising made of a stored value, a sequence of
-- actions from the initial configuration that does not throw ends in a well-formed one: a square or
-- round face is as high as it is wide, the pattern scale is its own normal form, and a solid colour is
-- `#` and six upper-case digits.
pub run-sanitize :
    (actions : List ConfigurationAction) (next : ConfigurationState)
    → AreSanitized actions
    → run initial_configuration_state actions ≡ ok next
    → IsWellFormed next
run-sanitize actions next h ran =
    run-IsWellFormed initial_configuration_state actions next initial-IsWellFormed
      (AreSanitized-AreChecked actions h) ran

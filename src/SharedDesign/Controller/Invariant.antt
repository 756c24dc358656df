-- ===== src/SharedDesign/Controller/Invariant.antt =====
-- A shared design is only restored over a configuration that was not edited since its link was opened.
use sewn_covers.Prelude.{
  ℕ, suc, ◌≤◌, true, ◌==◌, Option, none, some, List, [], ◌∷◌, ◌≡◌, ◌⊎◌, inl, inr, refl, sym, ◌∙◌,
  arith, Bool-cases, ==→eq,
}
use sewn_covers.Text.{Text}
use sewn_covers.Value.{Value}
use sewn_covers.Configuration.{ConfigurationState}
use sewn_covers.Patterns.{PatternCatalogueResult, empty, loading, error, ready}
use sewn_covers.SharedDesign.Restore.{configuration_from_response}
use sewn_covers.SharedDesign.Controller.{
  LoadPhase, Load, Restoration, Controller, cancel, publish, start_load, supersede, restore,
  is_available, reconcile_pattern, is_solid, reconcile_pending, reconcile, IsStarted,
}

-- One of the records that came in answers.
abbrev pub IsReceived : Load → Value → List (Load × Value) → Type 0
IsReceived load response [] = ⊥
IsReceived load response ((l, r) ∷ rest) =
    ((load ≡ l) × (response ≡ r)) ⊎ IsReceived load response rest

-- The load that is active was answered with a record that is read as the configuration.
abbrev pub IsSourced : List (Load × Value) → ConfigurationState → Option Load → ℕ → Type 0
IsSourced received configuration active revision =
    (load : Load) × (response : Value) × (active ≡ some load)
    × (load.revision ≡ revision)
    × IsReceived load response received
    × (configuration_from_response response load.public_id ≡ some configuration)

-- A restoration: it was sourced, the revision was still that of the start of the load, and the pattern
-- is a solid colour or one of the catalogue.
abbrev pub IsLegitimate : List (Load × Value) → Restoration → Type 0
IsLegitimate received r =
    IsSourced received r.configuration r.active r.revision
    × ((is_solid r.configuration.pattern ≡ true)
        ⊎ (is_available r.catalogue r.configuration.pattern ≡ true))

abbrev pub AreLegitimate : List (Load × Value) → List Restoration → Type 0
AreLegitimate received [] = Unit {0}
AreLegitimate received (r ∷ rs) = IsLegitimate received r × AreLegitimate received rs

-- No load has a later version than the controller, and one of its version is the active one.
abbrev pub AreOrdered : ℕ → Option Load → ℕ → List Load → Type 0
AreOrdered version active revision [] = Unit {0}
AreOrdered version active revision (l ∷ ls) =
    (l.version ≤ version)
    × (l.version ≡ version → (active ≡ some l) × (l.revision ≡ revision))
    × AreOrdered version active revision ls

abbrev pub IsPending : List (Load × Value) → Option ConfigurationState → Option Load → ℕ → Type 0
IsPending received none active revision = Unit {0}
IsPending received (some configuration) active revision =
    IsSourced received configuration active revision

pub record IsSound (c : Controller) : Type 0 where
  pub ordered : AreOrdered c.version c.active c.loaded_revision c.loads
  pub sourced : IsPending c.received c.pending c.active c.loaded_revision
  pub legitimate : AreLegitimate c.received c.restorations

-- Another answer takes nothing away.
module _ (received : List (Load × Value)) (load : Load) (response : Value) where
  IsSourced-more :
      (configuration : ConfigurationState) (active : Option Load) (revision : ℕ)
      → IsSourced received configuration active revision
      → IsSourced ((load, response) ∷ received) configuration active revision
  IsSourced-more configuration active revision (l, r, same, kept, came, read) =
      (l, r, same, kept, inr came, read)

  pub IsPending-more :
      (o : Option ConfigurationState) (active : Option Load) (revision : ℕ)
      → IsPending received o active revision
      → IsPending ((load, response) ∷ received) o active revision
  IsPending-more none active revision h = tt
  IsPending-more (some configuration) active revision h =
      IsSourced-more configuration active revision h

  pub AreLegitimate-more :
      (rs : List Restoration)
      → AreLegitimate received rs
      → AreLegitimate ((load, response) ∷ received) rs
  AreLegitimate-more [] h = tt
  AreLegitimate-more (r ∷ rs) ((source, usable), h) =
      ((IsSourced-more r.configuration r.active r.revision source, usable), AreLegitimate-more rs h)

-- A later version makes every load an earlier one.
AreOrdered-suc :
    (version : ℕ) (active next : Option Load) (revision now : ℕ) (ls : List Load)
    → AreOrdered version active revision ls
    → AreOrdered (suc version) next now ls
AreOrdered-suc version active next revision now [] h = tt
AreOrdered-suc version active next revision now (l ∷ ls) (le, current, h) =
    (omega arith, λ e. absurd (omega arith), AreOrdered-suc version active next revision now ls h)

pub started-IsCurrent :
    (version : ℕ) (active : Option Load) (revision : ℕ) (ls : List Load) (load : Load)
    → AreOrdered version active revision ls
    → IsStarted load ls
    → load.version ≡ version
    → (active ≡ some load) × (load.revision ≡ revision)
started-IsCurrent version active revision (l ∷ ls) load (le, current, h) (inl same) e =
    rw same (current (rw (← same) e))
started-IsCurrent version active revision (l ∷ ls) load (le, current, h) (inr later) e =
    started-IsCurrent version active revision ls load h later e
started-IsCurrent version active revision [] load h s e = absurd s

pub publish-IsSound : (phase : LoadPhase) (c : Controller) → IsSound c → IsSound (publish phase c)
publish-IsSound phase c s = record {
  ordered = s.ordered;
  sourced = s.sourced;
  legitimate = s.legitimate;
}

pub cancel-IsSound : (c : Controller) → IsSound c → IsSound (cancel c)
unfolding cancel
cancel-IsSound c s = record {
  ordered =
      AreOrdered-suc c.version c.active none c.loaded_revision c.loaded_revision c.loads s.ordered;
  sourced = tt;
  legitimate = s.legitimate;
}

pub start_load-IsSound :
    (id : Text) (c : Controller) → c.pending ≡ none → IsSound c → IsSound (start_load id c)
unfolding start_load
start_load-IsSound id c p s = record {
  ordered = (
    omega arith,
    λ e. (refl, refl),
    AreOrdered-suc c.version c.active _ c.loaded_revision c.revision c.loads s.ordered,
  );
  sourced = rw p tt;
  legitimate = s.legitimate;
}

pub supersede-IsSound : (c : Controller) → IsSound c → IsSound (supersede c)
unfolding supersede
supersede-IsSound c s = publish-IsSound _ (cancel c) (cancel-IsSound c s)

module _ (c : Controller) (configuration : ConfigurationState) (s : IsSound c)
    (source : IsSourced c.received configuration c.active c.loaded_revision)
    (same : c.revision ≡ c.loaded_revision) where
  restore-IsSound :
      (is_solid configuration.pattern ≡ true)
        ⊎ (is_available c.catalogue configuration.pattern ≡ true)
      → IsSound (restore configuration c)
  unfolding restore
  restore-IsSound usable = record {
    ordered = s.ordered;
    sourced = tt;
    legitimate =
        let (load, response, active, revision, came, read) = source in
        (((load, response, active, revision ∙ sym same, came, read), usable), s.legitimate);
  }

  reconcile_pattern-IsSound :
      (catalogue : PatternCatalogueResult)
      → c.catalogue ≡ catalogue
      → IsSound (reconcile_pattern catalogue configuration c)
  reconcile_pattern-IsSound loading e = publish-IsSound _ c s
  reconcile_pattern-IsSound (error issues) e = publish-IsSound _ c s
  reconcile_pattern-IsSound empty e = publish-IsSound _ c s
  reconcile_pattern-IsSound (ready patterns) e =
      elim (Bool-cases (is_available (ready patterns) configuration.pattern)) [
        | inl there ↦ rw there (restore-IsSound (inr (rw e there)))
        | inr missing ↦ rw missing (publish-IsSound _ c s)
      ]

reconcile_pending-IsSound :
    (o : Option ConfigurationState) (c : Controller)
    → IsSound c
    → IsPending c.received o c.active c.loaded_revision
    → IsSound (reconcile_pending o c)
reconcile_pending-IsSound none c s p = s
reconcile_pending-IsSound (some configuration) c s p =
    elim (Bool-cases (c.revision == c.loaded_revision)) [
      | inr edited ↦ rw edited (supersede-IsSound c s)
      | inl unedited ↦
          let same = ==→eq c.revision c.loaded_revision unedited in
          rw unedited (elim (Bool-cases (is_solid configuration.pattern)) [
            | inl plain ↦ rw plain (restore-IsSound c configuration s p same (inl plain))
            | inr other ↦
                rw other (reconcile_pattern-IsSound c configuration s p same c.catalogue refl)
          ])
    ]

pub reconcile-IsSound : (c : Controller) → IsSound c → IsSound (reconcile c)
unfolding reconcile
reconcile-IsSound c s = reconcile_pending-IsSound c.pending c s s.sourced

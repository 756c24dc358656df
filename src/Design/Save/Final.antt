-- ===== src/Design/Save/Final.antt =====
-- A saved design stays saved.
use sewn_covers.Prelude.{Option, ◌≡◌, refl, ap, subst, ◌∙◌}
use sewn_covers.Prelude.Result.{Result}
use sewn_covers.Text.{Text}
use sewn_covers.Design.Contract.{CreateDesignRequest}
use sewn_covers.Design.Request.{map_configuration_to_create_design}
use sewn_covers.Design.Save.{
  DesignSaveState, success, Stage, free, waiting, settling, Controller, initial_controller,
  submit_at, submit, settle, Step, submits, reports, answers_with, settles, Steps, done, then_step,
}
use sewn_covers.Design.Save.Invariant.{IsAnswered, IsConfirmed, IsSound, Steps-from, Steps-IsSound}

module _ (share_url_factory : Text → Option Text) where
  success-IsAnswered :
      (c : Controller) (id url : Text)
      → c.state ≡ success id url
      → IsSound share_url_factory c
      → IsAnswered c.stage
  success-IsAnswered c id url h s =
      (subst (λ st. IsConfirmed share_url_factory st c.stage c.sent c.answers) h s.confirmed).0

  not_waiting : (stage : Stage) (r : CreateDesignRequest) → IsAnswered stage → stage ≡ waiting r → ⊥
  not_waiting free r h at = cc
  not_waiting settling r h at = cc
  not_waiting (waiting q) r h at = h

  submit_at-saved :
      (stage : Stage) (st : DesignSaveState) (request : Result CreateDesignRequest) (c : Controller)
      (id url : Text)
      → c.state ≡ success id url
      → submit_at stage request c ≡ c
  submit_at-saved free st request c id url h = rw h refl
  submit_at-saved settling st request c id url h = refl
  submit_at-saved (waiting r) st request c id url h = refl

  Step-saved :
      (c d : Controller) (id url : Text)
      → c.state ≡ success id url
      → IsSound share_url_factory c
      → Step share_url_factory c d
      → (d.state ≡ success id url) × (d.sent ≡ c.sent)
  unfolding submit settle
  Step-saved c _ id url h s (submits configuration legacy) =
      let same =
        submit_at-saved c.stage c.state (map_configuration_to_create_design configuration legacy) c
          id url h in
      (ap (λ k. k.state) same ∙ h, ap (λ k. k.sent) same)
  Step-saved c _ id url h s (reports request status at) =
      absurd (not_waiting c.stage request (success-IsAnswered c id url h s) at)
  Step-saved c _ id url h s (answers_with request answer at) =
      absurd (not_waiting c.stage request (success-IsAnswered c id url h s) at)
  Step-saved c _ id url h s (settles at) = (h, refl)

  Steps-saved_from :
      (c d : Controller) (id url : Text)
      → c.state ≡ success id url
      → IsSound share_url_factory c
      → Steps share_url_factory c d
      → (d.state ≡ success id url) × (d.sent ≡ c.sent)
  Steps-saved_from c _ id url h s done = (h, refl)
  Steps-saved_from c e id url h s (then_step {d} ss last) =
      let (state, sent) = Steps-saved_from c d id url h s ss in
      let (state', sent') =
        Step-saved d e id url state (Steps-from share_url_factory c d ss s) last in
      (state', sent' ∙ sent)

  -- Once a reached controller shows a share link it shows that link for ever, and sends no request.
  pub Steps-saved :
      (c d : Controller) (id url : Text)
      → Steps share_url_factory initial_controller c
      → c.state ≡ success id url
      → Steps share_url_factory c d
      → (d.state ≡ success id url) × (d.sent ≡ c.sent)
  Steps-saved c d id url ss h = Steps-saved_from c d id url h (Steps-IsSound share_url_factory c ss)

-- ===== src/AutoUpdate/Tags/Coherent.antt =====
-- What the steps of the specification keep.
use hermes_operator.Common.{String, Bool, true, ◌≡◌, ◌≢◌, refl, arith, eq_iff}
use hermes_operator.AutoUpdate.Tags.{
  Tags, running, previous, Step, same, start, confirm, roll_back, IsCoherent,
}

module _ {spec_tag : String} {rollbacks : Bool} where
  pub Step-IsCoherent :
      {t t' : Tags} → IsCoherent spec_tag t → Step spec_tag rollbacks t t' → IsCoherent spec_tag t'
  Step-IsCoherent c same = c
  Step-IsCoherent c (start tag idle fresh other) = (c.0, λ _. other)
  Step-IsCoherent c (confirm busy) = (refl, λ n. absurd (n refl))
  Step-IsCoherent {t} c (roll_back busy allowed) =
      (ground (arith, eq_iff spec_tag "", eq_iff t.last_success ""), λ n. absurd (n refl))

  -- A step that records another failed tag leaves one running that has not failed.
  pub Step-rolled_back :
      {t t' : Tags}
      → IsCoherent spec_tag t
      → Step spec_tag rollbacks t t'
      → t'.last_failed ≢ t.last_failed
      → (rollbacks ≡ true)
        × (t'.last_failed ≡ t.target)
        × (t'.current ≡ previous spec_tag t)
        × (running spec_tag t' ≢ t'.last_failed)
  Step-rolled_back c same n = absurd (n refl)
  Step-rolled_back c (start tag idle fresh other) n = absurd (n refl)
  Step-rolled_back c (confirm busy) n = absurd (n refl)
  Step-rolled_back {t} c (roll_back busy allowed) n = (
    allowed,
    refl,
    refl,
    λ e. c.1 busy (ground (arith, c.0, e, eq_iff spec_tag "", eq_iff t.last_success "")),
  )

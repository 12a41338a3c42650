-- ===== src/Webhook/Validate/Tests.antt =====
-- An instance is created and updated.
use hermes_operator.Common.{String, none, ◌≡◌, refl, true, false}
use hermes_operator.Api.Features.{MigrationSpec}
use hermes_operator.Api.Instance.{HermesInstance}
use hermes_operator.Webhook.{denial_of}
use hermes_operator.Webhook.Validate.{validate_create, validate_update}
use hermes_operator.Webhook.Validate.Accepts.{
  IsAdmissible, Continues, validate_create-IsAdmissible, validate_create_total,
  validate_update-Continues, validate_update_total,
}
use hermes_operator.Fixtures.Instances.{empty_status}
use hermes_operator.Fixtures.Admissible.{
  variant, variant-IsAdmissible, latched_status, admissible_instance, restored_instance, no_secrets,
  admission,
}

abbrev marshal : MigrationSpec → String
marshal m = "null"

abbrev updated : HermesInstance
updated = variant latched_status "snap" true

updated-Continues : Continues marshal restored_instance updated
updated-Continues = record {
  latches = record { restored = λ n e. refl; migrated = λ e. refl };
  storage_class = λ c e. e;
  name = refl;
}

created : denial_of (validate_create no_secrets admissible_instance admission) ≡ none
created =
    validate_create_total no_secrets admission admissible_instance (λ ns n w. refl)
      (variant-IsAdmissible empty_status "" false)

admitted : denial_of (validate_update no_secrets marshal restored_instance updated admission) ≡ none
admitted =
    validate_update_total no_secrets admission marshal restored_instance updated (λ ns n w. refl)
      updated-Continues (variant-IsAdmissible latched_status "snap" true)

validate_create-IsAdmissible_example : IsAdmissible admissible_instance
validate_create-IsAdmissible_example =
    validate_create-IsAdmissible no_secrets admission admissible_instance created

validate_update-Continues_example :
    Continues marshal restored_instance updated × IsAdmissible updated
validate_update-Continues_example =
    validate_update-Continues no_secrets admission marshal restored_instance updated admitted

-- ===== src/Tests/Arming.antt =====
-- The arming of failpoints in internal/failpoint/failpoint.go, on concrete specs.
use fault_tolerant_payment_l.Base.{
  ℕ, ◌≡◌, refl, arith, Text, text, text_eq, split, trim_space, cut_or_all, cut, atoi, true, Option,
  none, some, [], ◌∷◌, if◌then◌else◌,
}
use fault_tolerant_payment_l.Failpoint.{
  before_commit, after_commit, before_kafka_publish, error, sleep, Registry, assign, new_registry,
}
use fault_tolerant_payment_l.Failpoint.Spec.{
  is_known, arm, parse, describe, with_request_failpoints,
}
use fault_tolerant_payment_l.Failpoint.Spec.Arming.{Local, arm-describe, arm-Local}
use fault_tolerant_payment_l.Failpoint.Spec.Calls.{
  Tidy, arms, parses, evaluates, performs, new_registry-Tidy,
}
use fault_tolerant_payment_l.Failpoint.Spec.Overrides.{
  AllLasting, with_request_failpoints-AllLasting,
}

abbrev parse_duration : Text → Option ℕ
parse_duration s = if text_eq s (text "250ms") then some 250000000 else none

abbrev show_duration : ℕ → Text
show_duration d = text "250ms"

abbrev armed : Registry
armed = record {
  enabled = true;
  actions = (after_commit, record { kind = error; remaining = some 1 }) ∷ [];
}

-- the example of the documentation
parse_list :
    ((parse parse_duration
      (text "before_commit=error, after_commit=error:1,,before_kafka_publish=sleep:250ms")
      (new_registry true)).1
    ).actions
    ≡ (before_kafka_publish, record { kind = sleep 250000000; remaining = none })
      ∷ (after_commit, record { kind = error; remaining = some 1 })
      ∷ (before_commit, record { kind = error; remaining = none })
      ∷ []
unfolding parse new_registry text_eq trim_space split cut cut_or_all atoi
parse_list = refl

override_with_count :
    (with_request_failpoints parse_duration (text "before_commit=error:1") []).1
    ≡ (before_commit, record { kind = error; remaining = none }) ∷ []
unfolding with_request_failpoints text_eq trim_space split cut cut_or_all
override_with_count = refl

arm-describe_example :
    arm parse_duration before_commit
      (describe show_duration (record { kind = error; remaining = some 3 }))
      armed
    ≡ (
      none,
      record armed {
        actions = assign before_commit (record { kind = error; remaining = some 3 }) armed.actions;
      },
    )
unfolding is_known text_eq
arm-describe_example =
    arm-describe parse_duration show_duration before_commit
      (record { kind = error; remaining = some 3 }) armed refl refl (λ n h. grind arith) (λ d h. cc)

arm-Local_example :
    Local before_commit armed (arm parse_duration before_commit (text "error:-1") armed)
arm-Local_example = arm-Local parse_duration before_commit (text "error:-1") armed

new_registry-Tidy_example : Tidy (
    performs parse_duration
      (parses (text "before_commit=error")
        ∷ arms after_commit (text "panic:2")
        ∷ evaluates [] after_commit
        ∷ [])
      (new_registry true))
new_registry-Tidy_example = new_registry-Tidy parse_duration true (
    parses (text "before_commit=error")
    ∷ arms after_commit (text "panic:2")
    ∷ evaluates [] after_commit
    ∷ [])

with_request_failpoints-AllLasting_example :
    AllLasting (with_request_failpoints parse_duration (text "before_commit=error:1") []).1
with_request_failpoints-AllLasting_example =
    with_request_failpoints-AllLasting parse_duration (text "before_commit=error:1") [] _

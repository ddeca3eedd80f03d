-- ===== src/Providers/Messages.antt =====
-- What the client of the router is told about a call of AWS Lambda that has failed.
use event_gateway.Common.{
  String, ◌≡◌, refl, ap, inl, inr, Bool, true, false, Option, some, ◌==◌, if◌then◌else◌,
  String-cases, ne_test,
}
use event_gateway.Event.Defs.{Failure, call_failed, provider_error}
use event_gateway.Providers.Aws.{
  SdkError, LambdaOutput, AwsConfig, coded, failed, lambda_failure, lambda_result, lambda_call,
}
use event_gateway.Router.Serving.{determine_error_message, message_of_code, standard_message}

determine_error_message-other :
    (b : Bool) (code : String)
    → determine_error_message (if b then provider_error code else call_failed code)
      ≡ standard_message
unfolding determine_error_message
determine_error_message-other true code = refl
determine_error_message-other false code = refl

determine_error_message-lambda_failure :
    (code : String)
    → determine_error_message (lambda_failure code) ≡ message_of_code code standard_message
unfolding determine_error_message lambda_failure
determine_error_message-lambda_failure code = elim (String-cases code "AccessDeniedException") [
  | inl a ↦ rw (a) refl
  | inr a ↦ elim (String-cases code "UnrecognizedClientException") [
    | inl b ↦ rw (b) refl
    | inr b ↦ elim (String-cases code "ExpiredTokenException") [
      | inl c ↦ rw (c) refl
      | inr c ↦
          rw (ne_test code _ a, ne_test code _ b, ne_test code _ c)
            (determine_error_message-other (code == "ServiceException") code)
    ]
  ]
]

-- If the SDK gives an error with a code, then the call of AWS Lambda fails, and the message for the client is the one
-- for that code: none of the codes that have a message is lost in the kinds of failures.
pub lambda_call-told :
    (invoke : String → String → LambdaOutput × Option SdkError) (config : AwsConfig)
    (payload code : String)
    → (invoke config.resource payload).1 ≡ some (coded code)
    → (f : Failure) × (lambda_call invoke config payload ≡ failed f)
      × (determine_error_message f ≡ message_of_code code standard_message)
unfolding lambda_call
lambda_call-told invoke config payload code refused = (
  lambda_failure code,
  ap (lambda_result (invoke config.resource payload).0) refused,
  determine_error_message-lambda_failure code,
)

-- ===== src/Providers/Tests.antt =====
-- Providers of small configurations.
use event_gateway.Common.{
  String, ◌≡◌, ◌↔◌, refl, inl, inr, Option, none, some, [], at_key, set_key, delete_key,
}
use event_gateway.Event.Defs.{Failure, function_error, other_failure}
use event_gateway.Providers.Aws.{
  LambdaOutput, AwsConfig, SdkError, coded, plain, failed, panicked, credentials, lambda_call,
  record_call, load_aws,
}
use event_gateway.Providers.Http.{response, http_call, load_http}
use event_gateway.Providers.Kinds.{
  Provider, Loading, aws_lambda, http, load_kinesis, load_endpoint, loaders, log_function,
}
use event_gateway.Providers.Loading.{
  RawFunction, LoadedFunction, loaded, load_panicked, IsUnconfigured, register_provider,
  unmarshal_function, unmarshal_function-panicked,
}
use event_gateway.Providers.Masking.{same_lambda, log_function-same}
use event_gateway.Providers.Messages.{lambda_call-told}
use event_gateway.Router.Serving.{determine_error_message, message_of_code, standard_message}

abbrev config_with : String → AwsConfig
config_with secret = record {
  resource = "arn";
  region = "us-east-1";
  access_key_id = "AKIA";
  secret_access_key = secret;
  session_token = "";
}

abbrev env : Loading
env = record {
  decode_lambda = λ text. inr (config_with text);
  decode_kinesis = λ text. inl "unexpected end of JSON input";
  decode_sqs = λ text. inr (config_with text);
  decode_firehose = λ text. inr (config_with text);
  decode_http = λ text. inr text;
  validate = λ config. none;
  validate_http = λ url. none;
  new_session = λ region keys. none;
}

abbrev raw : RawFunction
raw = record {
  space = "default";
  id = "hello";
  provider_type = "http";
  provider_config = some "https://example.com";
  metadata = [];
}

abbrev unconfigured : RawFunction
unconfigured = record raw { provider_config = none }

abbrev denying : String → String → LambdaOutput × Option SdkError
denying arn payload =
    (record { function_error = none; payload = "" }, some (coded "ExpiredTokenException"))

lambda_call-told_example :
    (f : Failure) × (lambda_call denying (config_with "secret") "{}" ≡ failed f)
    × (determine_error_message f ≡ message_of_code "ExpiredTokenException" standard_message)
lambda_call-told_example =
    lambda_call-told denying (config_with "secret") "{}" "ExpiredTokenException" refl

unmarshal_function-panicked_example :
    (unmarshal_function (λ text. inr unconfigured) (loaders env) "{}" ≡ load_panicked)
    ↔ IsUnconfigured (loaders env) (inr unconfigured)
unmarshal_function-panicked_example =
    unmarshal_function-panicked (λ text. inr unconfigured) (loaders env) "{}"

unconfigured-IsUnconfigured : IsUnconfigured (loaders env) (inr unconfigured)
unfolding loaders register_provider set_key at_key delete_key
unconfigured-IsUnconfigured = (unconfigured, refl, refl, load_endpoint env, refl, refl)

abbrev serving : Provider → LoadedFunction Provider
serving provider = record {
  space = "default";
  id = "hello";
  provider_type = "http";
  metadata = [];
  provider = provider;
}

log_function-same_example :
    log_function (serving (aws_lambda (config_with "one")))
    ≡ log_function (serving (aws_lambda (config_with "other")))
log_function-same_example =
    log_function-same (serving (aws_lambda (config_with "one"))) (aws_lambda (config_with "other"))
      (same_lambda (record {
        resource = refl;
        region = refl;
        access_key_id = refl;
        secret_access_key = refl;
        session_token = refl;
      }))

endpoint_loads :
    unmarshal_function (λ text. inr raw) (loaders env) "{}"
    ≡ loaded (serving (http "https://example.com"))
unfolding unmarshal_function loaders register_provider load_endpoint load_http set_key at_key
    delete_key
endpoint_loads = refl

undecoded :
    load_kinesis env ""
    ≡ inl "unable to load function provider config: unexpected end of JSON input"
unfolding load_kinesis load_aws
undecoded = refl

refused_endpoint :
    http_call (λ url type body. response 500 (inr "oops")) "https://example.com" "{}"
    ≡ failed (function_error "HTTP status code: 500")
unfolding http_call
refused_endpoint = refl

record_kept :
    record_call (λ stream payload. (some "49", some (plain "timeout"))) (config_with "secret") "{}"
    ≡ failed (other_failure "timeout")
unfolding record_call
record_kept = refl

record_lost :
    record_call (λ stream payload. (none, some (plain "timeout"))) (config_with "secret") "{}"
    ≡ panicked
unfolding record_call
record_lost = refl

no_keys : credentials (config_with "") ≡ none
unfolding credentials
no_keys = refl

-- ===== src/Providers/Kinds.antt =====
-- The five kinds of providers under providers/ behind the interface of function/provider.go, and their registration.
use event_gateway.Common.{String, ◌⊎◌, inl, inr, Option, List, [], ◌∷◌, Dict}
use event_gateway.Providers.Aws.{
  CallResult, SdkError, LambdaOutput, AwsConfig, Credentials, lambda_call, record_call, load_aws,
  log_fields,
}
use event_gateway.Providers.Http.{PostResult, http_call, load_http}
use event_gateway.Providers.Loading.{Loader, LoadedFunction, register_provider}

pub data Provider : Type 0 where
  aws_lambda : AwsConfig → Provider
  aws_kinesis : AwsConfig → Provider
  aws_sqs : AwsConfig → Provider
  aws_firehose : AwsConfig → Provider
  http : String → Provider

-- encoding/json and validate.Struct for the configurations, and `session.NewSession`. The names of the fields are
-- those of the kind, so that there is a decoder for each.
pub record Loading : Type 0 where
  pub decode_lambda : String → String ⊎ AwsConfig
  pub decode_kinesis : String → String ⊎ AwsConfig
  pub decode_sqs : String → String ⊎ AwsConfig
  pub decode_firehose : String → String ⊎ AwsConfig
  pub decode_http : String → String ⊎ String
  pub validate : AwsConfig → Option String
  pub validate_http : String → Option String
  pub new_session : String → Option Credentials → Option String

-- The clients of the services, and `Post`.
pub record Clients : Type 0 where
  pub invoke : String → String → LambdaOutput × Option SdkError
  pub put_kinesis : String → String → Option String × Option SdkError
  pub send_message : String → String → Option String × Option SdkError
  pub put_firehose : String → String → Option String × Option SdkError
  pub post : String → String → String → PostResult

abbrev pub as_provider : {A : Type 0} → (A → Provider) → String ⊎ A → String ⊎ Provider
as_provider make (inl m) = inl m
as_provider make (inr config) = inr (make config)

module _ (env : Loading) where
  unfoldable pub load_lambda : Loader Provider
  load_lambda text = as_provider aws_lambda (
      load_aws env.decode_lambda env.validate env.new_session
        "missing required fields for AWS Lambda function" text)

  unfoldable pub load_kinesis : Loader Provider
  load_kinesis text = as_provider aws_kinesis (
      load_aws env.decode_kinesis env.validate env.new_session
        "missing required fields for AWS Kinesis function" text)

  unfoldable pub load_sqs : Loader Provider
  load_sqs text = as_provider aws_sqs (
      load_aws env.decode_sqs env.validate env.new_session
        "missing required fields for AWS SQS function" text)

  unfoldable pub load_firehose : Loader Provider
  load_firehose text = as_provider aws_firehose (
      load_aws env.decode_firehose env.validate env.new_session
        "missing required fields for AWS Firehose function" text)

  unfoldable pub load_endpoint : Loader Provider
  load_endpoint text = as_provider http (load_http env.decode_http env.validate_http text)

  -- What the `init` functions leave in the table; their order does not matter.
  unfoldable pub loaders : Dict String (Loader Provider)
  loaders = register_provider "awslambda" load_lambda (
      register_provider "awskinesis" load_kinesis (
        register_provider "awssqs" load_sqs (
          register_provider "awsfirehose" load_firehose
            (register_provider "http" load_endpoint []))))

-- The methods `Call`
unfoldable pub call : Clients → Provider → String → CallResult
call clients (aws_lambda config) payload = lambda_call clients.invoke config payload
call clients (aws_kinesis config) payload = record_call clients.put_kinesis config payload
call clients (aws_sqs config) payload = record_call clients.send_message config payload
call clients (aws_firehose config) payload = record_call clients.put_firehose config payload
call clients (http url) payload = http_call clients.post url payload

-- Function.Call
unfoldable pub call_loaded : Clients → LoadedFunction Provider → String → CallResult
call_loaded clients fn payload = call clients fn.provider payload

-- The methods `MarshalLogObject`
unfoldable pub log_provider : Provider → List (String × String)
log_provider (aws_lambda config) = log_fields "arn" config
log_provider (aws_kinesis config) = log_fields "streamName" config
log_provider (aws_sqs config) = log_fields "queueUrl" config
log_provider (aws_firehose config) = log_fields "deliveryStreamName" config
log_provider (http url) = ("url", url) ∷ []

-- Function.MarshalLogObject: the fields of the function, and those of its provider.
unfoldable pub log_function :
    LoadedFunction Provider → List (String × String) × List (String × String)
log_function fn = (
  ("space", fn.space) ∷ ("functionId", fn.id) ∷ ("type", fn.provider_type) ∷ [],
  log_provider fn.provider,
)

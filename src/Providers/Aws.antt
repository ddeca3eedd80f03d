-- ===== src/Providers/Aws.antt =====
-- providers/awslambda, providers/awskinesis, providers/awssqs and providers/awsfirehose. The clients of the AWS
-- SDK, the validator and encoding/json are parameters.
use event_gateway.Common.{
  String, ◌⊎◌, inl, inr, Bool, not, ◌&&◌, ◌||◌, Option, none, some, List, [], ◌∷◌, ◌++◌, ◌<+>◌,
  ◌==◌, if◌then◌else◌,
}
use event_gateway.Event.Defs.{
  Failure, access_denied, call_failed, provider_error, function_error, other_failure,
}

-- What a call gives back, or a panic.
pub data CallResult : Type 0 where
  returned : String → CallResult
  failed : Failure → CallResult
  panicked : CallResult

-- An error of the SDK: an `awserr.Error` with its code, or another one.
pub data SdkError : Type 0 where
  coded : String → SdkError
  plain : String → SdkError

-- The configuration of a provider: its function, stream or queue, and how AWS is reached.
pub record AwsConfig : Type 0 where
  pub resource : String
  pub region : String
  pub access_key_id : String
  pub secret_access_key : String
  pub session_token : String

pub record LambdaOutput : Type 0 where
  pub function_error : Option String
  pub payload : String

abbrev pub is_denial : String → Bool
is_denial code =
    code == "AccessDeniedException"
    || (code == "ExpiredTokenException" || code == "UnrecognizedClientException")

unfoldable pub lambda_failure : String → Failure
lambda_failure code =
    if is_denial code
    then access_denied (some code)
    else if code == "ServiceException"
    then provider_error code
    else call_failed code

-- `return output, err`
abbrev pub with_error : String → Option String → CallResult
with_error output none = returned output
with_error output (some m) = failed (other_failure m)

abbrev pub unless_function_error : Option String → String → Option String → CallResult
unless_function_error (some m) payload e = failed (function_error m)
unless_function_error none payload e = with_error payload e

abbrev pub lambda_result : LambdaOutput → Option SdkError → CallResult
lambda_result output none = unless_function_error output.function_error output.payload none
lambda_result output (some (coded code)) = failed (lambda_failure code)
lambda_result output (some (plain m)) =
    unless_function_error output.function_error output.payload (some m)

-- AWSLambda.Call, from what `Invoke` gives: the SDK returns an output next to an error, too.
unfoldable pub lambda_call :
    (String → String → LambdaOutput × Option SdkError) → AwsConfig → String → CallResult
lambda_call invoke config payload =
    lambda_result (invoke config.resource payload).0 (invoke config.resource payload).1

-- `*output.SequenceNumber`, `*output.MessageId` or `*output.RecordId`: a nil pointer is a panic.
abbrev pub identified : Option String → Option String → CallResult
identified none e = panicked
identified (some id) e = with_error id e

abbrev pub record_result : Option String → Option SdkError → CallResult
record_result id none = identified id none
record_result id (some (coded code)) = failed (call_failed code)
record_result id (some (plain m)) = identified id (some m)

-- AWSKinesis.Call, AWSSQS.Call and AWSFirehose.Call, from what `PutRecord` or `SendMessage` gives; the partition key
-- of Kinesis, which is random, is left to its client.
unfoldable pub record_call :
    (String → String → Option String × Option SdkError) → AwsConfig → String → CallResult
record_call put config payload =
    record_result (put config.resource payload).0 (put config.resource payload).1

abbrev pub Credentials : Type 0
Credentials = String × String × String

-- The static credentials are used if there are both a key and a secret.
unfoldable pub credentials : AwsConfig → Option Credentials
credentials config =
    if not (config.access_key_id == "") && not (config.secret_access_key == "")
    then some (config.access_key_id, config.secret_access_key, config.session_token)
    else none

abbrev pub session_or : Option String → AwsConfig → String ⊎ AwsConfig
session_or (some m) config = inl ("unable to create AWS Session: " <+> m)
session_or none config = inr config

abbrev pub validated_or :
    (String → Option Credentials → Option String)
    → String
    → Option String
    → AwsConfig
    → String ⊎ AwsConfig
validated_or new_session missing (some m) config = inl missing
validated_or new_session missing none config =
    session_or (new_session config.region (credentials config)) config

abbrev pub decoded_or :
    (String → Option Credentials → Option String)
    → (AwsConfig → Option String)
    → String
    → String ⊎ AwsConfig
    → String ⊎ AwsConfig
decoded_or new_session validate missing (inl m) =
    inl ("unable to load function provider config: " <+> m)
decoded_or new_session validate missing (inr config) =
    validated_or new_session missing (validate config) config

-- The `Load` methods, which differ in their message on missing fields.
unfoldable pub load_aws :
    (String → String ⊎ AwsConfig)
    → (AwsConfig → Option String)
    → (String → Option Credentials → Option String)
    → String
    → String
    → String ⊎ AwsConfig
load_aws decode validate new_session missing text =
    decoded_or new_session validate missing (decode text)

abbrev pub masked_if : String → String → List (String × String)
masked_if name secret = if secret == "" then [] else (name, "*****") ∷ []

-- The `MarshalLogObject` methods, which differ in the name of the first field.
unfoldable pub log_fields : String → AwsConfig → List (String × String)
log_fields name config =
    (name, config.resource)
    ∷ ("region", config.region)
    ∷ (masked_if "awsAccessKeyId" config.access_key_id
        ++ (masked_if "awsSecretAccessKey" config.secret_access_key
            ++ masked_if "awsSessionToken" config.session_token))

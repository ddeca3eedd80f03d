-- ===== src/Providers/Masking.antt =====
-- The credentials of the providers in the log.
use event_gateway.Common.{String, ◌≡◌, refl, ap, List, [], ◌∷◌, ◌++◌, ◌==◌, if◌then◌else◌}
use event_gateway.Providers.Aws.{AwsConfig, masked_if, log_fields}
use event_gateway.Providers.Loading.{LoadedFunction}
use event_gateway.Providers.Kinds.{
  Provider, aws_lambda, aws_kinesis, aws_sqs, aws_firehose, http, log_provider, log_function,
}

-- Two configurations that differ only in what their credentials are, not in which of them are given.
pub record IsSameUpToSecrets (c d : AwsConfig) : Type 0 where
  pub resource : c.resource ≡ d.resource
  pub region : c.region ≡ d.region
  pub access_key_id : (c.access_key_id == "") ≡ (d.access_key_id == "")
  pub secret_access_key : (c.secret_access_key == "") ≡ (d.secret_access_key == "")
  pub session_token : (c.session_token == "") ≡ (d.session_token == "")

masked_if-same : (name s t : String) → (s == "") ≡ (t == "") → masked_if name s ≡ masked_if name t
masked_if-same name s t e =
    ap (λ b. if◌then◌else◌ {A = List (String × String)} b [] ((name, "*****") ∷ [])) e

log_fields-same :
    (name : String) (c d : AwsConfig)
    → IsSameUpToSecrets c d
    → log_fields name c ≡ log_fields name d
unfolding log_fields
log_fields-same name c d same i =
    (name, same.resource i)
    ∷ ("region", same.region i)
    ∷ (masked_if-same "awsAccessKeyId" c.access_key_id d.access_key_id same.access_key_id i
        ++ (masked_if-same "awsSecretAccessKey" c.secret_access_key d.secret_access_key
              same.secret_access_key i
            ++ masked_if-same "awsSessionToken" c.session_token d.session_token same.session_token
                i))

-- Two providers of the same kind, whose configurations differ only in their secrets.
pub data SameProvider : Provider → Provider → Type 0 where
  same_lambda :
      {c d : AwsConfig} → IsSameUpToSecrets c d → SameProvider (aws_lambda c) (aws_lambda d)
  same_kinesis :
      {c d : AwsConfig} → IsSameUpToSecrets c d → SameProvider (aws_kinesis c) (aws_kinesis d)
  same_sqs : {c d : AwsConfig} → IsSameUpToSecrets c d → SameProvider (aws_sqs c) (aws_sqs d)
  same_firehose :
      {c d : AwsConfig} → IsSameUpToSecrets c d → SameProvider (aws_firehose c) (aws_firehose d)
  same_http : (url : String) → SameProvider (http url) (http url)

log_provider-same : {p q : Provider} → SameProvider p q → log_provider p ≡ log_provider q
unfolding log_provider
log_provider-same (same_lambda s) = log_fields-same "arn" _ _ s
log_provider-same (same_kinesis s) = log_fields-same "streamName" _ _ s
log_provider-same (same_sqs s) = log_fields-same "queueUrl" _ _ s
log_provider-same (same_firehose s) = log_fields-same "deliveryStreamName" _ _ s
log_provider-same (same_http url) = refl

-- The log of a function tells nothing of the credentials of its provider but which of them are given: with two
-- providers of a kind whose configurations differ only in what the given credentials are, the function is logged alike.
pub log_function-same :
    (fn : LoadedFunction Provider) (other : Provider)
    → SameProvider fn.provider other
    → log_function fn ≡ log_function (record fn { provider = other })
unfolding log_function
log_function-same fn other same =
    ap
      (λ fields.
        (("space", fn.space) ∷ ("functionId", fn.id) ∷ ("type", fn.provider_type) ∷ [], fields))
      (log_provider-same same)

-- ===== src/Providers/Loading.antt =====
-- function/function.go and function/provider.go: the decoding of a function with its provider. `P` stands for
-- providers.
use event_gateway.Common.{
  String, ◌≡◌, ◌≢◌, refl, ◌↔◌, ◌⊎◌, inl, inr, Bool, true, false, Option, none, some, ◌==◌,
  if◌then◌else◌, Dict, string_key, at_key, set_key, ◌<+>◌,
}
use event_gateway.Resource.{Metadata}

-- functionJSON: the configuration of the provider may be missing.
pub record RawFunction : Type 0 where
  pub space : String
  pub id : String
  pub provider_type : String
  pub provider_config : Option String
  pub metadata : Metadata

pub record LoadedFunction (P : Type 0) : Type 0 where
  pub space : String
  pub id : String
  pub provider_type : String
  pub metadata : Metadata
  pub provider : P

pub data Loaded (P : Type 0) : Type 0 where
  loaded : LoadedFunction P → Loaded P
  refused : String → Loaded P
  load_panicked : Loaded P

-- ProviderLoader
abbrev pub Loader : Type 0 → Type 0
Loader P = String → String ⊎ P

-- RegisterProvider
unfoldable pub register_provider :
    {P : Type 0} → String → Loader P → Dict String (Loader P) → Dict String (Loader P)
register_provider provider_type loader providers = set_key providers provider_type loader

module _ {P : Type 0} where
  abbrev pub load_result : RawFunction → String ⊎ P → Loaded P
  load_result raw (inl m) = refused m
  load_result raw (inr provider) = loaded (record {
    space = raw.space;
    id = raw.id;
    provider_type = raw.provider_type;
    metadata = raw.metadata;
    provider = provider;
  })

  -- `*rawFunction.ProviderConfig`: a nil pointer is a panic.
  abbrev pub load_config : RawFunction → Loader P → Option String → Loaded P
  load_config raw loader none = load_panicked
  load_config raw loader (some config) = load_result raw (loader config)

  abbrev pub load_with : RawFunction → Option (Loader P) → Loaded P
  load_with raw none = refused ("provider " <+> raw.provider_type <+> " not supported")
  load_with raw (some loader) = load_config raw loader raw.provider_config

  abbrev pub load_raw : Dict String (Loader P) → String ⊎ RawFunction → Loaded P
  load_raw providers (inl m) = refused m
  load_raw providers (inr raw) =
      if raw.provider_type == ""
      then refused "provider configuration not set"
      else load_with raw (at_key providers raw.provider_type)

  -- Function.UnmarshalJSON
  unfoldable pub unmarshal_function :
      (String → String ⊎ RawFunction) → Dict String (Loader P) → String → Loaded P
  unmarshal_function decode providers text = load_raw providers (decode text)

  load_result-loads : (raw : RawFunction) (r : String ⊎ P) → load_result raw r ≢ load_panicked
  load_result-loads raw (inl m) e = cc
  load_result-loads raw (inr provider) e = cc

  load_config-panicked :
      (raw : RawFunction) (loader : Loader P) (config : Option String)
      → (load_config raw loader config ≡ load_panicked) ↔ (config ≡ none)
  load_config-panicked raw loader none = (λ e. refl, λ e. refl)
  load_config-panicked raw loader (some config) =
      (λ e. absurd (load_result-loads raw (loader config) e), λ e. absurd (cc))

  -- A JSON of a function that has a registered provider type, and no configuration for it.
  abbrev pub IsUnconfigured : Dict String (Loader P) → String ⊎ RawFunction → Type 0
  IsUnconfigured providers r =
      (raw : RawFunction) × (r ≡ inr raw)
      × ((raw.provider_type == "") ≡ false)
      × (loader : Loader P) × (at_key providers raw.provider_type ≡ some loader)
      × (raw.provider_config ≡ none)

  panicked_if :
      (b : Bool) (m : String) (raw : RawFunction) (found : Option (Loader P))
      → (if b then refused m else load_with raw found) ≡ load_panicked
      → (b ≡ false) × (loader : Loader P) × (found ≡ some loader) × (raw.provider_config ≡ none)
  panicked_if true m raw found e = absurd (cc)
  panicked_if false m raw none e = absurd (cc)
  panicked_if false m raw (some loader) e =
      (refl, loader, refl, (load_config-panicked raw loader raw.provider_config).0 e)

  load_raw-panicked :
      (providers : Dict String (Loader P)) (r : String ⊎ RawFunction)
      → load_raw providers r ≡ load_panicked
      → IsUnconfigured providers r
  load_raw-panicked providers (inl m) e = absurd (cc)
  load_raw-panicked providers (inr raw) e =
      let (typed, loader, registered, missing) =
        panicked_if (raw.provider_type == "") "provider configuration not set" raw
          (at_key providers raw.provider_type) e in
      (raw, refl, typed, loader, registered, missing)

  -- The decoding of a function panics exactly if its JSON has a provider type that is registered, and no
  -- configuration of the provider.
  pub unmarshal_function-panicked :
      (decode : String → String ⊎ RawFunction) (providers : Dict String (Loader P)) (text : String)
      → (unmarshal_function decode providers text ≡ load_panicked)
        ↔ IsUnconfigured providers (decode text)
  unfolding unmarshal_function
  unmarshal_function-panicked decode providers text = (
    λ e. load_raw-panicked providers (decode text) e,
    λ (raw, decodes, typed, loader, registered, missing).
        rw (decodes, typed, registered, missing) refl,
  )

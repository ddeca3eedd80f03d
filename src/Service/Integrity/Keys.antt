-- ===== src/Service/Integrity/Keys.antt =====
-- The keys of the resources: spaces have no slash, so that a key tells its space and its ID.
use event_gateway.Common.{
  String, ◌≡◌, ◌≢◌, sym, ◌∙◌, true, is_word-NoSlash, NoSlash, ◌<+>◌, key-injective, has_prefix,
  has_prefix_self, append-ne-nil, slash-append,
}
use text.Mathlib.TextLemmas.{append_assoc, cons-ne-nil}
use event_gateway.Service.Defs.{resource_key, space_path}
use event_gateway.Service.Lookup.{subscription_path}
use event_gateway.Service.Validation.{space_validator}

pub space_validator-NoSlash : (s : String) → space_validator s ≡ true → NoSlash s
unfolding space_validator
space_validator-NoSlash s e = is_word-NoSlash s e

pub subscription_path-resource_key :
    (space id : String) → subscription_path space id ≡ resource_key space id
unfolding subscription_path resource_key space_path
subscription_path-resource_key space id = append_assoc space "/" id

pub resource_key-injective :
    (s t x y : String)
    → NoSlash s
    → NoSlash t
    → resource_key s x ≡ resource_key t y
    → (s ≡ t) × (x ≡ y)
unfolding resource_key
resource_key-injective s t x y hs ht e = key-injective s t x y hs ht e

pub resource_key-below :
    (space id : String) → has_prefix (resource_key space id) (space_path space) ≡ true
unfolding resource_key space_path
resource_key-below space id =
    rw (sym (append_assoc space "/" id)) (has_prefix_self (space <+> "/") id)

pub resource_key-ne-nil : (space id : String) → resource_key space id ≢ ""
unfolding resource_key
resource_key-ne-nil space id =
    append-ne-nil space ("/" <+> id) (λ e. cons-ne-nil _ id (sym (slash-append id) ∙ e))

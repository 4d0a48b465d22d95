-- ===== src/Core/RequestHash.antt =====
-- The canonical form that app/core/request_hash.py hashes. JSON, UUID texts and SHA-256 belong to
-- Python: they are the fields of `Digest`.
use cat_game_backend.Base.{ℕ, String, Bool, List, [], ◌∷◌, str_eq, ℤ, if◌then◌else◌, any}

-- A Python value of a request payload; `other` is any value that is returned as it stands.
mutual
  pub data Value : Type 0 where
    uuid : ℕ → Value
    str : String → Value
    int : ℤ → Value
    other : ℕ → Value
    seq : Values → Value
    mapping : Fields → Value

  pub data Values : Type 0 where
    nil : Values
    cons : Value → Values → Values

  pub data Fields : Type 0 where
    end : Fields
    field : String → Value → Fields → Fields

-- `str` of a UUID, and the hexadecimal digest of the canonical JSON text of a mapping.
pub record Digest : Type 0 where
  pub uuid_text : ℕ → String
  pub digest : Fields → String

-- `_EXCLUDED_FIELDS`
abbrev pub excluded_fields : List String
excluded_fields = "request_id" ∷ "price" ∷ "balance" ∷ "mileage" ∷ "balance_cost" ∷ []

pub is_excluded : String → Bool
is_excluded key = any (str_eq key) excluded_fields

module _ (d : Digest) where
  mutual
    pub normalize_value : Value → Value
    normalize_value (uuid u) = str (d.uuid_text u)
    normalize_value (mapping fs) = mapping (normalize_fields fs)
    normalize_value (seq vs) = seq (normalize_items vs)
    normalize_value (str s) = str s
    normalize_value (int n) = int n
    normalize_value (other n) = other n

    pub normalize_items : Values → Values
    normalize_items nil = nil
    normalize_items (cons v vs) = cons (normalize_value v) (normalize_items vs)

    pub normalize_fields : Fields → Fields
    normalize_fields end = end
    normalize_fields (field k v fs) = field k (normalize_value v) (normalize_fields fs)

  -- The comprehension over `payload.items()`.
  pub canonical_fields : Fields → Fields
  canonical_fields end = end
  canonical_fields (field k v fs) =
      if is_excluded k
      then canonical_fields fs
      else field k (normalize_value v) (canonical_fields fs)

  -- `canonical_payload[key] = value`
  pub set_field : String → Value → Fields → Fields
  set_field k v end = field k v end
  set_field k v (field j w fs) = if str_eq j k then field j v fs else field j w (set_field k v fs)

  pub build_request_hash : String → Fields → String
  build_request_hash operation_type payload =
      d.digest (set_field "operation_type" (str operation_type) (canonical_fields payload))

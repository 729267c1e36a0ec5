-- ===== src/Abi/Borsh.antt =====
-- core/abi/decoder.py: the layouts of Anchor events and calls, and the values that are read with them. The
-- parser of construct, the hash of a discriminator and base58 are parameters.
pub mod Laws
pub mod Safe
use Prim.Native.String.{◌++◌}
use chain_indexer.Base.{
  ℕ, zero, suc, ◌+◌, ◌^◌, ◌≤◌, String, Bool, true, false, not, ◌&&◌, ◌||◌, Option, none, some, List,
  [], ◌∷◌, any, length, ltb, leb, ◌==◌, nat_comparable, string_comparable, contains, if◌then◌else◌,
}
use chain_indexer.Base.Int.{ℤ, pos, negsuc}
use chain_indexer.Notify.Payload.{hex_of}
use chain_indexer.Parse.Bytes.{take}
use chain_indexer.Parse.Hex.{decimal_ℤ}
use chain_indexer.Parse.Value.{
  Value, null, bool, int, str, bytes, list, tuple, dict, Values, nil, cons, Fields, end, field,
  lookup_field, eq, is_hashable,
}
use chain_indexer.Abi.Signature.{text_of}

-- The constructs that `_resolve_type` builds.
mutual
  pub data Layout : Type 0 where
    scalar : String → Layout
    vec option : Layout → Layout
    array : Value → Layout → Layout
    struct : Members → Layout

  pub data Members : Type 0 where
    last : Members
    member : String → Layout → Members → Members

-- A construct, `None`, or an exception.
pub data Resolved {ℓ} (A : Type ℓ) : Type ℓ where
  resolved : A → Resolved A
  unsupported : Resolved A
  raised : Resolved A

abbrev pub map_resolved {ℓ κ} : {A : Type ℓ} {B : Type κ} → (A → B) → Resolved A → Resolved B
map_resolved f (resolved a) = resolved (f a)
map_resolved f unsupported = unsupported
map_resolved f raised = raised

-- `_ANCHOR_SCALAR_MAP`
abbrev pub scalar_names : List String
scalar_names =
    "bool" ∷ "u8" ∷ "u16" ∷ "u32" ∷ "u64" ∷ "u128" ∷ "i8" ∷ "i16" ∷ "i32" ∷ "i64" ∷ "i128" ∷ "bytes"
    ∷ "string" ∷ "pubkey" ∷ "publicKey" ∷ []

-- `e.get(k, default)`; `none` is the AttributeError of a value that is no dict.
unfoldable pub get_or : String → Value → Value → Option Value
unfolding lookup_field
get_or k default (dict fs) = elim (lookup_field k fs) [ none ↦ some default | some v ↦ some v ]
get_or k default v = none

-- The value of a key of a dict that has it.
-- `f["name"] / resolved` in front of the other members.
abbrev pub named : Option String → Resolved Layout → Resolved Members → Resolved Members
named name unsupported ms = unsupported
named name raised ms = raised
named none (resolved l) ms = raised
named (some name) (resolved l) ms = map_resolved (member name l) ms

-- The members of a struct, whose types are resolved by `resolve`.
unfoldable pub resolve_members : (Value → Resolved Layout) → Values → Resolved Members
unfolding get_or text_of
resolve_members resolve nil = resolved last
resolve_members resolve (cons f fs) = elim (get_or "type" null f) [
  | none ↦ raised
  | some t ↦ named (text_of "name" f) (resolve t) (resolve_members resolve fs)
]

abbrev pub members_of : (Value → Resolved Layout) → Option Value → Resolved Members
members_of resolve (some (list fs)) = resolve_members resolve fs
members_of resolve fs = raised

-- A type of the IDL, `kind_obj`, if it is a struct.
unfoldable pub resolve_struct : (Value → Resolved Layout) → Value → Resolved Layout
unfolding get_or eq resolve_members
resolve_struct resolve kind_obj = elim (get_or "kind" null kind_obj) [
  | none ↦ raised
  | some kind ↦
      if eq kind (str "struct")
      then map_resolved struct (members_of resolve (get_or "fields" (list nil) kind_obj))
      else unsupported
]

-- The first type of the section with the name.
unfoldable pub resolve_defined : (Value → Resolved Layout) → Value → Values → Resolved Layout
unfolding get_or eq resolve_struct
resolve_defined resolve name nil = unsupported
resolve_defined resolve name (cons t ts) = elim (get_or "name" null t) [
  | none ↦ raised
  | some n ↦ elim (eq n name) [
    | true ↦ elim (get_or "type" (dict end) t) [ none ↦ raised | some k ↦ resolve_struct resolve k ]
    | false ↦ resolve_defined resolve name ts
  ]
]

abbrev pub array_of : (Value → Resolved Layout) → Value → Resolved Layout
array_of resolve (list (cons t (cons n nil))) = map_resolved (array n) (resolve t)
array_of resolve v = unsupported

-- The keys of a type that is no text, in the order in which the source tests them.
abbrev pub resolve_keys :
    (Value → Resolved Layout) → (Value → Resolved Layout) → Fields → Resolved Layout
resolve_keys resolve define spec = elim (lookup_field "defined" spec) [
  | some name ↦ define name
  | none ↦ elim (lookup_field "vec" spec) [
    | some t ↦ map_resolved vec (resolve t)
    | none ↦ elim (lookup_field "option" spec) [
      | some t ↦ map_resolved option (resolve t)
      | none ↦ elim (lookup_field "array" spec) [
        | some arr ↦ array_of resolve arr
        | none ↦ unsupported
      ]
    ]
  ]
]

-- The fuel is what is left of `_MAX_TYPE_DEPTH`. A name that cannot be hashed raises in `name in seen`.
unfoldable pub resolve_type : ℕ → Values → List Value → Value → Resolved Layout
unfolding lookup_field eq is_hashable resolve_defined
resolve_type zero ts seen spec = unsupported
resolve_type (suc f) ts seen (str s) =
    if contains s scalar_names then resolved (scalar s) else unsupported
resolve_type (suc f) ts seen (dict spec) =
    resolve_keys (resolve_type f ts seen)
      (λ name.
        if not (is_hashable name)
        then raised
        else if any (eq name) seen
        then unsupported
        else resolve_defined (resolve_type f ts (name ∷ seen)) name ts)
      spec
resolve_type (suc f) ts seen v = unsupported

abbrev pub max_type_depth : ℕ
max_type_depth = 8

-- `types_section or []`
abbrev pub section_types : Value → Option Values
section_types null = some nil
section_types (list ts) = some ts
section_types v = none

unfoldable pub build_anchor_event_struct : Option Value → Value → Resolved Layout
unfolding resolve_type resolve_members
build_anchor_event_struct fields types_section = elim (section_types types_section) [
  | none ↦ raised
  | some ts ↦ map_resolved struct (members_of (resolve_type max_type_depth ts []) fields)
]

module _ (sha256 : String → List ℕ) where
  unfoldable pub anchor_event_discriminator : String → List ℕ
  unfolding take
  anchor_event_discriminator event_name = take 8 (sha256 ("event:" ++ event_name))

  unfoldable pub anchor_call_discriminator : String → List ℕ
  unfolding take
  anchor_call_discriminator fn_name = take 8 (sha256 ("global:" ++ fn_name))

-- `abs(v) > 2**53`
abbrev pub is_wide : ℤ → Bool
is_wide (pos n) = ltb (2 ^ 53) n
is_wide (negsuc n) = ltb (2 ^ 53) (suc n)

module _ (b58encode : List ℕ → String) where
  -- The dict of a container has no `_io`.
  unfoldable mutual
    pub normalize_borsh_value : Value → Value
    normalize_borsh_value (bytes bs) = if length bs == 32 then str (b58encode bs) else bytes bs
    normalize_borsh_value (int n) = if is_wide n then str (decimal_ℤ n) else int n
    normalize_borsh_value (list vs) = list (normalize_borsh_values vs)
    normalize_borsh_value (dict fs) = dict (normalize_borsh_fields fs)
    normalize_borsh_value v = v

    pub normalize_borsh_values : Values → Values
    normalize_borsh_values nil = nil
    normalize_borsh_values (cons v vs) = cons (normalize_borsh_value v) (normalize_borsh_values vs)

    pub normalize_borsh_fields : Fields → Fields
    normalize_borsh_fields end = end
    normalize_borsh_fields (field k v fs) =
        let rest = normalize_borsh_fields fs in
        if k == "_io" then rest else field k (normalize_borsh_value v) rest

  -- `parse` gives the fields of a container; `none` is its exception, raised again as DecodeFailed.
  unfoldable pub decode_anchor_borsh :
      (Layout → List ℕ → Option Fields) → Layout → List ℕ → Option Fields
  unfolding normalize_borsh_fields
  decode_anchor_borsh parse layout body_bytes = elim (parse layout body_bytes) [
    | none ↦ none
    | some fs ↦ some (normalize_borsh_fields fs)
  ]

-- ===== src/Abi/Borsh/Laws.antt =====
-- core/abi/decoder.py: how deep the layouts are.
use Prim.Native.Nat.{max}
use chain_indexer.Base.{
  ℕ, zero, suc, ◌≤◌, ◌≡◌, refl, String, Bool, true, false, not, Option, none, some, List, [], ◌∷◌,
  any, arith, contains, nat_comparable, string_comparable, if◌then◌else◌,
}
use chain_indexer.Parse.Value.{
  Value, null, str, list, dict, Values, nil, cons, Fields, end, lookup_field, eq, is_hashable,
}
use chain_indexer.Abi.Signature.{text_of}
use chain_indexer.Abi.Borsh.{
  Layout, scalar, vec, option, array, struct, Members, last, member, Resolved, resolved,
  unsupported, raised, map_resolved, get_or, named, resolve_members, members_of, resolve_struct,
  resolve_defined, array_of, resolve_keys, resolve_type, max_type_depth, section_types,
  scalar_names, build_anchor_event_struct,
}

unfoldable mutual
  pub depth : Layout → ℕ
  depth (scalar s) = 1
  depth (vec l) = suc (depth l)
  depth (option l) = suc (depth l)
  depth (array n l) = suc (depth l)
  depth (struct ms) = suc (members_depth ms)

  pub members_depth : Members → ℕ
  members_depth last = 0
  members_depth (member k l ms) = max (depth l) (members_depth ms)

-- What is resolved measures `f` at most.
abbrev pub AtMost {ℓ} : {A : Type ℓ} → (A → ℕ) → ℕ → Resolved A → Type 0
AtMost measure f (resolved a) = measure a ≤ f
AtMost measure f r = Unit

abbrev Resolves : ℕ → (Value → Resolved Layout) → Type 0
Resolves f resolve = (v : Value) → AtMost depth f (resolve v)

map_resolved-AtMost {ℓ κ} :
    {A : Type ℓ} {B : Type κ} (m : A → ℕ) (n : B → ℕ) (g : A → B) (f k : ℕ)
    → ((a : A) → m a ≤ f → n (g a) ≤ k)
    → (r : Resolved A) → AtMost m f r
    → AtMost n k (map_resolved g r)
map_resolved-AtMost m n g f k h (resolved a) b = h a b
map_resolved-AtMost m n g f k h unsupported b = tt
map_resolved-AtMost m n g f k h raised b = tt

module _ (f : ℕ) (resolve : Value → Resolved Layout) (bound : Resolves f resolve) where
  named-AtMost :
      (name : Option String) (l : Resolved Layout) (ms : Resolved Members)
      → AtMost depth f l
      → AtMost members_depth f ms
      → AtMost members_depth f (named name l ms)
  unfolding members_depth
  named-AtMost name unsupported ms h g = tt
  named-AtMost name raised ms h g = tt
  named-AtMost none (resolved l) ms h g = tt
  named-AtMost (some k) (resolved l) (resolved ms) h g = ground arith
  named-AtMost (some k) (resolved l) unsupported h g = tt
  named-AtMost (some k) (resolved l) raised h g = tt

  resolve_members-AtMost : (fs : Values) → AtMost members_depth f (resolve_members resolve fs)
  unfolding resolve_members members_depth
  resolve_members-AtMost nil = omega arith
  resolve_members-AtMost (cons x fs) =
      typed (get_or "type" null x) (resolve_members resolve fs) (resolve_members-AtMost fs)
    where
      typed :
          (o : Option Value) (ms : Resolved Members)
          → AtMost members_depth f ms
          → AtMost members_depth f
              (elim o [ none ↦ raised | some t ↦ named (text_of "name" x) (resolve t) ms ])
      typed none ms h = tt
      typed (some t) ms h = named-AtMost (text_of "name" x) (resolve t) ms (bound t) h

  members_of-AtMost : (o : Option Value) → AtMost members_depth f (members_of resolve o)
  members_of-AtMost (some (list fs)) = resolve_members-AtMost fs
  members_of-AtMost o = tt

  struct-AtMost :
      (o : Option Value) → AtMost depth (suc f) (map_resolved struct (members_of resolve o))
  struct-AtMost o =
      map_resolved-AtMost members_depth depth struct f (suc f)
        (λ ms h. unfold depth in (omega arith)) (members_of resolve o) (members_of-AtMost o)

  resolve_struct-AtMost :
      (kind_obj : Value) → AtMost depth (suc f) (resolve_struct resolve kind_obj)
  unfolding resolve_struct
  resolve_struct-AtMost kind_obj = kinded (get_or "kind" null kind_obj)
    where
      tested :
          (b : Bool)
          → AtMost depth (suc f) (
              if b
              then map_resolved struct (members_of resolve (get_or "fields" (list nil) kind_obj))
              else unsupported)
      tested true = struct-AtMost (get_or "fields" (list nil) kind_obj)
      tested false = tt

      kinded :
          (o : Option Value)
          → AtMost depth (suc f) (elim o [
            | none ↦ raised
            | some kind ↦
                if eq kind (str "struct")
                then map_resolved struct (members_of resolve (get_or "fields" (list nil) kind_obj))
                else unsupported
          ])
      kinded none = tt
      kinded (some kind) = tested (eq kind (str "struct"))

  resolve_defined-AtMost :
      (name : Value) (ts : Values) → AtMost depth (suc f) (resolve_defined resolve name ts)
  unfolding resolve_defined
  resolve_defined-AtMost name nil = tt
  resolve_defined-AtMost name (cons t ts) =
      found (get_or "name" null t) (resolve_defined resolve name ts)
        (resolve_defined-AtMost name ts)
    where
      body :
          (o : Option Value)
          → AtMost depth (suc f) (elim o [ none ↦ raised | some k ↦ resolve_struct resolve k ])
      body none = tt
      body (some k) = resolve_struct-AtMost k

      same :
          (b : Bool) (r : Resolved Layout)
          → AtMost depth (suc f) r
          → AtMost depth (suc f) (elim b [
            | true ↦ elim (get_or "type" (dict end) t) [
              | none ↦ raised
              | some k ↦ resolve_struct resolve k
            ]
            | false ↦ r
          ])
      same true r h = body (get_or "type" (dict end) t)
      same false r h = h

      found :
          (o : Option Value) (r : Resolved Layout)
          → AtMost depth (suc f) r
          → AtMost depth (suc f) (elim o [
            | none ↦ raised
            | some n ↦ elim (eq n name) [
              | true ↦ elim (get_or "type" (dict end) t) [
                | none ↦ raised
                | some k ↦ resolve_struct resolve k
              ]
              | false ↦ r
            ]
          ])
      found none r h = tt
      found (some n) r h = same (eq n name) r h

  one_more :
      (g : Layout → Layout)
      → ((l : Layout) → depth (g l) ≡ suc (depth l))
      → (t : Value) → AtMost depth (suc f) (map_resolved g (resolve t))
  one_more g h t =
      map_resolved-AtMost depth depth g f (suc f) (λ l k. omega (arith, h l)) (resolve t) (bound t)

  array_of-AtMost : (arr : Value) → AtMost depth (suc f) (array_of resolve arr)
  array_of-AtMost (list (cons t (cons n nil))) = one_more (array n) (λ l. unfold depth in refl) t
  array_of-AtMost arr = tt

  resolve_keys-AtMost :
      (define : Value → Resolved Layout) (spec : Fields)
      → Resolves (suc f) define
      → AtMost depth (suc f) (resolve_keys resolve define spec)
  resolve_keys-AtMost define spec h =
      defined_key (lookup_field "defined" spec) (lookup_field "vec" spec)
        (lookup_field "option" spec) (lookup_field "array" spec)
    where
      defined_key :
          (d v o a : Option Value)
          → AtMost depth (suc f) (elim d [
            | some name ↦ define name
            | none ↦ elim v [
              | some t ↦ map_resolved vec (resolve t)
              | none ↦ elim o [
                | some t ↦ map_resolved option (resolve t)
                | none ↦ elim a [ some arr ↦ array_of resolve arr | none ↦ unsupported ]
              ]
            ]
          ])
      defined_key (some name) v o a = h name
      defined_key none (some t) o a = one_more vec (λ l. unfold depth in refl) t
      defined_key none none (some t) a = one_more option (λ l. unfold depth in refl) t
      defined_key none none none (some arr) = array_of-AtMost arr
      defined_key none none none none = tt

scalar-AtMost :
    (f : ℕ) (s : String) (b : Bool)
    → AtMost depth (suc f) (if b then resolved (scalar s) else unsupported)
unfolding depth
scalar-AtMost f s true = omega arith
scalar-AtMost f s false = tt

-- The types that `resolve` finds under a name, unless it is one of those that are being resolved.
define-AtMost :
    (f : ℕ) (a b : Bool) (r : Resolved Layout)
    → AtMost depth f r
    → AtMost depth f (if a then raised else if b then unsupported else r)
define-AtMost f true b r h = tt
define-AtMost f false true r h = tt
define-AtMost f false false r h = h

-- A layout that is resolved with a bound on the depth is not deeper than the bound, even if the types of
-- the IDL refer to one another.
pub resolve_type-AtMost :
    (f : ℕ) (ts : Values) (seen : List Value) (spec : Value)
    → AtMost depth f (resolve_type f ts seen spec)
unfolding resolve_type
resolve_type-AtMost zero ts seen spec = tt
resolve_type-AtMost (suc f) ts seen (str s) = scalar-AtMost f s (contains s scalar_names)
resolve_type-AtMost (suc f) ts seen (dict spec) =
    resolve_keys-AtMost f (resolve_type f ts seen) (λ v. resolve_type-AtMost f ts seen v)
      (λ name.
        if not (is_hashable name)
        then raised
        else if any (eq name) seen
        then unsupported
        else resolve_defined (resolve_type f ts (name ∷ seen)) name ts)
      spec
      (λ name.
        define-AtMost (suc f) (not (is_hashable name)) (any (eq name) seen)
          (resolve_defined (resolve_type f ts (name ∷ seen)) name ts)
          (resolve_defined-AtMost f (resolve_type f ts (name ∷ seen))
            (λ v. resolve_type-AtMost f ts (name ∷ seen) v) name ts))
resolve_type-AtMost (suc f) ts seen v = tt

-- The layout of an event or of a call has nine levels at most: its own, and the eight of a field's type.
pub build_anchor_event_struct-AtMost :
    (fields : Option Value) (types_section : Value)
    → AtMost depth 9 (build_anchor_event_struct fields types_section)
unfolding build_anchor_event_struct
build_anchor_event_struct-AtMost fields types_section = sectioned (section_types types_section)
  where
    sectioned :
        (o : Option Values)
        → AtMost depth 9 (elim o [
          | none ↦ raised
          | some ts ↦ map_resolved struct (members_of (resolve_type max_type_depth ts []) fields)
        ])
    sectioned none = tt
    sectioned (some ts) =
        struct-AtMost 8 (resolve_type 8 ts []) (λ v. resolve_type-AtMost 8 ts [] v) fields

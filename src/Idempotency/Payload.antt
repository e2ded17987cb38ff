-- ===== src/Idempotency/Payload.antt =====
-- JSON payloads, the scan for a tenant's identity (platform/tenant-context/src/command.ts) and the depth limit
-- of the canonical form (platform/idempotency/src/canonical.ts). A value is a finite tree, so no object is met
-- twice. Of a number it matters whether it is an integer and whether it is finite.
use sintius.Prelude.Int.{ℤ}
use sintius.Prelude.{
  ℕ, zero, suc, ◌+◌, Bool, true, false, ◌&&◌, ◌||◌, ltb, leb, ◌==◌, if◌then◌else◌, [], ◌∷◌, Text,
  Option, none, some, text, text_eq, ◌≡◌, arith,
}

pub data Number : Type 0 where
  integer : ℤ → Number
  fraction : Number
  not_finite : Number

-- A value of type `unknown`. A `class_object` has a prototype of its own; a function, a symbol or a
-- `bigint` is `unsupported`.
mutual
  pub data Json : Type 0 where
    null : Json
    boolean : Bool → Json
    number : Number → Json
    string : Text → Json
    array : Items → Json
    object : Members → Json
    class_object : Members → Json
    undefined : Json
    unsupported : Json

  pub data Items : Type 0 where
    no_item : Items
    item : Json → Items → Items

  pub data Members : Type 0 where
    no_member : Members
    member : Text → Json → Members → Members

-- `toLowerCase` on a code unit; no other character's lower case is a letter of "tenantid".
unfoldable pub lower : ℕ → ℕ
lower c = if leb 65 c && leb c 90 then c + 32 else c

-- `normalizeKey`
unfoldable pub normalize_key : Text → Text
normalize_key [] = []
normalize_key (c ∷ s) =
    let rest = normalize_key s in if c == 45 || c == 95 then rest else lower c ∷ rest

abbrev pub is_tenant_key : Text → Bool
is_tenant_key key = text_eq (normalize_key key) (text "tenantid")

abbrev pub max_scan_depth : ℕ
max_scan_depth = 16

unfoldable mutual
  -- `visit`
  pub visit : ℕ → Json → Bool
  visit depth null = false
  visit depth (boolean b) = false
  visit depth (number n) = false
  visit depth (string s) = false
  visit depth (array items) = ltb max_scan_depth depth || visit_items depth items
  visit depth (object members) = ltb max_scan_depth depth || visit_members depth members
  visit depth (class_object members) = ltb max_scan_depth depth || visit_members depth members
  visit depth undefined = false
  visit depth unsupported = false

  pub visit_items : ℕ → Items → Bool
  visit_items depth no_item = false
  visit_items depth (item v items) = visit (suc depth) v || visit_items depth items

  pub visit_members : ℕ → Members → Bool
  visit_members depth no_member = false
  visit_members depth (member key v members) =
      is_tenant_key key || visit (suc depth) v || visit_members depth members

-- `containsTenantIdentity`
unfoldable pub contains_tenant_identity : Json → Bool
contains_tenant_identity input = visit 0 input

abbrev pub is_finite : Number → Bool
is_finite not_finite = false
is_finite n = true

unfoldable mutual
  -- `canonicalJson` accepts the value, with `fuel` levels left under it: an undefined item stands
  -- for `null`, and an undefined property is dropped.
  pub within : ℕ → Json → Bool
  within fuel null = true
  within fuel (boolean b) = true
  within fuel (number n) = is_finite n
  within fuel (string s) = true
  within fuel (array items) = within_items fuel items
  within fuel (object members) = within_members fuel members
  within fuel (class_object members) = false
  within fuel undefined = false
  within fuel unsupported = false

  pub within_items : ℕ → Items → Bool
  within_items fuel no_item = true
  within_items zero (item v items) = false
  within_items (suc fuel) (item undefined items) = within_items (suc fuel) items
  within_items (suc fuel) (item v items) = within fuel v && within_items (suc fuel) items

  pub within_members : ℕ → Members → Bool
  within_members fuel no_member = true
  within_members fuel (member key undefined members) = within_members fuel members
  within_members zero (member key v members) = false
  within_members (suc fuel) (member key v members) =
      within fuel v && within_members (suc fuel) members

-- `Object.hasOwn(value, field)` and `value[field]`
unfoldable pub own : Text → Members → Option Json
own field no_member = none
own field (member key v members) = if text_eq key field then some v else own field members

mutual
  -- A key of some object inside a value, at any depth.
  pub data KeyIn : Text → Json → Type 0 where
    in_array : (k : Text) (items : Items) → KeyInItems k items → KeyIn k (array items)
    in_object : (k : Text) (members : Members) → KeyInMembers k members → KeyIn k (object members)
    in_class_object :
        (k : Text) (members : Members) → KeyInMembers k members → KeyIn k (class_object members)

  pub data KeyInItems : Text → Items → Type 0 where
    first_item : (k : Text) (v : Json) (items : Items) → KeyIn k v → KeyInItems k (item v items)
    later_item :
        (k : Text) (v : Json) (items : Items) → KeyInItems k items → KeyInItems k (item v items)

  pub data KeyInMembers : Text → Members → Type 0 where
    this_key : (k : Text) (v : Json) (members : Members) → KeyInMembers k (member k v members)
    under_key :
        (k j : Text) (v : Json) (members : Members)
        → KeyIn k v
        → KeyInMembers k (member j v members)
    later_member :
        (k j : Text) (v : Json) (members : Members)
        → KeyInMembers k members
        → KeyInMembers k (member j v members)

mutual
  unfolding visit visit_items visit_members

  key-visit :
      (k : Text) (depth : ℕ) (v : Json)
      → KeyIn k v
      → visit depth v ≡ false
      → is_tenant_key k ≡ false
  key-visit key depth v (in_array k items inside) h =
      key-visit_items k depth items inside (ground arith)
  key-visit key depth v (in_object k members inside) h =
      key-visit_members k depth members inside (ground arith)
  key-visit key depth v (in_class_object k members inside) h =
      key-visit_members k depth members inside (ground arith)

  key-visit_items :
      (k : Text) (depth : ℕ) (items : Items)
      → KeyInItems k items
      → visit_items depth items ≡ false
      → is_tenant_key k ≡ false
  key-visit_items key depth i (first_item k v items inside) h =
      key-visit k (suc depth) v inside (ground arith)
  key-visit_items key depth i (later_item k v items inside) h =
      key-visit_items k depth items inside (ground arith)

  key-visit_members :
      (k : Text) (depth : ℕ) (members : Members)
      → KeyInMembers k members
      → visit_members depth members ≡ false
      → is_tenant_key k ≡ false
  key-visit_members key depth m (this_key k v members) h = ground arith
  key-visit_members key depth m (under_key k j v members inside) h =
      key-visit k (suc depth) v inside (ground arith)
  key-visit_members key depth m (later_member k j v members inside) h =
      key-visit_members k depth members inside (ground arith)

-- A payload that the scan accepts has no tenant identity at any depth: no key of any object in it
-- reads "tenantid" without case, dashes and underscores.
pub contains_tenant_identity_sound :
    (key : Text) (input : Json)
    → contains_tenant_identity input ≡ false
    → KeyIn key input
    → is_tenant_key key ≡ false
unfolding contains_tenant_identity
contains_tenant_identity_sound key input h inside = key-visit key 0 input inside h

-- ===== src/NodeHttp/Headers.antt =====
-- node-http-transport/src/index.ts: which headers `filterHeadersForUndefined` keeps.
use grpc_web.Prelude.{
  ◌≡◌, refl, ap, ◌∙◌, sym, Bool, true, false, ◌&&◌, Option, none, some, List, [], ◌∷◌,
}
use grpc_web.Prelude.{
  if◌then◌else◌, text_eq, text_eq_sound, text_eq_refl, Text, Bool-cases, inl, inr, if-false,
}
use grpc_web.NodeHttp.{
  HeaderValue, Property, assign, keep_defined, filter_loop, filter_headers_for_undefined,
}
use mathlib.Core.Bool.{false≢true}

-- `object[key]`.
abbrev pub property_of {ℓ} : {A : Type ℓ} → Text → List (Text × A) → Option A
property_of key [] = none
property_of key ((k, v) ∷ object) = if text_eq k key then some v else property_of key object

abbrev pub or_else : Option HeaderValue → Option HeaderValue → Option HeaderValue
or_else none known = known
or_else (some v) known = some v

-- The last value that is defined, of an object's own properties of this name.
abbrev pub defined_or : Text → Property → Option HeaderValue → Option HeaderValue
defined_or key p known = if p.is_own && text_eq p.key key then or_else p.value known else known

abbrev pub last_defined : Text → List Property → Option HeaderValue → Option HeaderValue
last_defined key [] known = known
last_defined key (p ∷ properties) known = last_defined key properties (defined_or key p known)

if_same {ℓ} :
    {A : Type ℓ} (b : Bool) (x y z : A)
    → (if b then x else z) ≡ (if b then x else if b then y else z)
if_same true x y z = refl
if_same false x y z = refl

if_both {ℓ} : {A : Type ℓ} (b : Bool) (x : A) → (if b then x else x) ≡ x
if_both true x = refl
if_both false x = refl

-- A name that is equal to one of two different names is not the other.
absent :
    (k key name : Text) → text_eq k key ≡ false → text_eq k name ≡ true → text_eq key name ≡ false
absent k key name other here = elim (Bool-cases (text_eq key name)) [
  | inl same ↦
      let equal : k ≡ key = text_eq_sound k name here ∙ sym (text_eq_sound key name same) in
      absurd (false≢true (sym other ∙ ap (λ t. text_eq t key) equal ∙ text_eq_refl key))
  | inr away ↦ away
]

property_of-assign {ℓ} :
    {A : Type ℓ} (name key : Text) (value : A) (object : List (Text × A))
    → property_of name (assign key value object)
      ≡ (if text_eq key name then some value else property_of name object)
property_of-assign name key value [] = refl
property_of-assign name key value ((k, v) ∷ object) = elim (Bool-cases (text_eq k key)) [
  | inl same ↦
      rw (same, text_eq_sound k key same)
        (if_same (text_eq key name) (some value) (some v) (property_of name object))
  | inr other ↦ rw other (elim (Bool-cases (text_eq k name)) [
    | inl here ↦ rw here (sym (if-false (some value) (some v) (absent k key name other here)))
    | inr away ↦ rw away (property_of-assign name key value object)
  ])
]

-- A value of the filtered headers, by its name: the last defined one among those that were given.
filter_loop-property :
    (name : Text) (headers : List Property) (filtered : List (Text × HeaderValue))
    → property_of name (filter_loop headers filtered)
      ≡ last_defined name headers (property_of name filtered)
unfolding filter_loop
filter_loop-property name [] filtered = refl
filter_loop-property name (p ∷ headers) filtered =
    filter_loop-property name headers (keep_defined p.is_own p.key p.value filtered)
    ∙ ap (last_defined name headers) (kept p.is_own p.key p.value)
  where
    kept :
        (is_own : Bool) (key : Text) (value : Option HeaderValue)
        → property_of name (keep_defined is_own key value filtered) ≡ (
            if is_own && text_eq key name
            then or_else value (property_of name filtered)
            else property_of name filtered)
    kept false key value = unfold keep_defined in refl
    kept true key none =
        unfold keep_defined in (sym (if_both (text_eq key name) (property_of name filtered)))
    kept true key (some v) = unfold keep_defined in (property_of-assign name key v filtered)

-- Of the headers of a response, in the order of the loop over its keys, the object that is given to
-- `new Metadata` has for each name the value of the last own property of that name that is not
-- undefined, and no entry if there is none.
pub filter_headers_for_undefined-property :
    (name : Text) (headers : List Property)
    → property_of name (filter_headers_for_undefined headers) ≡ last_defined name headers none
unfolding filter_headers_for_undefined
filter_headers_for_undefined-property name headers = filter_loop-property name headers []

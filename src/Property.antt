-- ===== src/Property.antt =====
-- src/properties.c and src/properties.h: the tree of named values that get and set property
-- requests carry. This file has the data; the operations stand in the children.
pub mod Free
pub mod Copy
pub mod Access
pub mod Build
pub mod Faults
pub mod Whole
pub mod Freed
pub mod Lost
pub mod Packing
mod Examples
use libdsvdc.Base.{ℕ, zero, suc, Bool, false, Option, none, Bytes}

-- `ProtobufCBinaryData`: a length and a pointer.
pub record Binary : Type 0 where
  pub len : ℕ
  pub contents : Option Bytes

-- `Vdcapi__PropertyValue`. Numbers are bit patterns, a double its 64 bits; `v_string` is a
-- pointer.
pub record PropertyValue : Type 0 where
  pub has_v_bool : Bool
  pub v_bool : Bool
  pub has_v_uint64 : Bool
  pub v_uint64 : ℕ
  pub has_v_int64 : Bool
  pub v_int64 : ℕ
  pub has_v_double : Bool
  pub v_double : ℕ
  pub v_string : Option Bytes
  pub has_v_bytes : Bool
  pub v_bytes : Binary

-- `vdcapi__property_value__init`: every field of the schema is optional, and has no default.
abbrev pub init_value : PropertyValue
init_value = record {
  has_v_bool = false;
  v_bool = false;
  has_v_uint64 = false;
  v_uint64 = 0;
  has_v_int64 = false;
  v_int64 = 0;
  has_v_double = false;
  v_double = 0;
  v_string = none;
  has_v_bytes = false;
  v_bytes = record { len = 0; contents = none };
}

mutual
  -- `Vdcapi__PropertyElement`: name, value, n_elements, elements.
  pub data Element : Type 0 where
    element : Option Bytes → Option PropertyValue → ℕ → Elements → Element

  -- A pointer to an array of element pointers.
  pub data Elements : Type 0 where
    null : Elements
    vector : Slots → Elements

  -- The array's slots: a pointer to an element, NULL, or not yet written.
  pub data Slots : Type 0 where
    end : Slots
    entry : Element → Slots → Slots
    vacant : Slots → Slots
    unset : Slots → Slots

-- `struct dsvdc_property`. `dsvdc_property_new` leaves `message_id` indeterminate: `none`.
pub record Property : Type 0 where
  pub message_id : Option ℕ
  pub properties : Elements
  pub n_properties : ℕ

-- `n` slots that were not written.
abbrev pub unsets : ℕ → Slots
unsets zero = end
unsets (suc n) = unset (unsets n)

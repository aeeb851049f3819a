-- ===== src/Property/Examples.antt =====
-- The theorems on properties at a concrete tree: an element "a" with a text, and below it "b"
-- with a number.
use libdsvdc.Base.{zero, suc, ◌≡◌, refl, inl, inr, true, false, none, some, [], ◌∷◌}
use libdsvdc.Codes.{err_out_of_memory}
use libdsvdc.Memory.{Mem, Ends, ok, undefined}
use libdsvdc.Property.{
  PropertyValue, init_value, Element, element, null, vector, Slots, end, entry, Property,
}
use libdsvdc.Property.Access.{get_string, get_value_type, duplicate}
use libdsvdc.Property.Build.{store_bytes, add_bytes, add_string, add_property}
use libdsvdc.Property.Build.Added.{Added, leaf_of, add_bytes-Added}
use libdsvdc.Property.Build.Read.{AddedAs, add_string-get_string}
use libdsvdc.Property.Copy.{deep_copy, convert_query}
use libdsvdc.Property.Copy.Plenty.{Yields, deep_copy-Yields}
use libdsvdc.Property.Copy.Single.{leaf, node, deep_copy-undefined}
use libdsvdc.Property.Faults.{convert_query-refused, add_property-refused}
use libdsvdc.Property.Whole.{
  WholeValue, WholeOptional, absent, present, WholeElement, WholeSlots, nil, cons, formed, no_bytes,
  blocks,
}
use libdsvdc.Property.Whole
use libdsvdc.Samples.{plenty, tight}

abbrev text : PropertyValue
text = record init_value { v_string = some (104 ∷ 105 ∷ []) }

abbrev number : PropertyValue
number = record init_value { has_v_uint64 = true; v_uint64 = 7 }

abbrev below : Element
below = element (some (98 ∷ [])) (some number) zero null

abbrev above : Element
above = element (some (97 ∷ [])) (some text) (suc zero) (vector (entry below end))

abbrev two : Slots
two = entry above (entry below end)

text_whole : WholeOptional (some text)
text_whole = present (record { bytes = no_bytes false; single = inr refl })

number_whole : WholeOptional (some number)
number_whole = present (record { bytes = no_bytes false; single = inl refl })

below_whole : WholeElement below
below_whole = Whole.leaf number_whole

above_whole : WholeElement above
above_whole = Whole.node text_whole (cons below_whole nil)

two_whole : WholeSlots two (suc (suc zero))
two_whole = cons above_whole (cons below_whole nil)

two_blocks : blocks (vector two) ≡ 12
unfolding blocks
two_blocks = refl

deep_copy-Yields_example :
    Yields (deep_copy (vector two) (suc (suc zero))) (vector two) (blocks (vector two))
deep_copy-Yields_example = deep_copy-Yields (formed two_whole)

deep_copy-undefined_example : deep_copy (vector two) (suc (suc zero)) tight ≡ undefined
deep_copy-undefined_example = deep_copy-undefined above (entry below end) zero tight refl refl

convert_query-refused_example :
    (p : Property) × (g : Mem) × (convert_query (vector two) (suc (suc zero)) tight ≡ ok (some p) g)
    × (get_value_type (some p) 0 plenty ≡ undefined)
convert_query-refused_example = convert_query-refused two (suc zero) tight plenty refl refl

abbrev whole_property : Property
whole_property = record {
  message_id = some 5;
  properties = vector two;
  n_properties = suc (suc zero);
}

add_property-refused_example :
    add_property (some whole_property) none (some whole_property) tight
    ≡ ok
        (err_out_of_memory, some whole_property, none)
        (record tight { calls = 2; allocs = 1; frees = 1 })
add_property-refused_example =
    add_property-refused whole_property whole_property two tight refl refl refl

add_string-get_string_example :
    Ends
      (AddedAs plenty whole_property get_string (duplicate (120 ∷ [])))
      (add_string (some whole_property) (some (99 ∷ [])) (some (120 ∷ [])) plenty)
add_string-get_string_example = add_string-get_string whole_property (99 ∷ []) plenty (120 ∷ [])

add_bytes-Added_example :
    Ends
      (Added tight whole_property (leaf_of (99 ∷ []) (store_bytes 2 (1 ∷ 2 ∷ []) init_value)) 4)
      (add_bytes (some whole_property) (some (99 ∷ [])) (some (1 ∷ 2 ∷ [])) 2 tight)
add_bytes-Added_example = add_bytes-Added whole_property (99 ∷ []) tight 1 (2 ∷ [])
